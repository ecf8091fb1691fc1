-- ===== src/Encoding/Rle/Codec.antt =====
-- encodeBytesBitpackDefault and decodeBytesBitpackDefault: words of eight bytes, `w` bits of each.
use Prim.Native.Nat.{bit_and, bit_or}
use parquet_go.Prelude.{
  ℕ, zero, suc, ◌+◌, ◌-◌, ◌*◌, ◌/◌, ◌%◌, ◌^◌, List, [], ◌∷◌, ◌++◌, take, drop, le_bytes,
  of_le_bytes,
}

-- `uint64(1<<bitWidth) - 1`
abbrev pub bit_mask : ℕ → ℕ
bit_mask w = 2 ^ w - 1

-- `acc | (((word >> 8 * i) & bitMask) << (i * bitWidth)) | …`, for `k` bytes from byte `i` on.
unfoldable pub or_fields : ℕ → ℕ → ℕ → ℕ → ℕ → ℕ
or_fields w word zero i acc = acc
or_fields w word (suc k) i acc =
    or_fields w word k (i + 1)
      (bit_or acc (bit_and (word / 2 ^ (8 * i)) (bit_mask w) * 2 ^ (i * w) % 2 ^ 64))

-- Each word is written whole at `dst[n:]` and `n` grows by `bitWidth`, so that the bytes behind those are
-- overwritten by the next word or, behind the last one, cut off.
unfoldable pub pack_words : ℕ → List (List ℕ) → List ℕ
unfolding or_fields
pack_words w [] = []
pack_words w (word ∷ words) =
    take w (le_bytes 8 (or_fields w (of_le_bytes word) 8 0 0)) ++ pack_words w words

-- `byte((word>>(i*bitWidth))&bitMask)` for `k` fields from field `i` on.
unfoldable pub fields : ℕ → ℕ → ℕ → ℕ → List ℕ
fields w word zero i = []
fields w word (suc k) i =
    (bit_and (word / 2 ^ (i * w)) (bit_mask w) % 256) ∷ fields w word k (i + 1)

-- `n` is the number of words, `size` the bytes of one: `ByteCount(8 * bitWidth)`. The eight bytes of `bits`
-- are zero behind those.
unfoldable pub unpack_words : ℕ → ℕ → ℕ → List ℕ → List ℕ
unfolding fields
unpack_words w size zero src = []
unpack_words w size (suc n) src =
    fields w (of_le_bytes (take size src)) 8 0 ++ unpack_words w size n (drop size src)
