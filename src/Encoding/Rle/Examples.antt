-- ===== src/Encoding/Rle/Examples.antt =====
-- Runs of the hybrid encoding, and its theorems at concrete inputs.
use parquet_go.Prelude.{ℕ, ◌+◌, ◌/◌, ◌≡◌, refl, List, [], ◌∷◌, arith, take}
use parquet_go.Encoding.Result.{ok, panic}
use parquet_go.Encoding.Varint.{put_uvarint, uvarint}
use parquet_go.Encoding.Bitpack.{Bitpack}
use parquet_go.Encoding.Rle.{encode_bits}
use parquet_go.Encoding.Rle.Decode.{decode_bits, decode_int32}
use parquet_go.Encoding.Rle.Bits.{decode_bits-encode_bits}

-- A list of values kept as it is: enough for the decoders that unpack nothing.
abbrev plain_pack : Bitpack
plain_pack = record {
  byte_count = λ bits. (bits + 7) / 8;
  pack = λ w values. values;
  unpack = λ w n src. take n src;
}

abbrev bits : List ℕ
bits = 0 ∷ 0 ∷ 0 ∷ 7 ∷ 0xff ∷ 0xff ∷ 3 ∷ 3 ∷ []

encoded_bits : encode_bits bits ≡ ok (48 ∷ 0 ∷ 7 ∷ 7 ∷ 0xff ∷ 0xff ∷ 3 ∷ 3 ∷ 3 ∷ 3 ∷ [])
unfolding encode_bits put_uvarint
encoded_bits = refl

decode_bits-encode_bits_example :
    (enc : List ℕ) × (encode_bits bits ≡ ok enc) × (decode_bits plain_pack enc ≡ ok bits)
decode_bits-encode_bits_example =
    decode_bits-encode_bits plain_pack (record { byte_count_lem = λ n. refl }) bits (omega arith)

-- A bit-packed block of three words with one byte of them.
cut_short : decode_int32 plain_pack [] 1 (7 ∷ 0 ∷ []) ≡ panic
unfolding decode_int32 uvarint
cut_short = refl

-- With two bytes of capacity behind the input it is read from there.
cut_read :
    decode_int32 plain_pack (1 ∷ 2 ∷ []) 1 (7 ∷ 0 ∷ [])
    ≡ ok (plain_pack.unpack 1 24 (0 ∷ 1 ∷ 2 ∷ []))
unfolding decode_int32 uvarint
cut_read = refl
