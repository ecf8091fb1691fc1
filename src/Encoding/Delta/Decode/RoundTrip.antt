-- ===== src/Encoding/Delta/Decode/RoundTrip.antt =====
-- Headers are read back.
use parquet_go.Prelude.{
  ℕ, ◌≡◌, List, ◌++◌, length, append_assoc, take-append_length, drop-append_length,
}
use parquet_go.Encoding.Result.{ok, IsU64}
use parquet_go.Encoding.Varint.{put_uvarint}
use parquet_go.Encoding.Varint.Laws.{uvarint-put_uvarint}
use parquet_go.Encoding.Delta.Integers.{zigzag}
use parquet_go.Encoding.Delta.Integers.Zigzag.{unzigzag-zigzag}
use parquet_go.Encoding.Delta.Encode.{header, block_header, put_varint}
use parquet_go.Encoding.Delta.Decode.{
  decode_uvarint, decode_varint, check_header, decode_header, decode_block_header,
}

pub decode_uvarint-put_uvarint :
    (u : ℕ) (rest : List ℕ) → IsU64 u → decode_uvarint (put_uvarint u ++ rest) ≡ ok (u, rest)
unfolding decode_uvarint
decode_uvarint-put_uvarint u rest h = rw (uvarint-put_uvarint u rest h, decode_uvarint)

pub decode_varint-put_varint :
    (x : ℕ) (rest : List ℕ) → IsU64 x → decode_varint (put_varint x ++ rest) ≡ ok (x, rest)
unfolding decode_varint
decode_varint-put_varint x rest h =
    let (e, small) = unzigzag-zigzag x h in rw (decode_uvarint-put_uvarint (zigzag x) rest small, e)

-- A header of uint64s with sizes that the decoder's checks accept is read back, and what follows it
-- is left.
pub decode_header-header :
    (size minis total first : ℕ) (rest : List ℕ)
    → IsU64 size
    → IsU64 minis
    → IsU64 total
    → IsU64 first
    → check_header size minis total ≡ ok tt
    → decode_header (header size minis total first ++ rest)
      ≡ ok (
        record {
          block_size = size;
          num_mini_blocks = minis;
          total_values = total;
          first_value = first;
        },
        rest,
      )
unfolding decode_header header
decode_header-header size minis total first rest a b c d h = simp append_assoc (
    rw (
      decode_uvarint-put_uvarint size _ a,
      decode_uvarint-put_uvarint minis _ b,
      decode_uvarint-put_uvarint total _ c,
      decode_varint-put_varint first rest d,
      h,
    ))

-- The least delta, a 64-bit pattern, and the bit widths of a block are read back, and what follows
-- them is left.
pub decode_block_header-block_header :
    (min_delta : ℕ) (widths rest : List ℕ)
    → IsU64 min_delta
    → decode_block_header (block_header min_delta widths ++ rest) (length widths)
      ≡ ok (min_delta, widths, rest)
unfolding decode_block_header block_header
decode_block_header-block_header min_delta widths rest h = simp append_assoc (
    rw (
      decode_varint-put_varint min_delta (widths ++ rest) h,
      take-append_length widths rest,
      drop-append_length widths rest,
    ))
