-- ===== src/Encoding/Bitpack/Sample.antt =====
-- A bit-packing that has the documented behaviour, to run the decoders with.
use parquet_go.Prelude.{◌+◌, ◌*◌, ◌/◌, refl, le_bytes, of_le_bytes, length}
use parquet_go.Encoding.Bitpack.{Bitpack, UnpacksFields, joined, parted}

abbrev pub sample : Bitpack
sample = record {
  byte_count = λ bits. (bits + 7) / 8;
  pack = λ w values. le_bytes ((length values * w + 7) / 8) (joined w values);
  unpack = λ w n src. parted w n (of_le_bytes src);
}

pub sample-UnpacksFields : UnpacksFields sample
sample-UnpacksFields = record { unpack_lem = λ w n src small bytes room. refl }
