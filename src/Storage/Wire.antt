-- ===== src/Storage/Wire.antt =====
-- What the storage uses of github.com/fagongzi/goetty/buf: how it writes and reads integers. The
-- laws are what its comments say, that it uses the big order.
use matrixcube.Prelude.{ℕ, ◌≡◌}
use matrixcube.Prelude.Bytes.{Bytes}
use matrixcube.Prelude.BigEndian.{put_uint64, uint64}

pub record Wire : Type 0 where
  -- what `WriteInt64`, `WriteUInt64` and `WriteUint64` append for a 64-bit pattern
  pub write_int64 : ℕ → Bytes
  pub write_uint64 : ℕ → Bytes
  -- `Int64ToBytesTo` and `Byte2Int64`
  pub int64_to_bytes : ℕ → Bytes
  pub byte2int64 : Bytes → ℕ
  pub write_int64_lem : (n : ℕ) → write_int64 n ≡ put_uint64 n
  pub write_uint64_lem : (n : ℕ) → write_uint64 n ≡ put_uint64 n
  pub int64_to_bytes_lem : (n : ℕ) → int64_to_bytes n ≡ put_uint64 n
  pub byte2int64_lem : (bs : Bytes) → byte2int64 bs ≡ uint64 bs
