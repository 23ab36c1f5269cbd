-- ===== src/Crc.antt =====
-- `boost::crc_32_type`, as src/decimal.cpp and src/sides.cpp use it: a register that takes bytes
-- and has a checksum. Nothing is assumed of it.
use kraken_data_recorder.Base.{ℕ}

pub record Crc : Type 1 where
  pub Register : Type 0
  pub initial : Register
  pub process_byte : Register → ℕ → Register
  pub checksum : Register → ℕ
