-- ===== src/Coremark/Crc.antt =====
-- The 16-bit CRC of sw/benchmarks/coremark/src/all/core_util.c.
pub mod Lfsr
pub mod Detect
mod Tests
use Prim.Native.Nat.{bit_and, bit_or, bit_xor}
use len5_core.Common.{ℕ, zero, suc, ◌+◌, ◌/◌, ◌%◌, ◌^◌, ◌==◌, if◌then◌else◌}

-- `x16`: whether the low bits of the data and of the CRC differ.
unfoldable pub low_bits_differ : (byte crc : ℕ) → ℕ
low_bits_differ byte crc = bit_xor (bit_and byte 1) (bit_and (crc % 2 ^ 8) 1) % 2 ^ 8

-- What one round of the loop in `crcu8` does to the CRC.
unfoldable pub crc_round : (byte crc : ℕ) → ℕ
unfolding low_bits_differ
crc_round byte crc =
    if low_bits_differ byte crc == 1
    then bit_or (bit_xor crc 0x4002 / 2) 0x8000
    else bit_and (crc / 2) 0x7fff

pub crc_loop : ℕ → (byte crc : ℕ) → ℕ
unfolding crc_round
crc_loop zero byte crc = crc
crc_loop (suc left) byte crc = crc_loop left (byte / 2) (crc_round byte crc)

unfoldable pub crcu8 : (byte crc : ℕ) → ℕ
unfolding crc_loop
crcu8 byte crc = crc_loop 8 byte crc

unfoldable pub crcu16 : (newval crc : ℕ) → ℕ
unfolding crcu8
crcu16 newval crc = crcu8 (newval / 2 ^ 8 % 2 ^ 8) (crcu8 (newval % 2 ^ 8) crc)

-- An `ee_s16` is its bit pattern.
unfoldable pub crc16 : (newval crc : ℕ) → ℕ
crc16 newval crc = crcu16 (newval % 2 ^ 16) crc

unfoldable pub crcu32 : (newval crc : ℕ) → ℕ
crcu32 newval crc = crc16 (newval / 2 ^ 16 % 2 ^ 16) (crc16 (newval % 2 ^ 16) crc)
