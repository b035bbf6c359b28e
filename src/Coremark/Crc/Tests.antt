-- ===== src/Coremark/Crc/Tests.antt =====
-- Runs of the CRC routines, and their theorems at small values.
use Prim.Native.Nat.{bit_xor}
use len5_core.Common.{◌≢◌, ◌^◌, ◌<◌, ◌≡◌, refl, arith}
use len5_core.Coremark.Crc.{crcu16, crc16, crcu32}
use len5_core.Common.Lfsr.{lfsr_times}
use len5_core.Coremark.Crc.Lfsr.{crcu16-lfsr}
use len5_core.Coremark.Crc.Detect.{crcu16-inj, crcu16-xor, crcu32-halves}

crc_runs : crcu32 0x1234_5678 0xffff ≡ 0x596e
unfolding crcu32 crc16 crcu16
crc_runs = refl

crcu16-lfsr_example : (crcu16 0x1234 7 ≡ lfsr_times 0xa001 16 0x1233) × (crcu16 0x1234 7 < 2 ^ 16)
crcu16-lfsr_example = crcu16-lfsr 0x1234 7 (omega arith) (omega arith)

crcu16-inj_example : crcu16 0x1234 7 ≢ crcu16 0x1235 7
crcu16-inj_example =
    crcu16-inj 0x1234 0x1235 7 (omega arith) (omega arith) (omega arith) (omega arith)

crcu16-xor_example : crcu16 0x0ff0 3 ≡ bit_xor (crcu16 0x0f00 1) (crcu16 0x00f0 2)
crcu16-xor_example =
    crcu16-xor 0x0f00 0x00f0 1 2 (omega arith) (omega arith) (omega arith) (omega arith)

crcu32-halves_example :
    (crcu32 0x1234_5678 5
      ≡ lfsr_times 0xa001 16 (bit_xor (lfsr_times 0xa001 16 (bit_xor 5 0x5678)) 0x1234))
    × (crcu32 0x1234_5678 5 < 2 ^ 16)
crcu32-halves_example = crcu32-halves 0x1234_5678 5 (omega arith) (omega arith)
