-- ===== src/Embench/Crc32/Tests.antt =====
-- Runs and concrete cases of the CRC program.
use len5_core.Common.{ℕ, ◌-◌, ◌%◌, ◌^◌, ◌<◌, ◌≡◌, refl, true, some, arith}
use Prim.Native.Nat.{bit_xor}
use len5_core.Common.Lfsr.{lfsr_times}
use len5_core.Embench.Crc32.{updc32, crc32pseudo, benchmark_body, verify_benchmark}
use len5_core.Embench.Crc32.Table.{crc_32_tab}
use len5_core.Embench.Crc32.Update.{updc32-lfsr, crc32pseudo-register, random_bytes, register}
use len5_core.Embench.Crc32.Body.{benchmark_body-verify_benchmark}

first_octet : updc32 0x31 0xffffffff ≡ 0x7c231048
unfolding updc32 crc_32_tab
first_octet = refl

updc32-lfsr_example :
    (updc32 0x131 0xffffffff ≡ lfsr_times 0xedb88320 8 (bit_xor 0xffffffff (0x131 % 2 ^ 8)))
    × (updc32 0x131 0xffffffff < 2 ^ 32)
updc32-lfsr_example = updc32-lfsr 0x131 0xffffffff (omega arith)

crc32pseudo-register_example :
    (crc32pseudo 5).0 % 2 ^ 32 ≡ 2 ^ 32 - 1 - register (random_bytes 1024 5) 0xffffffff
crc32pseudo-register_example = crc32pseudo-register 5

benchmark_body-verify_benchmark_example :
    (r : ℕ) × (benchmark_body 3 ≡ some r) × (verify_benchmark r ≡ true)
benchmark_body-verify_benchmark_example = benchmark_body-verify_benchmark 3 (omega arith)
