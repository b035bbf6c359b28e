-- ===== src/Embench/Crc32/Body.antt =====
-- The result of the CRC program.
use len5_core.Common.{ℕ, zero, suc, ◌%◌, ◌≤◌, ◌≡◌, refl, ap, true, some, arith, ◌==◌}
use len5_core.Embench.Crc32.{updc32, pseudo_loop, crc32pseudo, benchmark_body, verify_benchmark}
use len5_core.Embench.Support.{rand_beebs, srand_beebs}
use len5_core.Embench.Crc32.Table.{crc_32_tab}

one_round : (crc32pseudo (srand_beebs 0)).0 % 32768 ≡ 11433
unfolding crc32pseudo pseudo_loop updc32 rand_beebs srand_beebs crc_32_tab
one_round = refl

-- Any positive number of rounds of the program ends with the result that verify_benchmark accepts.
pub benchmark_body-verify_benchmark :
    (rpt : ℕ) → 1 ≤ rpt → (r : ℕ) × (benchmark_body rpt ≡ some r) × (verify_benchmark r ≡ true)
unfolding benchmark_body verify_benchmark
benchmark_body-verify_benchmark zero h = absurd (omega arith)
benchmark_body-verify_benchmark (suc zero) h =
    ((crc32pseudo (srand_beebs 0)).0 % 32768, refl, ap (λ r. 11433 == r) one_round)
benchmark_body-verify_benchmark (suc (suc rpt)) h =
    benchmark_body-verify_benchmark (suc rpt) (omega arith)
