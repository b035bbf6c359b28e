-- ===== src/Embench/Mont64/Tests.antt =====
-- Runs of mont64.c, and its theorems at the inputs of the benchmark and at small ones.
use len5_core.Common.{ℕ, ◌+◌, ◌*◌, ◌%◌, ◌^◌, ◌≡◌, refl, arith, some, true}
use len5_core.Embench.Mont64.{
  mulul64, mulul64_knuth, modul64, montmul, xbin_gcd, benchmark_body, verify_benchmark,
}
use len5_core.Embench.Mont64.Multiply.{mulul64_knuth-eq}
use len5_core.Embench.Mont64.Divide.{modul64-mod}
use len5_core.Embench.Mont64.Gcd.{Inverse, xbin_gcd-Inverse}
use len5_core.Embench.Mont64.Montgomery.{IsMontgomery, montmul-IsMontgomery}
use len5_core.Embench.Mont64.Body.{benchmark_body-verified}

abbrev in_m : ℕ
in_m = 0xfae849273928f89f

abbrev in_b : ℕ
in_b = 0x14736defb9330573

abbrev in_a : ℕ
in_a = 0x0549372187237fef

mulul64_knuth_runs : mulul64_knuth in_m in_a ≡ mulul64 in_m in_a
unfolding mulul64_knuth mulul64
mulul64_knuth_runs = refl

mulul64_knuth-eq_example : mulul64_knuth in_m in_a ≡ mulul64 in_m in_a
mulul64_knuth-eq_example = mulul64_knuth-eq in_m in_a (omega arith) (omega arith)

modul64-mod_example : modul64 in_a in_b in_m ≡ (in_a * 2 ^ 64 + in_b) % in_m
modul64-mod_example = modul64-mod in_a in_b in_m (omega arith) (omega arith) (omega arith)

xbin_gcd-Inverse_example : Inverse in_m (xbin_gcd (2 ^ 63) in_m)
xbin_gcd-Inverse_example = xbin_gcd-Inverse in_m (omega arith) (omega arith)

-- 1 + 3 · 6148914691236517205 is 2^64.
montmul-IsMontgomery_example : IsMontgomery 3 2 1 (montmul 2 1 3 6148914691236517205)
montmul-IsMontgomery_example =
    montmul-IsMontgomery 3 6148914691236517205 1 (omega arith) (omega arith) 2 1 (omega arith)
      (omega arith)

benchmark_body-verified_example :
    (r : ℕ) × (benchmark_body 2 in_a in_b in_m ≡ some r) × (verify_benchmark r ≡ true)
benchmark_body-verified_example =
    benchmark_body-verified 1 in_a in_b in_m (omega arith) (omega arith) (omega arith) (omega arith)
