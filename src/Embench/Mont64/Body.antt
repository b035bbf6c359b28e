-- ===== src/Embench/Mont64/Body.antt =====
-- `benchmark_body` of mont64.c: the Montgomery computation of (ab)^4 agrees with the simple one.
use len5_core.Common.{
  none, some, ◌==◌, refl, not, true, if◌then◌else◌, some, ◌-◌, ap, sym, ◌∙◌, arith, ℕ, zero, suc,
  ◌+◌, ◌*◌, ◌<◌, ◌≤◌, ◌≡◌, ◌^◌, ◌/◌, ◌%◌,
}
use len5_core.Embench.Mont64.{
  u64, mulul64, modul64, montmul, compare_ways, benchmark_round, benchmark_body, verify_benchmark,
}
use len5_core.Embench.Mont64.Multiply.{mulul64_lem}
use len5_core.Embench.Mont64.Divide.{modul64-mod}
use len5_core.Embench.Mont64.Gcd.{xbin_gcd-Inverse}
use native.Mathlib.Nat.{mod-lt, add-zero, mod-mod, mul_comm, mul-le-mul, div-add-mod'}
use len5_core.Embench.Mont64.Montgomery.{same_mod, montmul-IsMontgomery}

mul_mod : (m a c : ℕ) → a * c % m ≡ a % m * c % m
mul_mod m a c =
    same_mod m (a * c) (a % m * c) 0 (a / m * c)
      (omega (arith, ap (λ (t : ℕ). t * c) (div-add-mod' a m)))

-- Equal remainders stay equal under a product.
mul_cong : (m a b c : ℕ) → a % m ≡ b % m → a * c % m ≡ b * c % m
mul_cong m a b c e = mul_mod m a c ∙ ap (λ t. t * c % m) e ∙ sym (mul_mod m b c)

mul_cong₂ : (m a b c d : ℕ) → a % m ≡ b % m → c % m ≡ d % m → a * c % m ≡ b * d % m
mul_cong₂ m a b c d e f =
    mul_cong m a b c e
    ∙ ap (λ t. t % m) (mul_comm b c)
    ∙ mul_cong m c d b f
    ∙ ap (λ t. t % m) (mul_comm d b)

-- The product of a number below m and one of 64 bits, reduced by the code's two calls.
simple :
    (m x y : ℕ)
    → x < m
    → y < 2 ^ 64
    → m < 2 ^ 64
    → modul64 (mulul64 x y).0 (mulul64 x y).1 m ≡ x * y % m
simple m x y hx hy fits =
    let (sum, hi_fits, lo_fits) = mulul64_lem x y (omega arith) hy in
    let product : x * y ≤ (m - 1) * 2 ^ 64 = mul-le-mul (omega arith) (omega arith) in
    modul64-mod (mulul64 x y).0 (mulul64 x y).1 m (omega arith) fits lo_fits ∙ ap (λ t. t % m) sum

-- The fourth power modulo m, by two squarings.
fourth : (m x : ℕ) → ℕ
fourth m x = x * x % m * (x * x % m) % m

module _ (m rinv mprime : ℕ) (fits : m < 2 ^ 64) (inv : 1 + mprime * m ≡ 2 ^ 64 * rinv) where
  -- `p` stands for `x` in the Montgomery form.
  abbrev Stands : (x p : ℕ) → Type 0
  Stands x p = p % m ≡ x * 2 ^ 64 % m

  unscale : (r : ℕ) → r * 2 ^ 64 * rinv % m ≡ r % m
  unscale r =
      same_mod m (r * 2 ^ 64 * rinv) r 0 (r * mprime) (omega (arith, ap (λ (t : ℕ). r * t) inv))

  scale_cancel : (r s : ℕ) → r * 2 ^ 64 % m ≡ s * 2 ^ 64 % m → r % m ≡ s % m
  scale_cancel r s e = sym (unscale r) ∙ mul_cong m (r * 2 ^ 64) (s * 2 ^ 64) rinv e ∙ unscale s

  Stands-montmul :
      (x y p q : ℕ)
      → p < m
      → q < m
      → Stands x p
      → Stands y q
      → Stands (x * y % m) (montmul p q m mprime) × (montmul p q m mprime < m)
  Stands-montmul x y p q hp hq sp sq =
      let r = montmul p q m mprime in
      let is = montmul-IsMontgomery m mprime rinv fits (omega arith) p q hp hq in
      let reduced : x * y % m * 2 ^ 64 * 2 ^ 64 % m ≡ x * y * 2 ^ 64 * 2 ^ 64 % m =
        mul_cong m _ _ (2 ^ 64) (mul_cong m (x * y % m) (x * y) (2 ^ 64) (mod-mod (x * y) m)) in
      let regroup : x * 2 ^ 64 * (y * 2 ^ 64) ≡ x * y * 2 ^ 64 * 2 ^ 64 = omega arith in
      (
        scale_cancel r (x * y % m * 2 ^ 64) (
            is.product
            ∙ mul_cong₂ m p (x * 2 ^ 64) q (y * 2 ^ 64) sp sq
            ∙ ap (λ t. t % m) regroup
            ∙ sym reduced),
        is.below,
      )

  scaled : (a : ℕ) → a < m → Stands a (modul64 a 0 m) × (modul64 a 0 m < m)
  scaled a ha =
      let e : modul64 a 0 m ≡ a * 2 ^ 64 % m =
        modul64-mod a 0 m ha fits (omega arith) ∙ ap (λ t. t % m) (add-zero (a * 2 ^ 64)) in
      (ap (λ t. t % m) e ∙ mod-mod (a * 2 ^ 64) m, rw e (mod-lt (a * 2 ^ 64) (omega arith)))

  montgomery_fourth :
      (a b : ℕ)
      → a < m
      → b < m
      → rinv < 2 ^ 64
      → let p = montmul (modul64 a 0 m) (modul64 b 0 m) m mprime in
        let p = montmul p p m mprime in
        let p = montmul p p m mprime in
        modul64 (mulul64 p rinv).0 (mulul64 p rinv).1 m ≡ fourth m (a * b % m)
  unfolding fourth
  montgomery_fourth a b ha hb r_fits =
      let (sa, la) = scaled a ha in
      let (sb, lb) = scaled b hb in
      let p1 = montmul (modul64 a 0 m) (modul64 b 0 m) m mprime in
      let (s1, l1) = Stands-montmul a b (modul64 a 0 m) (modul64 b 0 m) la lb sa sb in
      let x1 = a * b % m in
      let p2 = montmul p1 p1 m mprime in
      let (s2, l2) = Stands-montmul x1 x1 p1 p1 l1 l1 s1 s1 in
      let x2 = x1 * x1 % m in
      let p3 = montmul p2 p2 m mprime in
      let (s3, l3) = Stands-montmul x2 x2 p2 p2 l2 l2 s2 s2 in
      let x3 = x2 * x2 % m in
      simple m p3 rinv l3 r_fits fits
      ∙ mul_cong m p3 (x3 * 2 ^ 64) rinv s3
      ∙ unscale x3
      ∙ mod-mod (x2 * x2) m

simple_fourth :
    (m a b : ℕ)
    → a < m
    → b < m
    → m < 2 ^ 64
    → let p1 = modul64 (mulul64 a b).0 (mulul64 a b).1 m in
      let p1 = modul64 (mulul64 p1 p1).0 (mulul64 p1 p1).1 m in
      modul64 (mulul64 p1 p1).0 (mulul64 p1 p1).1 m ≡ fourth m (a * b % m)
unfolding fourth
simple_fourth m a b ha hb fits =
    let below = λ (x : ℕ). mod-lt x {m = m} (omega arith) in
    let square = λ (x : ℕ) (h : x < m). simple m x x h (omega arith) fits in
    let twice = λ (x : ℕ). modul64 (mulul64 x x).0 (mulul64 x x).1 m in
    ap (λ x. twice (twice x)) (simple m a b ha (omega arith) fits)
    ∙ ap twice (square (a * b % m) (below (a * b)))
    ∙ square (a * b % m * (a * b % m) % m) (below (a * b % m * (a * b % m)))

-- The partial check of the code: with 2·hr wrapped to 0 it tests the low word of -m·mprime.
checked :
    (m rinv mprime : ℕ)
    → 1 + mprime * m ≡ 2 ^ 64 * rinv
    → u64 (u64 (u64 (2 * 2 ^ 63) * rinv) + 2 ^ 64 - u64 (m * mprime)) ≡ 1
checked m rinv mprime inv =
    let low : u64 (m * mprime) ≡ 2 ^ 64 - 1 = omega arith in
    let high : u64 (u64 (2 * 2 ^ 63) * rinv) ≡ 0 = omega arith in rw (low, high)

verdict :
    (p q w : ℕ)
    → p ≡ q
    → w ≡ 1
    → ◌≡◌ {A = ℕ} (if not (p == q) then 1 else if not (w == 1) then 1 else 0) 0
verdict p q w e f = ground arith

-- For an odd modulus below 2^64 and inputs below it, a round of the benchmark ends, and finds no
-- error: the Montgomery product and the simple one give the same fourth power.
pub benchmark_round-zero :
    (a b m : ℕ) → m % 2 ≡ 1 → m < 2 ^ 64 → a < m → b < m → benchmark_round a b m ≡ some 0
unfolding benchmark_round compare_ways
benchmark_round-zero a b m odd fits ha hb =
    let i = xbin_gcd-Inverse m odd fits in
    ap (λ r. elim r [ none ↦ none | some (rinv, mprime) ↦ some (compare_ways a b m rinv mprime) ])
      i.returns
    ∙ ap some (
        verdict _ _ _
          (montgomery_fourth m i.u i.v fits i.balance a b ha hb (omega (arith, i.u_le))
            ∙ sym (simple_fourth m a b ha hb fits))
          (checked m i.u i.v i.balance))

-- Repeated any number of times, but at least once, with an odd modulus below 2^64 and inputs
-- below it, the benchmark ends with a result that it accepts as verified.
pub benchmark_body-verified :
    (rpt a b m : ℕ)
    → m % 2 ≡ 1
    → m < 2 ^ 64
    → a < m
    → b < m
    → (r : ℕ) × (benchmark_body (suc rpt) a b m ≡ some r) × (verify_benchmark r ≡ true)
unfolding benchmark_body verify_benchmark
benchmark_body-verified zero a b m odd fits ha hb =
    (0, benchmark_round-zero a b m odd fits ha hb, refl)
benchmark_body-verified (suc rpt) a b m odd fits ha hb =
    let (r, e, ok) = benchmark_body-verified rpt a b m odd fits ha hb in
    (r, rw (benchmark_round-zero a b m odd fits ha hb, benchmark_body) e, ok)
