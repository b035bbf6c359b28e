-- ===== src/Embench/Mont64/Montgomery.antt =====
-- `montmul` of mont64.c: a product with 2^64 divided out, modulo m.
use len5_core.Common.{
  inr, ◌∙◌, inl, Bool-cases, sym, ap, false, true, Bool, arith, leb, ◌-◌, ◌&&◌, ◌==◌, ◌||◌, ltb,
  if◌then◌else◌, ℕ, ◌+◌, ◌*◌, ◌<◌, ◌≤◌, ◌≡◌, ◌^◌, ◌/◌, ◌%◌,
}
use len5_core.Embench.Mont64.{bit_and, u64, bit, mulul64, montmul}
use len5_core.Common.Bits.{zero-bit_and, bit_and_comm, bit_and_mask}
use native.Mathlib.Nat.{le_refl, mul-le-mul, add-mul-mod_self_right}
use mathlib.Core.Path.{ap₂}
use len5_core.Embench.Mont64.Multiply.{mulul64_lem}

-- `m & -b` for a truth value b.
masked : (m : ℕ) (b : Bool) → m < 2 ^ 64 → bit_and m (u64 (2 ^ 64 - bit b)) ≡ (if b then m else 0)
masked m true h = omega (arith, bit_and_mask 64 m)
masked m false h = omega (arith, bit_and_comm m 0, zero-bit_and m)

-- The high word of a sum, as `montmul` computes it from the carry of the low words.
abbrev high_sum : (thi tmmhi : ℕ) → Bool → ℕ
high_sum thi tmmhi carry = if carry then u64 (u64 (thi + tmmhi) + 1) else u64 (thi + tmmhi)

-- The test of `montmul` sees through the overflow: it compares the sum itself with m.
overflow :
    (thi tmmhi m whole : ℕ) (carry : Bool)
    → thi < 2 ^ 64
    → tmmhi < 2 ^ 64
    → m < 2 ^ 64
    → whole ≡ thi + tmmhi + bit carry
    → let uhi = high_sum thi tmmhi carry in
      ((ltb uhi thi || (uhi == thi && carry)) || leb m uhi) ≡ leb m whole
overflow thi tmmhi m whole true a c f e = ground arith
overflow thi tmmhi m whole false a c f e = ground arith

-- The subtraction that follows wraps to the right value.
subtracted :
    (thi tmmhi m whole : ℕ) (carry : Bool)
    → thi < 2 ^ 64
    → tmmhi < 2 ^ 64
    → m < 2 ^ 64
    → whole ≡ thi + tmmhi + bit carry
    → whole < 2 * m
    → u64 (high_sum thi tmmhi carry + 2 ^ 64 - (if leb m whole then m else 0))
      ≡ (if leb m whole then whole - m else whole)
subtracted thi tmmhi m whole true a c f e g = ground arith
subtracted thi tmmhi m whole false a c f e g = ground arith

-- The carry of the low words, which add up to a multiple of 2^64.
carried :
    (thi tlo tmmhi tmmlo whole : ℕ)
    → tlo < 2 ^ 64
    → tmmlo < 2 ^ 64
    → thi * 2 ^ 64 + tlo + (tmmhi * 2 ^ 64 + tmmlo) ≡ whole * 2 ^ 64
    → whole ≡ thi + tmmhi + bit (ltb (u64 (tlo + tmmlo)) tlo)
carried thi tlo tmmhi tmmlo whole b d e = ground arith

-- With a factor `mprime` for which m·mprime is -1 modulo 2^64 the low words of t and of tm·m
-- cancel, so their sum is a multiple of 2^64.
low_words_cancel :
    (t m mprime k : ℕ)
    → 1 + m * mprime ≡ 2 ^ 64 * k
    → (w : ℕ) × (t + u64 (u64 t * mprime) * m ≡ w * 2 ^ 64)
low_words_cancel t m mprime k inv =
    let tlo = u64 t in
    let tm = u64 (tlo * mprime) in
    let g = tlo * mprime / 2 ^ 64 in
    let low : tlo * mprime ≡ g * 2 ^ 64 + tm = omega arith in
    (
      t / 2 ^ 64 + tlo * k - g * m,
      omega (arith, ap (λ (x : ℕ). tlo * x) inv, ap (λ (x : ℕ). x * m) low),
    )

-- Two numbers that differ by multiples of m leave the same remainder.
pub same_mod : (m a b k l : ℕ) → a + k * m ≡ b + l * m → a % m ≡ b % m
same_mod m a b k l e =
    sym (add-mul-mod_self_right a k m) ∙ ap (λ t. t % m) e ∙ add-mul-mod_self_right b l m

-- What `montmul` promises for a modulus m: the product with 2^64 divided out.
pub record IsMontgomery (m a b p : ℕ) : Type 0 where
  pub below : p < m
  pub product : p * 2 ^ 64 % m ≡ a * b % m

product_lt : (m a b : ℕ) → a < m → b < m → m < 2 ^ 64 → a * b ≤ (m - 1) * 2 ^ 64
product_lt m a b ha hb fits = mul-le-mul (omega arith) (omega arith)

bounded :
    (m tm t w : ℕ)
    → t ≤ (m - 1) * 2 ^ 64
    → (0 < m) × (tm ≤ 2 ^ 64 - 1)
    → t + tm * m ≡ w * 2 ^ 64
    → w < 2 * m
bounded m tm t w ht (pos, htm) e =
    let second : tm * m ≤ (2 ^ 64 - 1) * m = mul-le-mul htm (le_refl m) in omega arith

module _ (m mprime k : ℕ) (fits : m < 2 ^ 64) (inv : 1 + m * mprime ≡ 2 ^ 64 * k) where
  montmul-whole :
      (a b w : ℕ)
      → a < m
      → b < m
      → a * b + u64 (u64 (a * b) * mprime) * m ≡ w * 2 ^ 64
      → (w < 2 * m) × (montmul a b m mprime ≡ (if leb m w then w - m else w))
  unfolding montmul
  montmul-whole a b w ha hb e =
      let (t_sum, thi_fits, tlo_fits) = mulul64_lem a b (omega arith) (omega arith) in
      let thi = (mulul64 a b).0 in
      let tlo = (mulul64 a b).1 in
      let tm = u64 (tlo * mprime) in
      let (tmm_sum, tmmhi_fits, tmmlo_fits) = mulul64_lem tm m (omega arith) fits in
      let tmmhi = (mulul64 tm m).0 in
      let tmmlo = (mulul64 tm m).1 in
      let low : u64 (a * b) ≡ tlo = omega arith in
      let sum : thi * 2 ^ 64 + tlo + (tmmhi * 2 ^ 64 + tmmlo) ≡ w * 2 ^ 64 =
        ap₂ ◌+◌ t_sum tmm_sum ∙ ap (λ x. a * b + u64 (x * mprime) * m) (sym low) ∙ e in
      let small : w < 2 * m =
        bounded m tm (a * b) w (product_lt m a b ha hb fits) (omega arith, omega arith)
          (ap₂ ◌+◌ (sym t_sum) (sym tmm_sum) ∙ sum) in
      let carry = ltb (u64 (tlo + tmmlo)) tlo in
      let whole : w ≡ thi + tmmhi + bit carry =
        carried thi tlo tmmhi tmmlo w tlo_fits tmmlo_fits sum in
      let uhi = high_sum thi tmmhi carry in
      (
        small,
        ap (λ s. u64 (uhi + 2 ^ 64 - bit_and m (u64 (2 ^ 64 - bit s))))
              (overflow thi tmmhi m w carry thi_fits tmmhi_fits fits whole)
            ∙ ap (λ s. u64 (uhi + 2 ^ 64 - s)) (masked m (leb m w) fits)
            ∙ subtracted thi tmmhi m w carry thi_fits tmmhi_fits fits whole small,
      )

  pub montmul-IsMontgomery : (a b : ℕ) → a < m → b < m → IsMontgomery m a b (montmul a b m mprime)
  montmul-IsMontgomery a b ha hb =
      let (w, e) = low_words_cancel (a * b) m mprime k inv in
      let (small, r) = montmul-whole a b w ha hb e in
      elim (Bool-cases (leb m w)) [
        | inl above ↦
            rw (r, above)
              (record {
                below = ground arith;
                product =
                    same_mod m ((w - m) * 2 ^ 64) (a * b) (2 ^ 64) (u64 (u64 (a * b) * mprime))
                      (ground arith);
              })
        | inr less ↦
            rw (r, less)
              (record {
                below = ground arith;
                product =
                    same_mod m (w * 2 ^ 64) (a * b) 0 (u64 (u64 (a * b) * mprime)) (omega arith);
              })
      ]
