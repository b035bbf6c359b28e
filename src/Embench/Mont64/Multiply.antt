-- ===== src/Embench/Mont64/Multiply.antt =====
-- The two versions of `mulul64` in mont64.c.
use len5_core.Common.{ap, ◌∙◌, ◌%◌, ◌/◌, arith, ◌-◌, ◌≤◌, ℕ, ◌+◌, ◌*◌, ◌<◌, ◌≡◌, ◌^◌}
use native.Mathlib.Nat.{mul-le-mul}
use len5_core.Common.Bits.{bit_and_mask}
use mathlib.Core.Path.{ap₂}
use len5_core.Embench.Mont64.{bit_and, u64, mulul64, mulul64_knuth}

mul_le : (k : ℕ) {a b : ℕ} → a ≤ k → b ≤ k → a * b ≤ k * k
mul_le k p q = mul-le-mul p q

-- The two words of `mulul64` are the product, and each fits 64 bits.
pub mulul64_lem :
    (u v : ℕ)
    → u < 2 ^ 64
    → v < 2 ^ 64
    → ((mulul64 u v).0 * 2 ^ 64 + (mulul64 u v).1 ≡ u * v)
      × ((mulul64 u v).0 < 2 ^ 64)
      × ((mulul64 u v).1 < 2 ^ 64)
unfolding mulul64
mulul64_lem u v hu hv =
    let below : u * v ≤ (2 ^ 64 - 1) * (2 ^ 64 - 1) =
      mul_le (2 ^ 64 - 1) (omega arith) (omega arith) in
    (omega arith, omega arith, omega arith)

-- The words of a sum of four partial products, when none of them is above (2 ^ 32 - 1) ^ 2.
partial_products :
    (low mid mid' high : ℕ)
    → low ≤ 0xffffffff * 0xffffffff
    → mid ≤ 0xffffffff * 0xffffffff
    → mid' ≤ 0xffffffff * 0xffffffff
    → high ≤ 0xffffffff * 0xffffffff
    → let whole = high * 2 ^ 64 + (mid + mid') * 2 ^ 32 + low in
      let k = u64 low / 2 ^ 32 in
      let t = u64 (mid + k) in
      let t' = u64 (mid' + t % 2 ^ 32) in
      (u64 (high + t / 2 ^ 32 + t' / 2 ^ 32) ≡ u64 (whole / 2 ^ 64))
      × (u64 (u64 (t' * 2 ^ 32) + u64 low % 2 ^ 32) ≡ u64 whole)
partial_products low mid mid' high a b c d = (omega arith, omega arith)

split_product :
    (u1 u0 v1 v0 : ℕ)
    → u1 * v1 * 2 ^ 64 + (u1 * v0 + u0 * v1) * 2 ^ 32 + u0 * v0
      ≡ (u1 * 2 ^ 32 + u0) * (v1 * 2 ^ 32 + v0)
split_product u1 u0 v1 v0 = omega arith

low_word : (n : ℕ) → bit_and n 0xffffffff ≡ n % 2 ^ 32
low_word n = bit_and_mask 32 n

-- Knuth's version computes the same two words: no sum inside it overflows.
pub mulul64_knuth-eq : (u v : ℕ) → u < 2 ^ 64 → v < 2 ^ 64 → mulul64_knuth u v ≡ mulul64 u v
unfolding mulul64_knuth mulul64
mulul64_knuth-eq u v hu hv =
    let u1 = u / 2 ^ 32 in
    let u0 = u % 2 ^ 32 in
    let v1 = v / 2 ^ 32 in
    let v0 = v % 2 ^ 32 in
    let words =
      partial_products (u0 * v0) (u1 * v0) (u0 * v1) (u1 * v1)
        (mul_le 0xffffffff (omega arith) (omega arith))
        (mul_le 0xffffffff (omega arith) (omega arith))
        (mul_le 0xffffffff (omega arith) (omega arith))
        (mul_le 0xffffffff (omega arith) (omega arith)) in
    let whole : u1 * v1 * 2 ^ 64 + (u1 * v0 + u0 * v1) * 2 ^ 32 + u0 * v0 ≡ u * v =
      split_product u1 u0 v1 v0 ∙ ap₂ ◌*◌ (omega arith) (omega arith) in
    simp low_word
      (ap₂ (λ a b. (a, b)) (words.0 ∙ ap (λ n. u64 (n / 2 ^ 64)) whole) (words.1 ∙ ap u64 whole))
