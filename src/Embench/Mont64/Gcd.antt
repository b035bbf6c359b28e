-- ===== src/Embench/Mont64/Gcd.antt =====
-- The extended binary GCD of mont64.c for a power of 2 and an odd number.
use len5_core.Common.{
  lt→ltb, refl, inr, inl, Bool-cases, ◌∙◌, ◌==◌, ap, some, arith, Option, if◌then◌else◌, ℕ, zero,
  suc, ◌+◌, ◌*◌, ◌<◌, ◌≤◌, ◌≡◌, ◌^◌, ◌/◌, ◌%◌,
}
use len5_core.Common.Bits.{bit_and_mask, xor_and-add}
use native.Mathlib.Nat.{one-le-pow, pow-suc}
use len5_core.Embench.Mont64.{bit_and, bit_xor, u64, gcd_loop, xbin_gcd}

-- The two updates of a round.
abbrev next_u : (beta u : ℕ) → ℕ
next_u beta u = if bit_and u 1 == 0 then u / 2 else u64 (bit_xor u beta / 2 + bit_and u beta)

abbrev next_v : (alpha u v : ℕ) → ℕ
next_v alpha u v = if bit_and u 1 == 0 then v / 2 else u64 (v / 2 + alpha)

-- Dietz's method: the half of a sum that may not fit.
half_sum : (u b : ℕ) → bit_xor u b / 2 + bit_and u b ≡ (u + b) / 2
half_sum u b = omega (arith, xor_and-add u b)

odd_product : (v b : ℕ) → b % 2 ≡ 1 → v * b ≡ 2 * (v * (b / 2)) + v
odd_product v b h =
    let e : b ≡ 2 * (b / 2) + 1 = omega arith in omega (arith, ap (λ (t : ℕ). v * t) e)

-- What the loop keeps: 2a = u·2^64 - v·beta, and both numbers fit.
record Invariant (beta a u v : ℕ) : Type 0 where
  balance : 2 * a + v * beta ≡ 2 ^ 64 * u
  u_le : u ≤ beta
  v_lt : v < 2 ^ 64

-- A round halves both sides of the balance.
round_balance :
    (beta a u v : ℕ)
    → beta % 2 ≡ 1
    → beta < 2 ^ 64
    → Invariant beta a u v
    → (a + next_v (2 ^ 63) u v * beta ≡ 2 ^ 64 * next_u beta u)
      × (next_u beta u ≤ beta)
      × (next_v (2 ^ 63) u v < 2 ^ 64)
round_balance beta a u v odd fits i =
    let v_even : v % 2 ≡ 0 = omega (arith, odd_product v beta odd, i.balance) in
    let halves : v * beta ≡ 2 * (v / 2 * beta) =
      let e : v ≡ 2 * (v / 2) = omega arith in ap (λ t. t * beta) e ∙ omega arith in
    elim (Bool-cases (bit_and u 1 == 0)) [
      | inl even ↦
          let low : u % 2 ≡ 0 = ground (arith, bit_and_mask 1 u) in
          rw even (omega (arith, i.balance), omega (arith, i.u_le), omega (arith, i.v_lt))
      | inr uneven ↦
          let low : u % 2 ≡ 1 = ground (arith, bit_and_mask 1 u) in
          let u_fits : u64 ((u + beta) / 2) ≡ (u + beta) / 2 = omega (arith, i.u_le) in
          let v_fits : u64 (v / 2 + 2 ^ 63) ≡ v / 2 + 2 ^ 63 = omega (arith, i.v_lt) in
          rw (uneven, half_sum u beta, u_fits, v_fits)
            (omega (arith, i.balance), omega (arith, i.u_le), omega (arith, i.v_lt))
    ]

-- `(u, v)` with u·2^64 - v·b = 1.
pub record Inverse (b : ℕ) (r : Option (ℕ × ℕ)) : Type 0 where
  pub u : ℕ
  pub v : ℕ
  pub returns : r ≡ some (u, v)
  pub balance : 1 + v * b ≡ 2 ^ 64 * u
  pub u_le : u ≤ b
  pub v_lt : v < 2 ^ 64

gcd_loop-suc :
    (fuel alpha beta a u v : ℕ)
    → 0 < a
    → gcd_loop (suc fuel) alpha beta a u v
      ≡ gcd_loop fuel alpha beta (a / 2) (next_u beta u) (next_v alpha u v)
unfolding gcd_loop
gcd_loop-suc fuel alpha beta a u v h = rw (lt→ltb 0 a h)

gcd_loop-zero : (fuel alpha beta u v : ℕ) → gcd_loop (suc fuel) alpha beta 0 u v ≡ some (u, v)
unfolding gcd_loop
gcd_loop-zero fuel alpha beta u v = refl

Inverse-round : {r r' : Option (ℕ × ℕ)} (b : ℕ) → r ≡ r' → Inverse b r' → Inverse b r
Inverse-round b e i = record {
  u = i.u;
  v = i.v;
  returns = e ∙ i.returns;
  balance = i.balance;
  u_le = i.u_le;
  v_lt = i.v_lt;
}

gcd_loop-Inverse :
    (k fuel beta u v : ℕ)
    → k < fuel
    → beta % 2 ≡ 1
    → beta < 2 ^ 64
    → Invariant beta (2 ^ k) u v
    → Inverse beta (gcd_loop (suc fuel) (2 ^ 63) beta (2 ^ k) u v)
gcd_loop-Inverse k zero beta u v enough odd fits i = absurd (omega arith)
gcd_loop-Inverse zero (suc fuel) beta u v enough odd fits i =
    let (balance, u_le, v_lt) = round_balance beta 1 u v odd fits i in
    record {
      u = next_u beta u;
      v = next_v (2 ^ 63) u v;
      returns =
          gcd_loop-suc (suc fuel) (2 ^ 63) beta 1 u v (omega arith)
          ∙ gcd_loop-zero fuel (2 ^ 63) beta (next_u beta u) (next_v (2 ^ 63) u v);
      balance = balance;
      u_le = u_le;
      v_lt = v_lt;
    }
gcd_loop-Inverse (suc k) (suc fuel) beta u v enough odd fits i =
    let (balance, u_le, v_lt) = round_balance beta (2 ^ suc k) u v odd fits i in
    let u' = next_u beta u in
    let v' = next_v (2 ^ 63) u v in
    let power = pow-suc 2 k in
    let positive : 0 < 2 ^ k = one-le-pow k 2 (omega arith) in
    let half : 2 ^ suc k / 2 ≡ 2 ^ k = omega arith in
    let kept : Invariant beta (2 ^ k) u' v' = record {
      balance = omega arith;
      u_le = u_le;
      v_lt = v_lt;
    } in
    Inverse-round beta
      (gcd_loop-suc (suc fuel) (2 ^ 63) beta (2 ^ suc k) u v (omega arith)
        ∙ ap (λ a. gcd_loop (suc fuel) (2 ^ 63) beta a u' v') half)
      (gcd_loop-Inverse k fuel beta u' v' (omega arith) odd fits kept)

-- For a = 2^63 and an odd b, `xbinGCD` ends within its fuel with numbers u and v that fit 64
-- bits and satisfy u·2a - v·b = 1.
pub xbin_gcd-Inverse : (b : ℕ) → b % 2 ≡ 1 → b < 2 ^ 64 → Inverse b (xbin_gcd (2 ^ 63) b)
unfolding xbin_gcd
xbin_gcd-Inverse b odd fits =
    gcd_loop-Inverse 63 64 b 1 0 (omega arith) odd fits
      (record { balance = omega arith; u_le = omega arith; v_lt = omega arith })
