-- ===== src/Common/Lfsr.antt =====
-- A shift register with feedback, for every feedback polynomial.
use Prim.Native.Nat.{bit_xor}
use len5_core.Common.{
  ℕ, zero, suc, ◌+◌, ◌*◌, ◌/◌, ◌%◌, ◌^◌, ◌≡◌, refl, sym, ap, ◌∙◌, inl, inr, false, arith, ◌==◌,
  if◌then◌else◌, Bool-cases,
}
use native.Mathlib.Nat.{pow-suc}
use len5_core.Common.Bits.{
  bit_xor-mod_two, bit_xor_swap, bit_xor-div_two, bit_xor-zero, bit_xor_self, bit_xor_comm,
}

-- One shift to the right; a one that falls out is fed back.
unfoldable pub lfsr : (poly x : ℕ) → ℕ
lfsr poly x = if x % 2 == 1 then bit_xor (x / 2) poly else x / 2

unfoldable pub lfsr_times : (poly : ℕ) → ℕ → ℕ → ℕ
lfsr_times poly zero x = x
lfsr_times poly (suc n) x = lfsr_times poly n (lfsr poly x)

-- The feedback that a low bit causes.
feedback : (poly x : ℕ) → ℕ
feedback poly x = if x % 2 == 1 then poly else 0

lfsr-feedback : (poly : ℕ) (x : ℕ) → lfsr poly x ≡ bit_xor (x / 2) (feedback poly x)
unfolding lfsr feedback
lfsr-feedback poly x = elim (Bool-cases (x % 2 == 1)) [
  | inl one ↦ rw one
  | inr nil ↦ rw nil (sym (bit_xor-zero (x / 2)))
]

feedback-xor :
    (poly : ℕ) (a b : ℕ) → feedback poly (bit_xor a b) ≡ bit_xor (feedback poly a) (feedback poly b)
unfolding feedback
feedback-xor poly a b =
    rw (bit_xor-mod_two a b)
      (ground (arith, bit_xor_self poly, bit_xor_self 0, bit_xor-zero poly, bit_xor_comm 0 poly))

-- The shift register is linear for exclusive or.
pub lfsr-xor : (poly : ℕ) (a b : ℕ) → lfsr poly (bit_xor a b) ≡ bit_xor (lfsr poly a) (lfsr poly b)
lfsr-xor poly a b =
    rw (lfsr-feedback, lfsr-feedback poly a, lfsr-feedback poly b, bit_xor-div_two, feedback-xor)
      (bit_xor_swap (a / 2) (b / 2) (feedback poly a) (feedback poly b))

pub lfsr_times-xor :
    (poly : ℕ) (n a b : ℕ)
    → lfsr_times poly n (bit_xor a b) ≡ bit_xor (lfsr_times poly n a) (lfsr_times poly n b)
unfolding lfsr_times
lfsr_times-xor poly zero a b = refl
lfsr_times-xor poly (suc n) a b =
    ap (lfsr_times poly n) (lfsr-xor poly a b) ∙ lfsr_times-xor poly n (lfsr poly a) (lfsr poly b)

-- Zeros that fall out are not fed back.
pub lfsr_times-shift : (poly : ℕ) (n q : ℕ) → lfsr_times poly n (q * 2 ^ n) ≡ q
unfolding lfsr_times lfsr
lfsr_times-shift poly zero q = omega arith
lfsr_times-shift poly (suc n) q =
    let double : q * 2 ^ suc n ≡ 2 * (q * 2 ^ n) =
      omega (arith, ap (λ (t : ℕ). q * t) (pow-suc 2 n)) in
    let even : (q * 2 ^ suc n % 2 == 1) ≡ false = ground arith in
    let half : q * 2 ^ suc n / 2 ≡ q * 2 ^ n = omega arith in
    rw (even, half) (lfsr_times-shift poly n q)

pub lfsr_times-add :
    (poly : ℕ) (n k x : ℕ) → lfsr_times poly (n + k) x ≡ lfsr_times poly k (lfsr_times poly n x)
unfolding lfsr_times
lfsr_times-add poly zero k x = let e : 0 + k ≡ k = omega arith in rw e
lfsr_times-add poly (suc n) k x =
    let e : suc n + k ≡ suc (n + k) = omega arith in rw e (lfsr_times-add poly n k (lfsr poly x))
