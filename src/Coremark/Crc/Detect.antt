-- ===== src/Coremark/Crc/Detect.antt =====
-- What changes of the data the CRC of core_util.c sees, and that it is linear.
use Prim.Native.Nat.{suc, bit_xor}
use len5_core.Common.{
  ◌≢◌, inr, inl, zero, ◌==◌, ap, sym, ◌/◌, ◌∙◌, ◌%◌, Bool-cases, arith, ◌≡◌, ◌^◌, ◌<◌, ℕ,
}
use len5_core.Common.Bits.{bit_xor_self, xor_eq_zero, bit_xor_left_cancel, bit_xor-lt, bit_xor_swap}
use len5_core.Coremark.Crc.{crcu16, crcu32, crc16}
use mathlib.Core.Path.{ap₂}
use len5_core.Coremark.Crc.Lfsr.{crcu16-lfsr}
use len5_core.Common.Lfsr.{lfsr, lfsr_times, lfsr_times-xor}

-- Only zero shifts to zero.
lfsr-pos : (x : ℕ) → x < 2 ^ 16 → lfsr 0xa001 x ≡ 0 → x ≡ 0
unfolding lfsr
lfsr-pos x h e = elim (Bool-cases (x % 2 == 1)) [
  | inl one ↦
      let fed : bit_xor (x / 2) 0xa001 ≡ 0 = rw (one, lfsr) at e in
      absurd (omega (arith, xor_eq_zero (x / 2) 0xa001 fed))
  | inr nil ↦ let half : x / 2 ≡ 0 = rw (nil, lfsr) at e in ground arith
]

lfsr-lt : (x : ℕ) → x < 2 ^ 16 → lfsr 0xa001 x < 2 ^ 16
unfolding lfsr
lfsr-lt x h = ground (arith, bit_xor-lt 16 (x / 2) 0xa001)

lfsr_times-pos : (n x : ℕ) → x < 2 ^ 16 → lfsr_times 0xa001 n x ≡ 0 → x ≡ 0
unfolding lfsr_times
lfsr_times-pos zero x h e = e
lfsr_times-pos (suc n) x h e = lfsr-pos x h (lfsr_times-pos n (lfsr 0xa001 x) (lfsr-lt x h) e)

lfsr_times-inj :
    (n x y : ℕ) → x < 2 ^ 16 → y < 2 ^ 16 → lfsr_times 0xa001 n x ≡ lfsr_times 0xa001 n y → x ≡ y
lfsr_times-inj n x y hx hy e = xor_eq_zero x y (
    lfsr_times-pos n (bit_xor x y) (bit_xor-lt 16 x y hx hy)
      (lfsr_times-xor 0xa001 n x y ∙ rw e (bit_xor_self (lfsr_times 0xa001 n y))))

-- Two different 16-bit values never give the same CRC from the same start: no error inside one
-- value goes unseen.
pub crcu16-inj :
    (v w crc : ℕ) → v < 2 ^ 16 → w < 2 ^ 16 → crc < 2 ^ 16 → v ≢ w → crcu16 v crc ≢ crcu16 w crc
crcu16-inj v w crc hv hw h ne e = ne (
    bit_xor_left_cancel crc v w (
      lfsr_times-inj 16 (bit_xor crc v) (bit_xor crc w) (bit_xor-lt 16 crc v h hv)
        (bit_xor-lt 16 crc w h hw)
        (sym (crcu16-lfsr v crc hv h).0 ∙ e ∙ (crcu16-lfsr w crc hw h).0)))

-- The CRC is linear: the CRC of an exclusive or is the exclusive or of the CRCs.
pub crcu16-xor :
    (v w c d : ℕ)
    → v < 2 ^ 16
    → w < 2 ^ 16
    → c < 2 ^ 16
    → d < 2 ^ 16
    → crcu16 (bit_xor v w) (bit_xor c d) ≡ bit_xor (crcu16 v c) (crcu16 w d)
crcu16-xor v w c d hv hw hc hd =
    (crcu16-lfsr (bit_xor v w) (bit_xor c d) (bit_xor-lt 16 v w hv hw) (bit_xor-lt 16 c d hc hd)).0
    ∙ ap (lfsr_times 0xa001 16) (bit_xor_swap c d v w)
    ∙ lfsr_times-xor 0xa001 16 (bit_xor c v) (bit_xor d w)
    ∙ ap₂ bit_xor (sym (crcu16-lfsr v c hv hc).0) (sym (crcu16-lfsr w d hw hd).0)

-- A 32-bit value goes in as its low half and then its high half, and the result is again 16 bits.
pub crcu32-halves :
    (v crc : ℕ)
    → v < 2 ^ 32
    → crc < 2 ^ 16
    → (crcu32 v crc
        ≡ lfsr_times 0xa001 16
            (bit_xor (lfsr_times 0xa001 16 (bit_xor crc (v % 2 ^ 16))) (v / 2 ^ 16)))
      × (crcu32 v crc < 2 ^ 16)
unfolding crcu32 crc16
crcu32-halves v crc hv h =
    let lo = crcu16-lfsr (v % 2 ^ 16) crc (omega arith) h in
    let hi = crcu16-lfsr (v / 2 ^ 16) (crcu16 (v % 2 ^ 16) crc) (omega arith) lo.1 in
    let split : crcu32 v crc ≡ crcu16 (v / 2 ^ 16) (crcu16 (v % 2 ^ 16) crc) =
      ap₂ (λ a b. crcu16 a (crcu16 b crc)) (omega arith) (omega arith) in
    (
      split ∙ hi.0 ∙ ap (λ t. lfsr_times 0xa001 16 (bit_xor t (v / 2 ^ 16))) lo.0,
      omega (arith, split, hi.1),
    )
