-- ===== src/Coremark/Crc/Lfsr.antt =====
-- The CRC routines of core_util.c against a shift register with the feedback 0xA001.
use Prim.Native.Nat.{bit_or, bit_xor}
use len5_core.Common.{
  ◌*◌, ℕ, zero, suc, ◌/◌, ◌%◌, ◌^◌, ◌<◌, ◌≡◌, sym, ap, ◌∙◌, arith, ◌==◌, Bool-cases, inl, inr,
}
use mathlib.Core.Path.{ap₂}
use native.Mathlib.Nat.{pow-suc}
use len5_core.Common.Bits.{
  bit_or_comm, bit_xor_step, bit_xor-div_two, bit_xor_assoc, bit_xor_comm, bit_xor-lt, bit_xor-zero,
  bit_and_mask, bit_or_fields, bit_xor_fields, bit_xor_self,
}
use len5_core.Common.Lfsr.{lfsr, lfsr_times, lfsr_times-xor, lfsr_times-shift, lfsr_times-add}
use len5_core.Coremark.Crc.{crcu16, low_bits_differ, crc_round, crc_loop, crcu8}

low_bits_differ_lem : (byte crc : ℕ) → low_bits_differ byte crc ≡ bit_xor crc byte % 2
unfolding low_bits_differ
low_bits_differ_lem byte crc = omega (
  arith,
  bit_and_mask 1 byte,
  bit_and_mask 1 (crc % 2 ^ 8),
  ap₂ bit_xor (bit_and_mask 1 byte) (bit_and_mask 1 (crc % 2 ^ 8)),
  bit_xor_step (byte % 2) (crc % 2 ^ 8 % 2),
  bit_xor_step crc byte,
  both_low,
)
  where
    both_low : bit_xor (byte % 2 / 2) (crc % 2 ^ 8 % 2 / 2) ≡ 0
    both_low =
        let e : byte % 2 / 2 ≡ 0 = omega arith in
        let e' : crc % 2 ^ 8 % 2 / 2 ≡ 0 = omega arith in rw (e, e') (bit_xor_self 0)

fed_back :
    (crc : ℕ) → crc < 2 ^ 16 → bit_or (bit_xor crc 0x4002 / 2) 0x8000 ≡ bit_xor (crc / 2) 0xa001
fed_back crc h =
    let r = bit_xor (crc / 2) 0x2001 in
    let r_lt : r < 2 ^ 15 = bit_xor-lt 15 (crc / 2) 0x2001 (omega arith) (omega arith) in
    rw (bit_xor-div_two crc 0x4002) (
      bit_or_comm r 0x8000
      ∙ bit_or_fields 15 1 r r_lt
      ∙ sym (bit_xor_fields 15 1 r r_lt)
      ∙ bit_xor_comm 0x8000 r
      ∙ bit_xor_assoc (crc / 2) 0x2001 0x8000)

crc_round-lfsr :
    (byte crc : ℕ)
    → crc < 2 ^ 16
    → bit_xor (crc_round byte crc) (byte / 2) ≡ lfsr 0xa001 (bit_xor crc byte)
unfolding crc_round lfsr
crc_round-lfsr byte crc h = elim (Bool-cases (bit_xor crc byte % 2 == 1)) [
  | inl one ↦
      rw (low_bits_differ_lem byte crc, one)
        (rw (fed_back crc h, bit_xor-div_two crc byte)
          (bit_xor_assoc (crc / 2) 0xa001 (byte / 2)
            ∙ ap (bit_xor (crc / 2)) (bit_xor_comm 0xa001 (byte / 2))
            ∙ sym (bit_xor_assoc (crc / 2) (byte / 2) 0xa001)))
  | inr nil ↦
      rw (low_bits_differ_lem byte crc, nil)
        (ap (λ t. bit_xor t (byte / 2)) (bit_and_mask 15 (crc / 2) ∙ omega arith)
          ∙ sym (bit_xor-div_two crc byte))
]

crc_round-lt : (byte crc : ℕ) → crc < 2 ^ 16 → crc_round byte crc < 2 ^ 16
unfolding crc_round
crc_round-lt byte crc h = elim (Bool-cases (low_bits_differ byte crc == 1)) [
  | inl one ↦ rw (one, fed_back crc h) (bit_xor-lt 16 (crc / 2) 0xa001 (omega arith) (omega arith))
  | inr nil ↦ rw (nil, bit_and_mask 15 (crc / 2)) (omega arith)
]

crc_loop-lfsr :
    (n byte crc : ℕ)
    → crc < 2 ^ 16
    → byte < 2 ^ n
    → (crc_loop n byte crc ≡ lfsr_times 0xa001 n (bit_xor crc byte))
      × (crc_loop n byte crc < 2 ^ 16)
unfolding crc_loop lfsr_times
crc_loop-lfsr zero byte crc h b = let e : byte ≡ 0 = omega arith in (rw (e, bit_xor-zero crc), h)
crc_loop-lfsr (suc n) byte crc h b =
    let (runs, below) =
      crc_loop-lfsr n (byte / 2) (crc_round byte crc) (crc_round-lt byte crc h)
        (omega (arith, pow-suc 2 n)) in
    (runs ∙ ap (lfsr_times 0xa001 n) (crc_round-lfsr byte crc h), below)

-- `crcu8` shifts the exclusive or of the CRC and the byte eight times.
pub crcu8-lfsr :
    (byte crc : ℕ)
    → byte < 2 ^ 8
    → crc < 2 ^ 16
    → (crcu8 byte crc ≡ lfsr_times 0xa001 8 (bit_xor crc byte)) × (crcu8 byte crc < 2 ^ 16)
unfolding crcu8
crcu8-lfsr byte crc b h = crc_loop-lfsr 8 byte crc h b

-- Shifting the low byte through and then the high byte shifts the value through.
bytes_join :
    (v x : ℕ)
    → v < 2 ^ 16
    → lfsr_times 0xa001 8
        (bit_xor (lfsr_times 0xa001 8 (bit_xor x (v % 2 ^ 8))) (v / 2 ^ 8 % 2 ^ 8))
      ≡ lfsr_times 0xa001 16 (bit_xor x v)
bytes_join v x h =
    let lo = v % 2 ^ 8 in
    let hi = v / 2 ^ 8 in
    let shifted : hi % 2 ^ 8 ≡ lfsr_times 0xa001 8 (hi * 2 ^ 8) =
      omega (arith, lfsr_times-shift 0xa001 8 hi) in
    let parts : bit_xor lo (hi * 2 ^ 8) ≡ v =
      omega (arith, bit_xor_fields 8 hi lo (omega arith), bit_xor_comm lo (hi * 2 ^ 8)) in
    ap (λ t. lfsr_times 0xa001 8 (bit_xor (lfsr_times 0xa001 8 (bit_xor x lo)) t)) shifted
    ∙ ap (lfsr_times 0xa001 8) (sym (lfsr_times-xor 0xa001 8 (bit_xor x lo) (hi * 2 ^ 8)))
    ∙ sym (lfsr_times-add 0xa001 8 8 (bit_xor (bit_xor x lo) (hi * 2 ^ 8)))
    ∙ ap (lfsr_times 0xa001 16) (bit_xor_assoc x lo (hi * 2 ^ 8) ∙ ap (bit_xor x) parts)

-- The CRC of a 16-bit value is sixteen shifts of its exclusive or with the old CRC: the order of
-- the two bytes is that of the register.
pub crcu16-lfsr :
    (newval crc : ℕ)
    → newval < 2 ^ 16
    → crc < 2 ^ 16
    → (crcu16 newval crc ≡ lfsr_times 0xa001 16 (bit_xor crc newval)) × (crcu16 newval crc < 2 ^ 16)
unfolding crcu16
crcu16-lfsr newval crc v h =
    let lo = newval % 2 ^ 8 in
    let hi = newval / 2 ^ 8 in
    let (first, mid) = crcu8-lfsr lo crc (omega arith) h in
    let (second, below) = crcu8-lfsr (hi % 2 ^ 8) (crcu8 lo crc) (omega arith) mid in
    (
      second
          ∙ ap (λ t. lfsr_times 0xa001 8 (bit_xor t (hi % 2 ^ 8))) first
          ∙ bytes_join newval crc v,
      below,
    )
