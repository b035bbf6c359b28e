-- ===== src/Tb/Alu/Expected.antt =====
-- The result that the scoreboard expects is what the instruction set means.
use Prim.Native.Nat.{bit_and}
use native.Mathlib.Nat.{
  pow-suc, div-le_self, one-le-pow, mod-lt, div-add-mod', mul-add-div_right, div-eq_of_lt,
  div-lt_iff_lt-mul,
}
use len5_core.Common.{
  le→ltb, ne→==, lt→ltb, ℕ, zero, suc, ◌+◌, ◌-◌, ◌*◌, ◌/◌, ◌%◌, ◌^◌, ◌≤◌, ◌<◌, ◌≡◌, refl, sym, ap,
  ◌∙◌, ◌≢◌, inl, inr, arith, dec_lt, ltb, Bool-cases,
}
use len5_core.Common.Bits.{
  bit_and_mask, bit_or_fields, bit_and-div_two, bit_and_comm, bit_and_disjoint,
}
use len5_core.Isa.{
  shift_right, unknown, alu_sltu, alu_slt, alu_srl, alu_sll, alu_xor, alu_or, alu_and, signed32,
  pattern64, alu_sub, alu_srlw, alu_add, alu_subw, alu_sraw, alu_sllw, alu_addw, alu_sra, word,
  AluCtl, meaning,
}
use len5_core.Rtl.Alu.Reverse.{halves}
use len5_core.Rtl.Alu.Result.{scaled_low}
use len5_core.Tb.Alu.{sext_32, widen, exp_res}

sext_32_low : (x : ℕ) → sext_32 x % 2 ^ 32 ≡ x % 2 ^ 32
unfolding sext_32
sext_32_low x = ground arith

sext_32-lt : (x : ℕ) → sext_32 x < 2 ^ 64
unfolding sext_32
sext_32-lt x = ground arith

-- The bit 31 of a 32-bit number.
bit_and-shift : (k a b : ℕ) → bit_and a b / 2 ^ k ≡ bit_and (a / 2 ^ k) (b / 2 ^ k)
bit_and-shift zero a b =
    let one : (x : ℕ) → x / 2 ^ 0 ≡ x = λ x. omega arith in
    one (bit_and a b) ∙ sym (ap (λ (t : ℕ). bit_and t (b / 2 ^ 0)) (one a) ∙ ap (bit_and a) (one b))
bit_and-shift (suc k) a b =
    sym (halves (bit_and a b) k)
    ∙ ap (λ (t : ℕ). t / 2 ^ k) (bit_and-div_two a b)
    ∙ bit_and-shift k (a / 2) (b / 2)
    ∙ ap (λ (t : ℕ). bit_and t (b / 2 / 2 ^ k)) (halves a k)
    ∙ ap (bit_and (a / 2 ^ suc k)) (halves b k)

sign_clear : (x : ℕ) → x < 2 ^ 31 → bit_and x (2 ^ 31) ≡ 0
sign_clear x h = bit_and_comm x (2 ^ 31) ∙ bit_and_disjoint 31 1 x h

sign_set : (x : ℕ) → 2 ^ 31 ≤ x → x < 2 ^ 32 → bit_and x (2 ^ 31) ≢ 0
sign_set x h k e =
    let top : x / 2 ^ 31 ≡ 1 = omega (arith, h, k) in
    let one : bit_and x (2 ^ 31) / 2 ^ 31 ≡ 1 =
      bit_and-shift 31 x (2 ^ 31) ∙ ap (λ (t : ℕ). bit_and t 1) top in
    absurd (omega (arith, one, e))

widen_pos : (x : ℕ) → x < 2 ^ 31 → widen x ≡ x
unfolding widen
widen_pos x h = rw (sign_clear x h) refl

widen_neg : (x : ℕ) → 2 ^ 31 ≤ x → x < 2 ^ 32 → widen x ≡ 2 ^ 64 - 2 ^ 32 + x
unfolding widen
widen_neg x h k =
    rw (ne→== (bit_and x (2 ^ 31)) 0 (sign_set x h k)) (bit_or_fields 32 (2 ^ 32 - 1) x k)

widen-word : (x : ℕ) → x < 2 ^ 32 → widen x ≡ word x
widen-word x h = elim (dec_lt x (2 ^ 31)) [
  | yes p ↦
      (let m : x % 2 ^ 32 ≡ x = omega (arith, h) in
        widen_pos x p ∙ rw (m, lt→ltb x (2 ^ 31) p) (omega (arith, h)))
  | no p ↦
      (let m : x % 2 ^ 32 ≡ x = omega (arith, h) in
        widen_neg x (omega (arith, p)) h
        ∙ rw (m, le→ltb x (2 ^ 31) (omega (arith, p))) (omega (arith, h, p)))
]

exp_res-addw : (a b : ℕ) → exp_res alu_addw a b ≡ meaning alu_addw a b
unfolding exp_res meaning
exp_res-addw a b =
    widen-word ((sext_32 a % 2 ^ 32 + sext_32 b) % 2 ^ 64 % 2 ^ 32) (omega arith)
    ∙ ap (λ (t : ℕ). pattern64 (signed32 t)) (omega (arith, sext_32_low a, sext_32_low b))

exp_res-subw : (a b : ℕ) → b < 2 ^ 64 → exp_res alu_subw a b ≡ meaning alu_subw a b
unfolding exp_res meaning
exp_res-subw a b hb =
    widen-word ((sext_32 (sext_32 a) + (2 ^ 64 - sext_32 b)) % 2 ^ 64 % 2 ^ 32) (omega arith)
    ∙ ap (λ (t : ℕ). pattern64 (signed32 t))
        (omega (arith, sext_32_low a, sext_32_low (sext_32 a), sext_32_low b, sext_32-lt b))

shamt : (b : ℕ) → bit_and b 63 ≡ b % 64
shamt b = bit_and_mask 6 b

shamt_w : (b : ℕ) → bit_and b 31 ≡ b % 32
shamt_w b = bit_and_mask 5 b

exp_res-sllw : (a b : ℕ) → exp_res alu_sllw a b ≡ meaning alu_sllw a b
unfolding exp_res meaning
exp_res-sllw a b =
    let s = b % 32 in
    let low : sext_32 a * 2 ^ s % 2 ^ 32 ≡ a * 2 ^ s % 2 ^ 32 =
      sym (scaled_low (sext_32 a) (2 ^ s) (2 ^ 32))
      ∙ ap (λ (t : ℕ). t * 2 ^ s % 2 ^ 32) (sext_32_low a)
      ∙ scaled_low a (2 ^ s) (2 ^ 32) in
    rw (shamt_w b) (
      widen-word (sext_32 a * 2 ^ s % 2 ^ 64 % 2 ^ 32) (omega arith)
      ∙ ap (λ (t : ℕ). pattern64 (signed32 t)) (omega (arith, low)))

exp_res-srlw : (a b : ℕ) → exp_res alu_srlw a b ≡ meaning alu_srlw a b
unfolding exp_res meaning
exp_res-srlw a b = rw (shamt_w b) (
    widen-word (a % 2 ^ 32 / 2 ^ (b % 32) % 2 ^ 32) (omega arith)
    ∙ ap (λ (t : ℕ). pattern64 (signed32 t)) (omega arith))

exp_res-sra : (a b : ℕ) → a < 2 ^ 64 → exp_res alu_sra a b ≡ meaning alu_sra a b
unfolding exp_res meaning
exp_res-sra a b ha =
    let k = b % 64 in
    rw (shamt b) (elim (Bool-cases (ltb a (2 ^ 63))) [
      | inl h ↦ rw h (omega (arith, ha, div-le_self a (2 ^ k)))
      | inr h ↦ rw h (omega (arith, div-le_self (2 ^ 64 - 1 - a) (2 ^ k)))
    ])

-- Dividing the complement complements the quotient.
complement_div : (k p y : ℕ) → 0 < p → y < k * p → (k * p - 1 - y) / p + y / p + 1 ≡ k
complement_div k p y hp hy =
    let q = y / p in
    let r = y % p in
    let q_lt : q < k = (div-lt_iff_lt-mul hp).1 hy in
    let j = k - 1 - q in
    let parts : k ≡ j + 1 + q = omega (arith, q_lt) in
    let product : k * p ≡ j * p + p + q * p = ap (λ (t : ℕ). t * p) parts ∙ spread j q p in
    let r_lt = mod-lt y hp in
    let whole : k * p - 1 - y ≡ j * p + (p - 1 - r) =
      omega (arith, product, div-add-mod' y p, r_lt) in
    let quotient : (k * p - 1 - y) / p ≡ j =
      ap (λ (t : ℕ). t / p) whole
      ∙ mul-add-div_right hp j (p - 1 - r)
      ∙ omega (arith, div-eq_of_lt (p_lt p r hp)) in
    omega (arith, quotient, q_lt)
  where
    spread : (j q p : ℕ) → (j + 1 + q) * p ≡ j * p + p + q * p
    spread j q p = grind arith

    p_lt : (p r : ℕ) → 0 < p → p - 1 - r < p
    p_lt p r h = omega (arith, h)

pow_split : (j s : ℕ) → 2 ^ (j + s) ≡ 2 ^ j * 2 ^ s
pow_split zero s =
    let none_more : 0 + s ≡ s = omega arith in ap (λ (t : ℕ). 2 ^ t) none_more ∙ omega arith
pow_split (suc j) s =
    let more : 2 ^ suc (j + s) ≡ 2 * 2 ^ (j + s) = omega (arith, pow-suc 2 (j + s)) in
    let head : 2 ^ suc j ≡ 2 * 2 ^ j = omega (arith, pow-suc 2 j) in
    let next : suc j + s ≡ suc (j + s) = omega arith in
    ap (λ (t : ℕ). 2 ^ t) next
    ∙ more
    ∙ ap (λ (t : ℕ). 2 * t) (pow_split j s)
    ∙ twice (2 ^ j) (2 ^ s)
    ∙ ap (λ (t : ℕ). t * 2 ^ s) (sym head)
  where
    twice : (a c : ℕ) → 2 * (a * c) ≡ 2 * a * c
    twice a c = grind arith

-- The low word of a negative number that is shifted with zeros from above.
shifted_low :
    (y s : ℕ) → y < 2 ^ 31 → s < 32 → (2 ^ 64 - 1 - y) / 2 ^ s % 2 ^ 32 ≡ 2 ^ 32 - 1 - y / 2 ^ s
shifted_low y s h hs =
    let j = 32 - s in
    let p = 2 ^ s in
    let index : j + s ≡ 32 = omega (arith, hs) in
    let whole : 2 ^ 32 ≡ 2 ^ j * p = ap (λ (t : ℕ). 2 ^ t) (sym index) ∙ pow_split j s in
    let all : 2 ^ 32 * 2 ^ j * p ≡ 2 ^ 64 = scale (2 ^ j) p whole in
    let positive = one-le-pow s 2 (omega arith) in
    let some_left = one-le-pow j 2 (omega arith) in
    let quotient =
      complement_div (2 ^ 32 * 2 ^ j) p y (omega (arith, positive)) (omega (arith, all, h)) in
    let same : (2 ^ 64 - 1 - y) / p ≡ (2 ^ 32 * 2 ^ j * p - 1 - y) / p =
      ap (λ (t : ℕ). (t - 1 - y) / p) (sym all) in
    omega (arith, same, quotient, some_left, div-le_self y p, h)
  where
    assoc : (a q p : ℕ) → a * q * p ≡ a * (q * p)
    assoc a q p = grind arith

    scale : (q p : ℕ) → 2 ^ 32 ≡ q * p → 2 ^ 32 * q * p ≡ 2 ^ 64
    scale q p e = assoc (2 ^ 32) q p ∙ ap (λ (t : ℕ). 2 ^ 32 * t) (sym e)

sraw_at :
    (a s : ℕ)
    → s < 32
    → widen (sext_32 a / 2 ^ s % 2 ^ 32) ≡ pattern64 (shift_right (signed32 (a % 2 ^ 32)) s)
unfolding sext_32
sraw_at a s hs = elim (dec_lt (a % 2 ^ 32) (2 ^ 31)) [
  | yes p ↦
      (let q = a % 2 ^ 32 / 2 ^ s in
        let small : q < 2 ^ 31 = omega (arith, p, div-le_self (a % 2 ^ 32) (2 ^ s)) in
        let low : q % 2 ^ 32 ≡ q = omega (arith, small) in
        rw (lt→ltb (a % 2 ^ 32) (2 ^ 31) p, low) (widen_pos q small ∙ omega (arith, small)))
  | no p ↦
      (let y = 2 ^ 32 - 1 - a % 2 ^ 32 in
        let y_lt : y < 2 ^ 31 = omega (arith, p) in
        let whole : 2 ^ 64 - 2 ^ 32 + a % 2 ^ 32 ≡ 2 ^ 64 - 1 - y = omega arith in
        let low = shifted_low y s y_lt hs in
        let small = div-le_self y (2 ^ s) in
        rw (le→ltb (a % 2 ^ 32) (2 ^ 31) (omega (arith, p)), whole, low)
          (widen_neg (2 ^ 32 - 1 - y / 2 ^ s) (omega (arith, y_lt, small)) (omega arith)
            ∙ omega (arith, y_lt, small)))
]

exp_res-sraw : (a b : ℕ) → exp_res alu_sraw a b ≡ meaning alu_sraw a b
unfolding exp_res meaning
exp_res-sraw a b = rw (shamt_w b) (sraw_at a (b % 32) (omega arith))

-- For operands below 2^64, the scoreboard expects what the instruction set means by the operation, for
-- every code of the control input.
pub exp_res-meaning :
    (ctl : AluCtl) (a b : ℕ) → a < 2 ^ 64 → b < 2 ^ 64 → exp_res ctl a b ≡ meaning ctl a b
unfolding exp_res meaning
exp_res-meaning alu_add a b ha hb = refl
exp_res-meaning alu_addw a b ha hb = exp_res-addw a b
exp_res-meaning alu_sub a b ha hb = refl
exp_res-meaning alu_subw a b ha hb = exp_res-subw a b hb
exp_res-meaning alu_and a b ha hb = refl
exp_res-meaning alu_or a b ha hb = refl
exp_res-meaning alu_xor a b ha hb = refl
exp_res-meaning alu_sll a b ha hb = rw (shamt b) refl
exp_res-meaning alu_sllw a b ha hb = exp_res-sllw a b
exp_res-meaning alu_srl a b ha hb = rw (shamt b) refl
exp_res-meaning alu_srlw a b ha hb = exp_res-srlw a b
exp_res-meaning alu_sra a b ha hb = exp_res-sra a b ha
exp_res-meaning alu_sraw a b ha hb = exp_res-sraw a b
exp_res-meaning alu_slt a b ha hb = refl
exp_res-meaning alu_sltu a b ha hb = refl
exp_res-meaning unknown a b ha hb = refl
