-- ===== src/Rtl/Alu/Result.antt =====
-- The result of the unit is what the instruction set means, for every operation.
use len5_core.Common.{
  le→ltb, lt→ltb, ℕ, ◌+◌, ◌-◌, ◌*◌, ◌/◌, ◌%◌, ◌^◌, ◌<◌, ◌≡◌, refl, sym, ap, ◌∙◌, inl, inr, arith,
  dec_lt, ltb, Bool-cases,
}
use native.Mathlib.Nat.{div-le_self, div-add-mod', mul-add-mod_self_right}
use len5_core.Rtl.Alu.{
  extend_sign, adder_operands, adder, adder_res, reversed, shifter_a, shifter_shamt, shifter,
  shifter_res, shifter_res_rev, is_less, result,
}
use len5_core.Rtl.Alu.Reverse.{shift_between, reversed-lt}
use len5_core.Isa.{
  signed64, shift_right, signed32, pattern64, word, AluCtl, alu_add, alu_addw, alu_sub, alu_subw,
  alu_and, alu_or, alu_xor, alu_sll, alu_sllw, alu_srl, alu_srlw, alu_sra, alu_sraw, alu_slt,
  alu_sltu, unknown, meaning,
}

pub extend_sign-word : (x : ℕ) → extend_sign x ≡ word x
unfolding extend_sign
extend_sign-word x = elim (Bool-cases (ltb (x % 2 ^ 32) (2 ^ 31))) [
  | inl h ↦ rw h (omega arith)
  | inr h ↦ rw h (omega arith)
]

extend_sign-mod : (x y : ℕ) → x % 2 ^ 32 ≡ y % 2 ^ 32 → extend_sign x ≡ word y
extend_sign-mod x y e = extend_sign-word x ∙ ap (λ (t : ℕ). pattern64 (signed32 t)) e

extend_sign_low : (x : ℕ) → extend_sign x % 2 ^ 32 ≡ x % 2 ^ 32
unfolding extend_sign
extend_sign_low x = ground arith

extend_sign-lt : (x : ℕ) → extend_sign x < 2 ^ 64
unfolding extend_sign
extend_sign-lt x = ground arith

result_add : (a b : ℕ) → a < 2 ^ 64 → b < 2 ^ 64 → result alu_add a b ≡ meaning alu_add a b
unfolding result meaning adder adder_operands
result_add a b ha hb = omega arith

result_sub : (a b : ℕ) → a < 2 ^ 64 → b < 2 ^ 64 → result alu_sub a b ≡ meaning alu_sub a b
unfolding result meaning adder adder_operands
result_sub a b ha hb = omega arith

result_unknown : (a b : ℕ) → a < 2 ^ 64 → b < 2 ^ 64 → result unknown a b ≡ meaning unknown a b
unfolding result meaning adder adder_operands
result_unknown a b ha hb = omega arith

result_and : (a b : ℕ) → result alu_and a b ≡ meaning alu_and a b
unfolding result meaning
result_and a b = refl

result_or : (a b : ℕ) → result alu_or a b ≡ meaning alu_or a b
unfolding result meaning
result_or a b = refl

result_xor : (a b : ℕ) → result alu_xor a b ≡ meaning alu_xor a b
unfolding result meaning
result_xor a b = refl

result_addw : (a b : ℕ) → result alu_addw a b ≡ meaning alu_addw a b
unfolding result meaning adder adder_operands
result_addw a b =
    let la = extend_sign_low a in
    let lb = extend_sign_low b in
    extend_sign-mod (adder_res alu_addw a b) (a + b) (omega (arith, la, lb))

result_subw : (a b : ℕ) → b < 2 ^ 64 → result alu_subw a b ≡ meaning alu_subw a b
unfolding result meaning adder adder_operands
result_subw a b hb =
    let la = extend_sign_low a in
    let lb = extend_sign_low b in
    extend_sign-mod (adder_res alu_subw a b) (a + (2 ^ 64 - b))
      (omega (arith, la, lb, extend_sign-lt b))

-- The 65-bit shifter on the operand of either sign.
shifter_pos : (x s : ℕ) → x < 2 ^ 64 → shifter x s ≡ x / 2 ^ s
unfolding shifter
shifter_pos x s h = rw (lt→ltb x (2 ^ 64) h)

shifter_neg : (x y s : ℕ) → y < 2 ^ 64 → x + y ≡ 2 ^ 65 - 1 → shifter x s + y / 2 ^ s ≡ 2 ^ 65 - 1
unfolding shifter
shifter_neg x y s h e =
    let f : 2 ^ 65 - 1 - x ≡ y = omega (arith, e) in
    rw (le→ltb x (2 ^ 64) (omega (arith, h, e)), f) (omega (arith, div-le_self y (2 ^ s)))

signed_pos : (x k : ℕ) → x < 2 ^ 63 → pattern64 (shift_right (signed64 x) k) ≡ x / 2 ^ k
signed_pos x k h = rw (lt→ltb x (2 ^ 63) h) (omega (arith, h, div-le_self x (2 ^ k)))

signed_neg :
    (x y k : ℕ)
    → y < 2 ^ 63
    → x + y ≡ 2 ^ 64 - 1
    → pattern64 (shift_right (signed64 x) k) ≡ 2 ^ 64 - 1 - y / 2 ^ k
signed_neg x y k h e =
    let f : 2 ^ 64 - 1 - x ≡ y = omega (arith, e) in
    rw (le→ltb x (2 ^ 63) (omega (arith, h, e)), f) (omega (arith, h, div-le_self y (2 ^ k)))

result_sra : (a b : ℕ) → a < 2 ^ 64 → result alu_sra a b ≡ meaning alu_sra a b
unfolding result meaning shifter_res shifter_a shifter_shamt
result_sra a b ha = elim (dec_lt a (2 ^ 63)) [
  | yes p ↦
      (let f : a / 2 ^ 63 * 2 ^ 64 + a ≡ a = omega (arith, p) in
        rw f (
          rw (shifter_pos a (b % 64) ha, signed_pos a (b % 64) p)
            (omega (arith, ha, div-le_self a (2 ^ (b % 64))))))
  | no p ↦
      (let y = 2 ^ 64 - 1 - a in
        let e : a / 2 ^ 63 * 2 ^ 64 + a + y ≡ 2 ^ 65 - 1 = omega (arith, p, ha) in
        let w = shifter_neg (a / 2 ^ 63 * 2 ^ 64 + a) y (b % 64) (omega arith) e in
        let v = signed_neg a y (b % 64) (omega (arith, p)) (omega (arith, ha)) in
        omega (arith, w, v, p, div-le_self y (2 ^ (b % 64))))
]

result_srl : (a b : ℕ) → a < 2 ^ 64 → result alu_srl a b ≡ meaning alu_srl a b
unfolding result meaning shifter_res shifter_a shifter_shamt
result_srl a b ha = rw (shifter_pos a (b % 64) ha) (omega (arith, ha, div-le_self a (2 ^ (b % 64))))

result_srlw : (a b : ℕ) → result alu_srlw a b ≡ meaning alu_srlw a b
unfolding result meaning shifter_res shifter_a shifter_shamt
result_srlw a b =
    rw (shifter_pos (a % 2 ^ 32) (b % 32) (omega arith))
      (extend_sign-word (a % 2 ^ 32 / 2 ^ (b % 32)))

result_sll : (a b : ℕ) → result alu_sll a b ≡ meaning alu_sll a b
unfolding result meaning shifter_res_rev shifter_res shifter_a shifter_shamt
result_sll a b =
    rw (shifter_pos (reversed 64 a) (b % 64) (reversed-lt 64 a)) (shift_between 64 (b % 64) a)

-- The upper half of the reversed operand is the reversed lower half.
reversed_low : (a : ℕ) → reversed 64 a / 2 ^ 32 * 2 ^ 32 ≡ reversed 64 (a % 2 ^ 32)
reversed_low a =
    let y = reversed 64 a / 2 ^ 32 in
    let back : y * 2 ^ 32 % 2 ^ 64 ≡ y * 2 ^ 32 = omega (arith, reversed-lt 64 a) in
    let low : a * 2 ^ 32 % 2 ^ 64 / 2 ^ 32 ≡ a % 2 ^ 32 = omega arith in
    sym back
    ∙ sym (shift_between 64 32 y)
    ∙ ap (λ (t : ℕ). reversed 64 (t / 2 ^ 32)) (shift_between 64 32 a)
    ∙ ap (reversed 64) low

pub scaled_low : (a q p : ℕ) → a % p * q % p ≡ a * q % p
scaled_low a q p =
    let whole : a * q ≡ a / p * q * p + a % p * q =
      ap (λ (t : ℕ). t * q) (sym (div-add-mod' a p)) ∙ spread (a / p) p (a % p) q in
    sym (ap (λ (t : ℕ). t % p) whole ∙ mul-add-mod_self_right (a / p * q) p (a % p * q))
  where
    spread : (c p r q : ℕ) → (c * p + r) * q ≡ c * q * p + r * q
    spread c p r q = grind arith

result_sllw : (a b : ℕ) → result alu_sllw a b ≡ meaning alu_sllw a b
unfolding result meaning shifter_res_rev shifter_res shifter_a shifter_shamt
result_sllw a b =
    let s = b % 32 in
    let x = reversed 64 a / 2 ^ 32 * 2 ^ 32 in
    let x_lt : x < 2 ^ 64 = omega (arith, reversed-lt 64 a) in
    let shifted : reversed 64 (shifter x s) ≡ a % 2 ^ 32 * 2 ^ s % 2 ^ 64 =
      rw (shifter_pos x s x_lt, reversed_low a) (shift_between 64 s (a % 2 ^ 32)) in
    extend_sign-mod (reversed 64 (shifter x s)) (a * 2 ^ s)
      (omega (arith, shifted, scaled_low a (2 ^ s) (2 ^ 32)))

result_sraw : (a b : ℕ) → result alu_sraw a b ≡ meaning alu_sraw a b
unfolding result meaning shifter_res shifter_a shifter_shamt
result_sraw a b = elim (dec_lt (a % 2 ^ 32) (2 ^ 31)) [
  | yes p ↦
      (let f : a / 2 ^ 31 % 2 * ((2 ^ 33 - 1) * 2 ^ 32) + a % 2 ^ 32 ≡ a % 2 ^ 32 =
          omega (arith, p) in
        rw f (
          rw (shifter_pos (a % 2 ^ 32) (b % 32) (omega arith), lt→ltb (a % 2 ^ 32) (2 ^ 31) p)
            refl))
  | no p ↦
      (let y = 2 ^ 32 - 1 - a % 2 ^ 32 in
        let e : a / 2 ^ 31 % 2 * ((2 ^ 33 - 1) * 2 ^ 32) + a % 2 ^ 32 + y ≡ 2 ^ 65 - 1 =
          omega (arith, p) in
        let w =
          shifter_neg (a / 2 ^ 31 % 2 * ((2 ^ 33 - 1) * 2 ^ 32) + a % 2 ^ 32) y (b % 32)
            (omega arith) e in
        let small = div-le_self y (2 ^ (b % 32)) in
        rw (le→ltb (a % 2 ^ 32) (2 ^ 31) (omega (arith, p))) (omega (arith, w, p, small)))
]

result_slt : (a b : ℕ) → a < 2 ^ 64 → b < 2 ^ 64 → result alu_slt a b ≡ meaning alu_slt a b
unfolding result meaning is_less adder adder_operands
result_slt a b ha hb = ground arith

result_sltu : (a b : ℕ) → a < 2 ^ 64 → b < 2 ^ 64 → result alu_sltu a b ≡ meaning alu_sltu a b
unfolding result meaning is_less adder adder_operands
result_sltu a b ha hb = ground arith

-- For operands below 2^64, the result is what the instruction set means by the operation, for every
-- code of the control input.
pub result-meaning :
    (ctl : AluCtl) (a b : ℕ) → a < 2 ^ 64 → b < 2 ^ 64 → result ctl a b ≡ meaning ctl a b
result-meaning alu_add a b ha hb = result_add a b ha hb
result-meaning alu_addw a b ha hb = result_addw a b
result-meaning alu_sub a b ha hb = result_sub a b ha hb
result-meaning alu_subw a b ha hb = result_subw a b hb
result-meaning alu_and a b ha hb = result_and a b
result-meaning alu_or a b ha hb = result_or a b
result-meaning alu_xor a b ha hb = result_xor a b
result-meaning alu_sll a b ha hb = result_sll a b
result-meaning alu_sllw a b ha hb = result_sllw a b
result-meaning alu_srl a b ha hb = result_srl a b ha
result-meaning alu_srlw a b ha hb = result_srlw a b
result-meaning alu_sra a b ha hb = result_sra a b ha
result-meaning alu_sraw a b ha hb = result_sraw a b
result-meaning alu_slt a b ha hb = result_slt a b ha hb
result-meaning alu_sltu a b ha hb = result_sltu a b ha hb
result-meaning unknown a b ha hb = result_unknown a b ha hb
