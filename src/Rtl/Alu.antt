-- ===== src/Rtl/Alu.antt =====
-- The arithmetic unit rtl/expipe/exec-units/alu.sv, with the output register left out (SKIP_REG is
-- 1): a combinational circuit on patterns of 64 bits, with an adder of 65 bits and one shifter to
-- the right of 65 bits, whose operand and result are reversed for the shifts to the left.
pub mod Reverse
pub mod Result
pub mod Unit
mod Tests
use Prim.Native.Nat.{bit_and, bit_or, bit_xor}
use len5_core.Common.{
  ℕ, zero, suc, ◌+◌, ◌-◌, ◌*◌, ◌/◌, ◌%◌, ◌^◌, ◌≤◌, ◌<◌, ◌≡◌, refl, sym, ap, ◌∙◌, ◌≢◌, ◌↔◌, ◌⊎◌, inl,
  inr, Bool, true, false, not, ◌&&◌, ◌||◌, Option, none, some, List, [], ◌∷◌, ◌++◌, map, arith,
  dec_lt, ℕ_discrete, ltb, leb, ◌==◌, if◌then◌else◌, ◌>>=◌, Bool-cases, Option-cases, some_inj,
  length, get_or, set, take, drop, replicate, All,
}
use len5_core.Isa.{
  AluCtl, alu_add, alu_addw, alu_sub, alu_subw, alu_and, alu_or, alu_xor, alu_sll, alu_sllw,
  alu_srl, alu_srlw, alu_sra, alu_sraw, alu_slt, alu_sltu, unknown,
}

-- `~x`.
abbrev pub invert : ℕ → ℕ
invert x = 2 ^ 64 - 1 - x

-- `{{32{x[31]}}, x[31:0]}`.
unfoldable pub extend_sign : ℕ → ℕ
extend_sign x =
    let low = x % 2 ^ 32 in if ltb low (2 ^ 31) then low else (2 ^ 32 - 1) * 2 ^ 32 + low

-- The operands of the adder and its carry-in: `adder_op_mux`.
pub adder_operands : AluCtl → (rs1 rs2 : ℕ) → ℕ × ℕ × ℕ
adder_operands alu_sub a b = (a, invert b, 1)
adder_operands alu_slt a b = (a, invert b, 1)
adder_operands alu_sltu a b = (a, invert b, 1)
adder_operands alu_addw a b = (extend_sign a, extend_sign b, 0)
adder_operands alu_subw a b = (extend_sign a, invert (extend_sign b), 1)
adder_operands _ a b = (a, b, 0)

-- `{adder_cout, adder_res}`.
unfoldable pub adder : AluCtl → (rs1 rs2 : ℕ) → ℕ
adder ctl a b = let o = adder_operands ctl a b in (o.0 + o.1 + o.2) % 2 ^ 65

abbrev pub adder_res : AluCtl → (rs1 rs2 : ℕ) → ℕ
adder_res ctl a b = adder ctl a b % 2 ^ 64

abbrev pub adder_cout : AluCtl → (rs1 rs2 : ℕ) → ℕ
adder_cout ctl a b = adder ctl a b / 2 ^ 64

-- The generated loops `gen_shift_a_rev` and `gen_shift_res_rev`: the bit `i` of `x` becomes the bit
-- `bits - 1 - i`.
pub reversed : (bits x : ℕ) → ℕ
reversed zero x = 0
reversed (suc bits) x = x % 2 * 2 ^ bits + reversed bits (x / 2)

-- `shifter_a_mux`.
unfoldable pub shifter_a : AluCtl → (rs1 : ℕ) → ℕ
shifter_a alu_srl a = a
shifter_a alu_sra a = a / 2 ^ 63 * 2 ^ 64 + a
shifter_a alu_sllw a = reversed 64 a / 2 ^ 32 * 2 ^ 32
shifter_a alu_srlw a = a % 2 ^ 32
shifter_a alu_sraw a = a / 2 ^ 31 % 2 * ((2 ^ 33 - 1) * 2 ^ 32) + a % 2 ^ 32
shifter_a _ a = reversed 64 a

-- `shamt_mux`.
unfoldable pub shifter_shamt : AluCtl → (rs2 : ℕ) → ℕ
shifter_shamt alu_sllw b = b % 2 ^ 5
shifter_shamt alu_srlw b = b % 2 ^ 5
shifter_shamt alu_sraw b = b % 2 ^ 5
shifter_shamt _ b = b % 2 ^ 6

-- The arithmetic shifter to the right of 65 bits.
unfoldable pub shifter : (a shamt : ℕ) → ℕ
shifter a shamt =
    if ltb a (2 ^ 64) then a / 2 ^ shamt else 2 ^ 65 - 1 - (2 ^ 65 - 1 - a) / 2 ^ shamt

unfoldable pub shifter_res : AluCtl → (rs1 rs2 : ℕ) → ℕ
shifter_res ctl a b = shifter (shifter_a ctl a) (shifter_shamt ctl b)

unfoldable pub shifter_res_rev : AluCtl → (rs1 rs2 : ℕ) → ℕ
shifter_res_rev ctl a b = reversed 64 (shifter_res ctl a b)

-- `comp_mux`.
pub is_less : AluCtl → (rs1 rs2 : ℕ) → ℕ
is_less alu_slt a b = if a / 2 ^ 63 == b / 2 ^ 63 then 1 - adder_cout alu_slt a b else a / 2 ^ 63
is_less ctl a b = 1 - adder_cout ctl a b

-- `result_mux`.
unfoldable pub result : AluCtl → (rs1 rs2 : ℕ) → ℕ
result alu_addw a b = extend_sign (adder_res alu_addw a b)
result alu_subw a b = extend_sign (adder_res alu_subw a b)
result alu_and a b = bit_and a b
result alu_or a b = bit_or a b
result alu_xor a b = bit_xor a b
result alu_sll a b = shifter_res_rev alu_sll a b
result alu_sllw a b = extend_sign (shifter_res_rev alu_sllw a b)
result alu_srl a b = shifter_res alu_srl a b % 2 ^ 64
result alu_sra a b = shifter_res alu_sra a b % 2 ^ 64
result alu_sraw a b = shifter_res alu_sraw a b % 2 ^ 64
result alu_srlw a b = extend_sign (shifter_res alu_srlw a b)
result alu_slt a b = is_less alu_slt a b
result alu_sltu a b = is_less alu_sltu a b
result alu_add a b = adder_res alu_add a b
result alu_sub a b = adder_res alu_sub a b
result unknown a b = adder_res unknown a b
