-- ===== src/Isa.antt =====
-- What the instruction set means by the operations of the arithmetic unit, on 64-bit patterns: the
-- reference for the testbench under tb/expipe/alu and for rtl/expipe/exec-units/alu.sv.
use Prim.Native.Nat.{bit_and, bit_or, bit_xor}
use len5_core.Common.{
  ℕ, ◌+◌, ◌-◌, ◌*◌, ◌/◌, ◌%◌, ◌^◌, Bool, not, [], ◌∷◌, ltb, if◌then◌else◌, get_or,
}
use len5_core.Common.Int.{ℤ, pos, negsuc, leb_ℤ}

-- `alu_ctl_t` of rtl/packages/expipe_pkg.sv; `unknown` is a code that has no name.
pub data AluCtl : Type 0 where
  alu_add alu_addw alu_sub alu_subw alu_and alu_or alu_xor alu_sll : AluCtl
  alu_sllw alu_srl alu_srlw alu_sra alu_sraw alu_slt alu_sltu unknown : AluCtl

-- The enumerator with a value.
unfoldable pub alu_ctl_of : ℕ → AluCtl
alu_ctl_of n =
    get_or
      (alu_add ∷ alu_addw ∷ alu_sub ∷ alu_subw ∷ alu_and ∷ alu_or ∷ alu_xor ∷ alu_sll ∷ alu_sllw
        ∷ alu_srl ∷ alu_srlw ∷ alu_sra ∷ alu_sraw ∷ alu_slt ∷ alu_sltu ∷ [])
      n unknown

-- The integer that a pattern stands for in two's complement, and the pattern of an integer.
abbrev pub signed32 : ℕ → ℤ
signed32 x = if ltb x (2 ^ 31) then pos x else negsuc (2 ^ 32 - 1 - x)

abbrev pub signed64 : ℕ → ℤ
signed64 x = if ltb x (2 ^ 63) then pos x else negsuc (2 ^ 64 - 1 - x)

abbrev pub pattern64 : ℤ → ℕ
pattern64 (pos n) = n % 2 ^ 64
pattern64 (negsuc n) = 2 ^ 64 - 1 - n % 2 ^ 64

-- A word result: the low 32 bits, extended by their sign.
abbrev pub word : ℕ → ℕ
word x = pattern64 (signed32 (x % 2 ^ 32))

-- The shift to the right that rounds down.
abbrev pub shift_right : ℤ → ℕ → ℤ
shift_right (pos n) k = pos (n / 2 ^ k)
shift_right (negsuc n) k = negsuc (n / 2 ^ k)

abbrev pub truth : Bool → ℕ
truth b = if b then 1 else 0

unfoldable pub meaning : AluCtl → (rs1 rs2 : ℕ) → ℕ
meaning alu_add a b = (a + b) % 2 ^ 64
meaning alu_addw a b = word (a + b)
meaning alu_sub a b = (a + (2 ^ 64 - b)) % 2 ^ 64
meaning alu_subw a b = word (a + (2 ^ 64 - b))
meaning alu_and a b = bit_and a b
meaning alu_or a b = bit_or a b
meaning alu_xor a b = bit_xor a b
meaning alu_sll a b = a * 2 ^ (b % 64) % 2 ^ 64
meaning alu_sllw a b = word (a * 2 ^ (b % 32))
meaning alu_srl a b = a / 2 ^ (b % 64)
meaning alu_srlw a b = word (a % 2 ^ 32 / 2 ^ (b % 32))
meaning alu_sra a b = pattern64 (shift_right (signed64 a) (b % 64))
meaning alu_sraw a b = pattern64 (shift_right (signed32 (a % 2 ^ 32)) (b % 32))
meaning alu_slt a b = truth (not (leb_ℤ (signed64 b) (signed64 a)))
meaning alu_sltu a b = truth (ltb a b)
meaning unknown a b = (a + b) % 2 ^ 64
