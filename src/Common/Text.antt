-- ===== src/Common/Text.antt =====
-- Numbers as text, and the codes of a text.
use Prim.Native.Nat.{ℕ, zero, suc, ◌+◌, ◌/◌, ◌%◌, ◌≤◌, ◌<◌}
use Prim.Native.Char.{code}
use Prim.Native.String.{String, [], ◌∷◌, ◌++◌, len, slice}
use text.Mathlib.TextPositions.{len-append}
use mathlib.Core.Path.{◌≡◌, refl}
use mathlib.Core.Logic.{inl, inr}
use mathlib.Core.List.{List}
use native.Mathlib.Omega.{arith}
use len5_core.Common.Tests.{ltb, ltb→lt, if◌then◌else◌, Bool-cases}

-- `%u` and `%lu`: at most 20 digits.
abbrev pub digit : ℕ → String
digit d = slice "0123456789" d (d + 1)

unfoldable pub decimal_loop : (fuel n : ℕ) → String → String
decimal_loop zero n s = s
decimal_loop (suc fuel) n s =
    let longer = decimal_loop fuel (n / 10) (digit (n % 10) ++ s) in
    if ltb n 10 then digit n ++ s else longer

unfoldable pub decimal : ℕ → String
unfolding decimal_loop
decimal n = decimal_loop 20 n ""

digit-len : (d : ℕ) → d < 10 → len (digit d) ≡ 1
digit-len zero h = refl
digit-len (suc zero) h = refl
digit-len (suc (suc zero)) h = refl
digit-len (suc (suc (suc zero))) h = refl
digit-len (suc (suc (suc (suc zero)))) h = refl
digit-len (suc (suc (suc (suc (suc zero))))) h = refl
digit-len (suc (suc (suc (suc (suc (suc zero)))))) h = refl
digit-len (suc (suc (suc (suc (suc (suc (suc zero))))))) h = refl
digit-len (suc (suc (suc (suc (suc (suc (suc (suc zero)))))))) h = refl
digit-len (suc (suc (suc (suc (suc (suc (suc (suc (suc zero))))))))) h = refl
digit-len (suc (suc (suc (suc (suc (suc (suc (suc (suc (suc n)))))))))) h = absurd (omega arith)

decimal_loop-len : (fuel n : ℕ) (s : String) → len (decimal_loop fuel n s) ≤ fuel + len s
unfolding decimal_loop
decimal_loop-len zero n s = omega arith
decimal_loop-len (suc fuel) n s = elim (Bool-cases (ltb n 10)) [
  | inl h ↦ rw h (omega (arith, len-append (digit n) s, digit-len n (ltb→lt n 10 h)))
  | inr h ↦ rw h (
      omega (
        arith,
        decimal_loop-len fuel (n / 10) (digit (n % 10) ++ s),
        len-append (digit (n % 10)) s,
        digit-len (n % 10) (omega arith),
      ))
]

pub decimal-len : (n : ℕ) → len (decimal n) ≤ 20
unfolding decimal
decimal-len n = decimal_loop-len 20 n ""

-- The codes of the characters, in front of others.
unfoldable pub codes_before : String → List ℕ → List ℕ
codes_before [] rest = rest
codes_before (c ∷ s) rest = List.◌∷◌ (code c) (codes_before s rest)
