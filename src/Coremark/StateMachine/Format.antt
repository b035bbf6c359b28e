-- ===== src/Coremark/StateMachine/Format.antt =====
-- The number formats of the state machine, and that a run over a word recognises exactly them.
pub mod Sound
pub mod Complete
pub mod Token
use len5_core.Common.{
  ℕ, zero, suc, ◌+◌, ◌-◌, ◌*◌, ◌/◌, ◌%◌, ◌^◌, ◌≤◌, ◌<◌, ◌≡◌, refl, sym, ap, ◌∙◌, ◌≢◌, ◌↔◌, ◌⊎◌, inl,
  inr, Bool, true, false, not, ◌&&◌, ◌||◌, Option, none, some, List, [], ◌∷◌, ◌++◌, map, arith,
  dec_lt, ℕ_discrete, ltb, leb, ◌==◌, if◌then◌else◌, ◌>>=◌, Bool-cases, Option-cases, some_inj,
  length, get_or, set, take, drop, replicate, All,
}
use len5_core.Coremark.StateMachine.{
  core_scientific, is_sign, core_float, is_digit, is_letter_e, CoreState, Counts, step,
}

-- The next state does not depend on the counters.
abbrev pub next : CoreState → ℕ → CoreState
next s c = (step s c (λ t. 0)).0

pub run : CoreState → List ℕ → CoreState
run s [] = s
run s (c ∷ w) = run (next s c) w

pub run-append : (s : CoreState) (v w : List ℕ) → run s (v ++ w) ≡ run (run s v) w
unfolding run
run-append s [] w = refl
run-append s (c ∷ v) w = run-append (next s c) v w

-- Decimal digits.
abbrev pub Digits : List ℕ → Type 0
Digits = All (λ c. is_digit c ≡ true)

abbrev pub Digits1 : List ℕ → Type 0
Digits1 w = Digits w × (w ≢ [])

-- At most one sign.
abbrev pub Sign : List ℕ → Type 0
Sign w = (w ≡ []) ⊎ ((c : ℕ) × (is_sign c ≡ true) × (w ≡ c ∷ []))

-- A letter e, a sign and at least one digit.
abbrev pub Exponent : List ℕ → Type 0
Exponent w =
    (c s : ℕ) × (fs : List ℕ) × (is_letter_e c ≡ true)
    × (is_sign s ≡ true)
    × Digits1 fs
    × (w ≡ c ∷ s ∷ fs)

abbrev pub IntFormat : List ℕ → Type 0
IntFormat w = (sg ds : List ℕ) × Sign sg × Digits1 ds × (w ≡ sg ++ ds)

-- What follows the fraction: nothing, or an exponent.
abbrev pub Suffix : Bool → List ℕ → Type 0
Suffix false w = w ≡ []
Suffix true w = Exponent w

abbrev pub Fraction : Bool → List ℕ → Type 0
Fraction with_exponent w = (es x : List ℕ) × Digits es × Suffix with_exponent x × (w ≡ es ++ x)

abbrev pub PointFormat : Bool → List ℕ → Type 0
PointFormat with_exponent w =
    (sg ds f : List ℕ) × Sign sg × Digits ds × Fraction with_exponent f × (w ≡ sg ++ (ds ++ 46 ∷ f))

abbrev pub target : Bool → CoreState
target false = core_float
target true = core_scientific
