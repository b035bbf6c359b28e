-- ===== src/Coremark/StateMachine/Format/Sound.antt =====
-- A word that runs to a state has its format.
use len5_core.Common.{
  ℕ, suc, ◌≤◌, ◌<◌, ◌≡◌, refl, sym, ap, ◌∙◌, ◌≢◌, ◌⊎◌, inl, inr, Bool, true, false, List, [], ◌∷◌,
  ◌++◌, arith, length,
}
use len5_core.Coremark.StateMachine.{
  core_start, core_s1, core_s2, core_int, core_float, core_exponent, core_scientific, core_invalid,
  is_digit, is_sign, is_letter_e, CoreState, step,
}
use len5_core.Coremark.StateMachine.Format.{
  next, run, Digits, Digits1, Exponent, IntFormat, Suffix, Fraction, PointFormat, target,
}

-- No step leads to a lower level.
abbrev level : CoreState → ℕ
level core_start = 0
level core_s1 = 1
level core_int = 2
level core_float = 3
level core_s2 = 4
level core_exponent = 5
level core_scientific = 6
level core_invalid = 7

level-next : (s : CoreState) (c : ℕ) → level s ≤ level (next s c)
unfolding step
level-next core_start c = omega arith
level-next core_s1 c = ground arith
level-next core_int c = ground arith
level-next core_float c = ground arith
level-next core_s2 c = ground arith
level-next core_exponent c = ground arith
level-next core_scientific c = ground arith
level-next core_invalid c = ground arith

level-run : (s : CoreState) (w : List ℕ) → level s ≤ level (run s w)
unfolding run
level-run s [] = omega arith
level-run s (c ∷ w) = omega (arith, level-next s c, level-run (next s c) w)

-- A run does not come to a state of a lower level.
no_way : (s t : CoreState) (w : List ℕ) → level t < level s → run s w ≢ t
no_way s t w lower e =
    let same : level (run s w) ≡ level t = ap level e in omega (arith, same, level-run s w)

along :
    {t u : CoreState} (s : CoreState) (c : ℕ) (w : List ℕ)
    → next s c ≡ t
    → run s (c ∷ w) ≡ u
    → run t w ≡ u
unfolding run
along s c w n e = sym (ap (λ s. run s w) n) ∙ e

-- The steps from each state.
start_step :
    (c : ℕ)
    → ((is_digit c ≡ true) × (next core_start c ≡ core_int))
      ⊎ (((is_sign c ≡ true) × (next core_start c ≡ core_s1))
          ⊎ (((c ≡ 46) × (next core_start c ≡ core_float)) ⊎ (next core_start c ≡ core_invalid)))
unfolding step is_digit
start_step c = ground arith

s1_step :
    (c : ℕ)
    → ((is_digit c ≡ true) × (next core_s1 c ≡ core_int))
      ⊎ (((c ≡ 46) × (next core_s1 c ≡ core_float)) ⊎ (next core_s1 c ≡ core_invalid))
unfolding step is_digit
s1_step c = ground arith

int_step :
    (c : ℕ)
    → ((is_digit c ≡ true) × (next core_int c ≡ core_int))
      ⊎ (((c ≡ 46) × (next core_int c ≡ core_float)) ⊎ (next core_int c ≡ core_invalid))
unfolding step is_digit
int_step c = ground arith

float_step :
    (c : ℕ)
    → ((is_digit c ≡ true) × (next core_float c ≡ core_float))
      ⊎ (((is_letter_e c ≡ true) × (next core_float c ≡ core_s2))
          ⊎ (next core_float c ≡ core_invalid))
unfolding step is_digit
float_step c = ground arith

s2_step :
    (c : ℕ)
    → ((is_sign c ≡ true) × (next core_s2 c ≡ core_exponent)) ⊎ (next core_s2 c ≡ core_invalid)
unfolding step
s2_step c = ground arith

exponent_step :
    (c : ℕ)
    → ((is_digit c ≡ true) × (next core_exponent c ≡ core_scientific))
      ⊎ (next core_exponent c ≡ core_invalid)
unfolding step is_digit
exponent_step c = ground arith

scientific_step :
    (c : ℕ)
    → ((is_digit c ≡ true) × (next core_scientific c ≡ core_scientific))
      ⊎ (next core_scientific c ≡ core_invalid)
unfolding step is_digit
scientific_step c = ground arith

cons_not_nil : (c : ℕ) (w : List ℕ) → (c ∷ w) ≢ []
cons_not_nil c w e = let no : suc (length w) ≡ 0 = ap length e in omega (arith, no)

module _ (c : ℕ) (w : List ℕ) where
  -- From invalid no state of a number is reached.
  dead : (s t : CoreState) → level t < 7 → next s c ≡ core_invalid → run s (c ∷ w) ≢ t
  dead s t lower n e = no_way core_invalid t w lower (along _ c w n e)

int-Digits : (w : List ℕ) → run core_int w ≡ core_int → Digits w
int-Digits [] e = tt
int-Digits (c ∷ w) e = elim (int_step c) [
  | inl (h, n) ↦ (h, int-Digits w (along _ c w n e))
  | inr (inl (p, n)) ↦ absurd (no_way core_float core_int w (omega arith) (along _ c w n e))
  | inr (inr n) ↦ absurd (dead c w core_int core_int (omega arith) n e)
]

scientific-Digits : (w : List ℕ) → run core_scientific w ≡ core_scientific → Digits w
scientific-Digits [] e = tt
scientific-Digits (c ∷ w) e = elim (scientific_step c) [
  | inl (h, n) ↦ (h, scientific-Digits w (along _ c w n e))
  | inr n ↦ absurd (dead c w core_scientific core_scientific (omega arith) n e)
]

exponent-Digits1 : (w : List ℕ) → run core_exponent w ≡ core_scientific → Digits1 w
unfolding run
exponent-Digits1 [] e = absurd (no_way core_scientific core_exponent [] (omega arith) (sym e))
exponent-Digits1 (c ∷ w) e = elim (exponent_step c) [
  | inl (h, n) ↦ ((h, scientific-Digits w (along _ c w n e)), cons_not_nil c w)
  | inr n ↦ absurd (dead c w core_exponent core_scientific (omega arith) n e)
]

letter-Exponent :
    (c : ℕ) (w : List ℕ) → is_letter_e c ≡ true → run core_s2 w ≡ core_scientific → Exponent (c ∷ w)
unfolding run
letter-Exponent c [] h e = absurd (no_way core_scientific core_s2 [] (omega arith) (sym e))
letter-Exponent c (s ∷ w) h e = elim (s2_step s) [
  | inl (hs, n) ↦ (c, s, w, h, hs, exponent-Digits1 w (along _ s w n e), refl)
  | inr n ↦ absurd (dead s w core_s2 core_scientific (omega arith) n e)
]

-- The word behind the point.
float_nil : (b : Bool) → run core_float [] ≡ target b → Suffix b []
unfolding run
float_nil false e = refl
float_nil true e = absurd (no_way core_scientific core_float [] (omega arith) (sym e))

float_letter :
    (b : Bool) (c : ℕ) (w : List ℕ)
    → is_letter_e c ≡ true
    → run core_s2 w ≡ target b
    → Suffix b (c ∷ w)
float_letter false c w h e = absurd (no_way core_s2 core_float w (omega arith) e)
float_letter true c w h e = letter-Exponent c w h e

target_low : (b : Bool) → level (target b) < 7
target_low false = omega arith
target_low true = omega arith

float-Fraction : (b : Bool) (w : List ℕ) → run core_float w ≡ target b → Fraction b w
float-Fraction b [] e = ([], [], tt, float_nil b e, refl)
float-Fraction b (c ∷ w) e = elim (float_step c) [
  | inl (h, n) ↦
      let (es, x, d, suffix, eq) = float-Fraction b w (along _ c w n e) in
      (c ∷ es, x, (h, d), suffix, ap (λ v. c ∷ v) eq)
  | inr (inl (h, n)) ↦ ([], c ∷ w, tt, float_letter b c w h (along _ c w n e), refl)
  | inr (inr n) ↦ absurd (dead c w core_float (target b) (target_low b) n e)
]

-- Digits, a point and a fraction.
abbrev Decimal : Bool → List ℕ → Type 0
Decimal b w = (ds f : List ℕ) × Digits ds × Fraction b f × (w ≡ ds ++ 46 ∷ f)

int-Decimal : (b : Bool) (w : List ℕ) → run core_int w ≡ target b → Decimal b w
unfolding run
int-Decimal false [] e = absurd (no_way core_float core_int [] (omega arith) (sym e))
int-Decimal true [] e = absurd (no_way core_scientific core_int [] (omega arith) (sym e))
int-Decimal b (c ∷ w) e = elim (int_step c) [
  | inl (h, n) ↦
      let (ds, f, d, fraction, eq) = int-Decimal b w (along _ c w n e) in
      (c ∷ ds, f, (h, d), fraction, ap (λ v. c ∷ v) eq)
  | inr (inl (p, n)) ↦ ([], w, tt, float-Fraction b w (along _ c w n e), ap (λ a. a ∷ w) p)
  | inr (inr n) ↦ absurd (dead c w core_int (target b) (target_low b) n e)
]

-- Behind a digit.
digit-Decimal :
    (b : Bool) (c : ℕ) (w : List ℕ)
    → is_digit c ≡ true
    → run core_int w ≡ target b
    → Decimal b (c ∷ w)
digit-Decimal b c w h e =
    let (ds, f, d, fraction, eq) = int-Decimal b w e in
    (c ∷ ds, f, (h, d), fraction, ap (λ v. c ∷ v) eq)

s1-Decimal : (b : Bool) (w : List ℕ) → run core_s1 w ≡ target b → Decimal b w
unfolding run
s1-Decimal false [] e = absurd (no_way core_float core_s1 [] (omega arith) (sym e))
s1-Decimal true [] e = absurd (no_way core_scientific core_s1 [] (omega arith) (sym e))
s1-Decimal b (c ∷ w) e = elim (s1_step c) [
  | inl (h, n) ↦ digit-Decimal b c w h (along _ c w n e)
  | inr (inl (p, n)) ↦ ([], w, tt, float-Fraction b w (along _ c w n e), ap (λ a. a ∷ w) p)
  | inr (inr n) ↦ absurd (dead c w core_s1 (target b) (target_low b) n e)
]

unsigned : (b : Bool) (w : List ℕ) → Decimal b w → PointFormat b w
unsigned b w (ds, f, d, fraction, eq) = ([], ds, f, inl refl, d, fraction, eq)

pub PointFormat-run : (b : Bool) (w : List ℕ) → run core_start w ≡ target b → PointFormat b w
unfolding run
PointFormat-run false [] e = absurd (no_way core_float core_start [] (omega arith) (sym e))
PointFormat-run true [] e = absurd (no_way core_scientific core_start [] (omega arith) (sym e))
PointFormat-run b (c ∷ w) e = elim (start_step c) [
  | inl (h, n) ↦ unsigned b (c ∷ w) (digit-Decimal b c w h (along _ c w n e))
  | inr (inl (h, n)) ↦
      let (ds, f, d, fraction, eq) = s1-Decimal b w (along _ c w n e) in
      (c ∷ [], ds, f, inr (c, h, refl), d, fraction, ap (λ v. c ∷ v) eq)
  | inr (inr (inl (p, n))) ↦
      unsigned b (c ∷ w) ([], w, tt, float-Fraction b w (along _ c w n e), ap (λ a. a ∷ w) p)
  | inr (inr (inr n)) ↦ absurd (dead c w core_start (target b) (target_low b) n e)
]

s1-Digits1 : (w : List ℕ) → run core_s1 w ≡ core_int → Digits1 w
unfolding run
s1-Digits1 [] e = absurd (no_way core_int core_s1 [] (omega arith) (sym e))
s1-Digits1 (c ∷ w) e = elim (s1_step c) [
  | inl (h, n) ↦ ((h, int-Digits w (along _ c w n e)), cons_not_nil c w)
  | inr (inl (p, n)) ↦ absurd (no_way core_float core_int w (omega arith) (along _ c w n e))
  | inr (inr n) ↦ absurd (dead c w core_s1 core_int (omega arith) n e)
]

pub IntFormat-run : (w : List ℕ) → run core_start w ≡ core_int → IntFormat w
unfolding run
IntFormat-run [] e = absurd (no_way core_int core_start [] (omega arith) (sym e))
IntFormat-run (c ∷ w) e = elim (start_step c) [
  | inl (h, n) ↦
      ([], c ∷ w, inl refl, ((h, int-Digits w (along _ c w n e)), cons_not_nil c w), refl)
  | inr (inl (h, n)) ↦ (c ∷ [], w, inr (c, h, refl), s1-Digits1 w (along _ c w n e), refl)
  | inr (inr (inl (p, n))) ↦ absurd (no_way core_float core_int w (omega arith) (along _ c w n e))
  | inr (inr (inr n)) ↦ absurd (dead c w core_start core_int (omega arith) n e)
]
