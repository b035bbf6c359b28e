-- ===== src/Coremark/StateMachine/Format/Complete.antt =====
-- A word in one of the formats runs to its state.
use len5_core.Common.{
  ℕ, suc, ◌≡◌, refl, ap, ◌∙◌, ◌≢◌, ◌⊎◌, inl, inr, Bool, true, false, List, [], ◌∷◌, ◌++◌, arith,
  length,
}
use len5_core.Coremark.StateMachine.{
  core_s2, core_s1, core_scientific, core_exponent, core_float, is_letter_e, core_start, is_sign,
  is_point, is_digit, core_int, CoreState, step,
}
use len5_core.Coremark.StateMachine.Format.{
  next, run, run-append, Digits, Digits1, Sign, IntFormat, Suffix, PointFormat, target,
}

digit_not_sign : (c : ℕ) → is_digit c ≡ true → is_sign c ≡ false
unfolding is_digit
digit_not_sign c h = ground arith

digit_not_point : (c : ℕ) → is_digit c ≡ true → is_point c ≡ false
unfolding is_digit
digit_not_point c h = ground arith

digit_not_letter : (c : ℕ) → is_digit c ≡ true → is_letter_e c ≡ false
unfolding is_digit
digit_not_letter c h = ground arith

sign_not_digit : (c : ℕ) → is_sign c ≡ true → is_digit c ≡ false
unfolding is_digit
sign_not_digit c h = ground arith

keep_int : (ds : List ℕ) → Digits ds → run core_int ds ≡ core_int
unfolding run step is_digit
keep_int [] d = refl
keep_int (c ∷ ds) (h, d) =
    let here : next core_int c ≡ core_int = ground (arith, h) in rw here (keep_int ds d)

keep_float : (ds : List ℕ) → Digits ds → run core_float ds ≡ core_float
unfolding run step is_digit
keep_float [] d = refl
keep_float (c ∷ ds) (h, d) =
    let here : next core_float c ≡ core_float = ground (arith, h) in rw here (keep_float ds d)

keep_scientific : (ds : List ℕ) → Digits ds → run core_scientific ds ≡ core_scientific
unfolding run step is_digit
keep_scientific [] d = refl
keep_scientific (c ∷ ds) (h, d) =
    let here : next core_scientific c ≡ core_scientific = ground (arith, h) in
    rw here (keep_scientific ds d)

int_of_digits :
    (s : CoreState) (ds : List ℕ)
    → (s ≡ core_start) ⊎ (s ≡ core_s1)
    → Digits1 ds
    → run s ds ≡ core_int
unfolding run step is_digit
int_of_digits s [] from (d, some_digit) = absurd (some_digit refl)
int_of_digits s (c ∷ ds) from ((h, d), some_digit) =
    let here : next s c ≡ core_int = elim from [
      | inl e ↦ rw e (ground (arith, h))
      | inr e ↦ rw e (ground (arith, h))
    ] in
    rw here (keep_int ds d)

-- The state after the optional sign.
after_optional :
    (sg : List ℕ) → Sign sg → (run core_start sg ≡ core_start) ⊎ (run core_start sg ≡ core_s1)
unfolding run step is_digit
after_optional sg (inl e) = inl (rw e refl)
after_optional sg (inr (c, h, e)) =
    let here : next core_start c ≡ core_s1 = ground (arith, h) in inr (rw e here)

pub run-IntFormat : (w : List ℕ) → IntFormat w → run core_start w ≡ core_int
run-IntFormat w (sg, ds, s, d, e) =
    ap (run core_start) e
    ∙ run-append core_start sg ds
    ∙ int_of_digits (run core_start sg) ds (after_optional sg s) d

-- Digits and a point lead from the start, and from behind a sign, to the fraction.
to_point :
    (s : CoreState) (ds : List ℕ)
    → (s ≡ core_start) ⊎ (s ≡ core_s1)
    → Digits ds
    → next (run s ds) 46 ≡ core_float
unfolding run step is_digit
to_point s [] from d = elim from [ inl e ↦ rw e refl | inr e ↦ rw e refl ]
to_point s (c ∷ ds) from (h, d) =
    let here =
      int_of_digits s (c ∷ ds) from
        ((h, d), λ e. (let no : suc (length ds) ≡ 0 = ap length e in absurd (omega (arith, no)))) in
    rw here refl

from_exponent : (fs : List ℕ) → Digits fs → fs ≢ [] → run core_exponent fs ≡ core_scientific
unfolding run step is_digit
from_exponent [] d some_digit = absurd (some_digit refl)
from_exponent (c ∷ fs) (h, d) some_digit =
    let here : next core_exponent c ≡ core_scientific = ground (arith, h) in
    rw here (keep_scientific fs d)

run-Suffix : (b : Bool) (x : List ℕ) → Suffix b x → run core_float x ≡ target b
unfolding run step is_digit
run-Suffix false x e = rw e refl
run-Suffix true x (c, s, fs, hc, hs, (d, some_digit), e) =
    let first : next core_float c ≡ core_s2 = ground (arith, hc) in
    let second : next core_s2 s ≡ core_exponent = ground (arith, hs) in
    rw e (rw (first, second) (from_exponent fs d some_digit))

pub run-PointFormat : (b : Bool) (w : List ℕ) → PointFormat b w → run core_start w ≡ target b
unfolding run
run-PointFormat b w (sg, ds, f, s, d, (es, x, de, suffix, ef), e) =
    ap (run core_start) e
    ∙ run-append core_start sg (ds ++ 46 ∷ f)
    ∙ run-append (run core_start sg) ds (46 ∷ f)
    ∙ ap (λ t. run t f) (to_point (run core_start sg) ds (after_optional sg s) d)
    ∙ ap (run core_float) ef
    ∙ run-append core_float es x
    ∙ ap (λ t. run t x) (keep_float es de)
    ∙ run-Suffix b x suffix
