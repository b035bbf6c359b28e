-- ===== src/Rtl/IntRegstat/Writers.antt =====
-- The instructions in flight that write a register, oldest first.
use mathlib.Core.Path.{subst}
use len5_core.Common.{
  ne→==, ℕ, ◌+◌, ◌-◌, ◌≤◌, ◌≡◌, refl, sym, ap, ◌∙◌, ◌≢◌, ◌⊎◌, inl, inr, Bool, false, Option, none,
  some, List, [], ◌∷◌, ◌++◌, arith, ◌==◌, if◌then◌else◌, Bool-cases,
}

pub record Writer : Type 0 where
  pub rd : ℕ
  pub rob_idx : ℕ

-- How many of them write a register, and the entry of the newest.
abbrev pub writers : (r : ℕ) → List Writer → ℕ
writers r [] = 0
writers r (w ∷ q) = (if w.rd == r then 1 else 0) + writers r q

abbrev newer : Option ℕ → Option ℕ → Option ℕ
newer (some x) o = some x
newer none o = o

abbrev pub newest : (r : ℕ) → List Writer → Option ℕ
newest r [] = none
newest r (w ∷ q) = newer (newest r q) (if w.rd == r then some w.rob_idx else none)

-- The oldest writer of a register is taken out.
abbrev pub remove_first : (r : ℕ) → List Writer → List Writer
remove_first r [] = []
remove_first r (w ∷ q) = if w.rd == r then q else w ∷ remove_first r q

newer-none : (o : Option ℕ) → newer o none ≡ o
newer-none none = refl
newer-none (some x) = refl

module _ (r : ℕ) where
  pub writers-append :
      (q : List Writer) (w : Writer)
      → writers r (q ++ w ∷ []) ≡ writers r q + (if w.rd == r then 1 else 0)
  writers-append [] w = omega arith
  writers-append (v ∷ q) w = omega (arith, writers-append q w)

  pub newest-append :
      (q : List Writer) (w : Writer)
      → newest r (q ++ w ∷ []) ≡ (if w.rd == r then some w.rob_idx else newest r q)
  newest-append [] w = refl
  newest-append (v ∷ q) w =
      rw (newest-append q w)
        (elim (Bool-cases (w.rd == r)) [ inl e ↦ rw e refl | inr e ↦ rw e refl ])

  -- A register has a newest writer just when it has one.
  pub newest-writers :
      (q : List Writer)
      → ((newest r q ≡ none) × (writers r q ≡ 0))
        ⊎ ((x : ℕ) × (newest r q ≡ some x) × (1 ≤ writers r q))
  newest-writers [] = inl (refl, refl)
  newest-writers (w ∷ q) = elim (newest-writers q) [
    | inl (e, none_writes) ↦ elim (Bool-cases (w.rd == r)) [
      | inl on ↦ inr (w.rob_idx, rw (e, on) refl, rw on (omega arith))
      | inr off ↦ inl (rw (e, off) refl, rw off (omega (arith, none_writes)))
    ]
    | inr (x, e, one_writes) ↦ inr (x, rw e refl, omega (arith, one_writes))
  ]

  pub writers-remove_self : (q : List Writer) → writers r (remove_first r q) ≡ writers r q - 1
  writers-remove_self [] = refl
  writers-remove_self (w ∷ q) = elim (Bool-cases (w.rd == r)) [
    | inl on ↦ rw on (omega arith)
    | inr off ↦ rw (off, off) (omega (arith, writers-remove_self q))
  ]

  pub writers-remove_ne :
      (s : ℕ) (q : List Writer) → r ≢ s → writers r (remove_first s q) ≡ writers r q
  writers-remove_ne s [] ne = refl
  writers-remove_ne s (w ∷ q) ne = elim (Bool-cases (w.rd == s)) [
    | inl on ↦ rw (on, ne→== w.rd r (ground (arith, on, ne))) (omega arith)
    | inr off ↦ rw off (omega (arith, writers-remove_ne s q ne))
  ]

  pub newest-remove_ne :
      (s : ℕ) (q : List Writer) → r ≢ s → newest r (remove_first s q) ≡ newest r q
  newest-remove_ne s [] ne = refl
  newest-remove_ne s (w ∷ q) ne = elim (Bool-cases (w.rd == s)) [
    | inl on ↦ rw (on, ne→== w.rd r (ground (arith, on, ne))) (sym (newer-none (newest r q)))
    | inr off ↦ rw off (
        ap (λ (o : Option ℕ). newer o (if w.rd == r then some w.rob_idx else none))
          (newest-remove_ne s q ne))
  ]

  -- Without its oldest writer a register has the newest that it had, if it has one.
  pub newest-remove_self :
      (q : List Writer) (x : ℕ) → newest r (remove_first r q) ≡ some x → newest r q ≡ some x
  newest-remove_self [] x h = h
  newest-remove_self (w ∷ q) x h = elim (Bool-cases (w.rd == r)) [
    | inl on ↦
        rw (subst (λ (b : Bool). newest r (if b then q else w ∷ remove_first r q) ≡ some x) on h)
          refl
    | inr off ↦ rw (newest-remove_self q x (same off)) refl
  ]
    where
      same : (w.rd == r) ≡ false → newest r (remove_first r q) ≡ some x
      same off =
          sym (newer-none (newest r (remove_first r q)))
          ∙ ap
              (λ (b : Bool).
                newer (newest r (remove_first r q)) (if b then some w.rob_idx else none))
              (sym off)
          ∙ subst (λ (b : Bool). newest r (if b then q else w ∷ remove_first r q) ≡ some x) off h
