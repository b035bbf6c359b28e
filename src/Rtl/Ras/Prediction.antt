-- ===== src/Rtl/Ras/Prediction.antt =====
-- What the return address stack predicts in the course of a run.
use len5_core.Common.{
  ltb→lt, get_elem?, ℕ, ◌-◌, ◌<◌, ◌≡◌, refl, sym, inl, inr, Option, none, some, List, [], ◌∷◌,
  arith, ltb, if◌then◌else◌, Bool-cases, length,
}
use len5_core.Rtl.Ras.{Ras, RasInputs, ras_edge, ras_reset, ras_valid, ret_addr}
use len5_core.Rtl.Ras.Entries.{Entries, ras_valid-Entries, ret_addr-Entries}
use len5_core.Rtl.Ras.Stack.{Stacks, stacks_edge, IsRas, ras_edge-IsRas, ras_reset-IsRas}

-- The newest address of a list, if it has one.
abbrev pub newest : List ℕ → Option ℕ
newest s = get_elem? s (length s - 1)

newest-empty : (s : List ℕ) → length s ≡ 0 → newest s ≡ none
newest-empty [] h = refl
newest-empty (x ∷ s) h = absurd (omega (arith, h))

module _ (depth : ℕ) where
  -- The registers after a run of edges, and the abstract stacks after it.
  pub ras_run : Ras → List RasInputs → Ras
  ras_run r [] = r
  ras_run r (i ∷ is) = ras_run (ras_edge depth r i) is

  pub stacks_run : Stacks → List RasInputs → Stacks
  stacks_run t [] = t
  stacks_run t (i ∷ is) = stacks_run (stacks_edge depth t i) is

  ras_run-IsRas :
      (r : Ras) (t : Stacks) (is : List RasInputs)
      → 0 < depth
      → IsRas depth r t
      → IsRas depth (ras_run r is) (stacks_run t is)
  unfolding ras_run stacks_run
  ras_run-IsRas r t [] positive h = h
  ras_run-IsRas r t (i ∷ is) positive h =
      ras_run-IsRas (ras_edge depth r i) (stacks_edge depth t i) is positive
        (ras_edge-IsRas depth r t i positive h)

  -- `ret_addr_o` while `valid_o`.
  abbrev pub prediction : Ras → Option ℕ
  prediction r = if ras_valid depth r then some (ret_addr depth r) else none

  prediction-Entries :
      (r : Ras) (s : List ℕ) → Entries depth r.ras_valid_q r.ras_addr_q s → prediction r ≡ newest s
  prediction-Entries r s h = elim (Bool-cases (ltb 0 (length s))) [
    | inl e ↦
        rw (ras_valid-Entries depth r.ras_valid_q r.ras_addr_q s h, e)
          (sym (ret_addr-Entries depth r.ras_valid_q r.ras_addr_q s h (ltb→lt 0 (length s) e)))
    | inr e ↦
        rw (ras_valid-Entries depth r.ras_valid_q r.ras_addr_q s h, e)
          (sym (newest-empty s (ground (arith, e))))
  ]

  -- From a reset on, for a depth that is not 0 and whatever the addresses were, the prediction is at
  -- every edge the newest address of the abstract stack of at most `depth` addresses.
  pub ras_run-prediction :
      (r : Ras) (is : List RasInputs)
      → 0 < depth
      → prediction (ras_run (ras_reset depth r) is)
        ≡ newest (stacks_run (record { predicted = []; confirmed = [] }) is).predicted
  ras_run-prediction r is positive =
      let start : Stacks = record { predicted = []; confirmed = [] } in
      let held = ras_run-IsRas (ras_reset depth r) start is positive (ras_reset-IsRas depth r) in
      prediction-Entries (ras_run (ras_reset depth r) is) (stacks_run start is).predicted
        held.predicted_held
