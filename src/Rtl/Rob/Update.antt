-- ===== src/Rtl/Rob/Update.antt =====
-- The registers of the reorder buffer after an edge, as they are seen by the window.
use mathlib.Core.Path.{ap₂, fun_ext}
use native.Mathlib.Nat.{mod-eq-sub-mod}
use len5_core.Common.{
  ℕ, ◌+◌, ◌%◌, ◌^◌, ◌≤◌, ◌<◌, ◌≡◌, refl, ap, ◌∙◌, inl, inr, Bool, true, false, ◌&&◌, List, [], ◌∷◌,
  ◌++◌, arith, dec_lt, ◌==◌, if◌then◌else◌, Bool-cases, length,
}
use len5_core.Rtl.Counter.{index, modn_counter}
use len5_core.Rtl.Rob.{
  RobEntry, CdbData, completed, Rob, RobInputs, next_entry, next_valid, rob_update,
}
use len5_core.Rtl.Rob.Window.{
  Issued, issued_part, View, view, view_commit, view_push, Filled, Window,
}
use len5_core.Rtl.Rob.Allocate.{push-Empty, push-Filled}

-- The mark of the clear entry and a result leave what was issued alone.
issued_part-marked :
    (b : Bool) (e : RobEntry)
    → issued_part (if b then record e { mem_clear = true } else e) ≡ issued_part e
issued_part-marked true e = refl
issued_part-marked false e = refl

issued_part-completed :
    (b s : Bool) (e : RobEntry) (c : CdbData)
    → issued_part (if b then e else if s then completed e c else e) ≡ issued_part e
issued_part-completed true s e c = refl
issued_part-completed false true e c = refl
issued_part-completed false false e c = refl

same_view :
    (v w : View)
    → v.head ≡ w.head
    → v.tail ≡ w.tail
    → v.work ≡ w.work
    → v.valid ≡ w.valid
    → v.issued ≡ w.issued
    → v ≡ w
same_view v w a b c d e =
    ap₂ (λ (h t : ℕ). record v { head = h; tail = t }) a b
    ∙ ap₂ (λ (k : ℕ) (l : ℕ → Bool). record w { work = k; valid = l; issued = v.issued }) c d
    ∙ ap (λ (l : ℕ → Issued). record w { issued = l }) e

next_head :
    (in_order pop : Bool) (a b : ℕ)
    → (if in_order && pop then a else b) ≡ (if pop then (if in_order then a else b) else b)
next_head true true a b = refl
next_head true false a b = refl
next_head false true a b = refl
next_head false false a b = refl

module _ (depth : ℕ) where
  -- The tail of a buffer without room is its head.
  Filled-room :
      (v : View) (gap : ℕ) (x : Issued) (rest : List Issued)
      → Filled depth v gap x rest
      → v.valid v.tail ≡ false
      → gap + length rest < depth
  Filled-room v gap x rest h free = elim (dec_lt (gap + length rest) depth) [
    | yes p ↦ p
    | no p ↦ absurd (ground (arith, free, taken p))
  ]
    where
      taken : ¬ (gap + length rest < depth) → v.valid v.tail ≡ true
      taken p =
          ap v.valid (
            h.tail_at
            ∙ mod-eq-sub-mod {n = v.head + (gap + length rest)} {m = depth}
                (omega (arith, p, h.fits))
            ∙ ap (λ (t : ℕ). t % depth) (omega (arith, p, h.fits)))
          ∙ h.valid_at 0 (omega (arith, h.head_in))

  pub push-Window :
      (v : View) (e : Issued) (q : List Issued)
      → 2 ≤ depth
      → Window depth v q
      → v.valid v.tail ≡ false
      → Window depth (view_push depth e v) (q ++ e ∷ [])
  unfolding Window
  push-Window v e [] two h free = (1, push-Empty depth v e h two)
  push-Window v e (x ∷ rest) two (gap, h) free =
      (gap, push-Filled depth v e gap x rest h (Filled-room v gap x rest h free))

  -- The view of the next registers.
  unfoldable pub moved : (push pop in_order : Bool) → Issued → View → View
  moved push pop in_order e v =
      let v' = if pop then view_commit depth in_order v else v in
      if push then view_push depth e v' else v'

  module _ (rob_idx_len : ℕ) where
    issued_part-next_entry :
        (push pop : Bool) (commit : ℕ) (r : Rob) (i : RobInputs) (k : ℕ)
        → issued_part (next_entry depth rob_idx_len push pop commit r i k) ≡ (
            if push && r.tail_idx == index depth k
            then issued_part i.issue_data_i
            else issued_part (r.entries k))
    unfolding next_entry
    issued_part-next_entry push pop commit r i k =
        let e = r.entries k in
        let from_push = push && r.tail_idx == index depth k in
        let from_pop = pop && commit == index depth k in
        let from_cdb = i.cdb_valid_i && i.cdb_data_i.rob_idx == k % 2 ^ rob_idx_len in
        issued_part-marked (r.data_valid r.clear_idx && r.clear_idx == k) (
          if from_push
          then i.issue_data_i
          else if from_pop
          then e
          else if from_cdb
          then completed e i.cdb_data_i
          else e)
        ∙ (elim (Bool-cases from_push) [
          | inl p ↦ rw p refl
          | inr p ↦ rw p (issued_part-completed from_pop from_cdb e i.cdb_data_i)
        ])

    moved_head :
        (push pop in_order : Bool) (r : Rob) (i : RobInputs)
        → (in_order && i.comm_ready_i) ≡ (in_order && pop)
        → (rob_update depth rob_idx_len push pop in_order r i).head_idx
          ≡ (if pop then (if in_order then r.work_idx else r.head_idx) else r.head_idx)
    unfolding rob_update
    moved_head push pop in_order r i h =
        ap (λ (b : Bool). if b then r.work_idx else r.head_idx) h
        ∙ next_head in_order pop r.work_idx r.head_idx

    moved_issued :
        (push pop in_order : Bool) (r : Rob) (i : RobInputs)
        → (view (rob_update depth rob_idx_len push pop in_order r i)).issued ≡ (λ (k : ℕ).
            if push && r.tail_idx == index depth k
            then issued_part i.issue_data_i
            else issued_part (r.entries k))
    unfolding rob_update
    moved_issued push pop in_order r i =
        fun_ext
          (λ k. issued_part-next_entry push pop (if in_order then r.head_idx else r.work_idx) r i k)

    pub view-rob_update :
        (push pop in_order : Bool) (r : Rob) (i : RobInputs)
        → (in_order && i.comm_ready_i) ≡ (in_order && pop)
        → view (rob_update depth rob_idx_len push pop in_order r i)
          ≡ moved push pop in_order (issued_part i.issue_data_i) (view r)
    unfolding rob_update next_valid moved modn_counter
    view-rob_update true true io r i h =
        same_view _ _ (moved_head true true io r i h) refl refl refl (moved_issued true true io r i)
    view-rob_update true false io r i h =
        same_view _ _ (moved_head true false io r i h) refl refl refl
          (moved_issued true false io r i)
    view-rob_update false true io r i h =
        same_view _ _ (moved_head false true io r i h) refl refl refl
          (moved_issued false true io r i)
    view-rob_update false false io r i h =
        same_view _ _ (moved_head false false io r i h) refl refl refl
          (moved_issued false false io r i)
