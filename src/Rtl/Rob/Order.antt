-- ===== src/Rtl/Rob/Order.antt =====
-- An edge of the reorder buffer commits the oldest instruction, or the second in front of an older
-- one, and adds the one that is issued.
use mathlib.Core.List.{append-nil}
use mathlib.Core.Path.{subst}
use native.Mathlib.Nat.{mod-eq_of_lt, mod-eq-sub-mod}
use len5_core.Common.{
  and_split, ℕ, ◌+◌, ◌%◌, ◌≤◌, ◌<◌, ◌≡◌, refl, sym, ap, ◌∙◌, ◌≢◌, inl, inr, Bool, true, false, ◌&&◌,
  ◌||◌, List, [], ◌∷◌, ◌++◌, arith, dec_lt, ◌==◌, if◌then◌else◌, Bool-cases, some_inj,
}
use len5_core.Rtl.Counter.{index}
use len5_core.Rtl.Rob.{
  RobEntry, Rob, RobInputs, issue_ready, comm_valid_in_order, instr_waw, comm_valid_ooo, comm_data,
  fifo_push, fifo_pop, rob_update, rob_flush, rob_edge,
}
use len5_core.Rtl.Rob.Window.{
  Issued, issued_part, View, view, view_commit, view_push, Filled, Window, at_head,
}
use len5_core.Rtl.Rob.Retire.{commit-head, commit-second}
use len5_core.Rtl.Rob.Update.{push-Window, moved, view-rob_update}

-- What a commit does to the instructions that are held.
pub data Commits (popped : Bool) (e : RobEntry) : List Issued → List Issued → Type 0 where
  nothing : {q : List Issued} → popped ≡ false → Commits popped e q q
  oldest : {q : List Issued} → popped ≡ true → Commits popped e (issued_part e ∷ q) q
  second :
      {x : Issued} {q : List Issued}
      → popped ≡ true
      → e.order_crit ≡ false
      → (x.rd_upd ≡ true → x.rd_idx ≢ e.rd_idx)
      → Commits popped e (x ∷ issued_part e ∷ q) (x ∷ q)

-- What the slot out of order asks for.
ooo_lem :
    (r : Rob)
    → comm_valid_ooo r ≡ true
    → (r.data_valid r.work_idx ≡ true)
      × ((r.entries r.work_idx).order_crit ≡ false)
      × ((r.entries r.work_idx).res_ready ≡ true)
      × (instr_waw r ≡ false)
ooo_lem r h = (ground arith, ground arith, ground arith, ground arith)

-- A buffer of one instruction has no other slot, also when the work index has come round to the head.
no_second :
    (depth : ℕ) (r : Rob) (gap : ℕ) (x : Issued)
    → Filled depth (view r) gap x []
    → comm_valid_in_order r ≡ false
    → r.data_valid r.work_idx ≡ true
    → (r.entries r.work_idx).res_ready ≡ true
    → ⊥
no_second depth r gap x h late valid ready = elim (dec_lt gap depth) [
  | yes p ↦ ground (arith, valid, ap r.data_valid h.work_at, h.valid_at gap p, h.gap_in)
  | no p ↦ ground (
    arith,
    late,
    subst (λ (k : ℕ). r.data_valid k ≡ true) (round p) valid,
    subst (λ (k : ℕ). (r.entries k).res_ready ≡ true) (round p) ready,
  )
]
  where
    round : ¬ (gap < depth) → r.work_idx ≡ r.head_idx
    round p =
        h.work_at
        ∙ mod-eq-sub-mod {n = r.head_idx + gap} {m = depth} (omega (arith, p, h.fits))
        ∙ ap (λ (t : ℕ). t % depth) (omega (arith, p, h.fits))
        ∙ mod-eq_of_lt h.head_in

module _ (depth : ℕ) (two : 2 ≤ depth) where
  -- The slot in order holds the oldest instruction.
  in_order-Commits :
      (r : Rob) (q : List Issued)
      → Window depth (view r) q
      → comm_valid_in_order r ≡ true
      → (q' : List Issued) × Commits true (comm_data r) q q'
        × Window depth (view_commit depth true (view r)) q'
  unfolding Window
  in_order-Commits r [] h valid = absurd (
      ground (
        arith,
        none_valid,
        (and_split (r.data_valid r.head_idx) (r.entries r.head_idx).res_ready valid).0,
      ))
    where
      none_valid : r.data_valid r.head_idx ≡ false
      none_valid =
          ap r.data_valid (at_head depth r.head_idx h.head_in) ∙ h.valid_at 0 (omega (arith, two))
  in_order-Commits r (x ∷ rest) (gap, h) valid = (
    rest,
    subst (λ (y : Issued). Commits true (comm_data r) (y ∷ rest) rest) same (oldest refl),
    commit-head depth (view r) gap x rest two h,
  )
    where
      same : issued_part (comm_data r) ≡ x
      same =
          ap (λ (b : Bool). issued_part (if b then r.entries r.head_idx else r.entries r.work_idx))
            valid
          ∙ h.head_at

  -- The slot out of order holds the second.
  second-Commits :
      (r : Rob) (q : List Issued)
      → Window depth (view r) q
      → comm_valid_in_order r ≡ false
      → comm_valid_ooo r ≡ true
      → (q' : List Issued) × Commits true (comm_data r) q q'
        × Window depth (view_commit depth false (view r)) q'
  unfolding Window
  second-Commits r [] h late valid = absurd (ground (arith, none_valid, (ooo_lem r valid).0))
    where
      none_valid : r.data_valid r.work_idx ≡ false
      none_valid = ap r.data_valid h.work_at ∙ h.valid_at 1 (omega (arith, two))
  second-Commits r (x ∷ []) (gap, h) late valid =
      absurd (no_second depth r gap x h late (ooo_lem r valid).0 (ooo_lem r valid).2)
  second-Commits r (x ∷ y ∷ rest) (gap, h) late valid = (
    x ∷ rest,
    subst (λ (z : Issued). Commits true (comm_data r) (x ∷ z ∷ rest) (x ∷ rest)) same
        (second refl (ap (λ (e : RobEntry). e.order_crit) from_work ∙ (ooo_lem r valid).1) no_waw),
    (gap + 1, commit-second depth (view r) gap x y rest h),
  )
    where
      from_work : comm_data r ≡ r.entries r.work_idx
      from_work = ap (λ (b : Bool). if b then r.entries r.head_idx else r.entries r.work_idx) late

      same : issued_part (comm_data r) ≡ y
      same =
          ap issued_part from_work
          ∙ ap (λ (k : ℕ). issued_part (r.entries k))
              (h.work_at ∙ ap (λ (t : ℕ). (r.head_idx + t) % depth) (omega arith))
          ∙ sym (some_inj (h.rest_at 0 (omega arith)))

      no_waw : x.rd_upd ≡ true → x.rd_idx ≢ (comm_data r).rd_idx
      no_waw upd e = ground (
        arith,
        (ooo_lem r valid).3,
        ap (λ (t : Issued). t.rd_upd) h.head_at ∙ upd,
        ap (λ (t : Issued). t.rd_idx) h.head_at ∙ e ∙ ap (λ (t : RobEntry). t.rd_idx) from_work,
      )

  -- Nothing is committed, or what `Commits` says; then there is room for the instruction that is issued.
  pop-Commits :
      (r : Rob) (i : RobInputs) (q : List Issued)
      → Window depth (view r) q
      → (q' : List Issued) × Commits (fifo_pop r i) (comm_data r) q q'
        × Window depth
            (if fifo_pop r i then view_commit depth (comm_valid_in_order r) (view r) else view r)
            q'
  pop-Commits r i q h = elim (Bool-cases (fifo_pop r i)) [
    | inl p ↦ elim (Bool-cases (comm_valid_in_order r)) [
      | inl o ↦ found p (subst committed (sym o) (in_order-Commits r q h o))
      | inr o ↦ found p (subst committed (sym o) (second-Commits r q h o (ground (arith, p, o))))
    ]
    | inr p ↦ (q, nothing p, subst (λ (b : Bool). Window depth (left b) q) (sym p) h)
  ]
    where
      left : Bool → View
      left b = if b then view_commit depth (comm_valid_in_order r) (view r) else view r

      committed : Bool → Type 0
      committed o =
          (q' : List Issued) × Commits true (comm_data r) q q'
          × Window depth (view_commit depth o (view r)) q'

      found :
          fifo_pop r i ≡ true
          → committed (comm_valid_in_order r)
          → (q' : List Issued) × Commits (fifo_pop r i) (comm_data r) q q'
            × Window depth (left (fifo_pop r i)) q'
      found p (q', c, w) = (
        q',
        subst (λ (b : Bool). Commits b (comm_data r) q q') (sym p) c,
        subst (λ (b : Bool). Window depth (left b) q') (sym p) w,
      )

  free_tail :
      (pop in_order : Bool) (v : View)
      → v.valid v.tail ≡ false
      → (if pop then view_commit depth in_order v else v).valid
          (if pop then view_commit depth in_order v else v).tail
        ≡ false
  free_tail false in_order v h = h
  free_tail true in_order v h =
      ap
        (λ (b : Bool).
          if (if in_order then v.head else v.work) == index depth v.tail then false else b)
        h
      ∙ both ((if in_order then v.head else v.work) == index depth v.tail)
    where
      both : (b : Bool) → (if b then false else false) ≡ false
      both true = refl
      both false = refl

  ready_pops : (a b c : Bool) → (a && c) ≡ (a && ((a || b) && c))
  ready_pops true b c = refl
  ready_pops false b c = refl

  -- At an edge without a flush a buffer that holds `q` commits the oldest instruction of `q`, or the
  -- second if that is not order critical and does not write the register that the oldest writes, or
  -- none, just when it hands one over; the instruction that it accepts is then the last one it holds.
  pub rob_edge-Window :
      (rob_idx_len : ℕ) (r : Rob) (i : RobInputs) (q : List Issued)
      → Window depth (view r) q
      → i.flush_i ≡ false
      → (q' : List Issued) × Commits (fifo_pop r i) (comm_data r) q q'
        × Window depth
            (view (rob_edge depth rob_idx_len r i))
            (q' ++ (if fifo_push r i then issued_part i.issue_data_i ∷ [] else []))
  unfolding rob_edge moved
  rob_edge-Window rob_idx_len r i q h u =
      let (q', c, w) = pop-Commits r i q h in
      (q', c, subst (λ (v : View). Window depth v (q' ++ new)) (sym next) (pushed q' w))
    where
      e : Issued
      e = issued_part i.issue_data_i

      new : List Issued
      new = if fifo_push r i then e ∷ [] else []

      left : View
      left = if fifo_pop r i then view_commit depth (comm_valid_in_order r) (view r) else view r

      next :
          view (rob_edge depth rob_idx_len r i)
          ≡ moved depth (fifo_push r i) (fifo_pop r i) (comm_valid_in_order r) e (view r)
      next =
          ap
            (λ (b : Bool). view (
              if b
              then rob_flush depth rob_idx_len r
              else rob_update depth rob_idx_len (fifo_push r i) (fifo_pop r i)
                  (comm_valid_in_order r) r i))
            u
          ∙ view-rob_update depth rob_idx_len (fifo_push r i) (fifo_pop r i) (comm_valid_in_order r)
              r i (ready_pops (comm_valid_in_order r) (comm_valid_ooo r) i.comm_ready_i)

      pushed :
          (q' : List Issued)
          → Window depth left q'
          → Window depth (if fifo_push r i then view_push depth e left else left) (q' ++ new)
      pushed q' w = elim (Bool-cases (fifo_push r i)) [
        | inl p ↦ rw p (
            push-Window depth left e q' two w (
              free_tail (fifo_pop r i) (comm_valid_in_order r) (view r)
                (ground (arith, (and_split i.issue_valid_i (issue_ready r) p).1))))
        | inr p ↦ rw (p, append-nil) w
      ]
