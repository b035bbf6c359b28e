-- ===== src/Rtl/Rob/History.antt =====
-- What the reorder buffer commits in the course of a run: every instruction once.
use mathlib.Core.List.{append-nil, append_assoc, Perm}
use mathlib.Core.List.Perm
use mathlib.Core.Path.{subst}
use native.Mathlib.Nat.{mod-eq_of_lt}
use len5_core.Common.{
  ℕ, ◌≤◌, ◌≡◌, refl, sym, Bool, false, List, [], ◌∷◌, ◌++◌, arith, if◌then◌else◌, length, All,
}
use len5_core.Rtl.Rob.{
  RobEntry, Rob, RobInputs, comm_data, fifo_push, fifo_pop, rob_edge, rob_reset,
}
use len5_core.Rtl.Rob.Window.{Issued, issued_part, view, Window}
use len5_core.Rtl.Rob.Order.{second, oldest, nothing, Commits, rob_edge-Window}

module _ (depth rob_idx_len : ℕ) where
  -- What the buffer accepts and commits at successive edges, and its registers afterwards.
  unfoldable pub accepted : Rob → List RobInputs → List Issued
  accepted r [] = []
  accepted r (i ∷ is) =
      (if fifo_push r i then issued_part i.issue_data_i ∷ [] else [])
      ++ accepted (rob_edge depth rob_idx_len r i) is

  unfoldable pub committed : Rob → List RobInputs → List Issued
  committed r [] = []
  committed r (i ∷ is) =
      (if fifo_pop r i then issued_part (comm_data r) ∷ [] else [])
      ++ committed (rob_edge depth rob_idx_len r i) is

  unfoldable pub final : Rob → List RobInputs → Rob
  final r [] = r
  final r (i ∷ is) = final (rob_edge depth rob_idx_len r i) is

-- What a commit takes and what it leaves are what was held.
Commits-Perm :
    (popped : Bool) (e : RobEntry) (q q' new : List Issued)
    → Commits popped e q q'
    → Perm (q ++ new) ((if popped then issued_part e ∷ [] else []) ++ (q' ++ new))
Commits-Perm popped e q q' new (nothing off) = rw off (Perm.refl (q ++ new))
Commits-Perm popped e _ q' new (oldest on) = rw on (Perm.refl (issued_part e ∷ q' ++ new))
Commits-Perm popped e _ _ new (second {x} {q} on _ _) =
    rw on (Perm.swap (issued_part e) x (q ++ new))

perm_of_eq {ℓ} : {A : Type ℓ} {l m : List A} → l ≡ m → Perm l m
perm_of_eq {l} e = subst (λ t. Perm l t) e (Perm.refl l)

-- One edge in front of a run.
Perm-edge :
    (q q1 q' new left later gone : List Issued)
    → Perm (q ++ new) (left ++ (q1 ++ new))
    → Perm ((q1 ++ new) ++ later) (gone ++ q')
    → Perm (q ++ (new ++ later)) ((left ++ gone) ++ q')
Perm-edge q q1 q' new left later gone now ahead =
    Perm.trans (perm_of_eq (sym (append_assoc q new later))) (
      Perm.trans (Perm.append_right later now) (
        Perm.trans (perm_of_eq (append_assoc left (q1 ++ new) later)) (
          Perm.trans (Perm.append_left left ahead) (perm_of_eq (sym (append_assoc left gone q'))))))

Window-bound : (depth : ℕ) (r : Rob) (q : List Issued) → Window depth (view r) q → length q ≤ depth
unfolding Window
Window-bound depth r [] h = omega arith
Window-bound depth r (x ∷ q) (gap, h) = omega (arith, h.fits, h.gap_in)

module _ (depth rob_idx_len : ℕ) (two : 2 ≤ depth) where
  run-Window :
      (r : Rob) (is : List RobInputs) (q : List Issued)
      → Window depth (view r) q
      → All (λ i. i.flush_i ≡ false) is
      → (q' : List Issued) × Window depth (view (final depth rob_idx_len r is)) q'
        × Perm (q ++ accepted depth rob_idx_len r is) (committed depth rob_idx_len r is ++ q')
  unfolding accepted committed final
  run-Window r [] q h u =
      (q, h, subst (λ (t : List Issued). Perm t q) (sym (append-nil q)) (Perm.refl q))
  run-Window r (i ∷ is) q h (u, us) =
      let (q1, c, w) = rob_edge-Window depth two rob_idx_len r i q h u in
      let (q', w', p) = run-Window (rob_edge depth rob_idx_len r i) is (q1 ++ new) w us in
      (
        q',
        w',
        Perm-edge q q1 q' new left (accepted depth rob_idx_len (rob_edge depth rob_idx_len r i) is)
            (committed depth rob_idx_len (rob_edge depth rob_idx_len r i) is)
            (Commits-Perm (fifo_pop r i) (comm_data r) q q1 new c) p,
      )
    where
      new : List Issued
      new = if fifo_push r i then issued_part i.issue_data_i ∷ [] else []

      left : List Issued
      left = if fifo_pop r i then issued_part (comm_data r) ∷ [] else []

  pub rob_reset-Window : (zeros : RobEntry) → Window depth (view (rob_reset zeros)) []
  unfolding Window
  rob_reset-Window zeros = record {
    head_in = omega (arith, two);
    tail_at = refl;
    work_at = sym (mod-eq_of_lt (omega (arith, two)));
    valid_at = λ k hk. refl;
  }

  -- For at least two entries: out of reset, while nothing is flushed, the instructions that the buffer
  -- accepts are, in some order, those that it has committed and those that it holds, each once, and it
  -- holds as many as it has entries at most.
  pub rob_run-Perm :
      (zeros : RobEntry) (is : List RobInputs)
      → All (λ i. i.flush_i ≡ false) is
      → (q : List Issued) × Window depth (view (final depth rob_idx_len (rob_reset zeros) is)) q
        × Perm
            (accepted depth rob_idx_len (rob_reset zeros) is)
            (committed depth rob_idx_len (rob_reset zeros) is ++ q)
        × (length q ≤ depth)
  rob_run-Perm zeros is u =
      let (q, w, p) = run-Window (rob_reset zeros) is [] (rob_reset-Window zeros) u in
      (q, w, p, Window-bound depth (final depth rob_idx_len (rob_reset zeros) is) q w)
