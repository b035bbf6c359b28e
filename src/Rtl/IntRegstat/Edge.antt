-- ===== src/Rtl/IntRegstat/Edge.antt =====
-- The writers of a register after a commit and an issue, and its counter at that edge.
use mathlib.Core.List.{append-nil}
use mathlib.Core.Path.{subst}
use native.Mathlib.Nat.{mod-eq_of_lt, mod-eq-sub-mod}
use len5_core.Common.{
  ne→==, ==_iff, ℕ, ◌+◌, ◌-◌, ◌^◌, ◌≤◌, ◌<◌, ◌≡◌, refl, sym, ◌∙◌, inl, inr, Bool, true, false, not,
  ◌&&◌, ◌||◌, some, List, [], ◌∷◌, ◌++◌, arith, ℕ_discrete, ◌==◌, if◌then◌else◌, Bool-cases,
}
use len5_core.Rtl.IntRegstat.{RegStatInputs, updown_counter}
use len5_core.Rtl.IntRegstat.Writers.{
  Writer, writers, newest, remove_first, writers-append, newest-append, writers-remove_self,
  writers-remove_ne, newest-remove_ne, newest-remove_self,
}

-- The instructions in flight after an edge: the oldest writer of the register that is committed
-- leaves, and the one that is issued comes last.
abbrev pub left : List Writer → RegStatInputs → List Writer
left q i = if i.comm_valid_i then remove_first i.comm_rd_idx_i q else q

abbrev pub issued : RegStatInputs → List Writer
issued i =
    if i.issue_valid_i
    then record { rd = i.issue_rd_idx_i; rob_idx = i.issue_rob_idx_i } ∷ []
    else []

unfoldable pub in_flight : List Writer → RegStatInputs → List Writer
in_flight q i = if i.flush_i then [] else left q i ++ issued i

==-comm : (a b : ℕ) → (a == b) ≡ (b == a)
==-comm a b = ground arith

-- The writers after a commit and after an issue.
writers-left :
    (r : ℕ) (q : List Writer) (i : RegStatInputs)
    → writers r (left q i)
      ≡ (if i.comm_valid_i && r == i.comm_rd_idx_i then writers r q - 1 else writers r q)
writers-left r q i = elim (Bool-cases i.comm_valid_i) [
  | inl e ↦ elim (ℕ_discrete r i.comm_rd_idx_i) [
    | yes same ↦ rw (e, sym same, (==_iff r r).1 refl) (writers-remove_self r q)
    | no ne ↦ rw (e, ne→== r i.comm_rd_idx_i ne) (writers-remove_ne r i.comm_rd_idx_i q ne)
  ]
  | inr e ↦ rw e refl
]

pub writers-in_flight :
    (r : ℕ) (q : List Writer) (i : RegStatInputs)
    → writers r (left q i ++ issued i)
      ≡ (if i.comm_valid_i && r == i.comm_rd_idx_i then writers r q - 1 else writers r q)
        + (if i.issue_valid_i && r == i.issue_rd_idx_i then 1 else 0)
writers-in_flight r q i = elim (Bool-cases i.issue_valid_i) [
  | inl e ↦
      rw
        (
          e,
          writers-append r (left q i)
              (record { rd = i.issue_rd_idx_i; rob_idx = i.issue_rob_idx_i }),
          writers-left r q i,
          ==-comm i.issue_rd_idx_i r,
        )
        refl
  | inr e ↦ rw (e, append-nil, writers-left r q i) (omega arith)
]

pub newest-left :
    (r x : ℕ) (q : List Writer) (i : RegStatInputs)
    → newest r (left q i) ≡ some x
    → newest r q ≡ some x
newest-left r x q i h = elim (Bool-cases i.comm_valid_i) [
  | inl e ↦
      let removed =
        subst (λ (b : Bool). newest r (if b then remove_first i.comm_rd_idx_i q else q) ≡ some x) e
          h in
      elim (ℕ_discrete r i.comm_rd_idx_i) [
        | yes same ↦
            newest-remove_self r q x
              (subst (λ (k : ℕ). newest r (remove_first k q) ≡ some x) (sym same) removed)
        | no ne ↦ sym (newest-remove_ne r i.comm_rd_idx_i q ne) ∙ removed
      ]
  | inr e ↦
      subst (λ (b : Bool). newest r (if b then remove_first i.comm_rd_idx_i q else q) ≡ some x) e h
]

pub newest-in_flight :
    (r : ℕ) (q : List Writer) (i : RegStatInputs)
    → newest r (left q i ++ issued i) ≡ (
        if i.issue_valid_i && r == i.issue_rd_idx_i
        then some i.issue_rob_idx_i
        else newest r (left q i))
newest-in_flight r q i = elim (Bool-cases i.issue_valid_i) [
  | inl e ↦
      rw
        (
          e,
          newest-append r (left q i)
              (record { rd = i.issue_rd_idx_i; rob_idx = i.issue_rob_idx_i }),
          ==-comm i.issue_rd_idx_i r,
        )
        refl
  | inr e ↦ rw (e, append-nil) refl
]

-- A counter at an edge without a flush, by what the register takes part in: `skip` an issue and a
-- commit at once, `up` an issue and `down` a commit.
pub counter_edge :
    (width w : ℕ) (skip up down : Bool)
    → (skip ≡ true → up ≡ down)
    → (skip ≡ false → (up && down) ≡ false)
    → (down ≡ true → 1 ≤ w)
    → w < 2 ^ width
    → (if down then w - 1 else w) + (if up then 1 else 0) < 2 ^ width
    → updown_counter width w (not skip && (up || down)) false (not (not skip && up))
      ≡ (if down then w - 1 else w) + (if up then 1 else 0)
unfolding updown_counter
counter_edge width w true true true s n d h g = omega (arith, d refl)
counter_edge width w true false false s n d h g = omega arith
counter_edge width w true true false s n d h g = absurd (ground (arith, s refl))
counter_edge width w true false true s n d h g = absurd (ground (arith, s refl))
counter_edge width w false true true s n d h g = absurd (ground (arith, n refl))
counter_edge width w false true false s n d h g = mod-eq_of_lt g
counter_edge width w false false true s n d h g =
    mod-eq-sub-mod {n = w + 2 ^ width - 1} {m = 2 ^ width} (omega (arith, d refl))
    ∙ mod-eq_of_lt (omega (arith, d refl, h))
    ∙ omega (arith, d refl)
counter_edge width w false false false s n d h g = omega arith
