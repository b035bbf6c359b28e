-- ===== src/Rtl/FairArbiter.antt =====
-- The arbiter of two inputs rtl/common/fair_2way_arbiter.sv: in a conflict it serves the input that
-- lost the last one.
use len5_core.Common.{
  ℕ, ◌+◌, ◌≡◌, refl, Bool, true, false, not, ◌&&◌, List, [], ◌∷◌, arith, if◌then◌else◌,
}

pub record TwoInputs (A : Type 0) : Type 0 where
  pub valid_a_i : Bool
  pub valid_b_i : Bool
  pub ready_i : Bool
  pub data_a_i : A
  pub data_b_i : A

-- `ready_a_o`, `ready_b_o` and `sel_a`.
pub record Grant : Type 0 where
  pub ready_a_o : Bool
  pub ready_b_o : Bool
  pub sel_a : Bool

module _ {A : Type 0} where
  -- `ready_gen`.
  unfoldable pub ready_gen : (last_served_a : Bool) → TwoInputs A → Grant
  ready_gen last i =
      if not i.ready_i
      then record { ready_a_o = false; ready_b_o = false; sel_a = true }
      else if i.valid_a_i && not i.valid_b_i
      then record { ready_a_o = true; ready_b_o = false; sel_a = true }
      else if i.valid_b_i && not i.valid_a_i
      then record { ready_a_o = false; ready_b_o = true; sel_a = false }
      else if i.valid_a_i && i.valid_b_i
      then record { ready_a_o = not last; ready_b_o = last; sel_a = not last }
      else record { ready_a_o = false; ready_b_o = false; sel_a = true }

  -- `data_o`.
  unfoldable pub arbiter_data : (last_served_a : Bool) → TwoInputs A → A
  arbiter_data last i = if (ready_gen last i).sel_a then i.data_a_i else i.data_b_i

  -- `last_served_ff` with `rst_ni` high.
  unfoldable pub last_served_edge : (last_served_a : Bool) → TwoInputs A → Bool
  last_served_edge last i = if i.valid_a_i && (i.valid_b_i && i.ready_i) then not last else last

  -- The conflicts that each input wins.
  abbrev is_conflict : TwoInputs A → Bool
  is_conflict i = i.valid_a_i && (i.valid_b_i && i.ready_i)

  unfoldable pub won_by_a : (last_served_a : Bool) → List (TwoInputs A) → ℕ
  won_by_a last [] = 0
  won_by_a last (i ∷ is) =
      (if is_conflict i && (ready_gen last i).ready_a_o then 1 else 0)
      + won_by_a (last_served_edge last i) is

  unfoldable pub won_by_b : (last_served_a : Bool) → List (TwoInputs A) → ℕ
  won_by_b last [] = 0
  won_by_b last (i ∷ is) =
      (if is_conflict i && (ready_gen last i).ready_b_o then 1 else 0)
      + won_by_b (last_served_edge last i) is

  unfoldable pub last_served_run : (last_served_a : Bool) → List (TwoInputs A) → Bool
  last_served_run last [] = last
  last_served_run last (i ∷ is) = last_served_run (last_served_edge last i) is

abbrev pub standing : Bool → ℕ
standing b = if b then 1 else 0

-- One edge.
edge_balance :
    {A : Type 0} (last : Bool) (i : TwoInputs A)
    → (if is_conflict i && (ready_gen last i).ready_a_o then 1 else 0) + standing last
      ≡ (if is_conflict i && (ready_gen last i).ready_b_o then 1 else 0)
        + standing (last_served_edge last i)
unfolding ready_gen last_served_edge
edge_balance last i = ground arith

-- From any state on, the conflicts that a wins and the state before them count as much as those that b
-- wins and the state behind them, where a state counts 1 if a has won the last conflict, and else 0.
pub conflicts-balanced :
    {A : Type 0} (last : Bool) (is : List (TwoInputs A))
    → won_by_a last is + standing last ≡ won_by_b last is + standing (last_served_run last is)
unfolding won_by_a won_by_b last_served_run
conflicts-balanced last [] = refl
conflicts-balanced last (i ∷ is) =
    omega (arith, edge_balance last i, conflicts-balanced (last_served_edge last i) is)
