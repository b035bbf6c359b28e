-- ===== src/Rtl/SpillCell/Contents.antt =====
-- What a spill cell holds, between two edges and after one.
use len5_core.Common.{
  ◌≤◌, ◌<◌, ◌≡◌, refl, inl, inr, Bool, true, false, not, ◌&&◌, List, [], ◌∷◌, ◌++◌, arith,
  if◌then◌else◌, Bool-cases, length,
}
use len5_core.Rtl.Handshake.{Inputs, is_empty, after, pushes, pops}
use len5_core.Rtl.SpillCell.{
  CuState, reset, no_data, a_full, b_full, ab_full_sel_a, ab_full_sel_b, next_state, cu_outputs,
  Variant, plain, flush, ext, sees_flush, flush_state, CellRegs, cell_edge, cell_valid, cell_ready,
  cell_data, cell_buff_full, cell_buff_data, spill_cell,
}

-- What a cell holds, oldest first.
abbrev pub contents {ℓ} : {A : Type ℓ} → CuState → (a b : A) → List A
contents reset a b = []
contents no_data a b = []
contents a_full a b = a ∷ []
contents b_full a b = b ∷ []
contents ab_full_sel_a a b = a ∷ b ∷ []
contents ab_full_sel_b a b = b ∷ a ∷ []

abbrev pub cell_contents : {A : Type 0} → CellRegs A → List A
cell_contents c = contents c.curr_state c.a_data_q c.b_data_q

module _ {A : Type 0} (a b x : A) where
  -- One edge without a flush, by the state.
  state_edge :
      (st : CuState) (v r : Bool)
      → contents
          (next_state st v r)
          (if (cu_outputs st false v).a_en_o then x else a)
          (if (cu_outputs st false v).b_en_o then x else b)
        ≡ after
            ((cu_outputs st false false).valid_o && r)
            (v && (cu_outputs st false false).ready_o)
            x
            (contents st a b)
  unfolding after next_state cu_outputs
  state_edge reset true r = refl
  state_edge reset false r = refl
  state_edge no_data true r = refl
  state_edge no_data false r = refl
  state_edge a_full true true = refl
  state_edge a_full true false = refl
  state_edge a_full false true = refl
  state_edge a_full false false = refl
  state_edge b_full true true = refl
  state_edge b_full true false = refl
  state_edge b_full false true = refl
  state_edge b_full false false = refl
  state_edge ab_full_sel_a true true = refl
  state_edge ab_full_sel_a true false = refl
  state_edge ab_full_sel_a false true = refl
  state_edge ab_full_sel_a false false = refl
  state_edge ab_full_sel_b true true = refl
  state_edge ab_full_sel_b true false = refl
  state_edge ab_full_sel_b false true = refl
  state_edge ab_full_sel_b false false = refl

pub sees_flush-false : (variant : Variant) → sees_flush variant false ≡ false
unfolding sees_flush
sees_flush-false plain = refl
sees_flush-false flush = refl
sees_flush-false ext = refl

flush_state-contents :
    {A : Type 0} (variant : Variant) (a b : A) → contents (flush_state variant) a b ≡ []
unfolding flush_state
flush_state-contents plain a b = refl
flush_state-contents flush a b = refl
flush_state-contents ext a b = refl

module _ {A : Type 0} (variant : Variant) where
  -- An edge with a flush leaves nothing; another one drops what was handed over and adds what came.
  pub cell_contents-edge :
      (zeros : A) (c : CellRegs A) (i : Inputs A)
      → cell_contents (cell_edge variant c i) ≡ (
          if sees_flush variant i.flush_i
          then []
          else after
              (pops (spill_cell variant zeros) c i)
              (pushes (spill_cell variant zeros) c i)
              i.data_i
              (cell_contents c))
  unfolding after cell_edge next_state cell_valid cell_ready
  cell_contents-edge zeros c i = elim (Bool-cases (sees_flush variant i.flush_i)) [
    | inl e ↦ rw e (flush_state-contents variant _ _)
    | inr e ↦ rw e (state_edge c.a_data_q c.b_data_q i.data_i c.curr_state i.valid_i i.ready_i)
  ]

  -- Two items at most.
  pub cell_contents-bound : (c : CellRegs A) → length (cell_contents c) ≤ 2
  cell_contents-bound c = bound c.curr_state
    where
      bound : (st : CuState) → length (contents st c.a_data_q c.b_data_q) ≤ 2
      bound reset = omega arith
      bound no_data = omega arith
      bound a_full = omega arith
      bound b_full = omega arith
      bound ab_full_sel_a = omega arith
      bound ab_full_sel_b = omega arith

  pub cell_contents-ready :
      (c : CellRegs A) (f : Bool) → cell_ready variant c f ≡ true → length (cell_contents c) < 2
  unfolding cell_ready cu_outputs
  cell_contents-ready c f = room c.curr_state
    where
      room :
          (st : CuState)
          → (cu_outputs st (sees_flush variant f) false).ready_o ≡ true
          → length (contents st c.a_data_q c.b_data_q) < 2
      room reset h = ground arith
      room no_data h = omega arith
      room a_full h = omega arith
      room b_full h = omega arith
      room ab_full_sel_a h = ground arith
      room ab_full_sel_b h = ground arith

  pub cell_contents-valid :
      (c : CellRegs A) → cell_valid variant c ≡ not (is_empty (cell_contents c))
  unfolding cell_valid cu_outputs
  cell_contents-valid c = by_state c.curr_state
    where
      by_state :
          (st : CuState)
          → (cu_outputs st false false).valid_o ≡ not (is_empty (contents st c.a_data_q c.b_data_q))
      by_state reset = refl
      by_state no_data = refl
      by_state a_full = refl
      by_state b_full = refl
      by_state ab_full_sel_a = refl
      by_state ab_full_sel_b = refl

  -- The output shows the oldest item, and `buff_data_o` the one behind it.
  pub cell_contents-data :
      (c : CellRegs A)
      → (if cell_valid variant c then cell_data variant c ∷ [] else [])
          ++ (if cell_buff_full variant c then cell_buff_data variant c ∷ [] else [])
        ≡ cell_contents c
  unfolding cell_valid cell_data cell_buff_full cell_buff_data cu_outputs
  cell_contents-data c = by_state c.curr_state
    where
      by_state :
          (st : CuState)
          → (if (cu_outputs st false false).valid_o
                then (if (cu_outputs st false false).b_sel_o then c.b_data_q else c.a_data_q) ∷ []
                else [])
              ++ (if (cu_outputs st false false).buff_full_o
                  then (if (cu_outputs st false false).b_sel_o then c.a_data_q else c.b_data_q) ∷ []
                  else [])
            ≡ contents st c.a_data_q c.b_data_q
      by_state reset = refl
      by_state no_data = refl
      by_state a_full = refl
      by_state b_full = refl
      by_state ab_full_sel_a = refl
      by_state ab_full_sel_b = refl
