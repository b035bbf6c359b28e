-- ===== src/Rtl/SpillCell.antt =====
-- The spill cells of rtl/common, two registers that break the path of a handshake: the control unit
-- spill_cell_cu.sv, its variants with a flush and with the second register shown
-- (spill_cell_flush_cu.sv, spill_cell_ext_cu.sv), and the cells around them.
pub mod Contents
pub mod Queue
use len5_core.Common.{
  ℕ, zero, suc, ◌+◌, ◌-◌, ◌*◌, ◌/◌, ◌%◌, ◌^◌, ◌≤◌, ◌<◌, ◌≡◌, refl, sym, ap, ◌∙◌, ◌≢◌, ◌↔◌, ◌⊎◌, inl,
  inr, Bool, true, false, not, ◌&&◌, ◌||◌, Option, none, some, List, [], ◌∷◌, ◌++◌, map, arith,
  dec_lt, ℕ_discrete, ltb, leb, ◌==◌, if◌then◌else◌, ◌>>=◌, Bool-cases, Option-cases, some_inj,
  length, get_or, set, take, drop, replicate, All,
}
use len5_core.Rtl.Handshake.{Inputs, Stage}

-- `cu_state_t`.
pub data CuState : Type 0 where
  reset no_data a_full b_full ab_full_sel_a ab_full_sel_b : CuState

-- `cu_state_prog`, which the three control units share.
unfoldable pub next_state : CuState → (valid_i ready_i : Bool) → CuState
next_state reset v r = no_data
next_state no_data v r = if v then a_full else no_data
next_state a_full v r =
    if v && r
    then b_full
    else if v && not r
    then ab_full_sel_a
    else if not v && r
    then no_data
    else a_full
next_state b_full v r =
    if v && r
    then a_full
    else if v && not r
    then ab_full_sel_b
    else if not v && r
    then no_data
    else b_full
next_state ab_full_sel_a v r = if r then b_full else ab_full_sel_a
next_state ab_full_sel_b v r = if r then a_full else ab_full_sel_b

-- The outputs of the control unit.
pub record CuOutputs : Type 0 where
  pub ready_o : Bool
  pub valid_o : Bool
  pub a_en_o : Bool
  pub b_en_o : Bool
  pub b_sel_o : Bool
  pub buff_full_o : Bool

-- The default values.
abbrev no_outputs : CuOutputs
no_outputs = record {
  ready_o = false;
  valid_o = false;
  a_en_o = false;
  b_en_o = false;
  b_sel_o = false;
  buff_full_o = false;
}

-- `cu_out_eval` of spill_cell_flush_cu.sv; `buff_full_o` is that of spill_cell_ext_cu.sv, whose other
-- outputs are the same.
unfoldable pub cu_outputs : CuState → (flush_i valid_i : Bool) → CuOutputs
cu_outputs reset f v = no_outputs
cu_outputs no_data f v = record no_outputs { ready_o = not f; a_en_o = v }
cu_outputs a_full f v = record no_outputs { ready_o = not f; valid_o = true; b_en_o = v }
cu_outputs b_full f v = record no_outputs {
  ready_o = not f;
  valid_o = true;
  a_en_o = v;
  b_sel_o = true;
}
cu_outputs ab_full_sel_a f v = record no_outputs { valid_o = true; buff_full_o = true }
cu_outputs ab_full_sel_b f v = record no_outputs {
  valid_o = true;
  b_sel_o = true;
  buff_full_o = true;
}

-- The three cells differ in what a flush does to the control unit: nothing, for the cell that has
-- no such input, and otherwise the state it leads to.
pub data Variant : Type 0 where
  plain flush ext : Variant

-- `flush_i` where the variant has the input.
unfoldable pub sees_flush : Variant → (flush_i : Bool) → Bool
sees_flush plain f = false
sees_flush flush f = f
sees_flush ext f = f

-- The state after a flush.
unfoldable pub flush_state : Variant → CuState
flush_state ext = reset
flush_state _ = no_data

-- The registers of a cell.
pub record CellRegs (A : Type 0) : Type 0 where
  pub curr_state : CuState
  pub a_data_q : A
  pub b_data_q : A

module _ {A : Type 0} (variant : Variant) where
  -- `cu_state_upd`, `reg_a` and `reg_b`.
  unfoldable pub cell_edge : CellRegs A → Inputs A → CellRegs A
  cell_edge c i =
      let f = sees_flush variant i.flush_i in
      let cu = cu_outputs c.curr_state f i.valid_i in
      record {
        curr_state = if f then flush_state variant else next_state c.curr_state i.valid_i i.ready_i;
        a_data_q = if cu.a_en_o then i.data_i else c.a_data_q;
        b_data_q = if cu.b_en_o then i.data_i else c.b_data_q;
      }

  unfoldable pub cell_valid : CellRegs A → Bool
  cell_valid c = (cu_outputs c.curr_state false false).valid_o

  unfoldable pub cell_ready : CellRegs A → (flush_i : Bool) → Bool
  cell_ready c f = (cu_outputs c.curr_state (sees_flush variant f) false).ready_o

  -- `data_o`, the output multiplexer.
  unfoldable pub cell_data : CellRegs A → A
  cell_data c = if (cu_outputs c.curr_state false false).b_sel_o then c.b_data_q else c.a_data_q

  -- The cell of spill_cell_ext.sv shows the register that is not selected.
  unfoldable pub cell_buff_full : CellRegs A → Bool
  cell_buff_full c = (cu_outputs c.curr_state false false).buff_full_o

  unfoldable pub cell_buff_data : CellRegs A → A
  cell_buff_data c =
      if (cu_outputs c.curr_state false false).b_sel_o then c.a_data_q else c.b_data_q

  -- The cell, whose data registers are cleared to `zeros` under reset.
  abbrev pub spill_cell : (zeros : A) → Stage (CellRegs A) A
  spill_cell zeros = record {
    reset = record { curr_state = reset; a_data_q = zeros; b_data_q = zeros };
    valid_o = cell_valid;
    ready_o = cell_ready;
    data_o = cell_data;
    edge = cell_edge;
  }
