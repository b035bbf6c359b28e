-- ===== src/Rtl/Rob.antt =====
-- The reorder buffer rtl/expipe/commit-unit/rob.sv: entries allocated in program order, completed by
-- the common data bus, and committed from the head or, if nothing forbids it, from a second slot. An
-- array of registers is the function of the index; an instruction, its flags and the code of its
-- exception are numbers.
pub mod Window
pub mod Allocate
pub mod Retire
pub mod Update
pub mod Order
pub mod History
mod Tests
use len5_core.Common.{
  ℕ, zero, suc, ◌+◌, ◌-◌, ◌*◌, ◌/◌, ◌%◌, ◌^◌, ◌≤◌, ◌<◌, ◌≡◌, refl, sym, ap, ◌∙◌, ◌≢◌, ◌↔◌, ◌⊎◌, inl,
  inr, Bool, true, false, not, ◌&&◌, ◌||◌, Option, none, some, List, [], ◌∷◌, ◌++◌, map, arith,
  dec_lt, ℕ_discrete, ltb, leb, ◌==◌, if◌then◌else◌, ◌>>=◌, Bool-cases, Option-cases, some_inj,
  length, get_or, set, take, drop, replicate, All,
}
use len5_core.Rtl.Counter.{index, modn_counter}

-- `rob_entry_t`.
pub record RobEntry : Type 0 where
  pub instruction : ℕ
  pub instr_pc : ℕ
  pub res_ready : Bool
  pub res_value : ℕ
  pub rd_idx : ℕ
  pub rd_upd : Bool
  pub mem_crit : Bool
  pub order_crit : Bool
  pub except_raised : Bool
  pub except_code : ℕ
  pub flags : ℕ
  pub mem_clear : Bool

-- `cdb_data_t`.
pub record CdbData : Type 0 where
  pub rob_idx : ℕ
  pub res_value : ℕ
  pub except_raised : Bool
  pub except_code : ℕ
  pub flags : ℕ

pub record Rob : Type 0 where
  pub head_idx : ℕ
  pub tail_idx : ℕ
  pub clear_idx : ℕ
  pub work_idx : ℕ
  pub data_valid : ℕ → Bool
  pub entries : ℕ → RobEntry

pub record RobInputs : Type 0 where
  pub flush_i : Bool
  pub issue_valid_i : Bool
  pub issue_data_i : RobEntry
  pub comm_ready_i : Bool
  pub cdb_valid_i : Bool
  pub cdb_data_i : CdbData

-- `E_MISPREDICTION` of rtl/packages/len5_pkg.sv.
abbrev e_misprediction : ℕ
e_misprediction = 0x18

abbrev pub rob_full : Rob → Bool
rob_full r = r.data_valid r.tail_idx

abbrev pub issue_ready : Rob → Bool
issue_ready r = not (rob_full r)

-- In-order commit slot.
abbrev pub comm_valid_in_order : Rob → Bool
comm_valid_in_order r = r.data_valid r.head_idx && (r.entries r.head_idx).res_ready

abbrev pub instr_waw : Rob → Bool
instr_waw r =
    (r.entries r.head_idx).rd_upd && (r.entries r.head_idx).rd_idx == (r.entries r.work_idx).rd_idx

-- Out-of-order commit slot.
abbrev pub comm_valid_ooo : Rob → Bool
comm_valid_ooo r =
    r.data_valid r.work_idx
    && (not work.order_crit
        && (work.res_ready
            && (not work.except_raised
                && (not (work.except_code == e_misprediction)
                    && (work.mem_clear && not (instr_waw r))))))
  where
    work : RobEntry
    work = r.entries r.work_idx

abbrev pub commit_valid : Rob → Bool
commit_valid r = comm_valid_in_order r || comm_valid_ooo r

abbrev pub commit_idx : Rob → ℕ
commit_idx r = if comm_valid_in_order r then r.head_idx else r.work_idx

-- `comm_data_o`.
abbrev pub comm_data : Rob → RobEntry
comm_data r = if comm_valid_in_order r then r.entries r.head_idx else r.entries r.work_idx

abbrev pub fifo_push : Rob → RobInputs → Bool
fifo_push r i = i.issue_valid_i && issue_ready r

abbrev pub fifo_pop : Rob → RobInputs → Bool
fifo_pop r i = commit_valid r && i.comm_ready_i

-- Out-of-order memory access.
abbrev pub mem_instr_clear : Rob → RobInputs → Bool
mem_instr_clear r i =
    r.data_valid r.clear_idx
    && ((not entry.mem_crit || (entry_clear || cdb_clear))
        && (not (r.clear_idx == r.tail_idx)
            || (not (rob_full r) || (fifo_pop r i && fifo_push r i))))
  where
    entry : RobEntry
    entry = r.entries r.clear_idx

    entry_clear : Bool
    entry_clear =
        not entry.except_raised && (not (entry.except_code == e_misprediction) && entry.res_ready)

    cdb_clear : Bool
    cdb_clear =
        i.cdb_valid_i
        && (i.cdb_data_i.rob_idx == r.clear_idx
            && (not i.cdb_data_i.except_raised
                && not (i.cdb_data_i.except_code == e_misprediction)))

-- `sb_mem_clear_o`.
abbrev pub sb_mem_clear : Rob → (sb_mem_idx_i : ℕ) → Bool
sb_mem_clear r idx = r.data_valid idx && ((r.entries idx).mem_clear || r.clear_idx == idx)

-- The operand forwarding of one source: its entry is valid and ready, and the value.
abbrev pub opfwd : Rob → (issue_rs_rob_idx_i : ℕ) → Bool × Bool × ℕ
opfwd r idx = (r.data_valid idx, (r.entries idx).res_ready, (r.entries idx).res_value)

-- An entry that takes a result from the bus, and one that is marked clear.
abbrev pub completed : RobEntry → CdbData → RobEntry
completed e c = record e {
  res_ready = true;
  res_value = c.res_value;
  except_raised = c.except_raised;
  except_code = c.except_code;
  flags = c.flags;
}

module _ (depth rob_idx_len : ℕ) where
  -- The entries after `p_fifo_update` without a flush: a push goes before a commit, which goes before
  -- a result. The mark that it is clear is set last.
  unfoldable pub next_entry : (push pop : Bool) → (commit : ℕ) → Rob → RobInputs → (ℕ → RobEntry)
  next_entry push pop commit r i k =
      let e = r.entries k in
      let updated =
        if push && r.tail_idx == index depth k
        then i.issue_data_i
        else if pop && commit == index depth k
        then e
        else if i.cdb_valid_i && i.cdb_data_i.rob_idx == k % 2 ^ rob_idx_len
        then completed e i.cdb_data_i
        else e in
      if r.data_valid r.clear_idx && r.clear_idx == k
      then record updated { mem_clear = true }
      else updated

  unfoldable pub next_valid : (push pop : Bool) → (commit : ℕ) → Rob → (ℕ → Bool)
  next_valid push pop commit r k =
      if push && r.tail_idx == index depth k
      then true
      else if pop && commit == index depth k
      then false
      else r.data_valid k

  unfoldable pub rob_update : (push pop in_order : Bool) → Rob → RobInputs → Rob
  rob_update push pop in_order r i =
      let commit = if in_order then r.head_idx else r.work_idx in
      record {
        head_idx = if in_order && i.comm_ready_i then r.work_idx else r.head_idx;
        tail_idx = modn_counter depth 0 r.tail_idx push false;
        clear_idx = modn_counter depth 0 r.clear_idx (mem_instr_clear r i) false;
        work_idx = modn_counter depth 1 r.work_idx pop false;
        data_valid = next_valid push pop commit r;
        entries = next_entry push pop commit r i;
      }

  unfoldable pub rob_flush : Rob → Rob
  rob_flush r = record r {
    head_idx = 0;
    tail_idx = modn_counter depth 0 r.tail_idx false true;
    clear_idx = modn_counter depth 0 r.clear_idx false true;
    work_idx = modn_counter depth 1 r.work_idx false true;
    data_valid = λ i. false;
  }

  unfoldable pub rob_edge : Rob → RobInputs → Rob
  rob_edge r i =
      if i.flush_i
      then rob_flush r
      else rob_update (fifo_push r i) (fifo_pop r i) (comm_valid_in_order r) r i

-- Under reset, with `zeros` for an entry of zeros.
abbrev pub rob_reset : (zeros : RobEntry) → Rob
rob_reset zeros = record {
  head_idx = 0;
  tail_idx = 0;
  clear_idx = 0;
  work_idx = 1;
  data_valid = λ i. false;
  entries = λ i. zeros;
}
