-- ===== src/Rtl/Rob/Tests.antt =====
-- Runs of the reorder buffer: an instruction that overtakes another.
use mathlib.Core.List.{Perm}
use len5_core.Common.{
  ℕ, ◌≤◌, ◌≡◌, refl, true, false, List, [], ◌∷◌, ◌++◌, arith, ltb, ◌==◌, if◌then◌else◌, length,
}
use len5_core.Rtl.Rob.{
  RobEntry, CdbData, Rob, RobInputs, commit_valid, comm_data, fifo_push, fifo_pop, rob_edge,
  rob_reset,
}
use len5_core.Rtl.Rob.Window.{Issued, issued_part, view, Window}
use len5_core.Rtl.Rob.Order.{Commits, rob_edge-Window}
use len5_core.Rtl.Rob.History.{
  accepted as rob_accepted, committed as rob_committed, final as rob_final, rob_run-Perm,
}

abbrev instruction_at : (pc rd : ℕ) → RobEntry
instruction_at pc rd = record {
  instruction = 0x13;
  instr_pc = pc;
  res_ready = false;
  res_value = 0;
  rd_idx = rd;
  rd_upd = true;
  mem_crit = false;
  order_crit = false;
  except_raised = false;
  except_code = 0;
  flags = 0;
  mem_clear = false;
}

abbrev result_of : ℕ → CdbData
result_of idx = record {
  rob_idx = idx;
  res_value = 42;
  except_raised = false;
  except_code = 0;
  flags = 0;
}

abbrev issue : RobEntry → RobInputs
issue e = record {
  flush_i = false;
  issue_valid_i = true;
  issue_data_i = e;
  comm_ready_i = true;
  cdb_valid_i = false;
  cdb_data_i = result_of 0;
}

abbrev complete : ℕ → RobInputs
complete idx = record {
  flush_i = false;
  issue_valid_i = false;
  issue_data_i = instruction_at 0 0;
  comm_ready_i = true;
  cdb_valid_i = true;
  cdb_data_i = result_of idx;
}

-- The second of two instructions gets its result first, and is committed first.
abbrev overtaking : List RobInputs
overtaking =
    issue (instruction_at 100 1)
    ∷ issue (instruction_at 104 2)
    ∷ complete 1
    ∷ complete 1
    ∷ complete 0
    ∷ complete 0
    ∷ []

-- The second instruction is ready while the first waits.
abbrev overtaken : Rob
overtaken = record {
  head_idx = 0;
  tail_idx = 2;
  clear_idx = 2;
  work_idx = 1;
  data_valid = λ k. ltb k 2;
  entries = λ k.
      if k == 0
      then instruction_at 100 1
      else record (instruction_at 104 2) { res_ready = true; mem_clear = true };
}

second_first : (commit_valid overtaken ≡ true) × ((comm_data overtaken).instr_pc ≡ 104)
second_first = (refl, refl)

rob_run-Perm_example :
    (q : List Issued) × Window 4
      (view (rob_final 4 2 (rob_reset (instruction_at 0 0)) overtaking))
      q
    × Perm
        (rob_accepted 4 2 (rob_reset (instruction_at 0 0)) overtaking)
        (rob_committed 4 2 (rob_reset (instruction_at 0 0)) overtaking ++ q)
    × (length q ≤ 4)
rob_run-Perm_example =
    rob_run-Perm 4 2 (omega arith) (instruction_at 0 0) overtaking
      (refl, (refl, (refl, (refl, (refl, (refl, tt))))))

-- The buffer that has accepted two instructions and has the result of the second.
abbrev waiting : List RobInputs
waiting = issue (instruction_at 100 1) ∷ issue (instruction_at 104 2) ∷ complete 1 ∷ []

abbrev half_done : Rob
half_done = rob_final 4 2 (rob_reset (instruction_at 0 0)) waiting

abbrev held :
    (q : List Issued) × Window 4 (view half_done) q
    × Perm
        (rob_accepted 4 2 (rob_reset (instruction_at 0 0)) waiting)
        (rob_committed 4 2 (rob_reset (instruction_at 0 0)) waiting ++ q)
    × (length q ≤ 4)
held = rob_run-Perm 4 2 (omega arith) (instruction_at 0 0) waiting (refl, (refl, (refl, tt)))

rob_edge-Window_example :
    (q : List Issued) × Commits (fifo_pop half_done (complete 1)) (comm_data half_done) held.0 q
    × Window 4 (view (rob_edge 4 2 half_done (complete 1))) (
        q
        ++ (if fifo_push half_done (complete 1) then issued_part (instruction_at 0 0) ∷ [] else []))
rob_edge-Window_example =
    rob_edge-Window 4 (omega arith) 2 half_done (complete 1) held.0 held.1 refl
