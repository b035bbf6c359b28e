-- ===== src/Rtl/Tests.antt =====
-- Runs of the storage cells, the arithmetic unit and the return address stack at concrete inputs.
use len5_core.Common.{
  ◌+◌, ℕ, ◌≤◌, ◌≡◌, refl, Bool, true, false, ◌&&◌, List, [], ◌∷◌, ◌++◌, map, arith, ◌==◌, length,
}
use len5_core.Isa.{alu_add, alu_sub}
use len5_core.Rtl.Handshake.{Inputs, after, accepted, delivered, final}
use len5_core.Rtl.SpillCell.{ext, spill_cell, cell_edge, next_state, cu_outputs, sees_flush}
use len5_core.Rtl.SpillCell.Contents.{cell_contents}
use len5_core.Rtl.SpillCell.Queue.{spill_cell-in_order}
use len5_core.Rtl.Fifo.{Fifo, fifo_valid, fifo_ready, fifo_edge, fifo}
use len5_core.Rtl.Fifo.Holds.{Holds}
use len5_core.Rtl.Fifo.Queue.{Holds-empty, fifo_edge-Holds, fifo-in_order}
use len5_core.Rtl.Alu.Unit.{
  Request, u_out_reg, answers, registers, requests, specified, unit-answered,
}
use len5_core.Rtl.Ras.{Ras, RasInputs, ras_reset}
use len5_core.Rtl.Ras.Prediction.{newest, prediction, ras_run, stacks_run, ras_run-prediction}
use len5_core.Rtl.RrArbiter.{ArbiterInputs, is_served}
use len5_core.Rtl.RrArbiter.Turns.{arbiter-served}
use len5_core.Rtl.RrArbiter.Starved.{alternating, alternating-starved}
use len5_core.Rtl.IntRegstat.{RegStatInputs, regstat_reset}
use len5_core.Rtl.IntRegstat.Writers.{newest as newest_writer}
use len5_core.Rtl.IntRegstat.Edge.{in_flight}
use len5_core.Rtl.IntRegstat.Status.{
  AllCounted, in_flight_run, producer, regstat_run, regstat_run-newest,
}
use len5_core.Rtl.FairArbiter.{
  TwoInputs, standing, won_by_a, won_by_b, last_served_run, conflicts-balanced,
}

abbrev item : (valid ready : Bool) → ℕ → Inputs ℕ
item v r x = record { flush_i = false; valid_i = v; ready_i = r; data_i = x }

-- Three items, of which the cell in its reset state loses none: it is not ready at the first edge.
abbrev traffic : List (Inputs ℕ)
traffic = item true false 5 ∷ item true false 6 ∷ item true false 7 ∷ item true true 8 ∷ []

spill_cell-in_order_example :
    (accepted (spill_cell ext 0) (spill_cell ext 0).reset traffic
      ≡ delivered (spill_cell ext 0) (spill_cell ext 0).reset traffic
        ++ cell_contents (final (spill_cell ext 0) (spill_cell ext 0).reset traffic))
    × (length (cell_contents (final (spill_cell ext 0) (spill_cell ext 0).reset traffic)) ≤ 2)
spill_cell-in_order_example = spill_cell-in_order ext 0 traffic (refl, (refl, (refl, (refl, tt))))

abbrev cleared : Fifo ℕ
cleared = record { head_cnt = 0; tail_cnt = 0; entries = λ i. 0; data_valid = λ i. false }

fifo_edge-Holds_example :
    Holds 4
      (fifo_edge 4 cleared (item true true 5))
      (after (fifo_valid 4 cleared && true) (true && fifo_ready 4 cleared false) 5 [])
fifo_edge-Holds_example =
    fifo_edge-Holds 4 cleared [] (item true true 5) (Holds-empty 4 (λ i. 0) (omega arith))

fifo-in_order_example :
    (q : List ℕ) × Holds 2 (final (fifo 2 0) (fifo 2 0).reset traffic) q
    × (accepted (fifo 2 0) (fifo 2 0).reset traffic
        ≡ delivered (fifo 2 0) (fifo 2 0).reset traffic ++ q)
    × (length q ≤ 2)
fifo-in_order_example = fifo-in_order 2 0 traffic (omega arith) (refl, (refl, (refl, (refl, tt))))

abbrev request : (valid ready : Bool) → Request → Inputs Request
request v r x = record { flush_i = false; valid_i = v; ready_i = r; data_i = x }

abbrev sum : Request
sum = record { ctl_i = alu_add; rob_idx_i = 3; rs1_i = 40; rs2_i = 2 }

abbrev difference : Request
difference = record { ctl_i = alu_sub; rob_idx_i = 4; rs1_i = 40; rs2_i = 41 }

-- The unit leaves its reset state, and takes two requests while the consumer is not ready.
abbrev before : List (Inputs Request)
before = request false false sum ∷ request true false sum ∷ request true false difference ∷ []

abbrev behind : List (Inputs Request)
behind = request false true sum ∷ request false true sum ∷ []

two_held : length behind ≡ length (cell_contents (registers u_out_reg.reset before))
unfolding final cell_edge next_state cu_outputs sees_flush
two_held = refl

unit-answered_example :
    answers u_out_reg.reset before ++ answers (registers u_out_reg.reset before) behind
    ≡ map specified (requests u_out_reg.reset before)
unit-answered_example =
    unit-answered before behind (refl, (refl, (refl, tt)))
      ((omega arith, omega arith), ((omega arith, omega arith), ((omega arith, omega arith), tt)))
      two_held (refl, (refl, tt)) (refl, (refl, tt))

abbrev call_at : ℕ → RasInputs
call_at link = record {
  flush_i = false;
  push_i = true;
  pop_i = false;
  link_addr_i = link;
  call_confirm_i = true;
  ret_confirm_i = false;
  res_link_addr_i = link;
}

abbrev unknown_addresses : Ras
unknown_addresses = record {
  ras_valid_q = λ i. true;
  ras_addr_q = λ i. i;
  ras_valid_confirmed_q = λ i. true;
  ras_addr_confirmed_q = λ i. i;
}

ras_run-prediction_example :
    prediction 4 (ras_run 4 (ras_reset 4 unknown_addresses) (call_at 100 ∷ call_at 200 ∷ []))
    ≡ newest
        (stacks_run 4
          (record { predicted = []; confirmed = [] })
          (call_at 100 ∷ call_at 200 ∷ [])).predicted
ras_run-prediction_example =
    ras_run-prediction 4 unknown_addresses (call_at 100 ∷ call_at 200 ∷ []) (omega arith)

-- Two units that always ask; unit 1 is not in the first round.
abbrev asking : ArbiterInputs
asking = record { flush_i = false; valid_i = λ k. true; ready_i = true }

abbrev first_only : ℕ → Bool
first_only k = k == 0

arbiter-served_example : is_served 2 1 first_only (asking ∷ asking ∷ asking ∷ asking ∷ []) ≡ true
arbiter-served_example =
    arbiter-served 2 1 (omega arith) first_only (asking ∷ asking ∷ asking ∷ asking ∷ [])
      (
        ((refl, refl), refl),
        (((refl, refl), refl), (((refl, refl), refl), (((refl, refl), refl), tt))),
      )
      (omega arith)

alternating-starved_example : is_served 2 0 (λ k. false) (alternating 3) ≡ false
alternating-starved_example = alternating-starved 3

-- The register 5 is written by the entries 1 and 2, and the first of them is committed.
abbrev writes : (rob_idx : ℕ) (committing : Bool) → RegStatInputs
writes idx c = record {
  flush_i = false;
  issue_valid_i = true;
  issue_rd_idx_i = 5;
  issue_rob_idx_i = idx;
  comm_valid_i = c;
  comm_rd_idx_i = 5;
}

two_writers : AllCounted 3 [] (writes 1 false ∷ writes 2 true ∷ [])
unfolding AllCounted in_flight
two_writers = (
  (λ h. absurd (ground (arith, h)), λ r. ground arith),
  ((λ h. omega arith, λ r. ground arith), tt),
)

regstat_run-newest_example :
    producer 3 (regstat_run 3 regstat_reset (writes 1 false ∷ writes 2 true ∷ [])) 5
    ≡ newest_writer 5 (in_flight_run 3 [] (writes 1 false ∷ writes 2 true ∷ []))
regstat_run-newest_example =
    regstat_run-newest 3 (writes 1 false ∷ writes 2 true ∷ []) 5 two_writers

-- Three conflicts, with an edge between them at which only b is valid.
abbrev offers : (valid_a : Bool) → TwoInputs ℕ
offers a = record { valid_a_i = a; valid_b_i = true; ready_i = true; data_a_i = 1; data_b_i = 2 }

conflicts-balanced_example :
    won_by_a false (offers true ∷ offers true ∷ offers false ∷ offers true ∷ []) + standing false
    ≡ won_by_b false (offers true ∷ offers true ∷ offers false ∷ offers true ∷ [])
      + standing
          (last_served_run false (offers true ∷ offers true ∷ offers false ∷ offers true ∷ []))
conflicts-balanced_example =
    conflicts-balanced false (offers true ∷ offers true ∷ offers false ∷ offers true ∷ [])
