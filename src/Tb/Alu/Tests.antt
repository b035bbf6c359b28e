-- ===== src/Tb/Alu/Tests.antt =====
-- Runs of the bench at concrete draws.
use len5_core.Common.{
  ◌≤◌, ℕ, ◌+◌, ◌*◌, ◌%◌, ◌^◌, ◌<◌, ◌≡◌, refl, inl, inr, Option, some, List, [], ◌∷◌, arith, ◌>>=◌,
  length, drop,
}
use len5_core.Isa.{alu_ctl_of, alu_sraw, meaning}
use len5_core.Tb.Alu.{flush_queues, ReqTx, Scb, get_err_num, Ports, exp_res, get_tx_num}
use Prim.Native.String.{String}
use len5_core.Tb.Logger.{Line, TbLogger, new_logger, get_log_lvl, log_low}
use len5_core.Tb.Options.{Arg}
use len5_core.Tb.Alu.Main.Program.{ended, alu_main, alu_main-IsSound, alu_main-succeeded}
use len5_core.Tb.Alu.Scoreboard.{
  Event, request, response, play, requests, responses, verdicts, mismatches, pile, play-verdicts,
}
use len5_core.Rtl.Alu.{result, shifter_res, shifter, shifter_a, shifter_shamt}
use len5_core.Tb.Alu.Expected.{exp_res-meaning}
use len5_core.Tb.Alu.Main.{Source, Draws, Sim, gen_req_tx, simulate, summary, test_succeeded}
use len5_core.Tb.Alu.Main.Draw.{DrawsAt, gen_req_tx-DrawsAt}
use len5_core.Tb.Alu.Main.Reports.{IsSound}
use len5_core.Tb.Alu.Main.Device.{combinational, alu_eval}
use len5_core.Tb.Alu.Main.Run.{simulate-IsSound, simulate-alu_eval}

exp_res-meaning_example : exp_res alu_sraw (2 ^ 31 + 8) 3 ≡ meaning alu_sraw (2 ^ 31 + 8) 3
exp_res-meaning_example = exp_res-meaning alu_sraw (2 ^ 31 + 8) 3 (omega arith) (omega arith)

abbrev low : Ports
low = record {
  clk_i = 0;
  rst_ni = 0;
  flush_i = 0;
  valid_i = 0;
  ready_i = 0;
  ctl_i = 0;
  rob_idx_i = 0;
  rs1_i = 0;
  rs2_i = 0;
  valid_o = 0;
  result_o = 0;
}

-- Every number is drawn in turn, and vl_rand64 gives 64-bit squares.
abbrev counting : Source
counting = record {
  rand = λ n. n * 7 + 19;
  vl_rand64 = λ n. n * n % 2 ^ 64;
  fresh = record { rs1 = 5; rs2 = 5; alu_ctl = 200; valid = 9; flush = 9; rob_idx = 5 };
}

counting_bounded : (n : ℕ) → counting.vl_rand64 n < 2 ^ 64
counting_bounded n = omega arith

abbrev start : Draws
start = record { rands = 1; rand64s = 0 }

gen_req_tx-DrawsAt_example : DrawsAt (counting.rand start.rands % 100) (gen_req_tx counting start).0
gen_req_tx-DrawsAt_example = gen_req_tx-DrawsAt counting start counting_bounded

simulate-IsSound_example :
    (m : Sim (Unit {0})) × (simulate (combinational (λ ctl a b. a)) counting 40 low tt ≡ some m)
    × (m.time ≡ 40 * 2)
    × IsSound (λ ctl a b. a) m.scb
    × (length m.scb.req_q ≤ 1)
simulate-IsSound_example =
    simulate-IsSound (λ ctl a b. a) counting counting_bounded 40 low (omega arith) refl

simulate-alu_eval_example :
    (m : Sim (Unit {0})) × (simulate alu_eval counting 40 low tt ≡ some m)
    × (m.time ≡ 40 * 2)
    × (summary m.scb ≡ test_succeeded 0 (get_tx_num m.scb))
simulate-alu_eval_example = simulate-alu_eval counting 40 low counting_bounded (omega arith) refl

-- The transactions and errors of a run.
abbrev counted : Option (Sim (Unit {0})) → Option (ℕ × ℕ)
counted o = o >>= (λ m. some (m.scb.tx_num, m.scb.err_num))

-- On the unit, and on one that passes its first operand on.
runs :
    (counted (simulate alu_eval counting 40 low tt) ≡ some (27, 0))
    × (counted (simulate (combinational (λ ctl a b. a)) counting 40 low tt) ≡ some (27, 26))
unfolding simulate alu_eval result alu_ctl_of shifter_res shifter shifter_a shifter_shamt
runs = (refl, refl)

abbrev forty : String → ℕ
forty s = 40

abbrev line : List Arg
line = (b'c', "40") ∷ (b'l', "LOG_FULL") ∷ []

alu_main-IsSound_example :
    (lines : List Line) × (l : TbLogger) × (scb : Scb) × (alu_main
        (combinational (λ ctl a b. a))
        counting
        forty
        "tb/expipe/alu/alu_tb.cpp"
        1
        new_logger
        line
        low
        tt
      ≡ some (ended 0 lines l scb))
    × IsSound (λ ctl a b. a) scb
    × (length scb.req_q ≤ 1)
    × (get_log_lvl l ≡ log_low)
alu_main-IsSound_example =
    alu_main-IsSound (λ ctl a b. a) counting forty "tb/expipe/alu/alu_tb.cpp" 1 new_logger line low
      (omega arith) (inl refl, (inr (inl refl), tt)) (omega arith) counting_bounded refl

alu_main-succeeded_example :
    (lines : List Line) × (l : TbLogger) × (scb : Scb) × (alu_main alu_eval counting forty
        "tb/expipe/alu/alu_tb.cpp" 1 new_logger line low tt
      ≡ some (ended 0 lines l scb))
    × (summary scb ≡ test_succeeded 0 (get_tx_num scb))
alu_main-succeeded_example =
    alu_main-succeeded counting forty "tb/expipe/alu/alu_tb.cpp" 1 new_logger line low (omega arith)
      (inl refl, (inr (inl refl), tt)) (omega arith) counting_bounded refl

-- A unit with two requests in its pipeline: an addition and a subtraction, which is answered wrong.
abbrev add_tx : ReqTx
add_tx = record { rs1 = 2; rs2 = 3; alu_ctl = 0; valid = 1; flush = 0; rob_idx = 0 }

abbrev sub_tx : ReqTx
sub_tx = record { rs1 = 2; rs2 = 3; alu_ctl = 2; valid = 1; flush = 0; rob_idx = 1 }

abbrev pipelined : List Event
pipelined =
    request add_tx
    ∷ request sub_tx
    ∷ response (record { res = 5 })
    ∷ request add_tx
    ∷ response (record { res = 1 })
    ∷ []

abbrev busy : Scb
busy = record { req_q = add_tx ∷ []; rsp_q = []; tx_num = 4; err_num = 0; reports = [] }

play-verdicts_example :
    (s : Scb) × (play pipelined (flush_queues busy) ≡ some s)
    × (s.reports ≡ pile (verdicts (requests pipelined) (responses pipelined)) [])
    × (s.req_q ≡ drop (length (responses pipelined)) (requests pipelined))
    × (s.rsp_q ≡ [])
    × (get_tx_num s ≡ (get_tx_num busy + length (responses pipelined)) % 2 ^ 32)
    × (get_err_num s
        ≡ (get_err_num busy + mismatches (requests pipelined) (responses pipelined)) % 2 ^ 32)
unfolding get_tx_num get_err_num
play-verdicts_example =
    play-verdicts pipelined busy tt
      (("ALU_ADD", refl), (("ALU_SUB", refl), (("ALU_ADD", refl), tt))) (omega arith) (omega arith)
