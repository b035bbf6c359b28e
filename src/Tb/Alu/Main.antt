-- ===== src/Tb/Alu/Main.antt =====
-- The main program of the bench of the arithmetic unit, tb/expipe/alu/alu_tb.cpp. `rand` and
-- `vl_rand64` are streams of draws, each with the number of draws so far. The model that Verilator
-- generates is an argument: a type of states, and what `eval` makes of the ports. The unit never
-- calls $finish. The waves and the messages on the screen leave no trace in the state.
pub mod Draw
pub mod Reports
pub mod Device
pub mod Phase
pub mod Step
pub mod Run
pub mod Program
use Prim.Native.Nat.{bit_xor}
use len5_core.Common.{
  ℕ, zero, suc, ◌+◌, ◌-◌, ◌*◌, ◌%◌, ◌^◌, Bool, true, false, ◌&&◌, Option, none, some, List, [], ◌∷◌,
  ltb, ◌==◌, if◌then◌else◌, get_or, length, ◌>>=◌,
}
use len5_core.Tb.Alu.{
  Ports, ReqTx, Scb, drive, new_scb, req_monitor, rsp_monitor, get_err_num, get_tx_num,
}

-- `dut->clk_i ^= 1`.
unfoldable pub clk_gen : Ports → Ports
clk_gen p = record p { clk_i = bit_xor p.clk_i 1 }

-- END_OF_RESET_TIME is 4.
unfoldable pub rst_dut : (sim_time : ℕ) → Ports → Ports
rst_dut sim_time p =
    if ltb 1 sim_time && ltb sim_time 4
    then record p {
      rst_ni = 0;
      flush_i = 0;
      valid_i = 0;
      ready_i = 1;
      ctl_i = 0;
      rob_idx_i = 0;
      rs1_i = 0;
      rs2_i = 0;
    }
    else record p { rst_ni = 1 }

abbrev pub corner_cases : List ℕ
corner_cases =
    0x0000000000000000 ∷ 0x0000000000000001 ∷ 0x7FFFFFFFFFFFFFFF ∷ 0x8000000000000000
    ∷ 0xFFFFFFFFFFFFFFFF ∷ 0x000000007FFFFFFF ∷ 0x0000000080000000 ∷ 0x00000000FFFFFFFF
    ∷ 0x0000000100000000 ∷ 0x7FFFFFFF00000000 ∷ 0xFFFFFFFF00000000 ∷ 0xAAAAAAAAAAAAAAAA
    ∷ 0x5555555555555555 ∷ 0x00000000AAAAAAAA ∷ 0x0000000055555555 ∷ 0xAAAAAAAA00000000
    ∷ 0x5555555500000000 ∷ []

-- The random streams, and the objects before they are written to.
pub record Source : Type 0 where
  pub rand : ℕ → ℕ
  pub vl_rand64 : ℕ → ℕ
  pub fresh : ReqTx

-- How many draws were made of each.
pub record Draws : Type 0 where
  pub rands : ℕ
  pub rand64s : ℕ

-- ROB_DEPTH is 32.
unfoldable pub gen_req_tx : Source → Draws → Option ReqTx × Draws
gen_req_tx src d =
    let n = d.rands in
    let m = d.rand64s in
    let p = src.rand n % 100 in
    let corner = λ (k : ℕ). get_or corner_cases (src.rand k % (length corner_cases - 1)) 0 in
    let drawn = record d { rands = n + 1 } in
    if ltb p 20
    then (none, drawn)
    else if ltb p 25
    then (some (record src.fresh { valid = 0; flush = 1 }), drawn)
    else if p == 26
    then (
      some (record {
        valid = 1;
        flush = 0;
        rs1 = corner (n + 1);
        rs2 = corner (n + 2);
        rob_idx = src.rand (n + 3) % (32 - 1);
        alu_ctl = src.rand (n + 4) % 14;
      }),
      record d { rands = n + 5 },
    )
    else (
      some (record {
        valid = 1;
        flush = 0;
        rs1 = src.vl_rand64 m;
        rs2 = src.vl_rand64 (m + 1);
        rob_idx = src.rand (n + 1) % (32 - 1);
        alu_ctl = src.rand (n + 2) % 14;
      }),
      record { rands = n + 3; rand64s = m + 2 },
    )

-- `time` is the time of the simulation context.
pub record Sim (S : Type 0) : Type 0 where
  pub ports : Ports
  pub dut : S
  pub scb : Scb
  pub draws : Draws
  pub time : ℕ
  pub sim_cycles : ℕ

pub data Summary : Type 0 where
  test_failed test_succeeded : (errors transactions : ℕ) → Summary

module _ {S : Type 0} (eval : S → Ports → S × ℕ × ℕ) (src : Source) where
  -- The part of the loop behind the rising edge: a request, if one is drawn, and the monitors.
  unfoldable pub exercise : Ports → Scb → Draws → Option (Ports × Scb × Draws)
  unfolding gen_req_tx drive req_monitor rsp_monitor
  exercise p scb d =
      let drawn = gen_req_tx src d in
      let p' : Ports = elim drawn.0 [ none ↦ p | some r ↦ drive (some r) p ] in
      req_monitor src.fresh p' scb >>= rsp_monitor p' >>= (λ s. some (p', s, drawn.1))

  -- The body of the loop.
  unfoldable pub step : Sim S → Option (Sim S)
  unfolding exercise clk_gen rst_dut
  step m =
      let p = clk_gen (rst_dut m.sim_cycles m.ports) in
      let e = eval m.dut p in
      let out = record p { valid_o = e.1; result_o = e.2 } in
      let next = λ (x : Ports × Scb × Draws). some (record {
        ports = x.0;
        dut = e.0;
        scb = x.1;
        draws = x.2;
        time = m.time + 1;
        sim_cycles = if x.0.clk_i == 1 then m.sim_cycles + 1 else m.sim_cycles;
      }) in
      if (out.clk_i == 1) && ltb 4 m.time
      then exercise out m.scb m.draws >>= next
      else next (out, m.scb, m.draws)

  -- The `while` loop: none if the fuel runs out or a step is undefined.
  pub main_loop : (fuel bound : ℕ) → Sim S → Option (Sim S)
  unfolding step
  main_loop zero bound m = none
  main_loop (suc fuel) bound m =
      let rest = step m >>= main_loop fuel bound in if ltb m.time bound then rest else some m

  unfoldable pub simulate : (max_cycles : ℕ) → Ports → S → Option (Sim S)
  unfolding main_loop new_scb
  simulate max_cycles ports s =
      let bound = max_cycles * 2 % 2 ^ 64 in
      main_loop (bound + 1) bound (record {
        ports = ports;
        dut = s;
        scb = new_scb;
        draws = record { rands = 0; rand64s = 0 };
        time = 0;
        sim_cycles = 0;
      })

-- The last message.
unfoldable pub summary : Scb → Summary
unfolding get_err_num get_tx_num
summary s =
    if ltb 0 (get_err_num s)
    then test_failed (get_err_num s) (get_tx_num s)
    else test_succeeded (get_err_num s) (get_tx_num s)
