-- ===== src/Tb/Bare.antt =====
-- The bench of the whole core, tb/verilator/len5_tb.cpp. The model that Verilator generates is an
-- argument: a type of states, what `eval` makes of the inputs, and whether `$finish` was called.
-- The waves and the messages on the screen leave no trace in the state.
pub mod Wave
pub mod Program
mod Tests
use Prim.Native.Nat.{bit_xor}
use len5_core.Common.{
  ℕ, zero, suc, ◌+◌, ◌-◌, ◌*◌, ◌%◌, ◌^◌, Bool, true, false, not, ◌&&◌, Option, none, some, ltb,
  ◌==◌, if◌then◌else◌,
}

-- The inputs of Vtb_bare.
pub record Top : Type 0 where
  pub rst_ni : ℕ
  pub clk_i : ℕ
  pub trace_en_i : ℕ

-- `time` is the time of the simulation context.
pub record Bench (S : Type 0) : Type 0 where
  pub top : Top
  pub dut : S
  pub time : ℕ
  pub sim_cycles : ℕ

pub data Verdict : Type 0 where
  completed timed_out : Verdict

-- `dut->clk_i ^= 1`.
unfoldable pub clk_gen : Top → Top
clk_gen top = record top { clk_i = bit_xor top.clk_i 1 }

-- RESET_CYCLES is 10.
unfoldable pub rst_dut : (sim_time : ℕ) → Top → Top
rst_dut sim_time top = record top {
  rst_ni = if ltb 1 sim_time && ltb sim_time (10 * 2) then 0 else 1;
}

module _ {S : Type 0} (eval : Top → S → S) where
  unfoldable pub init_dut : (trace_en : ℕ) → Top → S → Bench S
  init_dut trace_en top s =
      let driven = record top { rst_ni = 0; clk_i = 1; trace_en_i = trace_en } in
      record { top = driven; dut = eval driven s; time = 0; sim_cycles = 0 }

  -- The body of the loop.
  unfoldable pub step : Bench S → Bench S
  unfolding clk_gen rst_dut
  step b =
      let top = clk_gen (rst_dut b.time b.top) in
      record {
        top = top;
        dut = eval top b.dut;
        time = b.time + 1;
        sim_cycles = if top.clk_i == 1 then b.sim_cycles + 1 else b.sim_cycles;
      }

module _ {S : Type 0} (eval : Top → S → S) (got_finish : S → Bool) where
  -- The `while` loop: none if the fuel runs out.
  pub main_loop : (fuel bound : ℕ) → Bench S → Option (Bench S)
  unfolding step
  main_loop zero bound b = none
  main_loop (suc fuel) bound b =
      let rest = main_loop fuel bound (step eval b) in
      if not (got_finish b.dut) && ltb b.time bound then rest else some b

  -- `max_cycles << 1` on 64 bits.
  unfoldable pub simulate : (max_cycles trace_en : ℕ) → Top → S → Option (Bench S)
  unfolding main_loop init_dut
  simulate max_cycles trace_en top s =
      let bound = max_cycles * 2 % 2 ^ 64 in
      main_loop (bound + 1) bound (init_dut eval trace_en top s)

-- The last message.
unfoldable pub verdict : {S : Type 0} → (got_finish : S → Bool) → Bench S → Verdict
verdict got_finish b = if got_finish b.dut then completed else timed_out
