-- ===== src/Tb/Bare/Tests.antt =====
-- A core that finishes at its first rising edge out of reset.
use len5_core.Common.{
  ℕ, ◌+◌, ◌*◌, ◌/◌, ◌≡◌, refl, inl, inr, Bool, some, List, [], ◌∷◌, arith, ◌==◌, if◌then◌else◌,
}
use len5_core.Tb.Bare.{Top, Bench, completed, timed_out, simulate, verdict}
use Prim.Native.String.{String}
use len5_core.Tb.Logger.{Line, new_logger}
use len5_core.Tb.Options.{Arg}
use len5_core.Tb.Options.Parse.{last_or, any_on}
use len5_core.Tb.Bare.Program.{ended, bare_main, bare_main-ended}
use len5_core.Tb.Bare.Wave.{driven, Stops, simulate-Stops}

abbrev count_up : Top → ℕ → ℕ
count_up top s = if top.rst_ni == 1 then s + top.clk_i else 0

abbrev is_one : ℕ → Bool
is_one s = s == 1

abbrev idle : Top
idle = record { rst_ni = 0; clk_i = 0; trace_en_i = 0 }

simulate-Stops_example :
    (n : ℕ) × (b : Bench ℕ) × (simulate count_up is_one 50 1 idle 0 ≡ some b)
    × Stops count_up is_one 1 (50 * 2) n 0
    × (b.dut ≡ driven count_up 1 n 0)
    × (b.time ≡ n)
    × (b.sim_cycles ≡ n / 2)
    × (verdict is_one b ≡ (if is_one (driven count_up 1 n 0) then completed else timed_out))
simulate-Stops_example = simulate-Stops count_up is_one 50 1 idle 0 (omega arith)

abbrev two_thousand : String → ℕ
two_thousand s = 2000

abbrev line : List Arg
line = (b'c', "2000") ∷ (b't', "1") ∷ []

bare_main-ended_example :
    (n : ℕ) × (lines : List Line) × Stops count_up is_one
      (if any_on b't' line then 1 else 0)
      (last_or b'c' 500000000 two_thousand line * 2)
      n
      0
    × (bare_main count_up is_one two_thousand "tb/verilator/len5_tb.cpp" new_logger line idle 0
        ≡ some (
            ended lines (
              if is_one (driven count_up (if any_on b't' line then 1 else 0) n 0)
              then completed
              else timed_out)))
bare_main-ended_example =
    bare_main-ended count_up is_one two_thousand "tb/verilator/len5_tb.cpp" new_logger line idle 0
      (omega arith) (inl (inl refl), (inr refl, tt)) (omega arith)
