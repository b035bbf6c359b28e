-- ===== src/Tb/Options.antt =====
-- The command line of the two benches: tb/verilator/len5_tb.cpp and tb/expipe/alu/alu_tb.cpp.
-- `getopt_long` of the C library has cut the line into pairs of the value it returns and `optarg`;
-- `strtoul` with base 0 is an argument.
pub mod Parse
mod Tests
use Prim.Native.String.{String}
use text.Mathlib.Text.{◌==◌ as str_eq}
use len5_core.Common.{◌/◌, ◌^◌, ℕ, Bool, true, false, ◌||◌, List, [], ◌∷◌, ◌==◌, if◌then◌else◌}
use len5_core.Tb.Logger.{TbLogger, set_log_lvl_name}

abbrev pub Arg : Type 0
Arg = ℕ × String

-- `dump_trace` is a variable of len5_tb.cpp only.
pub record Options : Type 0 where
  pub dump_waves : Bool
  pub dump_trace : Bool
  pub max_cycles : ℕ
  pub logger : TbLogger

pub data Parsed : Type 0 where
  go_on : Options → Parsed
  exit_success exit_failure : Parsed

abbrev pub is_on : String → Bool
is_on optarg = str_eq optarg "true" || str_eq optarg "1"

abbrev pub set_waves : String → Options → Options
set_waves optarg o = record o { dump_waves = if is_on optarg then true else o.dump_waves }

abbrev pub set_trace : String → Options → Options
set_trace optarg o = record o { dump_trace = if is_on optarg then true else o.dump_trace }

abbrev pub set_level : String → Options → Options
set_level optarg o = record o { logger = set_log_lvl_name optarg o.logger }

-- The `while` loop around a `switch`.
pub parse_loop : (ℕ → String → Options → Parsed) → List Arg → Options → Parsed
parse_loop switch [] o = go_on o
parse_loop switch (arg ∷ args) o = elim (switch arg.0 arg.1 o) [
  | go_on o' ↦ parse_loop switch args o'
  | exit_success ↦ exit_success
  | exit_failure ↦ exit_failure
]

module _ (strtoul : String → ℕ) where
  abbrev pub set_cycles : String → Options → Options
  set_cycles optarg o = record o { max_cycles = strtoul optarg }

  -- The `switch` of len5_tb.cpp.
  unfoldable pub bare_switch : (opt : ℕ) → (optarg : String) → Options → Parsed
  bare_switch opt optarg o =
      if opt == b'c'
      then go_on (set_cycles optarg o)
      else if opt == b'l'
      then go_on (set_level optarg o)
      else if opt == b'w'
      then go_on (set_waves optarg o)
      else if opt == b't'
      then go_on (set_trace optarg o)
      else if opt == b'h'
      then exit_success
      else exit_failure

  -- The `switch` of alu_tb.cpp.
  unfoldable pub alu_switch : (opt : ℕ) → (optarg : String) → Options → Parsed
  alu_switch opt optarg o =
      if opt == b'c'
      then go_on (set_cycles optarg o)
      else if opt == b'l'
      then go_on (set_level optarg o)
      else if opt == b'w'
      then go_on (set_waves optarg o)
      else if opt == b'h'
      then exit_success
      else exit_failure

  -- The initial values: MAX_SIM_TIME is 1e9 and 1e7.
  unfoldable pub bare_options : TbLogger → List Arg → Parsed
  unfolding parse_loop bare_switch
  bare_options logger args =
      parse_loop bare_switch args (record {
        dump_waves = false;
        dump_trace = false;
        max_cycles = 10 ^ 9 / 2;
        logger = logger;
      })

  unfoldable pub alu_options : TbLogger → List Arg → Parsed
  unfolding parse_loop alu_switch
  alu_options logger args =
      parse_loop alu_switch args (record {
        dump_waves = false;
        dump_trace = false;
        max_cycles = 10 ^ 7 / 2;
        logger = logger;
      })
