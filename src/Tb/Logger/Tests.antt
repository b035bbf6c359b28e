-- ===== src/Tb/Logger/Tests.antt =====
-- Runs of the logger at concrete messages.
use Prim.Native.String.{String}
use text.Mathlib.Text.{◌==◌ as str_eq}
use text.Mathlib.TextEquality.{eq_iff}
use len5_core.Common.{◌≡◌, refl, ◌≢◌, true, false, arith, leb}
use len5_core.Common.Int.{pos}
use len5_core.Tb.Logger.{
  log, success, config, warning, error, new_logger, log_none, log_low, log_medium, log_high,
  log_full, log_debug, rank, stdout, stderr, LogLvl, set_log_lvl, set_log_lvl_name,
  set_log_lvl_number,
}
use len5_core.Tb.Logger.Level.{name, set_log_lvl_name-set_log_lvl}
use len5_core.Tb.Logger.Lines.{Prints, calls-Prints}

differs : (s t : String) → str_eq s t ≡ false → s ≢ t
differs s t h e = let k = (eq_iff s t).1 e in cc

zero_no_name : (w : LogLvl) → "0" ≢ name w
zero_no_name log_none = differs "0" "LOG_NONE" refl
zero_no_name log_low = differs "0" "LOG_LOW" refl
zero_no_name log_medium = differs "0" "LOG_MEDIUM" refl
zero_no_name log_high = differs "0" "LOG_HIGH" refl
zero_no_name log_full = differs "0" "LOG_FULL" refl
zero_no_name log_debug = differs "0" "LOG_DEBUG" refl

-- `-l 0` asks for no messages and gets those of LOG_MEDIUM.
set_log_lvl_name-set_log_lvl_example :
    (set_log_lvl_name (name log_none) new_logger ≡ set_log_lvl log_none new_logger)
    × (set_log_lvl_number (pos (rank log_none)) new_logger ≡ set_log_lvl log_none new_logger)
    × (set_log_lvl_name "0" new_logger ≡ set_log_lvl log_medium new_logger)
set_log_lvl_name-set_log_lvl_example =
    set_log_lvl_name-set_log_lvl new_logger log_none "0" zero_no_name

calls-Prints_example :
    Prints
      (leb (rank log_high) (rank log_medium))
      stdout
      (log log_high "tb/alu_tb.cpp" 129 "Starting" new_logger)
    × Prints
        (leb (rank log_high) (rank log_medium))
        stdout
        (success log_high "tb/alu_tb.cpp" 129 "Starting" new_logger)
    × Prints true stdout (config "tb/alu_tb.cpp" 129 "Starting" new_logger)
    × Prints true stderr (warning "tb/alu_tb.cpp" 129 "Starting" new_logger)
    × Prints true stderr (error "tb/alu_tb.cpp" 129 "Starting" new_logger)
unfolding new_logger
calls-Prints_example = calls-Prints log_high "tb/alu_tb.cpp" 129 "Starting" new_logger (omega arith)
