-- ===== src/Tb/Logger.antt =====
-- The logger of tb/verilator/tb_macros.cpp and tb_macros.hh. A message is the text that `vprintf`
-- writes; `basename` cuts the path at its last slash, since the name of a source file ends in none.
pub mod Level
pub mod Lines
pub mod Output
mod Tests
use Prim.Native.Char.{Char, code}
use Prim.Native.String.{String, [], ◌∷◌, ◌++◌, len, slice}
use len5_core.Common.Text.{decimal}
use text.Mathlib.Text.{◌==◌ as str_eq}
use len5_core.Common.Int.{ℤ, pos, negsuc}
use len5_core.Common.{
  true, false, ◌&&◌, ◌==◌, ℕ, zero, suc, ◌+◌, ◌-◌, ◌*◌, ◌/◌, ◌%◌, ◌^◌, ◌≤◌, ◌<◌, Bool, Option, none,
  some, leb, ltb, if◌then◌else◌,
}

pub data LogLvl : Type 0 where
  log_none log_low log_medium log_high log_full log_debug : LogLvl

-- The value of the enumerator.
abbrev pub rank : LogLvl → ℕ
rank log_none = 0
rank log_low = 1
rank log_medium = 2
rank log_high = 3
rank log_full = 4
rank log_debug = 5

-- `vcntx` is the time of the simulation context, or none for NULL.
pub record TbLogger : Type 0 where
  pub log_lvl : LogLvl
  pub vcntx : Option ℕ

-- The constructor.
unfoldable pub new_logger : TbLogger
new_logger = record { log_lvl = log_medium; vcntx = none }

unfoldable pub get_sim_time : TbLogger → ℕ
get_sim_time l = elim l.vcntx [ none ↦ 0 | some t ↦ t ]

unfoldable pub set_sim_context : ℕ → TbLogger → TbLogger
set_sim_context cntx l = record l { vcntx = some cntx }

-- The three functions `setLogLvl`: of a level, of a name and of a number.
unfoldable pub set_log_lvl : LogLvl → TbLogger → TbLogger
set_log_lvl lvl l = record l { log_lvl = lvl }

unfoldable pub level_of_name : String → LogLvl
level_of_name lvl =
    if str_eq lvl "LOG_NONE"
    then log_none
    else if str_eq lvl "LOG_LOW"
    then log_low
    else if str_eq lvl "LOG_HIGH"
    then log_high
    else if str_eq lvl "LOG_FULL"
    then log_full
    else if str_eq lvl "LOG_DEBUG"
    then log_debug
    else log_medium

unfoldable pub set_log_lvl_name : String → TbLogger → TbLogger
set_log_lvl_name lvl l = record l { log_lvl = level_of_name lvl }

unfoldable pub level_of_number : ℤ → LogLvl
level_of_number (pos n) =
    if n == 0
    then log_none
    else if n == 1
    then log_low
    else if n == 2
    then log_medium
    else if n == 3
    then log_high
    else if n == 4
    then log_full
    else if n == 5
    then log_debug
    else log_medium
level_of_number (negsuc n) = log_medium

unfoldable pub set_log_lvl_number : ℤ → TbLogger → TbLogger
set_log_lvl_number lvl l = record l { log_lvl = level_of_number lvl }

unfoldable pub get_log_lvl : TbLogger → LogLvl
get_log_lvl l = l.log_lvl

pub data Stream : Type 0 where
  stdout stderr : Stream

pub spaces : ℕ → String
spaces zero = ""
spaces (suc n) = " " ++ spaces n

-- `%-35s`, and `%5lu` of a number.
unfoldable pub pad_right : ℕ → String → String
unfolding spaces
pad_right n s = s ++ spaces (n - len s)

unfoldable pub pad_left : ℕ → String → String
unfolding spaces
pad_left n s = spaces (n - len s) ++ s

-- The part behind the last slash; `current` is the part behind the last one so far.
pub basename_loop : (current rest : String) → String
basename_loop current [] = current
basename_loop current (c ∷ rest) = basename_loop (if code c == 47 then rest else current) rest

unfoldable pub basename : String → String
unfolding basename_loop
basename n = basename_loop n n

-- What a call prints, if anything; none when the 256 bytes of `n` or of `str_buf` are overrun.
pub record Line : Type 0 where
  pub stream : Stream
  pub text : String

abbrev pub Printed : Type 0
Printed = Option (Option Line)

-- The place in the source, between the tag and its end.
unfoldable pub str_buf : (tag file : String) → ℕ → (close : String) → String
unfolding basename
str_buf tag file line close = tag ++ basename file ++ ":" ++ decimal line ++ " >" ++ close

-- `[%5lu] `.
unfoldable pub stamp : TbLogger → String
unfolding get_sim_time pad_left
stamp l = "[" ++ pad_left 5 (decimal (get_sim_time l)) ++ "] "

unfoldable pub print : Stream → (width : ℕ) → (file buf rest : String) → Printed
unfolding pad_right
print to width file buf rest =
    if ltb (len file) 256 && ltb (len buf) 256
    then some (some (record { stream = to; text = pad_right width buf ++ rest ++ "\n" }))
    else none

unfoldable pub log : LogLvl → (file : String) → ℕ → (message : String) → TbLogger → Printed
unfolding print str_buf stamp
log lvl file line message l =
    if leb (rank lvl) (rank l.log_lvl)
    then print stdout 35 file (str_buf "[LOG   ] " file line "") (" " ++ stamp l ++ message)
    else some none

unfoldable pub success : LogLvl → (file : String) → ℕ → (message : String) → TbLogger → Printed
unfolding print str_buf stamp
success lvl file line message l =
    if leb (rank lvl) (rank l.log_lvl)
    then print stdout 46 file (str_buf "\u{1b}[1;32m[OK!   ] " file line "\u{1b}[0m")
        (" " ++ stamp l ++ message)
    else some none

unfoldable pub config : (file : String) → ℕ → (message : String) → TbLogger → Printed
unfolding print str_buf
config file line message l =
    print stdout 44 file (str_buf "\u{1b}[1m[CONFIG] " file line "\u{1b}[0m") message

unfoldable pub warning : (file : String) → ℕ → (message : String) → TbLogger → Printed
unfolding print str_buf stamp
warning file line message l =
    print stderr 46 file (str_buf "\u{1b}[1;33m[WARN  ] " file line "\u{1b}[0m")
      (" " ++ stamp l ++ message)

unfoldable pub error : (file : String) → ℕ → (message : String) → TbLogger → Printed
unfolding print str_buf stamp
error file line message l =
    print stderr 46 file (str_buf "\u{1b}[1;31m[ERR!  ] " file line "\u{1b}[0m")
      (" " ++ stamp l ++ message)
