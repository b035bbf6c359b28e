-- ===== src/Tb/Logger/Lines.antt =====
-- Which calls print, where, and that the buffers hold what is written to them.
use Prim.Native.Char.{code}
use Prim.Native.String.len
use Prim.Native.String.{String, [], ◌∷◌, ◌++◌ as str_cat, len}
use text.Mathlib.TextPositions.{len-append}
use len5_core.Common.{
  lt→ltb, ℕ, ◌+◌, ◌≤◌, ◌<◌, ◌≡◌, refl, inl, inr, Bool, true, false, none, some, [], ◌∷◌, arith, leb,
  ◌==◌, if◌then◌else◌, Bool-cases,
}
use len5_core.Common.Text.{decimal, decimal-len}
use len5_core.Tb.Logger.{
  LogLvl, rank, TbLogger, Stream, stdout, stderr, Line, Printed, pad_right, basename_loop, basename,
  str_buf, stamp, print, log, success, config, warning, error,
}

basename_loop-len :
    (current rest : String)
    → len rest ≤ len current
    → len (basename_loop current rest) ≤ len current
unfolding basename_loop
basename_loop-len current [] h = omega arith
basename_loop-len current (c ∷ rest) h =
    let longer = len.cons c rest in
    elim (Bool-cases (code c == 47)) [
      | inl e ↦ rw e (omega (arith, h, longer, basename_loop-len rest rest (omega arith)))
      | inr e ↦ rw e (basename_loop-len current rest (omega (arith, h, longer)))
    ]

str_buf-len :
    (tag file : String) (line : ℕ) (close : String)
    → len (str_buf tag file line close) ≤ len tag + len file + len close + 23
unfolding str_buf basename
str_buf-len tag file line close =
    let name = basename file in
    let place = str_cat (decimal line) (str_cat " >" close) in
    omega (
      arith,
      len-append tag (str_cat name (str_cat ":" place)),
      len-append name (str_cat ":" place),
      len-append ":" place,
      len-append (decimal line) (str_cat " >" close),
      len-append " >" close,
      basename_loop-len file file (omega arith),
      decimal-len line,
    )

-- The call prints one line to the stream if the test holds, and nothing otherwise.
abbrev pub Prints : Bool → Stream → Printed → Type 0
Prints test to p = (x : Line) × (p ≡ some (if test then some x else none)) × (x.stream ≡ to)

print-Prints :
    (to : Stream) (width : ℕ) (tag file : String) (line : ℕ) (close rest : String)
    → len file ≤ 200
    → len tag + len close < 30
    → Prints true to (print to width file (str_buf tag file line close) rest)
unfolding print
print-Prints to width tag file line close rest h k =
    let buf = str_buf tag file line close in
    (
      record { stream = to; text = str_cat (pad_right width buf) (str_cat rest "\n") },
      rw
          (
            lt→ltb (len file) 256 (omega (arith, h)),
            lt→ltb (len buf) 256 (omega (arith, h, k, str_buf-len tag file line close)),
          )
          refl,
      refl,
    )

guarded :
    (test : Bool) (to : Stream) (p : Printed)
    → Prints true to p
    → Prints test to (if test then p else some none)
guarded true to p h = h
guarded false to p h = (h.0, refl, h.2)

-- With the path of a source file of at most 200 bytes no call overruns a buffer: `log` and `success`
-- print one line to stdout when the level of the message is at most that of the logger and nothing
-- otherwise, and at every level `config` prints a line to stdout, `warning` and `error` to stderr.
pub calls-Prints :
    (lvl : LogLvl) (file : String) (line : ℕ) (message : String) (l : TbLogger)
    → len file ≤ 200
    → Prints (leb (rank lvl) (rank l.log_lvl)) stdout (log lvl file line message l)
      × Prints (leb (rank lvl) (rank l.log_lvl)) stdout (success lvl file line message l)
      × Prints true stdout (config file line message l)
      × Prints true stderr (warning file line message l)
      × Prints true stderr (error file line message l)
unfolding log success config warning error
calls-Prints lvl file line message l h =
    let passes = leb (rank lvl) (rank l.log_lvl) in
    let rest = str_cat " " (str_cat (stamp l) message) in
    (
      guarded passes stdout (print stdout 35 file (str_buf "[LOG   ] " file line "") rest)
          (print-Prints stdout 35 "[LOG   ] " file line "" rest h (omega arith)),
      guarded passes stdout
          (print stdout 46 file (str_buf "\u{1b}[1;32m[OK!   ] " file line "\u{1b}[0m") rest)
          (print-Prints stdout 46 "\u{1b}[1;32m[OK!   ] " file line "\u{1b}[0m" rest h
            (omega arith)),
      print-Prints stdout 44 "\u{1b}[1m[CONFIG] " file line "\u{1b}[0m" message h (omega arith),
      print-Prints stderr 46 "\u{1b}[1;33m[WARN  ] " file line "\u{1b}[0m" rest h (omega arith),
      print-Prints stderr 46 "\u{1b}[1;31m[ERR!  ] " file line "\u{1b}[0m" rest h (omega arith),
    )
