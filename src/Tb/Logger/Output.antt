-- ===== src/Tb/Logger/Output.antt =====
-- What a sequence of calls of the logger prints.
use Prim.Native.String.{String, len}
use len5_core.Common.{
  ℕ, if◌then◌else◌, Option, none, some, List, [], ◌∷◌, ◌>>=◌, All, ◌≤◌, ◌≡◌, refl, leb,
}
use len5_core.Tb.Logger.{
  Printed, Line, LogLvl, TbLogger, log, success, config, error, rank, log_low,
}
use len5_core.Tb.Logger.Lines.{calls-Prints}

-- A line behind which others follow, if the call printed one.
abbrev join : Option Line → List Line → List Line
join none lines = lines
join (some l) lines = l ∷ lines

pub print_all : List Printed → Option (List Line)
print_all [] = some []
print_all (p ∷ ps) = p >>= (λ line. print_all ps >>= (λ lines. some (join line lines)))

-- The call overran no buffer.
abbrev pub IsPrinted : Printed → Type 0
IsPrinted p = (x : Option Line) × (p ≡ some x)

pub print_all-IsPrinted :
    (ps : List Printed) → All IsPrinted ps → (lines : List Line) × (print_all ps ≡ some lines)
unfolding print_all
print_all-IsPrinted [] h = ([], refl)
print_all-IsPrinted (p ∷ ps) h =
    let rest = print_all-IsPrinted ps (h.1) in (join h.0.0 rest.0, rw (h.0.1, rest.1) refl)

module _ (file : String) (short : len file ≤ 200) (line : ℕ) (message : String) (l : TbLogger) where
  pub log-IsPrinted : (lvl : LogLvl) → IsPrinted (log lvl file line message l)
  log-IsPrinted lvl =
      let h = (calls-Prints lvl file line message l short).0 in
      (if leb (rank lvl) (rank l.log_lvl) then some h.0 else none, h.1)

  pub success-IsPrinted : (lvl : LogLvl) → IsPrinted (success lvl file line message l)
  success-IsPrinted lvl =
      let h = (calls-Prints lvl file line message l short).1 in
      (if leb (rank lvl) (rank l.log_lvl) then some h.0 else none, h.1)

  pub config-IsPrinted : IsPrinted (config file line message l)
  config-IsPrinted = let h = (calls-Prints log_low file line message l short).2 in (some h.0, h.1)

  pub error-IsPrinted : IsPrinted (error file line message l)
  error-IsPrinted = let h = (calls-Prints log_low file line message l short).4 in (some h.0, h.1)
