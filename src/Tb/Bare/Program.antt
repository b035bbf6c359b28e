-- ===== src/Tb/Bare/Program.antt =====
-- The main function of tb/verilator/len5_tb.cpp as a whole: the command line, the messages and the run.
-- `file` is __FILE__. The usage text of -h and the dump files are left out.
use Prim.Native.String.{String, ◌++◌ as str_cat, len}
use len5_core.Common.{
  ℕ, ◌*◌, ◌%◌, ◌^◌, ◌≤◌, ◌<◌, ◌≡◌, refl, ap, ◌∙◌, Bool, true, false, Option, none, some, List, [],
  ◌∷◌, ◌++◌, if◌then◌else◌, ◌>>=◌, All,
}
use len5_core.Common.Text.{decimal}
use len5_core.Tb.Logger.{
  TbLogger, Line, Printed, log, success, config, error, log_low, rank, get_log_lvl, set_sim_context,
}
use len5_core.Tb.Logger.Output.{
  print_all, IsPrinted, print_all-IsPrinted, log-IsPrinted, success-IsPrinted, config-IsPrinted,
  error-IsPrinted,
}
use len5_core.Tb.Options.{Arg, Options, Parsed, go_on, exit_success, exit_failure, bare_options}
use len5_core.Tb.Options.Parse.{settled, IsBare, parse_bare, last_or, any_on}
use len5_core.Tb.Bare.{Top, Bench, Verdict, completed, timed_out, simulate, verdict}
use len5_core.Tb.Bare.Wave.{driven, Stops, simulate-Stops}

-- How the program ends: behind the run, with the lines that it printed, or at an option.
pub data Outcome : Type 0 where
  ended : List Line → Verdict → Outcome
  exited : (status : ℕ) → Outcome

abbrev switched : Bool → String
switched b = if b then "ENABLED" else "DISABLED"

-- The messages before the run: the configuration on the logger of the context at time 0.
pub configuration : (file : String) → Options → List Printed
configuration file o =
    let l = set_sim_context 0 o.logger in
    let waves = config file 118 (str_cat "Wave dump: " (switched o.dump_waves)) l in
    let trace = config file 120 (str_cat "Instruction trace dump: " (switched o.dump_trace)) l in
    config file 115 (str_cat "Log level set to " (decimal (rank (get_log_lvl l)))) l
    ∷ config file 116 (str_cat "Reset cycles: " (decimal 10)) l
    ∷ config file 117 (str_cat "Max simulation time: " (decimal (o.max_cycles % 2 ^ 32))) l
    ∷ waves
    ∷ (if o.dump_waves then config file 119 "Wave dump file: logs/waves.fst" l else some none)
    ∷ trace
    ∷ (if o.dump_trace
        then config file 121 "Instruction trace file: logs/trace.log" l
        else some none)
    ∷ log log_low file 129 "Starting simulation..." l
    ∷ []

-- The message behind the run.
pub result_message : (file : String) → (time : ℕ) → Verdict → TbLogger → Printed
result_message file time completed logger =
    success log_low file 152 "Simulation completed successfully." (set_sim_context time logger)
result_message file time timed_out logger =
    error file 154 "Simulation timeout expired. Exiting..." (set_sim_context time logger)

module _ {S : Type 0} (eval : Top → S → S) (got_finish : S → Bool) (strtoul : String → ℕ)
    (file : String) where
  unfoldable pub run : Options → Top → S → Option Outcome
  unfolding configuration result_message
  run o top s =
      simulate eval got_finish o.max_cycles (if o.dump_trace then 1 else 0) top s >>= (λ b.
        print_all
          (configuration file o ++ result_message file b.time (verdict got_finish b) o.logger ∷ [])
        >>= (λ lines. some (ended lines (verdict got_finish b))))

  -- EXIT_SUCCESS is 0 and EXIT_FAILURE is 1.
  unfoldable pub bare_main : TbLogger → List Arg → Top → S → Option Outcome
  unfolding run
  bare_main logger args top s = elim (bare_options strtoul logger args) [
    | go_on o ↦ run o top s
    | exit_success ↦ some (exited 0)
    | exit_failure ↦ some (exited 1)
  ]

guarded-IsPrinted : (b : Bool) (p : Printed) → IsPrinted p → IsPrinted (if b then p else some none)
guarded-IsPrinted true p h = h
guarded-IsPrinted false p h = (none, refl)

module _ (file : String) (short : len file ≤ 200) where
  result_message-IsPrinted :
      (time : ℕ) (v : Verdict) (logger : TbLogger) → IsPrinted (result_message file time v logger)
  unfolding result_message
  result_message-IsPrinted time completed logger =
      success-IsPrinted file short 152 "Simulation completed successfully."
        (set_sim_context time logger) log_low
  result_message-IsPrinted time timed_out logger =
      error-IsPrinted file short 154 "Simulation timeout expired. Exiting..."
        (set_sim_context time logger)

  messages-IsPrinted :
      (o : Options) (last : Printed)
      → IsPrinted last
      → All IsPrinted (configuration file o ++ last ∷ [])
  unfolding configuration
  messages-IsPrinted o last h =
      let l = set_sim_context 0 o.logger in
      let told = λ (line : ℕ) (message : String). config-IsPrinted file short line message l in
      (
        told 115 (str_cat "Log level set to " (decimal (rank (get_log_lvl l)))),
        (
          told 116 (str_cat "Reset cycles: " (decimal 10)),
          (
            told 117 (str_cat "Max simulation time: " (decimal (o.max_cycles % 2 ^ 32))),
            (
              told 118 (str_cat "Wave dump: " (switched o.dump_waves)),
              (
                guarded-IsPrinted o.dump_waves (config file 119 "Wave dump file: logs/waves.fst" l)
                    (told 119 "Wave dump file: logs/waves.fst"),
                (
                  told 120 (str_cat "Instruction trace dump: " (switched o.dump_trace)),
                  (
                    guarded-IsPrinted o.dump_trace
                        (config file 121 "Instruction trace file: logs/trace.log" l)
                        (told 121 "Instruction trace file: logs/trace.log"),
                    (log-IsPrinted file short 129 "Starting simulation..." l log_low, (h, tt)),
                  ),
                ),
              ),
            ),
          ),
        ),
      )

run-ended :
    {S : Type 0} (eval : Top → S → S) (got_finish : S → Bool) (strtoul : String → ℕ) (file : String)
    (o : Options) (top : Top) (s : S)
    → len file ≤ 200
    → o.max_cycles < 2 ^ 63
    → (n : ℕ) × (lines : List Line) × Stops eval got_finish
        (if o.dump_trace then 1 else 0)
        (o.max_cycles * 2)
        n
        s
      × (run eval got_finish strtoul file o top s
          ≡ some (
              ended lines (
                if got_finish (driven eval (if o.dump_trace then 1 else 0) n s)
                then completed
                else timed_out)))
unfolding run
run-ended {S} eval got_finish strtoul file o top s short below =
    let r =
      simulate-Stops eval got_finish o.max_cycles (if o.dump_trace then 1 else 0) top s below in
    let last = λ (b : Bench S). result_message file b.time (verdict got_finish b) o.logger in
    let out = λ (b : Bench S). print_all (configuration file o ++ last b ∷ []) in
    let p = print_all-IsPrinted (configuration file o ++ last r.1 ∷ []) (
      messages-IsPrinted file short o (last r.1)
        (result_message-IsPrinted file short r.1.time (verdict got_finish r.1) o.logger)) in
    (
      r.0,
      p.0,
      r.3,
      ap
            (λ (x : Option (Bench S)).
              x >>= (λ b. out b >>= (λ lines. some (ended lines (verdict got_finish b)))))
            (r.2)
          ∙ ap
              (λ (x : Option (List Line)).
                x >>= (λ lines. some (ended lines (verdict got_finish r.1))))
              (p.1)
          ∙ ap (λ (v : Verdict). some (ended p.0 v)) (r.7),
    )

-- With options c, l, w and t only that leave fewer than 2^63 cycles, and with the path of the source file
-- of at most 200 bytes, the program prints its messages without overrunning a buffer and ends as the
-- run ends: at the first time up to twice the cycles at which the core, traced if the options say so,
-- has finished, with success, or at twice the cycles with a timeout.
pub bare_main-ended :
    {S : Type 0} (eval : Top → S → S) (got_finish : S → Bool) (strtoul : String → ℕ) (file : String)
    (logger : TbLogger) (args : List Arg) (top : Top) (s : S)
    → len file ≤ 200
    → All IsBare args
    → last_or b'c' 500000000 strtoul args < 2 ^ 63
    → (n : ℕ) × (lines : List Line) × Stops eval got_finish
        (if any_on b't' args then 1 else 0)
        (last_or b'c' 500000000 strtoul args * 2)
        n
        s
      × (bare_main eval got_finish strtoul file logger args top s
          ≡ some (
              ended lines (
                if got_finish (driven eval (if any_on b't' args then 1 else 0) n s)
                then completed
                else timed_out)))
unfolding bare_main bare_options
bare_main-ended eval got_finish strtoul file logger args top s short h below =
    let o : Options = record {
      dump_waves = false;
      dump_trace = false;
      max_cycles = 500000000;
      logger = logger;
    } in
    let r = run-ended eval got_finish strtoul file (settled strtoul args o) top s short below in
    (
      r.0,
      r.1,
      r.2,
      ap
            (λ (parsed : Parsed). elim parsed [
              | go_on o' ↦ run eval got_finish strtoul file o' top s
              | exit_success ↦ some (exited 0)
              | exit_failure ↦ some (exited 1)
            ])
            (parse_bare strtoul args o h)
          ∙ r.3,
    )
