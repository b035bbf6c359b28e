-- ===== src/Tb/Alu/Main/Program.antt =====
-- The main function of tb/expipe/alu/alu_tb.cpp as a whole: the command line, the messages and the run.
-- `file` is __FILE__ and `seed` what `time` returned. The messages of the components are the reports
-- of the scoreboard; the usage text of -h and the dump file are left out.
use Prim.Native.String.{String, ◌++◌ as str_cat, len}
use len5_core.Common.{
  length, ℕ, ◌%◌, ◌^◌, ◌≤◌, ◌<◌, ◌≡◌, refl, ap, ◌∙◌, false, Option, some, List, [], ◌∷◌, ◌++◌,
  ◌>>=◌, All,
}
use len5_core.Isa.{AluCtl}
use len5_core.Common.Text.{decimal}
use len5_core.Tb.Logger.{
  TbLogger, Line, Printed, log, success, config, error, log_low, rank, get_log_lvl, set_log_lvl,
  set_sim_context,
}
use len5_core.Tb.Logger.Output.{
  IsPrinted, print_all, print_all-IsPrinted, log-IsPrinted, success-IsPrinted, config-IsPrinted,
  error-IsPrinted,
}
use len5_core.Tb.Options.{Arg, Options, Parsed, go_on, exit_success, exit_failure, alu_options}
use len5_core.Tb.Options.Parse.{settled, IsShared, All-IsBare, alu-bare, parse_bare, last_or}
use len5_core.Tb.Alu.{Ports, Scb, get_tx_num}
use len5_core.Tb.Alu.Main.{Source, Sim, Summary, test_failed, test_succeeded, simulate, summary}
use len5_core.Tb.Alu.Main.Reports.{IsSound}
use len5_core.Tb.Alu.Main.Device.{combinational, alu_eval}
use len5_core.Tb.Alu.Main.Run.{simulate-IsSound, simulate-alu_eval}

-- How the program ends: behind the run, with its exit status, the lines of `main`, the logger and the
-- scoreboard, or at an option.
pub data Outcome : Type 0 where
  ended : (status : ℕ) → List Line → TbLogger → Scb → Outcome
  exited : (status : ℕ) → Outcome

-- The messages before the run: two on the logger of the options, and two on that of the simulation, with
-- the context at time 0 and the level set to LOG_LOW.
pub messages_before : (file : String) → (seed : ℕ) → Options → List Printed
messages_before file seed o =
    let l = set_log_lvl log_low (set_sim_context 0 o.logger) in
    config file 85 (str_cat "Simulation cycles: " (decimal o.max_cycles)) o.logger
    ∷ config file 86 (str_cat "Log level set to " (decimal (rank (get_log_lvl o.logger)))) o.logger
    ∷ config file 122 (str_cat "PRG seed: " (decimal (seed % 2 ^ 32))) l
    ∷ log log_low file 129 "Starting simulation..." l
    ∷ []

abbrev ratio : (errors transactions : ℕ) → String
ratio errors transactions =
    str_cat "errors: " (str_cat (decimal errors) (str_cat "/" (decimal transactions)))

-- The message behind the run.
pub message_behind : (file : String) → Summary → TbLogger → Printed
message_behind file (test_failed e n) l = error file 170 (str_cat "TEST FAILED > " (ratio e n)) l
message_behind file (test_succeeded e n) l =
    success log_low file 174 (str_cat "TEST SUCCEEDED > " (ratio e n)) l

-- The logger behind the run.
abbrev pub logger_at : (time : ℕ) → Options → TbLogger
logger_at time o = set_sim_context time (set_log_lvl log_low (set_sim_context 0 o.logger))

module _ {S : Type 0} (eval : S → Ports → S × ℕ × ℕ) (src : Source) (strtoul : String → ℕ)
    (file : String) (seed : ℕ) where
  -- `main` returns 0 in any case.
  unfoldable pub run : Options → Ports → S → Option Outcome
  unfolding messages_before message_behind
  run o ports s = simulate eval src o.max_cycles ports s >>= (λ m.
      print_all (
        messages_before file seed o
        ++ message_behind file (summary m.scb) (logger_at m.time o) ∷ [])
      >>= (λ lines. some (ended 0 lines (logger_at m.time o) m.scb)))

  unfoldable pub alu_main : TbLogger → List Arg → Ports → S → Option Outcome
  unfolding run
  alu_main logger args ports s = elim (alu_options strtoul logger args) [
    | go_on o ↦ run o ports s
    | exit_success ↦ some (exited 0)
    | exit_failure ↦ some (exited 1)
  ]

module _ (file : String) (short : len file ≤ 200) where
  message_behind-IsPrinted : (s : Summary) (l : TbLogger) → IsPrinted (message_behind file s l)
  unfolding message_behind
  message_behind-IsPrinted (test_failed e n) l =
      error-IsPrinted file short 170 (str_cat "TEST FAILED > " (ratio e n)) l
  message_behind-IsPrinted (test_succeeded e n) l =
      success-IsPrinted file short 174 (str_cat "TEST SUCCEEDED > " (ratio e n)) l log_low

  messages-IsPrinted :
      (seed : ℕ) (o : Options) (last : Printed)
      → IsPrinted last
      → All IsPrinted (messages_before file seed o ++ last ∷ [])
  unfolding messages_before
  messages-IsPrinted seed o last h =
      let l = set_log_lvl log_low (set_sim_context 0 o.logger) in
      (
        config-IsPrinted file short 85 (str_cat "Simulation cycles: " (decimal o.max_cycles))
            o.logger,
        (
          config-IsPrinted file short 86
              (str_cat "Log level set to " (decimal (rank (get_log_lvl o.logger)))) o.logger,
          (
            config-IsPrinted file short 122 (str_cat "PRG seed: " (decimal (seed % 2 ^ 32))) l,
            (log-IsPrinted file short 129 "Starting simulation..." l log_low, (h, tt)),
          ),
        ),
      )

  -- A run that the simulation ends.
  run-ended :
      {S : Type 0} (eval : S → Ports → S × ℕ × ℕ) (src : Source) (strtoul : String → ℕ) (seed : ℕ)
      (o : Options) (ports : Ports) (s : S) (m : Sim S)
      → simulate eval src o.max_cycles ports s ≡ some m
      → (lines : List Line) × (run eval src strtoul file seed o ports s
          ≡ some (ended 0 lines (logger_at m.time o) m.scb))
  unfolding run
  run-ended {S} eval src strtoul seed o ports s m e =
      let last = λ (x : Sim S). message_behind file (summary x.scb) (logger_at x.time o) in
      let out = λ (x : Sim S). print_all (messages_before file seed o ++ last x ∷ []) in
      let p = print_all-IsPrinted (messages_before file seed o ++ last m ∷ []) (
        messages-IsPrinted seed o (last m)
          (message_behind-IsPrinted (summary m.scb) (logger_at m.time o))) in
      (
        p.0,
        ap
              (λ (x : Option (Sim S)).
                x >>= (λ b. out b >>= (λ lines. some (ended 0 lines (logger_at b.time o) b.scb))))
              e
            ∙ ap
                (λ (x : Option (List Line)).
                  x >>= (λ lines. some (ended 0 lines (logger_at m.time o) m.scb)))
                (p.1),
      )

  alu_main-run :
      {S : Type 0} (eval : S → Ports → S × ℕ × ℕ) (src : Source) (strtoul : String → ℕ) (seed : ℕ)
      (logger : TbLogger) (args : List Arg) (ports : Ports) (s : S)
      → All IsShared args
      → alu_main eval src strtoul file seed logger args ports s
        ≡ run eval src strtoul file seed
            (settled strtoul args (record {
              dump_waves = false;
              dump_trace = false;
              max_cycles = 5000000;
              logger = logger;
            }))
            ports
            s
  unfolding alu_main alu_options
  alu_main-run eval src strtoul seed logger args ports s h =
      let o : Options = record {
        dump_waves = false;
        dump_trace = false;
        max_cycles = 5000000;
        logger = logger;
      } in
      ap
        (λ (parsed : Parsed). elim parsed [
          | go_on o' ↦ run eval src strtoul file seed o' ports s
          | exit_success ↦ some (exited 0)
          | exit_failure ↦ some (exited 1)
        ])
        (alu-bare strtoul args o h ∙ parse_bare strtoul args o (All-IsBare strtoul args h))

-- With options c, l and w only that leave fewer than 2^63 cycles, with the path of the source file of
-- at most 200 bytes, the clock low at the start and draws of vl_rand64 below 2^64: on a combinational
-- unit the program ends without an undefined access. At most one request then waits for its response:
-- each other one that was reported was dropped by a flush or, in the order of the requests, judged
-- once. A judgement gives the result that the unit computes for the operands of its own request and
-- the one that the instruction set means, and is right just when the two agree. The number of errors
-- is that of the wrong judgements, the number of transactions that of all judgements, on 32 bits. The
-- exit status is 0 and the level of messages LOG_LOW, whatever the unit computes and the option -l says.
pub alu_main-IsSound :
    (f : AluCtl → ℕ → ℕ → ℕ) (src : Source) (strtoul : String → ℕ) (file : String) (seed : ℕ)
    (logger : TbLogger) (args : List Arg) (ports : Ports)
    → len file ≤ 200
    → All IsShared args
    → last_or b'c' 5000000 strtoul args < 2 ^ 63
    → ((n : ℕ) → src.vl_rand64 n < 2 ^ 64)
    → ports.clk_i ≡ 0
    → (lines : List Line) × (l : TbLogger) × (scb : Scb) × (alu_main
          (combinational f)
          src
          strtoul
          file
          seed
          logger
          args
          ports
          tt
        ≡ some (ended 0 lines l scb))
      × IsSound f scb
      × (length scb.req_q ≤ 1)
      × (get_log_lvl l ≡ log_low)
unfolding get_log_lvl set_log_lvl set_sim_context
alu_main-IsSound f src strtoul file seed logger args ports short h below bounded clk =
    let o : Options =
      settled strtoul args (record {
        dump_waves = false;
        dump_trace = false;
        max_cycles = 5000000;
        logger = logger;
      }) in
    let r = simulate-IsSound f src bounded o.max_cycles ports below clk in
    let p = run-ended file short (combinational f) src strtoul seed o ports tt r.0 (r.1) in
    (
      p.0,
      logger_at r.0.time o,
      r.0.scb,
      alu_main-run file short (combinational f) src strtoul seed logger args ports tt h ∙ p.1,
      r.3,
      r.4,
      refl,
    )

-- With options c, l and w only that leave fewer than 2^63 cycles, with the path of the source file of
-- at most 200 bytes, the clock low at the start and draws of vl_rand64 below 2^64: on the unit of
-- alu.sv the program ends without an undefined access and reports that the test has succeeded, with no
-- error among its transactions.
pub alu_main-succeeded :
    (src : Source) (strtoul : String → ℕ) (file : String) (seed : ℕ) (logger : TbLogger)
    (args : List Arg) (ports : Ports)
    → len file ≤ 200
    → All IsShared args
    → last_or b'c' 5000000 strtoul args < 2 ^ 63
    → ((n : ℕ) → src.vl_rand64 n < 2 ^ 64)
    → ports.clk_i ≡ 0
    → (lines : List Line) × (l : TbLogger) × (scb : Scb) × (alu_main alu_eval src strtoul file seed
          logger args ports tt
        ≡ some (ended 0 lines l scb))
      × (summary scb ≡ test_succeeded 0 (get_tx_num scb))
alu_main-succeeded src strtoul file seed logger args ports short h below bounded clk =
    let o : Options =
      settled strtoul args (record {
        dump_waves = false;
        dump_trace = false;
        max_cycles = 5000000;
        logger = logger;
      }) in
    let r = simulate-alu_eval src o.max_cycles ports bounded below clk in
    let p = run-ended file short alu_eval src strtoul seed o ports tt r.0 (r.1) in
    (
      p.0,
      logger_at r.0.time o,
      r.0.scb,
      alu_main-run file short alu_eval src strtoul seed logger args ports tt h ∙ p.1,
      r.3,
    )
