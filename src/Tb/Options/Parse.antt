-- ===== src/Tb/Options/Parse.antt =====
-- What the options leave behind.
use Prim.Native.String.{String}
use len5_core.Common.{
  ne→==, ℕ, ◌≡◌, refl, ap, ◌∙◌, ◌⊎◌, inl, inr, Bool, true, false, ◌&&◌, ◌||◌, List, [], ◌∷◌, ◌++◌,
  ◌==◌, if◌then◌else◌, Bool-cases, All,
}
use len5_core.Tb.Logger.{TbLogger, set_log_lvl_name}
use len5_core.Tb.Options.{
  set_trace, set_level, set_cycles, set_waves, Arg, Options, Parsed, go_on, exit_success,
  exit_failure, is_on, parse_loop, bare_switch, alu_switch, bare_options, alu_options,
}

-- What the last option with the value `opt` makes of its argument, or `d` without such an option,
-- and whether one of them switches on.
abbrev pub last_or {ℓ} : {A : Type ℓ} → (opt : ℕ) → A → (String → A) → List Arg → A
last_or opt d f [] = d
last_or opt d f (arg ∷ args) = last_or opt (if arg.0 == opt then f arg.1 else d) f args

abbrev pub any_on : ℕ → List Arg → Bool
any_on opt [] = false
any_on opt (arg ∷ args) = (arg.0 == opt) && is_on arg.1 || any_on opt args

-- The options that both programs take, and the one of len5_tb.cpp.
abbrev pub IsShared : Arg → Type 0
IsShared arg = (arg.0 ≡ b'c') ⊎ (arg.0 ≡ b'l') ⊎ (arg.0 ≡ b'w')

abbrev pub IsBare : Arg → Type 0
IsBare arg = IsShared arg ⊎ (arg.0 ≡ b't')

abbrev pub settled : (String → ℕ) → List Arg → Options → Options
settled strtoul args o = record {
  dump_waves = o.dump_waves || any_on b'w' args;
  dump_trace = o.dump_trace || any_on b't' args;
  max_cycles = last_or b'c' o.max_cycles strtoul args;
  logger = last_or b'l' o.logger (λ s. set_log_lvl_name s o.logger) args;
}

or_if : (a b c : Bool) → (if b then true else a) || c ≡ a || (b || c)
or_if true true c = refl
or_if true false c = refl
or_if false true c = refl
or_if false false c = refl

-- Options that go on leave the rest of the line to the loop.
parse_loop-append :
    (switch : ℕ → String → Options → Parsed) (xs ys : List Arg) (o o' : Options)
    → parse_loop switch xs o ≡ go_on o'
    → parse_loop switch (xs ++ ys) o ≡ parse_loop switch ys o'
unfolding parse_loop
parse_loop-append switch [] ys o o' h = let e : o ≡ o' = cc in ap (parse_loop switch ys) e
parse_loop-append switch (x ∷ xs) ys o o' h =
    further (parse_loop-append switch xs ys) (switch x.0 x.1 o) h
  where
    further :
        ((o1 o2 : Options)
          → parse_loop switch xs o1 ≡ go_on o2
          → parse_loop switch (xs ++ ys) o1 ≡ parse_loop switch ys o2)
        → (p : Parsed)
        → (elim p [
          | go_on o1 ↦ parse_loop switch xs o1
          | exit_success ↦ exit_success
          | exit_failure ↦ exit_failure
        ])
          ≡ go_on o'
        → (elim p [
          | go_on o1 ↦ parse_loop switch (xs ++ ys) o1
          | exit_success ↦ exit_success
          | exit_failure ↦ exit_failure
        ])
          ≡ parse_loop switch ys o'
    further ih (go_on o1) k = ih o1 o' k
    further ih exit_success k = cc
    further ih exit_failure k = cc

module _ (strtoul : String → ℕ) where
  waves_next :
      (s : String) (args : List Arg) (o : Options)
      → settled strtoul args (set_waves s o) ≡ settled strtoul ((b'w', s) ∷ args) o
  waves_next s args o =
      ap (λ (b : Bool). record (settled strtoul args o) { dump_waves = b })
        (or_if o.dump_waves (is_on s) (any_on b'w' args))

  trace_next :
      (s : String) (args : List Arg) (o : Options)
      → settled strtoul args (set_trace s o) ≡ settled strtoul ((b't', s) ∷ args) o
  trace_next s args o =
      ap (λ (b : Bool). record (settled strtoul args o) { dump_trace = b })
        (or_if o.dump_trace (is_on s) (any_on b't' args))

  right_false : (b : Bool) → b ≡ (b || false)
  right_false true = refl
  right_false false = refl

  settled_none : (o : Options) → o ≡ settled strtoul [] o
  settled_none o =
      ap (λ (b : Bool). record o { dump_waves = b }) (right_false o.dump_waves)
      ∙ ap (λ (b : Bool). record o { dump_waves = o.dump_waves || false; dump_trace = b })
          (right_false o.dump_trace)

  pub parse_bare :
      (args : List Arg) (o : Options)
      → All IsBare args
      → parse_loop (bare_switch strtoul) args o ≡ go_on (settled strtoul args o)
  unfolding parse_loop bare_switch set_log_lvl_name
  parse_bare [] o h = ap go_on (settled_none o)
  parse_bare ((opt, s) ∷ args) o h = elim (h.0) [
    | inl (inl e) ↦ rw e (parse_bare args (set_cycles strtoul s o) (h.1))
    | inl (inr (inl e)) ↦ rw e (parse_bare args (set_level s o) (h.1))
    | inl (inr (inr e)) ↦
        rw e (parse_bare args (set_waves s o) (h.1) ∙ ap go_on (waves_next s args o))
    | inr e ↦ rw e (parse_bare args (set_trace s o) (h.1) ∙ ap go_on (trace_next s args o))
  ]

  -- On these options the two programs do the same.
  pub alu-bare :
      (args : List Arg) (o : Options)
      → All IsShared args
      → parse_loop (alu_switch strtoul) args o ≡ parse_loop (bare_switch strtoul) args o
  unfolding parse_loop bare_switch alu_switch
  alu-bare [] o h = refl
  alu-bare ((opt, s) ∷ args) o h = elim (h.0) [
    | inl e ↦ rw e (alu-bare args (set_cycles strtoul s o) (h.1))
    | inr (inl e) ↦ rw e (alu-bare args (set_level s o) (h.1))
    | inr (inr e) ↦ rw e (alu-bare args (set_waves s o) (h.1))
  ]

  pub All-IsBare : (args : List Arg) → All IsShared args → All IsBare args
  All-IsBare [] h = tt
  All-IsBare (arg ∷ args) h = (inl (h.0), All-IsBare args (h.1))

  bare_switch_else :
      (opt : ℕ) (s : String) (o : Options)
      → ¬ IsBare (opt, s)
      → bare_switch strtoul opt s o ≡ (if opt == b'h' then exit_success else exit_failure)
  unfolding bare_switch
  bare_switch_else opt s o k =
      rw
        (
          ne→== opt b'c' (λ e. k (inl (inl e))),
          ne→== opt b'l' (λ e. k (inl (inr (inl e)))),
          ne→== opt b'w' (λ e. k (inl (inr (inr e)))),
          ne→== opt b't' (λ e. k (inr e)),
        )
        refl

  alu_switch_else :
      (opt : ℕ) (s : String) (o : Options)
      → ¬ IsShared (opt, s)
      → alu_switch strtoul opt s o ≡ (if opt == b'h' then exit_success else exit_failure)
  unfolding alu_switch
  alu_switch_else opt s o k =
      rw
        (
          ne→== opt b'c' (λ e. k (inl e)),
          ne→== opt b'l' (λ e. k (inr (inl e))),
          ne→== opt b'w' (λ e. k (inr (inr e))),
        )
        refl

  parse_loop_ends :
      (switch : ℕ → String → Options → Parsed) (opt : ℕ) (s : String) (rest : List Arg)
      (o : Options)
      → switch opt s o ≡ (if opt == b'h' then exit_success else exit_failure)
      → parse_loop switch ((opt, s) ∷ rest) o ≡ (if opt == b'h' then exit_success else exit_failure)
  unfolding parse_loop
  parse_loop_ends switch opt s rest o e = elim (Bool-cases (opt == b'h')) [
    | inl h ↦ rw (parse_loop, e, h) refl
    | inr h ↦ rw (parse_loop, e, h) refl
  ]

  -- When every option is c, l, w or t, len5_tb.cpp goes on with the last c's and the last l's value and
  -- with the waves (the trace) on if one of the w's (of the t's) says true or 1, each at its default
  -- without such an option; the first other option after those ends the program, with success for h
  -- and with failure for any other.
  pub bare_options-settled :
      (logger : TbLogger) (args : List Arg) (opt : ℕ) (optarg : String) (rest : List Arg)
      → All IsBare args
      → ¬ IsBare (opt, optarg)
      → (bare_options strtoul logger args
          ≡ go_on (
              settled strtoul args (record {
                dump_waves = false;
                dump_trace = false;
                max_cycles = 500000000;
                logger = logger;
              })))
        × (bare_options strtoul logger (args ++ (opt, optarg) ∷ rest)
            ≡ (if opt == b'h' then exit_success else exit_failure))
  unfolding bare_options
  bare_options-settled logger args opt optarg rest h k =
      let o : Options = record {
        dump_waves = false;
        dump_trace = false;
        max_cycles = 500000000;
        logger = logger;
      } in
      let parsed = parse_bare args o h in
      (
        parsed,
        parse_loop-append (bare_switch strtoul) args ((opt, optarg) ∷ rest) o
              (settled strtoul args o) parsed
            ∙ parse_loop_ends (bare_switch strtoul) opt optarg rest (settled strtoul args o)
                (bare_switch_else opt optarg (settled strtoul args o) k),
      )

  -- When every option is c, l or w, alu_tb.cpp goes on as len5_tb.cpp does, from its own default for
  -- the cycles; the first other option after those, -t among them, ends the program, with success for h
  -- and with failure for any other.
  pub alu_options-settled :
      (logger : TbLogger) (args : List Arg) (opt : ℕ) (optarg : String) (rest : List Arg)
      → All IsShared args
      → ¬ IsShared (opt, optarg)
      → (alu_options strtoul logger args
          ≡ go_on (
              settled strtoul args (record {
                dump_waves = false;
                dump_trace = false;
                max_cycles = 5000000;
                logger = logger;
              })))
        × (alu_options strtoul logger (args ++ (opt, optarg) ∷ rest)
            ≡ (if opt == b'h' then exit_success else exit_failure))
  unfolding alu_options
  alu_options-settled logger args opt optarg rest h k =
      let o : Options = record {
        dump_waves = false;
        dump_trace = false;
        max_cycles = 5000000;
        logger = logger;
      } in
      let parsed = alu-bare args o h ∙ parse_bare args o (All-IsBare args h) in
      (
        parsed,
        parse_loop-append (alu_switch strtoul) args ((opt, optarg) ∷ rest) o
              (settled strtoul args o) parsed
            ∙ parse_loop_ends (alu_switch strtoul) opt optarg rest (settled strtoul args o)
                (alu_switch_else opt optarg (settled strtoul args o) k),
      )
