-- ===== src/Tb/Options/Tests.antt =====
-- Runs of the option loops at concrete command lines.
use Prim.Native.String.{String}
use len5_core.Common.{
  ℕ, ◌≡◌, refl, inl, inr, false, List, [], ◌∷◌, ◌++◌, arith, ◌==◌, if◌then◌else◌,
}
use len5_core.Tb.Logger.{new_logger}
use len5_core.Tb.Options.{Arg, go_on, exit_success, exit_failure, bare_options, alu_options}
use len5_core.Tb.Options.Parse.{
  settled, IsBare, IsShared, bare_options-settled, alu_options-settled,
}

abbrev two_thousand : String → ℕ
two_thousand s = 2000

abbrev line : List Arg
line = (b'c', "2000") ∷ (b'w', "true") ∷ []

h_other : ¬ IsBare (b'h', "")
h_other (inl (inl e)) = absurd (omega arith)
h_other (inl (inr (inl e))) = absurd (omega arith)
h_other (inl (inr (inr e))) = absurd (omega arith)
h_other (inr e) = absurd (omega arith)

t_other : ¬ IsShared (b't', "1")
t_other (inl e) = absurd (omega arith)
t_other (inr (inl e)) = absurd (omega arith)
t_other (inr (inr e)) = absurd (omega arith)

bare_options-settled_example :
    (bare_options two_thousand new_logger line
      ≡ go_on (
          settled two_thousand line (record {
            dump_waves = false;
            dump_trace = false;
            max_cycles = 500000000;
            logger = new_logger;
          })))
    × (bare_options two_thousand new_logger (line ++ (b'h', "") ∷ [])
        ≡ (if b'h' == b'h' then exit_success else exit_failure))
bare_options-settled_example =
    bare_options-settled two_thousand new_logger line b'h' "" []
      (inl (inl refl), (inl (inr (inr refl)), tt)) h_other

alu_options-settled_example :
    (alu_options two_thousand new_logger line
      ≡ go_on (
          settled two_thousand line (record {
            dump_waves = false;
            dump_trace = false;
            max_cycles = 5000000;
            logger = new_logger;
          })))
    × (alu_options two_thousand new_logger (line ++ (b't', "1") ∷ [])
        ≡ (if b't' == b'h' then exit_success else exit_failure))
alu_options-settled_example =
    alu_options-settled two_thousand new_logger line b't' "1" [] (inl refl, (inr (inr refl), tt))
      t_other
