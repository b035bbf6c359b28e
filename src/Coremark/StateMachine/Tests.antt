-- ===== src/Coremark/StateMachine/Tests.antt =====
-- Runs and concrete cases of the state machine.
use len5_core.Common.{
  ℕ, zero, suc, ◌+◌, ◌≤◌, ◌<◌, ◌≡◌, refl, ◌⊎◌, inr, false, Option, none, some, List, [], ◌∷◌, ◌++◌,
  arith, ◌==◌, get_or,
}
use len5_core.Device.Memory.{Memory}
use len5_core.Device.Memory.Copy.{IsBytes}
use len5_core.Coremark.StateMachine.{
  core_scientific, core_invalid, is_digit, CoreState, Counts, core_state_transition,
  core_bench_state, scan_loop, step,
}
use len5_core.Coremark.StateMachine.Format.Token.{
  Word, Recognised, core_state_transition-Recognised,
}
use len5_core.Coremark.StateMachine.Corrupt.{NoComma}
use len5_core.Coremark.StateMachine.Bench.{
  core_bench_state-core_init_state, core_bench_state_restores,
}
use len5_core.Coremark.StateMachine.Init.{core_init_state}
use len5_core.Coremark.StateMachine.Init.Layout.{Text, core_init_state-Text}

-- "-1.5e+2" and "5,6".
abbrev word : List ℕ
word = 45 ∷ 49 ∷ 46 ∷ 53 ∷ 101 ∷ 43 ∷ 50 ∷ []

abbrev text : Memory
text x = get_or (word ++ 44 ∷ 55 ∷ []) x 0

abbrev short_text : Memory
short_text x = get_or (53 ∷ 44 ∷ 54 ∷ []) x 0

abbrev blank : Memory
blank x = 0

abbrev end_of : Option (CoreState × ℕ × Counts) → Option (CoreState × ℕ)
end_of none = none
end_of (some (s, p, k)) = some (s, p)

scientific_run : end_of (core_state_transition 9 0 (λ t. 0) text) ≡ some (core_scientific, 8)
unfolding core_state_transition scan_loop step is_digit
scientific_run = refl

-- The third of the patterns for scientific numbers, "-87e+832", is an invalid word for the machine.
abbrev pattern_text : Memory
pattern_text x = get_or (45 ∷ 56 ∷ 55 ∷ 101 ∷ 43 ∷ 56 ∷ 51 ∷ 50 ∷ []) x 0

pattern_run : end_of (core_state_transition 9 0 (λ t. 0) pattern_text) ≡ some (core_invalid, 4)
unfolding core_state_transition scan_loop step is_digit
pattern_run = refl

short_text-IsBytes : IsBytes short_text
short_text-IsBytes zero = omega arith
short_text-IsBytes (suc zero) = omega arith
short_text-IsBytes (suc (suc zero)) = omega arith
short_text-IsBytes (suc (suc (suc x))) = omega arith

short_text-NoComma : NoComma 0 3 1 2 short_text
short_text-NoComma zero h ne e = absurd (omega (arith, e))
short_text-NoComma (suc zero) h ne e = absurd (omega (arith, e))
short_text-NoComma (suc (suc i)) h ne e = absurd (omega (arith, h))

letter :
    (p c : ℕ) (w : List ℕ)
    → text p ≡ c
    → (c == 0) ≡ false
    → (c == 44) ≡ false
    → Word text (p + 1) w
    → Word text p (c ∷ w)
letter p c w here not_nul not_comma rest = (here, ground arith, ground arith, rest)

word_letters : Word text 0 word
word_letters = letter 0 45 (49 ∷ 46 ∷ 53 ∷ 101 ∷ 43 ∷ 50 ∷ []) refl refl refl (
    letter 1 49 (46 ∷ 53 ∷ 101 ∷ 43 ∷ 50 ∷ []) refl refl refl (
      letter 2 46 (53 ∷ 101 ∷ 43 ∷ 50 ∷ []) refl refl refl (
        letter 3 53 (101 ∷ 43 ∷ 50 ∷ []) refl refl refl (
          letter 4 101 (43 ∷ 50 ∷ []) refl refl refl
            (letter 5 43 (50 ∷ []) refl refl refl (letter 6 50 [] refl refl refl tt))))))

core_state_transition-Recognised_example :
    Recognised text 0 word (core_state_transition 9 0 (λ t. 0) text)
core_state_transition-Recognised_example =
    core_state_transition-Recognised text 9 0 (λ t. 0) word (omega arith) word_letters (inr refl)

core_init_state-Text_example : Text 40 100 blank (core_init_state 41 40 0x66 100 blank)
core_init_state-Text_example =
    core_init_state-Text 41 40 0x66 100 blank (omega arith) (omega arith) (omega arith)

core_bench_state-core_init_state_example :
    (m m' : Memory) × (crc' : ℕ) × (core_init_state 41 40 0x66 100 blank ≡ some m)
    × (core_bench_state 41 40 100 3 5 7 0 m ≡ some (crc', m'))
    × ((x : ℕ) → (x < 100) ⊎ (140 ≤ x) → m' x ≡ blank x)
core_bench_state-core_init_state_example =
    core_bench_state-core_init_state 41 40 100 0x66 3 5 7 0 blank (omega arith) (omega arith)
      (omega arith) (omega arith)

core_bench_state_restores_example :
    (m' : Memory) × (crc' : ℕ) × (core_bench_state 6 3 0 1 0x101 2 0 short_text ≡ some (crc', m'))
    × ((x : ℕ) → m' x ≡ short_text x)
core_bench_state_restores_example =
    core_bench_state_restores 6 3 0 1 0x101 2 0 3 short_text refl (omega arith) (omega arith)
      (omega arith) refl refl short_text-IsBytes short_text-NoComma
