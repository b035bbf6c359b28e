-- ===== src/Apps/Tests.antt =====
-- Runs of the two applications.
use len5_core.Common.{
  ◌≤◌, ℕ, ◌+◌, ◌-◌, ◌%◌, ◌^◌, ◌≡◌, refl, some, List, [], ◌∷◌, ◌++◌, arith, length, get_or,
}
use mathlib.Core.List.{reverse}
use len5_core.Common.Text.{decimal, codes_before}
use len5_core.Device.Memory.{Memory}
use len5_core.Apps.Hello.{hello_main}
use len5_core.Apps.Hello.Palindrome.{mirrored, hello_main-mirrored}
use len5_core.Apps.Timer.{timer_main}
use len5_core.Apps.Timer.Latency.{timer_main-latency}

-- The array of the program.
abbrev edio : List ℕ
edio = codes_before "EDIOLOGNOM" []

abbrev array : Memory
array a = get_or edio a 0

hello_main-mirrored_example :
    (hello_main 10 0 array ≡ some (codes_before "Hello LEN5!\n" (mirrored edio ++ b'\n' ∷ []), 0))
    × (reverse (mirrored edio) ≡ mirrored edio)
unfolding codes_before
hello_main-mirrored_example =
    hello_main-mirrored 10 0 b'E' (codes_before "DIOLOGNOM" []) array (omega arith) (
      refl,
      (λ e. absurd (omega (arith, e))),
      (
        refl,
        (λ e. absurd (omega (arith, e))),
        (
          refl,
          (λ e. absurd (omega (arith, e))),
          (
            refl,
            (λ e. absurd (omega (arith, e))),
            (
              refl,
              (λ e. absurd (omega (arith, e))),
              (
                refl,
                (λ e. absurd (omega (arith, e))),
                (
                  refl,
                  (λ e. absurd (omega (arith, e))),
                  (
                    refl,
                    (λ e. absurd (omega (arith, e))),
                    (
                      refl,
                      (λ e. absurd (omega (arith, e))),
                      (refl, (λ e. absurd (omega (arith, e))), refl),
                    ),
                  ),
                ),
              ),
            ),
          ),
        ),
      ),
    )

-- A machine that is its cycle counter: clock reads it in the third of its seven cycles, and printf takes
-- one cycle for each character.
abbrev read_counter : ℕ → ℕ × ℕ
read_counter s = ((s + 3) % 2 ^ 64, s + 7)

abbrev print_slowly : List ℕ → ℕ → ℕ
print_slowly t s = s + length t

timer_main-latency_example :
    (latency : ℕ) × (timer_main read_counter print_slowly (2 ^ 64 - 5) ≡ (
      print_slowly
          (codes_before "Latency: " (codes_before (decimal latency) (codes_before " cycles\n" [])))
          (2 ^ 64 - 5 + 27),
      0,
    ))
    × (13 ≤ latency)
    × (2 ^ 64 - 5 + latency ≤ 2 ^ 64 - 5 + 27)
unfolding codes_before
timer_main-latency_example =
    timer_main-latency read_counter print_slowly (λ s. s) (2 ^ 64 - 5) 13
      (λ x. (x + 3, omega arith, omega arith, refl)) refl (omega arith)
