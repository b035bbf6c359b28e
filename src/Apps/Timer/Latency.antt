-- ===== src/Apps/Timer/Latency.antt =====
-- The latency that the program prints.
use len5_core.Common.{ℕ, ◌+◌, ◌-◌, ◌%◌, ◌^◌, ◌≤◌, ◌<◌, ◌≡◌, refl, List, [], arith}
use len5_core.Common.Text.{decimal, codes_before}
use len5_core.Apps.Timer.{timer_main}

-- What `clock` returns in the state `x`: the low 64 bits of the cycle counter at a moment of the call.
abbrev pub IsReading : {S : Type 0} → (clock : S → ℕ × S) → (cycles : S → ℕ) → S → Type 0
IsReading clock cycles x =
    (now : ℕ) × (cycles x ≤ now) × (now ≤ cycles (clock x).1) × ((clock x).0 ≡ now % 2 ^ 64)

-- When clock returns the low 64 bits of a cycle counter at a moment of its call, the greeting takes `n`
-- cycles, and fewer than 2^64 pass from the first call of clock to the end of the second, then the
-- program prints the greeting and a latency and returns 0; the latency is at least n and at most the
-- cycles that passed from the first call to the end of the second, also when the 64 bits wrap around.
pub timer_main-latency :
    {S : Type 0} (clock : S → ℕ × S) (printf : List ℕ → S → S) (cycles : S → ℕ) (s : S) (n : ℕ)
    → ((x : S) → IsReading clock cycles x)
    → let greeted = printf (codes_before "Hello, LEN5!\n" []) (clock s).1 in
      cycles greeted ≡ cycles (clock s).1 + n
      → cycles (clock greeted).1 < cycles s + 2 ^ 64
      → (latency : ℕ) × (timer_main clock printf s ≡ (
        printf
            (codes_before "Latency: "
              (codes_before (decimal latency) (codes_before " cycles\n" [])))
            (clock greeted).1,
        0,
      ))
        × (n ≤ latency)
        × (cycles s + latency ≤ cycles (clock greeted).1)
unfolding timer_main
timer_main-latency clock printf cycles s n reads takes small =
    let greeted = printf (codes_before "Hello, LEN5!\n" []) (clock s).1 in
    let first = reads s in
    let second = reads greeted in
    let exact : ((clock greeted).0 + (2 ^ 64 - (clock s).0)) % 2 ^ 64 ≡ second.0 - first.0 =
      elapsed first.0 second.0 (clock s).0 (clock greeted).0 (first.3) (second.3)
        (omega (arith, first.2, second.1, takes)) (omega (arith, first.1, second.2, small)) in
    (
      second.0 - first.0,
      rw exact refl,
      omega (arith, first.2, second.1, takes),
      omega (arith, first.1, first.2, second.1, second.2, takes),
    )
  where
    elapsed :
        (k l a b : ℕ)
        → a ≡ k % 2 ^ 64
        → b ≡ l % 2 ^ 64
        → k ≤ l
        → l < k + 2 ^ 64
        → (b + (2 ^ 64 - a)) % 2 ^ 64 ≡ l - k
    elapsed k l a b e d h r = omega arith
