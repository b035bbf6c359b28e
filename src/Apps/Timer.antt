-- ===== src/Apps/Timer.antt =====
-- The application sw/applications/timer/main.c. `clock` and `printf` of the C library are arguments:
-- what they make of the state of the machine. `clock_t` is an unsigned number of 64 bits.
pub mod Latency
use Prim.Native.String.{String}
use len5_core.Common.{ℕ, ◌+◌, ◌-◌, ◌%◌, ◌^◌, List, []}
use len5_core.Common.Text.{decimal, codes_before}

module _ {S : Type 0} (clock : S → ℕ × S) (printf : List ℕ → S → S) where
  -- `main`: the state that it leaves, and the status.
  unfoldable pub timer_main : S → S × ℕ
  timer_main s =
      let start = clock s in
      let greeted = printf (codes_before "Hello, LEN5!\n" []) start.1 in
      let stop = clock greeted in
      let delay = (stop.0 + (2 ^ 64 - start.0)) % 2 ^ 64 in
      (
        printf
            (codes_before "Latency: " (codes_before (decimal delay) (codes_before " cycles\n" [])))
            stop.1,
        0,
      )
