-- ===== src/Coremark/StateMachine.antt =====
-- The state machine of sw/benchmarks/coremark/src/all/core_state.c.
-- Pointers are addresses in a memory of bytes; `none` means that the fuel of a loop ran out.
pub mod Scan
pub mod Format
pub mod Corrupt
pub mod Init
pub mod Bench
mod Tests
use Prim.Native.Nat.{suc, bit_xor}
use len5_core.Common.{
  zero, ◌^◌, ◌%◌, some, ltb, ◌&&◌, ◌||◌, ◌+◌, [], not, ◌∷◌, ◌==◌, leb, none, ◌>>=◌, if◌then◌else◌,
  Bool, Option, List, ℕ,
}
use len5_core.Device.Memory.{Memory, store8}
use len5_core.Coremark.Crc.{crcu32}

-- `enum CORE_STATE`.
pub data CoreState : Type 0 where
  core_start core_invalid core_s1 core_s2 core_int core_float core_exponent core_scientific :
      CoreState

-- The value of the enumerator.
abbrev pub index : CoreState → ℕ
index core_start = 0
index core_invalid = 1
index core_s1 = 2
index core_s2 = 3
index core_int = 4
index core_float = 5
index core_exponent = 6
index core_scientific = 7

-- An array of `NUM_CORE_STATES` 32-bit counters.
abbrev pub Counts : Type 0
Counts = CoreState → ℕ

-- `counts[s]++`.
unfoldable pub bump : CoreState → Counts → Counts
bump s k t = if index t == index s then (k t + 1) % 2 ^ 32 else k t

-- `ee_isdigit`.
unfoldable pub is_digit : ℕ → Bool
is_digit c = leb 48 c && leb c 57

-- The tests for the signs, the point, the letters and the comma.
abbrev pub is_sign : ℕ → Bool
is_sign c = (c == 43) || (c == 45)

abbrev pub is_point : ℕ → Bool
is_point c = c == 46

abbrev pub is_letter_e : ℕ → Bool
is_letter_e c = (c == 69) || (c == 101)

abbrev pub is_comma : ℕ → Bool
is_comma c = c == 44

-- The `switch` of `core_state_transition`: the next state and the counters.
pub step : CoreState → (next_symbol : ℕ) → Counts → CoreState × Counts
step core_start c k =
    if is_digit c
    then (core_int, bump core_start k)
    else if is_sign c
    then (core_s1, bump core_start k)
    else if is_point c
    then (core_float, bump core_start k)
    else (core_invalid, bump core_start (bump core_invalid k))
step core_s1 c k =
    if is_digit c
    then (core_int, bump core_s1 k)
    else if is_point c
    then (core_float, bump core_s1 k)
    else (core_invalid, bump core_s1 k)
step core_int c k =
    if is_point c
    then (core_float, bump core_int k)
    else if not (is_digit c)
    then (core_invalid, bump core_int k)
    else (core_int, k)
step core_float c k =
    if is_letter_e c
    then (core_s2, bump core_float k)
    else if not (is_digit c)
    then (core_invalid, bump core_float k)
    else (core_float, k)
step core_s2 c k =
    if is_sign c then (core_exponent, bump core_s2 k) else (core_invalid, bump core_s2 k)
step core_exponent c k =
    if is_digit c
    then (core_scientific, bump core_exponent k)
    else (core_invalid, bump core_exponent k)
step core_scientific c k =
    if not (is_digit c) then (core_invalid, bump core_invalid k) else (core_scientific, k)
step core_invalid c k = (core_invalid, k)

abbrev pub is_invalid : CoreState → Bool
is_invalid s = index s == 1

-- The loop of `core_state_transition`: the end state, the pointer and the counters.
pub scan_loop : ℕ → (str : ℕ) → CoreState → Counts → Memory → Option (CoreState × ℕ × Counts)
scan_loop zero str state k m = none
scan_loop (suc fuel) str state k m =
    let next = step state (m str) k in
    let rest = scan_loop fuel (str + 1) next.0 next.1 m in
    if (m str == 0) || is_invalid state
    then some (state, str, k)
    else if is_comma (m str)
    then some (state, str + 1, k)
    else rest

unfoldable pub core_state_transition :
    ℕ → (instr : ℕ) → Counts → Memory → Option (CoreState × ℕ × Counts)
core_state_transition fuel instr k m = scan_loop fuel instr core_start k m

-- `while (*p!=0)`: the two arrays of counters.
pub count_loop :
    ℕ → (p : ℕ) → (final_counts track_counts : Counts) → Memory → Option (Counts × Counts)
count_loop zero p final_counts track_counts m = none
count_loop (suc fuel) p final_counts track_counts m =
    let go_on = core_state_transition (suc fuel) p track_counts m >>= λ r.
    count_loop fuel r.1 (bump r.0 final_counts) r.2 m in
    if m p == 0 then some (final_counts, track_counts) else go_on

-- `while (p < (memblock+blksize))`, with the low byte of the seed.
pub corrupt_loop : ℕ → (p end seed step : ℕ) → Memory → Option Memory
corrupt_loop zero p end seed step m = none
corrupt_loop (suc fuel) p end seed step m =
    let m' = if not (is_comma (m p)) then store8 m p (bit_xor (m p) seed) else m in
    let rest = corrupt_loop fuel (p + step) end seed step m' in if ltb p end then rest else some m

-- The last loop of `core_bench_state`.
unfoldable pub crc_counts : (final_counts track_counts : Counts) → ℕ → ℕ
crc_counts f t crc =
    go
      (core_start ∷ core_invalid ∷ core_s1 ∷ core_s2 ∷ core_int ∷ core_float ∷ core_exponent
        ∷ core_scientific ∷ [])
      crc
  where
    go : List CoreState → ℕ → ℕ
    go [] crc = crc
    go (s ∷ rest) crc = go rest (crcu32 (t s) (crcu32 (f s) crc))

-- The seeds are 16-bit patterns; `step` is positive. The result is the CRC and the memory.
unfoldable pub core_bench_state :
    (fuel blksize memblock seed1 seed2 step crc : ℕ) → Memory → Option (ℕ × Memory)
core_bench_state fuel blksize memblock seed1 seed2 step crc m =
    count_loop fuel memblock (λ s. 0) (λ s. 0) m >>= λ once.
    corrupt_loop fuel memblock (memblock + blksize) (seed1 % 2 ^ 8) step m >>= λ m1.
    count_loop fuel memblock once.0 once.1 m1 >>= λ twice.
    corrupt_loop fuel memblock (memblock + blksize) (seed2 % 2 ^ 8) step m1 >>= λ m2.
    some (crc_counts twice.0 twice.1 crc, m2)
