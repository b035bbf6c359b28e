-- ===== src/Coremark/StateMachine/Bench.antt =====
-- `core_bench_state`: it ends on every buffer that `core_init_state` fills, and with equal seeds it
-- leaves the buffer as it found it.
use len5_core.Common.{
  ℕ, zero, suc, ◌+◌, ◌-◌, ◌%◌, ◌^◌, ◌≤◌, ◌<◌, ◌≡◌, refl, sym, ap, ◌∙◌, ◌≢◌, ◌⊎◌, inl, inr, some,
  arith, ◌==◌, Bool-cases,
}
use len5_core.Device.Memory.{Memory}
use len5_core.Device.Memory.Copy.{IsBytes}
use len5_core.Coremark.StateMachine.{
  core_start, Counts, bump, count_loop, core_state_transition, crc_counts, core_bench_state,
}
use len5_core.Coremark.StateMachine.Scan.{scan_loop-Ends}
use len5_core.Coremark.StateMachine.Corrupt.{
  Pass, Pass-outside, Pass_twice, corrupt_loop-Pass, untouched, NoComma,
}
use len5_core.Coremark.StateMachine.Init.{core_init_state}
use len5_core.Coremark.StateMachine.Init.Layout.{core_init_state-Text}

count_loop_ends :
    (m : Memory) (fuel p : ℕ) (f t : Counts) (n : ℕ)
    → n < fuel
    → m (p + n) ≡ 0
    → (r : Counts × Counts) × (count_loop fuel p f t m ≡ some r)
unfolding count_loop core_state_transition
count_loop_ends m zero p f t n enough nul = absurd (omega (arith, enough))
count_loop_ends m (suc fuel) p f t n enough nul = elim (Bool-cases (m p == 0)) [
  | inl done ↦ ((f, t), rw done refl)
  | inr more ↦
      let e = scan_loop-Ends m (suc fuel) p core_start t n enough nul in
      let work : m p ≢ 0 = λ z. absurd (ground (arith, more, z)) in
      let on : p < e.pointer = e.moved work refl in
      let limit : e.pointer ≤ p + n = e.to_limit in
      let same : e.pointer + (p + n - e.pointer) ≡ p + n = omega arith in
      let (r, returns) =
        count_loop_ends m fuel e.pointer (bump e.state' f) e.counts (p + n - e.pointer)
          (omega (arith, on, limit, enough)) (ap m same ∙ nul) in
      (r, rw (more, e.returns) returns)
]

-- A NUL is left by a pass over two of them.
nul_after :
    (fuel p end seed step n : ℕ) (m : Memory)
    → 2 ≤ step
    → (pass : Pass fuel p end seed step) → m (p + n) ≡ 0
    → m (p + n + 1) ≡ 0
    → (k : ℕ) × (k ≤ n + 1) × (pass.after m (p + k) ≡ 0)
nul_after fuel p end seed step n m two pass nul nul' =
    elim (untouched fuel p end seed step m (p + n) two pass) [
      | inl same ↦ (n, omega arith, same ∙ nul)
      | inr same ↦
          let shift : p + (n + 1) ≡ p + n + 1 = omega arith in
          (n + 1, omega arith, ap (pass.after m) shift ∙ same ∙ nul')
    ]

module _ (fuel blksize memblock seed1 seed2 step crc n : ℕ) (m : Memory) (two : 2 ≤ step)
    (covers : blksize < fuel) (enough : n + 1 < fuel) (nul : m (memblock + n) ≡ 0)
    (nul' : m (memblock + n + 1) ≡ 0) where
  pass_of : (seed : ℕ) → Pass fuel memblock (memblock + blksize) seed step
  pass_of seed =
      corrupt_loop-Pass fuel memblock (memblock + blksize) seed step (omega (arith, two))
        (omega (arith, covers))

  core_bench_state_ends :
      (crc' : ℕ) × (core_bench_state fuel blksize memblock seed1 seed2 step crc m
        ≡ some (crc', (pass_of (seed2 % 2 ^ 8)).after ((pass_of (seed1 % 2 ^ 8)).after m)))
  unfolding core_bench_state
  core_bench_state_ends =
      let p1 = pass_of (seed1 % 2 ^ 8) in
      let p2 = pass_of (seed2 % 2 ^ 8) in
      let (k, near, left) =
        nul_after fuel memblock (memblock + blksize) (seed1 % 2 ^ 8) step n m two p1 nul nul' in
      let (once, e) =
        count_loop_ends m fuel memblock (λ s. 0) (λ s. 0) n (omega (arith, enough)) nul in
      let (twice, e') =
        count_loop_ends (p1.after m) fuel memblock once.0 once.1 k (omega (arith, enough, near))
          left in
      (crc_counts twice.0 twice.1 crc, rw (e, p1.returns m, e', p2.returns (p1.after m)) refl)

-- After core_init_state has filled a buffer of 2 to 2^32 - 9 bytes, core_bench_state with a step of
-- at least 2 ends, for all seeds, with fuel above the size; no cell outside the buffer has changed.
pub core_bench_state-core_init_state :
    (fuel size p seed seed1 seed2 step crc : ℕ) (m0 : Memory)
    → 2 ≤ size
    → size + 8 < 2 ^ 32
    → size < fuel
    → 2 ≤ step
    → (m m' : Memory) × (crc' : ℕ) × (core_init_state fuel size seed p m0 ≡ some m)
      × (core_bench_state fuel size p seed1 seed2 step crc m ≡ some (crc', m'))
      × ((x : ℕ) → (x < p) ⊎ (p + size ≤ x) → m' x ≡ m0 x)
core_bench_state-core_init_state fuel size p seed seed1 seed2 step crc m0 big no_wrap enough two =
    let text = core_init_state-Text fuel size seed p m0 big no_wrap enough in
    let m = text.memory in
    let at_end : p + (size - 1) ≡ p + (size - 2) + 1 = omega arith in
    let ends =
      core_bench_state_ends fuel size p seed1 seed2 step crc (size - 2) m two enough (omega arith)
        text.last_but_one (sym (ap m at_end) ∙ text.last) in
    let pass =
      pass_of fuel size p seed1 seed2 step crc (size - 2) m two enough (omega arith)
        text.last_but_one (sym (ap m at_end) ∙ text.last) in
    (
      m,
      (pass (seed2 % 2 ^ 8)).after ((pass (seed1 % 2 ^ 8)).after m),
      ends.0,
      text.returns,
      ends.1,
      λ x out.
          Pass-outside (pass (seed2 % 2 ^ 8)) _ x out
          ∙ Pass-outside (pass (seed1 % 2 ^ 8)) m x out
          ∙ text.outside x out,
    )

-- With equal low bytes of the seeds and a step of at least 2, on a buffer of bytes with two
-- neighbouring NULs before the fuel ends, core_bench_state ends and leaves every cell as it was, if
-- no byte at a multiple of the step becomes a comma by the exclusive or with the seed.
pub core_bench_state_restores :
    (fuel blksize p seed1 seed2 step crc n : ℕ) (m : Memory)
    → seed1 % 2 ^ 8 ≡ seed2 % 2 ^ 8
    → 2 ≤ step
    → blksize < fuel
    → n + 1 < fuel
    → m (p + n) ≡ 0
    → m (p + n + 1) ≡ 0
    → IsBytes m
    → NoComma p (p + blksize) (seed1 % 2 ^ 8) step m
    → (m' : Memory) × (crc' : ℕ) × (core_bench_state fuel blksize p seed1 seed2 step crc m
        ≡ some (crc', m'))
      × ((x : ℕ) → m' x ≡ m x)
core_bench_state_restores fuel blksize p seed1 seed2 step crc n m same two covers enough nul nul'
      bytes safe =
    let ends =
      core_bench_state_ends fuel blksize p seed1 seed2 step crc n m two covers enough nul nul' in
    let pass = pass_of fuel blksize p seed1 seed2 step crc n m two covers enough nul nul' in
    (
      (pass (seed2 % 2 ^ 8)).after ((pass (seed1 % 2 ^ 8)).after m),
      ends.0,
      ends.1,
      rw (sym same) (Pass_twice (pass (seed1 % 2 ^ 8)) m bytes (omega arith) safe),
    )
