-- ===== src/Coremark/Matrix/Init.antt =====
-- `core_init_matrix` of sw/benchmarks/coremark/src/all/core_matrix.c: the dimension and the values.
-- The pointers into the memory block are not modelled: the two matrices are arrays of their own.
use Prim.Native.Nat.{bit_and}
use native.Mathlib.Nat.{mul-le-mul}
use len5_core.Common.{
  ℕ, zero, suc, ◌+◌, ◌-◌, ◌*◌, ◌%◌, ◌^◌, ◌≤◌, ◌<◌, ◌≡◌, refl, ap, ◌⊎◌, inl, inr, Bool, true, false,
  Option, none, some, arith, dec_lt, ltb, ◌==◌, if◌then◌else◌, ◌>>=◌,
}
use len5_core.Coremark.Matrix.{Array, assign, for_cells}

-- `while (j<blksize)` with 32-bit numbers: the last `i`; `none` means that the fuel ran out.
pub size_loop : ℕ → (i j blksize : ℕ) → Option ℕ
size_loop zero i j blksize = none
size_loop (suc fuel) i j blksize =
    let rest = size_loop fuel (i + 1) ((i + 1) * (i + 1) * 2 * 4 % 2 ^ 32) blksize in
    if ltb j blksize then rest else some i

-- The macro `matrix_clip`.
unfoldable pub matrix_clip : (x : ℕ) → Bool → ℕ
matrix_clip x y = if y then bit_and x 0x0ff else bit_and x 0x0ffff

-- The variables of the loops. Of `seed` the low 16 bits are kept, on which alone those of the
-- products and so all the values depend; `% 65536` leaves them as they are, for negative products
-- too.
pub record Filling : Type 0 where
  pub seed : ℕ
  pub order : ℕ
  pub a : Array
  pub b : Array

-- The body of the loops for the cell at `at`.
unfoldable pub fill_step : (at : ℕ) → Filling → Filling
fill_step at f =
    let seed = f.order * f.seed % 2 ^ 16 in
    let val = matrix_clip ((seed + f.order) % 2 ^ 16) false in
    let val' = matrix_clip ((val + f.order) % 2 ^ 16) true in
    record { seed = seed; order = f.order + 1; a = assign f.a at val'; b = assign f.b at val }

-- The two loops over the cells; `seed` is a 32-bit pattern.
unfoldable pub fill_cells : (n seed : ℕ) → (a b : Array) → Filling
fill_cells n seed a b =
    let seed' = if seed == 0 then 1 else seed in
    for_cells n (λ i j. fill_step (i * n + j))
      (record { seed = seed' % 2 ^ 16; order = 1; a = a; b = b })

-- The dimension and the two matrices.
unfoldable pub core_init_matrix :
    (fuel blksize seed : ℕ) → (a b : Array) → Option (ℕ × Array × Array)
core_init_matrix fuel blksize seed a b = size_loop fuel 0 0 blksize >>= λ i.
    (let n = (i + 2 ^ 32 - 1) % 2 ^ 32 in
      some (n, (fill_cells n seed a b).a, (fill_cells n seed a b).b))

not_last_lem : (i blksize : ℕ) → blksize ≤ 2 ^ 31 → i ≤ 20000 → 8 * (i * i) < blksize → i < 20000
not_last_lem i blksize small near more = elim (dec_lt i 20000) [
  | yes less ↦ less
  | no full ↦
      let e : i ≡ 20000 = omega (arith, near, full) in
      let square : i * i ≡ 20000 * 20000 = ap (λ (t : ℕ). t * t) e in
      absurd (omega (arith, square, more, small))
]

-- The loop stops at the first `i` whose matrices of that dimension take the block or more.
size_loop_lem :
    (fuel i blksize : ℕ)
    → blksize ≤ 2 ^ 31
    → i ≤ 20000
    → 20000 < i + fuel
    → (i ≡ 0) ⊎ (8 * ((i - 1) * (i - 1)) < blksize)
    → (k : ℕ) × (size_loop fuel i (i * i * 2 * 4 % 2 ^ 32) blksize ≡ some k)
      × (k ≤ 20000)
      × (blksize ≤ 8 * (k * k))
      × ((k ≡ 0) ⊎ (8 * ((k - 1) * (k - 1)) < blksize))
unfolding size_loop
size_loop_lem zero i blksize small near enough below = absurd (omega (arith, near, enough))
size_loop_lem (suc fuel) i blksize small near enough below =
    let bound : i * i ≤ 20000 * 20000 = mul-le-mul near near in
    let exact : i * i * 2 * 4 % 2 ^ 32 ≡ 8 * (i * i) = omega (arith, bound) in
    rw exact (elim (dec_lt (8 * (i * i)) blksize) [
      | no done ↦
          let stop : ltb (8 * (i * i)) blksize ≡ false = ground (arith, done) in
          (i, rw stop refl, near, omega (arith, done), below)
      | yes more ↦
          let go : ltb (8 * (i * i)) blksize ≡ true = ground (arith, more) in
          let back : i + 1 - 1 ≡ i = omega arith in
          let not_last : i < 20000 = not_last_lem i blksize small near more in
          rw go (
            size_loop_lem fuel (i + 1) blksize small (omega (arith, not_last))
              (omega (arith, enough)) (inr (rw back more)))
    ])

-- For a block of 1 to 2^31 bytes, core_init_matrix ends with the greatest dimension for which three
-- matrices, two of 2-byte and one of 4-byte numbers, take less than the block.
pub core_init_matrix_dimension :
    (blksize seed : ℕ) (a b : Array)
    → 1 ≤ blksize
    → blksize ≤ 2 ^ 31
    → (n : ℕ) × (a' b' : Array) × (core_init_matrix 20001 blksize seed a b ≡ some (n, a', b'))
      × (2 * (n * n) + 2 * (n * n) + 4 * (n * n) < blksize)
      × (blksize ≤ 2 * ((n + 1) * (n + 1)) + 2 * ((n + 1) * (n + 1)) + 4 * ((n + 1) * (n + 1)))
unfolding core_init_matrix
core_init_matrix_dimension blksize seed a b some_bytes small =
    let (k, ends, near, full, fits) =
      size_loop_lem 20001 0 blksize small (omega arith) (omega arith) (inl refl) in
    let positive : 1 ≤ k = elim (dec_lt 0 k) [
      | yes more ↦ more
      | no nil ↦
          let e : k ≡ 0 = omega (arith, nil) in
          let square : k * k ≡ 0 = ap (λ (t : ℕ). t * t) e in
          absurd (omega (arith, square, full, some_bytes))
    ] in
    let less : (k + 2 ^ 32 - 1) % 2 ^ 32 ≡ k - 1 = omega (arith, near, positive) in
    let up : k - 1 + 1 ≡ k = omega (arith, positive) in
    let square_up : (k - 1 + 1) * (k - 1 + 1) ≡ k * k = ap (λ (t : ℕ). t * t) up in
    let inside : 8 * ((k - 1) * (k - 1)) < blksize = elim fits [
      | inl nil ↦ absurd (omega (arith, nil, positive))
      | inr below ↦ below
    ] in
    (
      k - 1,
      (fill_cells (k - 1) seed a b).a,
      (fill_cells (k - 1) seed a b).b,
      rw (ends, less) refl,
      omega (arith, inside),
      omega (arith, full, square_up),
    )
