-- ===== src/Coremark/Matrix/Restore.antt =====
-- The matrix benchmark gives the input matrix back.
use len5_core.Common.{
  ℕ, zero, suc, ◌+◌, ◌-◌, ◌*◌, ◌%◌, ◌^◌, ◌<◌, ◌≡◌, ap, inl, inr, arith, ℕ_discrete, ◌==◌,
  if◌then◌else◌, Bool-cases,
}
use len5_core.Coremark.Matrix.{
  Array, assign, for_loop, for_cells, matrix_add_const, matrix_test, core_bench_matrix,
}

-- Two loops whose bodies keep a relation keep it.
pub for_loop-related :
    {A B : Type 0} (R : A → B → Type 0) (f : ℕ → A → A) (g : ℕ → B → B)
    → ((i : ℕ) (a : A) (b : B) → R a b → R (f i a) (g i b))
    → (left i : ℕ) (a : A) (b : B) → R a b
    → R (for_loop left i f a) (for_loop left i g b)
unfolding for_loop
for_loop-related R f g keeps zero i a b r = r
for_loop-related R f g keeps (suc left) i a b r =
    for_loop-related R f g keeps left (i + 1) (f i a) (g i b) (keeps i a b r)

-- How often the loops over the cells come to the index `x`.
visits : (n x : ℕ) → ℕ
visits n x = for_cells n (λ i j k. if x == i * n + j then k + 1 else k) 0

assign-count :
    (val x at k start : ℕ) (a : Array)
    → a x ≡ (start + k * val) % 2 ^ 16
    → assign a at ((a at + val) % 2 ^ 16) x
      ≡ (start + (if x == at then k + 1 else k) * val) % 2 ^ 16
unfolding assign
assign-count val x at k start a h = elim (Bool-cases (x == at)) [
  | inl here ↦
      let same : x ≡ at = ground (arith, here) in
      let more : (k + 1) * val ≡ k * val + val = grind arith in
      rw here (omega (arith, ap a same, h, more))
  | inr other ↦ rw other h
]

-- Each visit adds the constant once.
matrix_add_const-visits :
    (n val x : ℕ) (a : Array)
    → a x < 2 ^ 16
    → matrix_add_const n val a x ≡ (a x + visits n x * val) % 2 ^ 16
unfolding matrix_add_const for_cells visits
matrix_add_const-visits n val x a small =
    for_loop-related (λ (b : Array) k. b x ≡ (a x + k * val) % 2 ^ 16) _ _
      (λ i b k r.
        for_loop-related (λ (b : Array) k. b x ≡ (a x + k * val) % 2 ^ 16) _ _
          (λ j b k r. assign-count val x (i * n + j) k (a x) b r) n 0 b k r)
      n 0 a 0 (omega (arith, small))

negatives_cancel :
    (v val : ℕ) → val < 2 ^ 16 → (v * val + v * ((2 ^ 16 - val) % 2 ^ 16)) % 2 ^ 16 ≡ 0
negatives_cancel v val small =
    let w = (2 ^ 16 - val) % 2 ^ 16 in
    let spread : v * (val + w) ≡ v * val + v * w = grind arith in
    elim (ℕ_discrete val 0) [
      | yes nil ↦
          let none_left : val + w ≡ 0 = omega (arith, nil) in
          omega (arith, spread, ap (λ (t : ℕ). v * t) none_left)
      | no positive ↦
          let whole : val + w ≡ 2 ^ 16 = omega (arith, positive, small) in
          omega (arith, spread, ap (λ (t : ℕ). v * t) whole)
    ]

-- Adding a constant to a matrix of 16-bit numbers and then its negative gives the matrix back.
pub matrix_add_const_undo :
    (n val x : ℕ) (a : Array)
    → a x < 2 ^ 16
    → val < 2 ^ 16
    → matrix_add_const n ((2 ^ 16 - val) % 2 ^ 16) (matrix_add_const n val a) x ≡ a x
matrix_add_const_undo n val x a small val_small =
    let once = matrix_add_const-visits n val x a small in
    let twice =
      matrix_add_const-visits n ((2 ^ 16 - val) % 2 ^ 16) x (matrix_add_const n val a)
        (omega (arith, once)) in
    omega (arith, once, twice, negatives_cancel (visits n x) val val_small, small)

-- On an input matrix of 16-bit numbers and for every dimension, 16-bit seed and result matrix,
-- core_bench_matrix leaves every entry of the input matrix as it was.
pub core_bench_matrix_restores :
    (n : ℕ) (c a b : Array) (seed crc : ℕ)
    → ((x : ℕ) → a x < 2 ^ 16)
    → seed < 2 ^ 16
    → (x : ℕ) → (core_bench_matrix n c a b seed crc).2 x ≡ a x
unfolding core_bench_matrix matrix_test
core_bench_matrix_restores n c a b seed crc small seed_small x =
    matrix_add_const_undo n seed x a (small x) seed_small
