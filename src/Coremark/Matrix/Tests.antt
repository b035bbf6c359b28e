-- ===== src/Coremark/Matrix/Tests.antt =====
-- Concrete cases of the matrix benchmark, with the matrices 1 2 3 4 and 5 6 7 8.
use len5_core.Common.{
  ℕ, zero, suc, ◌+◌, ◌*◌, ◌^◌, ◌≤◌, ◌<◌, ◌≡◌, refl, some, [], ◌∷◌, arith, get_or,
}
use len5_core.Coremark.Matrix.{
  Array, matrix_mul_matrix, matrix_mul_const, core_bench_matrix, for_cells, for_loop, accumulate,
  assign, extend,
}
use len5_core.Coremark.Matrix.Init.{core_init_matrix, core_init_matrix_dimension}
use len5_core.Coremark.Matrix.Restore.{core_bench_matrix_restores}

abbrev a : Array
a x = get_or (1 ∷ 2 ∷ 3 ∷ 4 ∷ []) x 0

abbrev b : Array
b x = get_or (5 ∷ 6 ∷ 7 ∷ 8 ∷ []) x 0

abbrev blank : Array
blank x = 0

product : matrix_mul_matrix 2 a b blank 3 ≡ 50
unfolding matrix_mul_matrix for_cells for_loop accumulate assign extend
product = refl

-- Times minus one.
negative_product : matrix_mul_const 2 a 0xffff blank 2 ≡ 0xfffffffd
unfolding matrix_mul_const for_cells for_loop assign extend
negative_product = refl

a_small : (x : ℕ) → a x < 2 ^ 16
a_small zero = omega arith
a_small (suc zero) = omega arith
a_small (suc (suc zero)) = omega arith
a_small (suc (suc (suc zero))) = omega arith
a_small (suc (suc (suc (suc x)))) = omega arith

core_bench_matrix_restores_example : (core_bench_matrix 2 blank a b 0xfffe 7).2 2 ≡ a 2
core_bench_matrix_restores_example =
    core_bench_matrix_restores 2 blank a b 0xfffe 7 a_small (omega arith) 2

core_init_matrix_dimension_example :
    (n : ℕ) × (a' b' : Array) × (core_init_matrix 20001 666 0 blank blank ≡ some (n, a', b'))
    × (2 * (n * n) + 2 * (n * n) + 4 * (n * n) < 666)
    × (666 ≤ 2 * ((n + 1) * (n + 1)) + 2 * ((n + 1) * (n + 1)) + 4 * ((n + 1) * (n + 1)))
core_init_matrix_dimension_example =
    core_init_matrix_dimension 666 0 blank blank (omega arith) (omega arith)
