-- ===== src/Embench/Matmult/Tests.antt =====
-- Concrete cases of the matrix program.
use len5_core.Common.{zero, suc, ◌^◌, ◌<◌, ◌≡◌, true, [], ◌∷◌, arith}
use len5_core.Embench.Matmult.{
  Matrix, entry, multiply, benchmark_body, initialise_benchmark, verify_benchmark,
}
use len5_core.Embench.Matmult.Product.{IsSmall, dot, multiply-dot, benchmark_body-exp}

abbrev two_rows : Matrix
two_rows = (1 ∷ 2 ∷ []) ∷ (3 ∷ 8094 ∷ []) ∷ []

two_rows-IsSmall : IsSmall two_rows
two_rows-IsSmall zero zero = omega arith
two_rows-IsSmall zero (suc zero) = omega arith
two_rows-IsSmall zero (suc (suc j)) = omega arith
two_rows-IsSmall (suc zero) zero = omega arith
two_rows-IsSmall (suc zero) (suc zero) = omega arith
two_rows-IsSmall (suc zero) (suc (suc j)) = omega arith
two_rows-IsSmall (suc (suc i)) j = omega arith

multiply-dot_example :
    (entry (multiply two_rows two_rows) 1 1 ≡ dot 20 0 (entry two_rows 1) (λ k. entry two_rows k 1))
    × (entry (multiply two_rows two_rows) 1 1 < 2 ^ 31)
multiply-dot_example =
    multiply-dot two_rows two_rows 1 1 two_rows-IsSmall two_rows-IsSmall (omega arith) (omega arith)

benchmark_body-exp_example :
    verify_benchmark (benchmark_body 2 initialise_benchmark.0 initialise_benchmark.1 two_rows)
    ≡ true
benchmark_body-exp_example = benchmark_body-exp 2 two_rows (omega arith)
