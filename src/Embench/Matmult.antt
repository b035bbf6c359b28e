-- ===== src/Embench/Matmult.antt =====
-- The matrix product sw/benchmarks/embench/src/matmult-int/matmult-int.c.
-- A matrix is the list of its rows; a `long` has 64 bits, and no entry is negative.
pub mod Expected
pub mod Product
mod Tests
use len5_core.Common.{
  ℕ, zero, suc, ◌+◌, ◌-◌, ◌*◌, ◌/◌, ◌%◌, ◌^◌, ◌≤◌, ◌<◌, ◌≡◌, refl, sym, ap, ◌∙◌, ◌≢◌, ◌↔◌, ◌⊎◌, inl,
  inr, Bool, true, false, not, ◌&&◌, ◌||◌, Option, none, some, List, [], ◌∷◌, ◌++◌, map, arith,
  dec_lt, ℕ_discrete, ltb, leb, ◌==◌, if◌then◌else◌, ◌>>=◌, Bool-cases, Option-cases, some_inj,
  length, get_or, set, take, drop, replicate, All,
}
use len5_core.Embench.Matmult.Expected.{exp}

abbrev pub Matrix : Type 0
Matrix = List (List ℕ)

abbrev pub upperlimit : ℕ
upperlimit = 20

-- `m[i][j]`.
abbrev pub entry : Matrix → (i j : ℕ) → ℕ
entry m i j = get_or (get_or m i []) j 0

-- `RandomInteger`: the number, which is the new seed.
unfoldable pub random_integer : (seed : ℕ) → ℕ
random_integer seed = (seed * 133 + 81) % 8095

-- The loops of `initialise_benchmark` over a row and over the rows, with the seed that they leave.
pub init_row : (left seed : ℕ) → List ℕ × ℕ
init_row zero seed = ([], seed)
init_row (suc left) seed =
    let r = init_row left (random_integer seed) in (random_integer seed ∷ r.0, r.1)

pub init_rows : (left seed : ℕ) → Matrix × ℕ
init_rows zero seed = ([], seed)
init_rows (suc left) seed =
    let row = init_row upperlimit seed in let r = init_rows left row.1 in (row.0 ∷ r.0, r.1)

-- The two matrices.
unfoldable pub initialise_benchmark : Matrix × Matrix
initialise_benchmark = let a = init_rows upperlimit 0 in (a.0, (init_rows upperlimit a.1).0)

-- The innermost loop of `Multiply`, for `left` more rounds; `sum` is `Res[Outer][Inner]`.
pub sum_loop : (left index sum outer inner : ℕ) → (a b : Matrix) → ℕ
sum_loop zero index sum outer inner a b = sum
sum_loop (suc left) index sum outer inner a b =
    sum_loop left (index + 1) ((sum + entry a outer index * entry b index inner) % 2 ^ 64) outer
      inner a b

-- The loops over a row and over the rows, which set every entry of the result.
pub row_loop : (left inner outer : ℕ) → (a b : Matrix) → List ℕ
row_loop zero inner outer a b = []
row_loop (suc left) inner outer a b =
    sum_loop upperlimit 0 0 outer inner a b ∷ row_loop left (inner + 1) outer a b

pub rows_loop : (left outer : ℕ) → (a b : Matrix) → Matrix
rows_loop zero outer a b = []
rows_loop (suc left) outer a b = row_loop upperlimit 0 outer a b ∷ rows_loop left (outer + 1) a b

unfoldable pub multiply : (a b : Matrix) → Matrix
multiply a b = rows_loop upperlimit 0 a b

-- `benchmark_body`: what it leaves in `ResultArray`.
pub benchmark_body : (rpt : ℕ) → (array_a_ref array_b_ref result_array : Matrix) → Matrix
benchmark_body zero a b result_array = result_array
benchmark_body (suc rpt) a b result_array = benchmark_body rpt a b (multiply a b)

-- The `memcmp` of a row, and of the rows.
pub same_row : List ℕ → List ℕ → Bool
same_row [] [] = true
same_row [] (y ∷ ys) = false
same_row (x ∷ xs) [] = false
same_row (x ∷ xs) (y ∷ ys) = (x == y) && same_row xs ys

pub same_rows : Matrix → Matrix → Bool
same_rows [] [] = true
same_rows [] (y ∷ ys) = false
same_rows (x ∷ xs) [] = false
same_rows (x ∷ xs) (y ∷ ys) = same_row x y && same_rows xs ys

unfoldable pub verify_benchmark : (result_array : Matrix) → Bool
verify_benchmark result_array = same_rows result_array exp
