-- ===== src/Embench/Matmult/Product.antt =====
-- `multiply` of the matrix program computes the product without a wrap-around.
use len5_core.Common.{
  ℕ, zero, suc, ◌+◌, ◌*◌, ◌%◌, ◌^◌, ◌≤◌, ◌<◌, ◌≡◌, refl, ap, ◌∙◌, true, [], arith, get_or,
}
use native.Mathlib.Nat.{mul-le-mul}
use len5_core.Embench.Matmult.Expected.{exp}
use len5_core.Embench.Matmult.{
  verify_benchmark, benchmark_body, initialise_benchmark, init_rows, init_row, random_integer,
  same_rows, same_row, Matrix, upperlimit, entry, sum_loop, row_loop, rows_loop, multiply,
}

-- The sum of `n` products, from the entries at `k` on, without bound.
pub dot : (n k : ℕ) → (row column : ℕ → ℕ) → ℕ
dot zero k row column = 0
dot (suc n) k row column = row k * column k + dot n (k + 1) row column

-- No entry reaches the modulus of the random numbers.
abbrev pub IsSmall : Matrix → Type 0
IsSmall m = (i j : ℕ) → entry m i j < 8095

dot-lt :
    (n k : ℕ) (row column : ℕ → ℕ)
    → ((i : ℕ) → row i < 8095)
    → ((i : ℕ) → column i < 8095)
    → dot n k row column ≤ n * (8094 * 8094)
unfolding dot
dot-lt zero k row column h h' = omega arith
dot-lt (suc n) k row column h h' =
    let left : row k ≤ 8094 = omega (arith, h k) in
    let right : column k ≤ 8094 = omega (arith, h' k) in
    let one : row k * column k ≤ 8094 * 8094 = mul-le-mul left right in
    omega (arith, one, dot-lt n (k + 1) row column h h')

sum_loop-dot :
    (left index sum outer inner : ℕ) (a b : Matrix)
    → IsSmall a
    → IsSmall b
    → sum + left * (8094 * 8094) < 2 ^ 64
    → sum_loop left index sum outer inner a b
      ≡ sum + dot left index (entry a outer) (λ k. entry b k inner)
unfolding sum_loop dot
sum_loop-dot zero index sum outer inner a b h h' room = omega arith
sum_loop-dot (suc left) index sum outer inner a b h h' room =
    let x : entry a outer index ≤ 8094 = omega (arith, h outer index) in
    let y : entry b index inner ≤ 8094 = omega (arith, h' index inner) in
    let one : entry a outer index * entry b index inner ≤ 8094 * 8094 = mul-le-mul x y in
    let next = (sum + entry a outer index * entry b index inner) % 2 ^ 64 in
    let exact : next ≡ sum + entry a outer index * entry b index inner = omega (arith, one, room) in
    let rest =
      sum_loop-dot left (index + 1) next outer inner a b h h' (omega (arith, exact, one, room)) in
    omega (arith, rest, exact)

get_or-row_loop :
    (left inner outer j : ℕ) (a b : Matrix)
    → j < left
    → get_or (row_loop left inner outer a b) j 0 ≡ sum_loop upperlimit 0 0 outer (inner + j) a b
unfolding row_loop
get_or-row_loop zero inner outer j a b h = absurd (omega arith)
get_or-row_loop (suc left) inner outer zero a b h =
    let e : inner + 0 ≡ inner = omega arith in rw e refl
get_or-row_loop (suc left) inner outer (suc j) a b h =
    let e : inner + suc j ≡ inner + 1 + j = omega arith in
    rw e (get_or-row_loop left (inner + 1) outer j a b (omega arith))

get_or-rows_loop :
    (left outer i : ℕ) (a b : Matrix)
    → i < left
    → get_or (rows_loop left outer a b) i [] ≡ row_loop upperlimit 0 (outer + i) a b
unfolding rows_loop
get_or-rows_loop zero outer i a b h = absurd (omega arith)
get_or-rows_loop (suc left) outer zero a b h = let e : outer + 0 ≡ outer = omega arith in rw e refl
get_or-rows_loop (suc left) outer (suc i) a b h =
    let e : outer + suc i ≡ outer + 1 + i = omega arith in
    rw e (get_or-rows_loop left (outer + 1) i a b (omega arith))

-- For matrices whose entries are below 8095, as the random numbers are, each entry of the product
-- that Multiply computes is the sum of the twenty products of a row and a column, without any
-- wrap-around, and it is below 2^31.
pub multiply-dot :
    (a b : Matrix) (i j : ℕ)
    → IsSmall a
    → IsSmall b
    → i < 20
    → j < 20
    → (entry (multiply a b) i j ≡ dot 20 0 (entry a i) (λ k. entry b k j))
      × (entry (multiply a b) i j < 2 ^ 31)
unfolding multiply
multiply-dot a b i j h h' hi hj =
    let row = ap (λ r. get_or r j 0) (get_or-rows_loop 20 0 i a b hi) in
    let at_entry = get_or-row_loop 20 0 (0 + i) j a b hj in
    let e : 0 + i ≡ i = omega arith in
    let e' : 0 + j ≡ j = omega arith in
    let sum = sum_loop-dot 20 0 0 i j a b h h' (omega arith) in
    let whole : entry (multiply a b) i j ≡ 0 + dot 20 0 (entry a i) (λ k. entry b k j) =
      row
      ∙ at_entry
      ∙ ap (λ o. sum_loop 20 0 0 o (0 + j) a b) e
      ∙ ap (λ n. sum_loop 20 0 0 i n a b) e'
      ∙ sum in
    (
      omega (arith, whole),
      omega (arith, whole, dot-lt 20 0 (entry a i) (λ k. entry b k j) (h i) (λ k. h' k j)),
    )

product_of_random : verify_benchmark (multiply initialise_benchmark.0 initialise_benchmark.1) ≡ true
unfolding verify_benchmark multiply initialise_benchmark init_rows init_row random_integer sum_loop
    row_loop rows_loop same_rows same_row exp
product_of_random = refl

-- From the matrices of initialise_benchmark and for every start of ResultArray, any positive number
-- of rounds leaves the product that verify_benchmark expects.
pub benchmark_body-exp :
    (rpt : ℕ) (result_array : Matrix)
    → 1 ≤ rpt
    → verify_benchmark
        (benchmark_body rpt initialise_benchmark.0 initialise_benchmark.1 result_array)
      ≡ true
unfolding benchmark_body
benchmark_body-exp zero r h = absurd (omega arith)
benchmark_body-exp (suc zero) r h = product_of_random
benchmark_body-exp (suc (suc rpt)) r h =
    benchmark_body-exp (suc rpt) (multiply initialise_benchmark.0 initialise_benchmark.1)
      (omega arith)
