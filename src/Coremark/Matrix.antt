-- ===== src/Coremark/Matrix.antt =====
-- The matrix benchmark sw/benchmarks/coremark/src/all/core_matrix.c, with integer matrices.
-- The matrices are arrays apart from each other. A MATDAT is a 16-bit and a MATRES a 32-bit pattern
-- in two's complement; sums and products wrap as the code's do. The dimension is below 2^16, so an
-- index does not wrap.
pub mod Restore
pub mod Init
mod Tests
use Prim.Native.Nat.{bit_or}
use len5_core.Common.{
  ℕ, zero, suc, ◌+◌, ◌-◌, ◌*◌, ◌/◌, ◌%◌, ◌^◌, ◌≤◌, ◌<◌, ◌≡◌, refl, sym, ap, ◌∙◌, ◌≢◌, ◌↔◌, ◌⊎◌, inl,
  inr, Bool, true, false, not, ◌&&◌, ◌||◌, Option, none, some, List, [], ◌∷◌, ◌++◌, map, arith,
  dec_lt, ℕ_discrete, ltb, leb, ◌==◌, if◌then◌else◌, ◌>>=◌, Bool-cases, Option-cases, some_inj,
  length, get_or, set, take, drop, replicate, All,
}
use len5_core.Coremark.Crc.{crc16}

abbrev pub Array : Type 0
Array = ℕ → ℕ

-- `a[i] = v`.
unfoldable pub assign : Array → (i v : ℕ) → Array
assign a i v x = if x == i then v else a x

-- `for (i=0; i<n; i++)`, from `i` on for `left` more rounds.
pub for_loop : {A : Type 0} → (left i : ℕ) → (ℕ → A → A) → A → A
for_loop zero i body s = s
for_loop (suc left) i body s = for_loop left (i + 1) body (body i s)

-- The two loops over the cells of a matrix of dimension `n`.
unfoldable pub for_cells : {A : Type 0} → (n : ℕ) → (ℕ → ℕ → A → A) → A → A
for_cells n body s = for_loop n 0 (λ i. for_loop n 0 (λ j. body i j)) s

-- The conversion of a MATDAT to a MATRES.
unfoldable pub extend : ℕ → ℕ
extend x = if ltb x (2 ^ 15) then x else x + 2 ^ 32 - 2 ^ 16

-- `a > b` for the patterns of two MATRES.
unfoldable pub greater : (a b : ℕ) → Bool
greater a b = ltb ((b + 2 ^ 31) % 2 ^ 32) ((a + 2 ^ 31) % 2 ^ 32)

abbrev pub times : (a b : ℕ) → ℕ
times a b = extend a * extend b % 2 ^ 32

unfoldable pub matrix_add_const : (n : ℕ) → (val : ℕ) → Array → Array
matrix_add_const n val =
    for_cells n (λ i j a. assign a (i * n + j) ((a (i * n + j) + val) % 2 ^ 16))

unfoldable pub matrix_mul_const : (n : ℕ) → (a : Array) → (val : ℕ) → (c : Array) → Array
matrix_mul_const n a val = for_cells n (λ i j c. assign c (i * n + j) (times (a (i * n + j)) val))

-- `c[at] += v`.
unfoldable pub accumulate : (at v : ℕ) → Array → Array
accumulate at v c = assign c at ((c at + v) % 2 ^ 32)

unfoldable pub matrix_mul_vect : (n : ℕ) → (a b c : Array) → Array
matrix_mul_vect n a b =
    for_loop n 0
      (λ i c. for_loop n 0 (λ j. accumulate i (times (a (i * n + j)) (b j))) (assign c i 0))

unfoldable pub matrix_mul_matrix : (n : ℕ) → (a b c : Array) → Array
matrix_mul_matrix n a b = for_cells n (λ i j c.
    for_loop n 0 (λ k. accumulate (i * n + j) (times (a (i * n + k)) (b (k * n + j))))
      (assign c (i * n + j) 0))

-- The macro `bit_extract`: from the bit `from` on, `to` bits.
unfoldable pub bit_extract : (x from to : ℕ) → ℕ
bit_extract x from to = x / 2 ^ from % 2 ^ to

unfoldable pub matrix_mul_matrix_bitextract : (n : ℕ) → (a b c : Array) → Array
matrix_mul_matrix_bitextract n a b = for_cells n (λ i j c.
    for_loop n 0
      (λ k c.
        (let tmp = times (a (i * n + k)) (b (k * n + j)) in
          accumulate (i * n + j) (bit_extract tmp 2 4 * bit_extract tmp 5 7) c))
      (assign c (i * n + j) 0))

-- The local variables of `matrix_sum`.
pub record Sum : Type 0 where
  pub tmp : ℕ
  pub prev : ℕ
  pub ret : ℕ

unfoldable pub sum_step : (clipval cur : ℕ) → Sum → Sum
sum_step clipval cur s =
    let tmp = (s.tmp + cur) % 2 ^ 32 in
    let bigger = if greater cur s.prev then 1 else 0 in
    if greater tmp (extend clipval)
    then record { tmp = 0; prev = cur; ret = (s.ret + 10) % 2 ^ 16 }
    else record { tmp = tmp; prev = cur; ret = (s.ret + bigger) % 2 ^ 16 }

unfoldable pub matrix_sum : (n : ℕ) → (c : Array) → (clipval : ℕ) → ℕ
matrix_sum n c clipval =
    (for_cells n (λ i j. sum_step clipval (c (i * n + j)))
      (record { tmp = 0; prev = 0; ret = 0 })).ret

-- The macro `matrix_big`.
unfoldable pub matrix_big : ℕ → ℕ
matrix_big x = bit_or 0xf000 x

-- The CRC, the result matrix and the input matrix.
unfoldable pub matrix_test : (n : ℕ) → (c a b : Array) → (val : ℕ) → ℕ × Array × Array
matrix_test n c a b val =
    let clipval = matrix_big val in
    let a = matrix_add_const n val a in
    let c = matrix_mul_const n a val c in
    let crc = crc16 (matrix_sum n c clipval) 0 in
    let c = matrix_mul_vect n a b c in
    let crc = crc16 (matrix_sum n c clipval) crc in
    let c = matrix_mul_matrix n a b c in
    let crc = crc16 (matrix_sum n c clipval) crc in
    let c = matrix_mul_matrix_bitextract n a b c in
    let crc = crc16 (matrix_sum n c clipval) crc in
    let a = matrix_add_const n ((2 ^ 16 - val) % 2 ^ 16) a in (crc, c, a)

-- `core_bench_matrix`: the CRC and the matrices C and A.
unfoldable pub core_bench_matrix : (n : ℕ) → (c a b : Array) → (seed crc : ℕ) → ℕ × Array × Array
core_bench_matrix n c a b seed crc = let r = matrix_test n c a b seed in (crc16 r.0 crc, r.1, r.2)
