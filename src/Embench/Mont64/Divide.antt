-- ===== src/Embench/Mont64/Divide.antt =====
-- `modul64` in mont64.c is the remainder of a 128-bit number.
use len5_core.Common.{
  sym, refl, ap, ◌∙◌, inr, inl, ltb, ◌-◌, arith, Bool-cases, if◌then◌else◌, leb, ℕ, zero, suc, ◌+◌,
  ◌*◌, ◌<◌, ◌≡◌, ◌^◌, ◌/◌, ◌%◌,
}
use len5_core.Common.Bits.{zero-bit_and, bit_and_comm, bit_and_mask, or_and-add, bit_or_fields}
use mathlib.Core.Path.{ap₂}
use native.Mathlib.Nat.{
  mod-eq_of_lt, mul-add-mod_self_right, div-div-eq-div-mul, pow-suc, mul-add-div,
}
use len5_core.Embench.Mont64.{bit, bit_or, u64, sign_mask, modul_round, modul_loop, modul64}

or_ones : (a : ℕ) → a < 2 ^ 64 → bit_or a (2 ^ 64 - 1) ≡ 2 ^ 64 - 1
or_ones a h = omega (arith, or_and-add a (2 ^ 64 - 1), bit_and_mask 64 a)

or_zero : (a : ℕ) → bit_or a 0 ≡ a
or_zero a = omega (arith, or_and-add a 0, bit_and_comm a 0, zero-bit_and a)

-- The doubled `x` with the bit that falls out of `y`, before it is cut to 64 bits.
abbrev doubled : (x y : ℕ) → ℕ
doubled x y = 2 * x + y / 2 ^ 63

joined : (x y : ℕ) → y < 2 ^ 64 → bit_or (u64 (x * 2)) (y / 2 ^ 63) ≡ u64 (doubled x y)
joined x y h =
    let cut : u64 (x * 2) ≡ x % 2 ^ 63 * 2 ^ 1 = omega arith in
    rw cut (bit_or_fields 1 (x % 2 ^ 63) (y / 2 ^ 63) (omega arith) ∙ omega arith)

-- The test of a round compares the doubled value itself with `z`, also beyond 64 bits.
tested :
    (x y z : ℕ)
    → x < z
    → z < 2 ^ 64
    → y < 2 ^ 64
    → leb z (bit_or (u64 (doubled x y)) (sign_mask x)) ≡ leb z (doubled x y)
tested x y z hx hz hy = elim (Bool-cases (ltb x (2 ^ 63))) [
  | inl small ↦
      let fits : u64 (doubled x y) ≡ doubled x y = ground arith in rw (small, or_zero, fits)
  | inr big ↦ rw (big, or_ones (u64 (doubled x y)) (omega arith)) (ground arith)
]

-- One round takes `z` off the doubled value if it fits, and shifts the test's result into `y`.
modul_round_eq :
    (x y z : ℕ)
    → x < z
    → z < 2 ^ 64
    → y < 2 ^ 64
    → modul_round x y z ≡ (
        if leb z (doubled x y)
        then (doubled x y - z, 2 * (y % 2 ^ 63) + 1)
        else (doubled x y, 2 * (y % 2 ^ 63)))
unfolding modul_round
modul_round_eq x y z hx hz hy =
    rw (joined x y hy, tested x y z hx hz hy)
      (elim (Bool-cases (leb z (doubled x y))) [
        | inl fits ↦ rw fits (ap₂ (λ a b. (a, b)) (ground arith) (omega arith))
        | inr less ↦ rw less (ap₂ (λ a b. (a, b)) (ground arith) (omega arith))
      ])

-- The quotient bit of a round.
abbrev quotient_bit : (x y z : ℕ) → ℕ
quotient_bit x y z = bit (leb z (doubled x y))

modul_round_lem :
    (x y z : ℕ)
    → x < z
    → z < 2 ^ 64
    → y < 2 ^ 64
    → (doubled x y ≡ quotient_bit x y z * z + (modul_round x y z).0)
      × ((modul_round x y z).0 < z)
      × ((modul_round x y z).1 / 2 ≡ y % 2 ^ 63)
      × ((modul_round x y z).1 < 2 ^ 64)
modul_round_lem x y z hx hz hy =
    rw (modul_round_eq x y z hx hz hy) (elim (Bool-cases (leb z (doubled x y))) [
      | inl fits ↦ rw fits (ground arith, ground arith, omega arith, omega arith)
      | inr less ↦ rw less (omega arith, ground arith, omega arith, omega arith)
    ])

-- The bits of `y` above a divisor, with the top bit split off.
split_top : (m n y : ℕ) → 0 < m → m * 2 ^ n ≡ 2 ^ 63 → y / m ≡ y / 2 ^ 63 * 2 ^ n + y % 2 ^ 63 / m
split_top m n y pos e = ap (λ t. t / m) whole ∙ mul-add-div pos (y / 2 ^ 63 * 2 ^ n) (y % 2 ^ 63)
  where
    whole : y ≡ m * (y / 2 ^ 63 * 2 ^ n) + y % 2 ^ 63
    whole = omega (arith, ap (λ (t : ℕ). y / 2 ^ 63 * t) e)

-- With `n` rounds left the top `n` bits of `y` are still to be brought down.
modul_loop_lem :
    (n m x y z : ℕ)
    → 0 < m
    → m * 2 ^ n ≡ 2 ^ 64
    → x < z
    → z < 2 ^ 64
    → y < 2 ^ 64
    → (q : ℕ) × (x * 2 ^ n + y / m ≡ q * z + modul_loop n x y z) × (modul_loop n x y z < z)
unfolding modul_loop
modul_loop_lem zero m x y z pos e hx hz hy =
    let whole : m ≡ 2 ^ 64 = omega arith in
    let none_left : y / m ≡ 0 = rw whole (omega arith) in (0, omega arith, hx)
modul_loop_lem (suc n) m x y z pos e hx hz hy =
    let (sum, below, rest, fits) = modul_round_lem x y z hx hz hy in
    let x' = (modul_round x y z).0 in
    let y' = (modul_round x y z).1 in
    let b = quotient_bit x y z in
    let half : m * 2 ^ n ≡ 2 ^ 63 = omega (arith, ap (λ (t : ℕ). m * t) (pow-suc 2 n)) in
    let (q, total, last) =
      modul_loop_lem n (2 * m) x' y' z (omega arith) (omega arith) below hz fits in
    let lower : y' / (2 * m) ≡ y % 2 ^ 63 / m =
      sym (div-div-eq-div-mul y' 2 m) ∙ ap (λ t. t / m) rest in
    (
      q + b * 2 ^ n,
      omega (
        arith,
        split_top m n y pos half,
        ap (λ (t : ℕ). x * t) (pow-suc 2 n),
        ap (λ (t : ℕ). t * 2 ^ n) sum,
      ),
      last,
    )

-- A remainder by its equation.
pub mod_of : (n q z r : ℕ) → n ≡ q * z + r → r < z → n % z ≡ r
mod_of n q z r e h = ap (λ t. t % z) e ∙ mul-add-mod_self_right q z r ∙ mod-eq_of_lt h

-- For `x < z` the result is the remainder of the 128-bit number `x || y` by `z`, as the comment
-- in the code says.
pub modul64-mod :
    (x y z : ℕ) → x < z → z < 2 ^ 64 → y < 2 ^ 64 → modul64 x y z ≡ (x * 2 ^ 64 + y) % z
unfolding modul64
modul64-mod x y z hx hz hy =
    let (q, total, below) = modul_loop_lem 64 1 x y z (omega arith) refl hx hz hy in
    sym (mod_of (x * 2 ^ 64 + y) q z (modul_loop 64 x y z) (omega arith) below)
