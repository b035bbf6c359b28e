-- ===== src/Common/Bits.antt =====
-- Laws of the bit operations at variables, from one equation for the lowest digit.
use Prim.Native.Nat.{
  ℕ, zero, suc, ◌+◌, ◌-◌, ◌*◌, ◌/◌, ◌%◌, ◌^◌, ◌≤◌, ◌<◌, min, max, digits, bitwise, bit_and, bit_or,
  bit_xor, bit_and-bitwise, bit_or-bitwise, bit_xor-bitwise, differ,
}
use mathlib.Core.Path.{◌≡◌, refl, ap, ap₂, sym, ◌∙◌}
use native.Mathlib.Nat.{le_refl, pow-suc, one-le-pow}
use native.Mathlib.Omega.{arith}

-- A native bit operation is a table of digits `op` folded over the binary digits; `last` is what
-- it gives once the first number has run out. The fold has a budget of digits, and a budget that
-- covers the first number can be changed freely.
module _ (last : ℕ → ℕ) (op : ℕ → ℕ → ℕ) where
  abbrev fold : ℕ → ℕ → ℕ → ℕ
  fold = digits last op

  spare_digit : (budget x y : ℕ) → x ≤ budget → fold (suc budget) x y ≡ fold budget x y
  spare_digit budget zero y covers = nothing_left budget
    where
      nothing_left : (k : ℕ) → fold (suc k) 0 y ≡ fold k 0 y
      nothing_left zero = refl
      nothing_left (suc k) = refl
  spare_digit zero (suc x) y covers = elim covers [ ]
  spare_digit (suc budget) (suc x) y covers =
      ap (λ upper. upper * 2 + op (suc x % 2) (y % 2))
        (spare_digit budget (suc x / 2) (y / 2) (omega arith))

  spare_digits : (extra x y : ℕ) → fold (extra + x) x y ≡ fold x x y
  spare_digits zero x y = ap (λ budget. fold budget x y) (omega arith)
  spare_digits (suc extra) x y =
      let one_more : suc extra + x ≡ suc (extra + x) = omega arith in
      ap (λ budget. fold budget x y) one_more
      ∙ spare_digit (extra + x) x y (omega arith)
      ∙ spare_digits extra x y

  -- The lowest digit comes off.
  lowest_digit :
      (x y : ℕ)
      → 0 < x
      → bitwise last op x y ≡ bitwise last op (x / 2) (y / 2) * 2 + op (x % 2) (y % 2)
  lowest_digit zero y positive = elim positive [ ]
  lowest_digit (suc x) y positive =
      let half = suc x / 2 in
      ap (λ upper. upper * 2 + op (suc x % 2) (y % 2))
        (ap (λ budget. fold budget half (y / 2)) (omega arith)
          ∙ spare_digits (x - half) half (y / 2))

pub zero-bit_xor : (b : ℕ) → bit_xor 0 b ≡ b
zero-bit_xor b = bit_xor-bitwise 0 b

pub zero-bit_and : (b : ℕ) → bit_and 0 b ≡ 0
zero-bit_and b = bit_and-bitwise 0 b

pub zero-bit_or : (b : ℕ) → bit_or 0 b ≡ b
zero-bit_or b = bit_or-bitwise 0 b

pub bit_or_step : (x y : ℕ) → bit_or x y ≡ bit_or (x / 2) (y / 2) * 2 + max (x % 2) (y % 2)
bit_or_step zero y = omega (arith, zero-bit_or y, zero-bit_or (y / 2))
bit_or_step (suc x) y =
    bit_or-bitwise (suc x) y
    ∙ lowest_digit (λ b. b) max (suc x) y (omega arith)
    ∙ ap (λ upper. upper * 2 + max (suc x % 2) (y % 2)) (sym (bit_or-bitwise _ _))

pub bit_and_step : (x y : ℕ) → bit_and x y ≡ bit_and (x / 2) (y / 2) * 2 + min (x % 2) (y % 2)
bit_and_step zero y = omega (arith, zero-bit_and y, zero-bit_and (y / 2))
bit_and_step (suc x) y =
    bit_and-bitwise (suc x) y
    ∙ lowest_digit (λ b. zero) min (suc x) y (omega arith)
    ∙ ap (λ upper. upper * 2 + min (suc x % 2) (y % 2)) (sym (bit_and-bitwise _ _))

-- The exclusive or of two digits is the parity of their sum.
digit_xor : (p q : ℕ) → p < 2 → q < 2 → differ p q ≡ (p + q) % 2
digit_xor zero q p_fits q_fits = omega arith
digit_xor (suc zero) zero p_fits q_fits = refl
digit_xor (suc zero) (suc zero) p_fits q_fits = refl
digit_xor (suc zero) (suc (suc q)) p_fits q_fits = absurd (omega arith)
digit_xor (suc (suc p)) q p_fits q_fits = absurd (omega arith)

pub bit_xor_step : (x y : ℕ) → bit_xor x y ≡ bit_xor (x / 2) (y / 2) * 2 + (x + y) % 2
bit_xor_step zero y = omega (arith, zero-bit_xor y, zero-bit_xor (y / 2))
bit_xor_step (suc x) y =
    let low = digit_xor (suc x % 2) (y % 2) (omega arith) (omega arith) in
    bit_xor-bitwise (suc x) y
    ∙ lowest_digit (λ b. b) differ (suc x) y (omega arith)
    ∙ ap₂ (λ upper digit. upper * 2 + digit) (sym (bit_xor-bitwise _ _)) (low ∙ omega arith)

-- Each law below goes from the halves of its first number to the number, on fuel that bounds it.
xor_and_fuel : (n a b : ℕ) → a ≤ n → bit_xor a b + 2 * bit_and a b ≡ a + b
xor_and_fuel n zero b h = omega (arith, zero-bit_xor b, zero-bit_and b)
xor_and_fuel zero (suc a) b h = absurd (omega arith)
xor_and_fuel (suc n) (suc a) b h = omega (
  arith,
  bit_xor_step (suc a) b,
  bit_and_step (suc a) b,
  xor_and_fuel n (suc a / 2) (b / 2) (omega arith),
)

-- A sum is its digits without carries and its carries.
pub xor_and-add : (a b : ℕ) → bit_xor a b + 2 * bit_and a b ≡ a + b
xor_and-add a b = xor_and_fuel a a b (le_refl _)

or_and_fuel : (n a b : ℕ) → a ≤ n → bit_or a b + bit_and a b ≡ a + b
or_and_fuel n zero b h = omega (arith, zero-bit_or b, zero-bit_and b)
or_and_fuel zero (suc a) b h = absurd (omega arith)
or_and_fuel (suc n) (suc a) b h = omega (
  arith,
  bit_or_step (suc a) b,
  bit_and_step (suc a) b,
  or_and_fuel n (suc a / 2) (b / 2) (omega arith),
)

pub or_and-add : (a b : ℕ) → bit_or a b + bit_and a b ≡ a + b
or_and-add a b = or_and_fuel a a b (le_refl _)

pub bit_xor-div_two : (a b : ℕ) → bit_xor a b / 2 ≡ bit_xor (a / 2) (b / 2)
bit_xor-div_two a b = omega (arith, bit_xor_step a b)

pub bit_xor-mod_two : (a b : ℕ) → bit_xor a b % 2 ≡ (a + b) % 2
bit_xor-mod_two a b = omega (arith, bit_xor_step a b)

xor_comm_fuel : (n a b : ℕ) → a ≤ n → b ≤ n → bit_xor a b ≡ bit_xor b a
xor_comm_fuel zero a b h k = let e : a ≡ b = omega arith in rw e
xor_comm_fuel (suc n) a b h k = omega (
  arith,
  bit_xor_step a b,
  bit_xor_step b a,
  xor_comm_fuel n (a / 2) (b / 2) (omega arith) (omega arith),
)

pub bit_xor_comm : (a b : ℕ) → bit_xor a b ≡ bit_xor b a
bit_xor_comm a b = xor_comm_fuel (a + b) a b (omega arith) (omega arith)

pub bit_xor-zero : (a : ℕ) → bit_xor a 0 ≡ a
bit_xor-zero a = omega (arith, bit_xor_comm a 0, zero-bit_xor a)

xor_self_fuel : (n a : ℕ) → a ≤ n → bit_xor a a ≡ 0
xor_self_fuel n zero h = zero-bit_xor 0
xor_self_fuel zero (suc a) h = absurd (omega arith)
xor_self_fuel (suc n) (suc a) h =
    omega (arith, bit_xor_step (suc a) (suc a), xor_self_fuel n (suc a / 2) (omega arith))

pub bit_xor_self : (a : ℕ) → bit_xor a a ≡ 0
bit_xor_self a = xor_self_fuel a a (le_refl _)

xor_assoc_fuel : (n a b c : ℕ) → a ≤ n → bit_xor (bit_xor a b) c ≡ bit_xor a (bit_xor b c)
xor_assoc_fuel n zero b c h = rw (zero-bit_xor b, zero-bit_xor (bit_xor b c))
xor_assoc_fuel zero (suc a) b c h = absurd (omega arith)
xor_assoc_fuel (suc n) (suc a) b c h = ground (
  arith,
  bit_xor_step (bit_xor (suc a) b) c,
  bit_xor_step (suc a) (bit_xor b c),
  bit_xor-div_two (suc a) b,
  bit_xor-div_two b c,
  bit_xor-mod_two (suc a) b,
  bit_xor-mod_two b c,
  xor_assoc_fuel n (suc a / 2) (b / 2) (c / 2) (omega arith),
)

pub bit_xor_assoc : (a b c : ℕ) → bit_xor (bit_xor a b) c ≡ bit_xor a (bit_xor b c)
bit_xor_assoc a b c = xor_assoc_fuel a a b c (le_refl _)

-- Xor with a value twice gives the number back.
pub bit_xor_cancel : (a b : ℕ) → bit_xor (bit_xor a b) b ≡ a
bit_xor_cancel a b = rw (bit_xor_assoc a b b, bit_xor_self b) (bit_xor-zero a)

-- Four operands of two xors change places in the middle.
pub bit_xor_swap :
    (a b c d : ℕ) → bit_xor (bit_xor a b) (bit_xor c d) ≡ bit_xor (bit_xor a c) (bit_xor b d)
bit_xor_swap a b c d = cc (
  bit_xor_assoc a b (bit_xor c d),
  bit_xor_assoc a c (bit_xor b d),
  bit_xor_assoc b c d,
  bit_xor_assoc c b d,
  bit_xor_comm b c,
)

pub bit_xor-lt : (k a b : ℕ) → a < 2 ^ k → b < 2 ^ k → bit_xor a b < 2 ^ k
bit_xor-lt zero a b p q = rw (zero_of a p, zero_of b q) (omega (arith, bit_xor_self 0))
  where
    zero_of : (c : ℕ) → c < 2 ^ 0 → c ≡ 0
    zero_of c h = omega arith
bit_xor-lt (suc k) a b p q =
    let e = pow-suc 2 k in
    omega (arith, bit_xor_step a b, bit_xor-lt k (a / 2) (b / 2) (omega arith) (omega arith))

-- A mask of `k` low bits is the remainder by `2 ^ k`.
bit_and-zero : (a : ℕ) → bit_and a 0 ≡ 0
bit_and-zero a = omega (arith, xor_and-add a 0, bit_xor-zero a)

two_pow_suc : (q k : ℕ) → q * 2 ^ suc k ≡ 2 * (q * 2 ^ k)
two_pow_suc q k = omega (arith, ap (λ (t : ℕ). q * t) (pow-suc 2 k))

mask_fields : (k q r : ℕ) → r < 2 ^ k → bit_and (q * 2 ^ k + r) (2 ^ k - 1) ≡ r
mask_fields zero q r h = rw bit_and-zero (omega arith)
mask_fields (suc k) q r h = ground (
  arith,
  bit_and_step (q * 2 ^ suc k + r) (2 ^ suc k - 1),
  two_pow_suc q k,
  pow-suc 2 k,
  mask_fields k q (r / 2) (omega arith),
)

pub bit_and_mask : (k a : ℕ) → bit_and a (2 ^ k - 1) ≡ a % 2 ^ k
bit_and_mask k a = ground (arith, one-le-pow k 2, mask_fields k (a / 2 ^ k) (a % 2 ^ k))

pub bit_and_disjoint : (k q r : ℕ) → r < 2 ^ k → bit_and (q * 2 ^ k) r ≡ 0
bit_and_disjoint zero q r h = let e : r ≡ 0 = omega arith in rw e (bit_and-zero (q * 2 ^ 0))
bit_and_disjoint (suc k) q r h = ground (
  arith,
  bit_and_step (q * 2 ^ suc k) r,
  two_pow_suc q k,
  bit_and_disjoint k q (r / 2) (omega arith),
)

-- `|` of a multiple of `2 ^ k` and a smaller number is their sum, and so is `^`.
pub bit_or_fields : (k q r : ℕ) → r < 2 ^ k → bit_or (q * 2 ^ k) r ≡ q * 2 ^ k + r
bit_or_fields k q r h = omega (arith, or_and-add (q * 2 ^ k) r, bit_and_disjoint k q r h)

pub bit_xor_fields : (k q r : ℕ) → r < 2 ^ k → bit_xor (q * 2 ^ k) r ≡ q * 2 ^ k + r
bit_xor_fields k q r h = omega (arith, xor_and-add (q * 2 ^ k) r, bit_and_disjoint k q r h)

pub bit_and_comm : (a b : ℕ) → bit_and a b ≡ bit_and b a
bit_and_comm a b = omega (arith, xor_and-add a b, xor_and-add b a, bit_xor_comm a b)

pub bit_or_comm : (a b : ℕ) → bit_or a b ≡ bit_or b a
bit_or_comm a b = omega (arith, or_and-add a b, or_and-add b a, bit_and_comm a b)

pub bit_and-div_two : (a b : ℕ) → bit_and a b / 2 ≡ bit_and (a / 2) (b / 2)
bit_and-div_two a b = omega (arith, bit_and_step a b)

-- Only equal numbers have the exclusive or 0.
pub xor_eq_zero : (a b : ℕ) → bit_xor a b ≡ 0 → a ≡ b
xor_eq_zero a b h =
    let cancelled : bit_xor (bit_xor a b) b ≡ b = ap (λ t. bit_xor t b) h ∙ zero-bit_xor b in
    omega (arith, bit_xor_cancel a b, cancelled)

pub bit_xor_left_cancel : (c a b : ℕ) → bit_xor c a ≡ bit_xor c b → a ≡ b
bit_xor_left_cancel c a b h = xor_eq_zero a b (
    sym (rw (bit_xor_self c) (zero-bit_xor (bit_xor a b)))
    ∙ bit_xor_swap c c a b
    ∙ rw h (bit_xor_self (bit_xor c b)))
