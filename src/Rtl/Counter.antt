-- ===== src/Rtl/Counter.antt =====
-- The counter rtl/common/modn_counter.sv.
use native.Mathlib.Nat.{mod_self, mod-eq_of_lt, pow-suc, one-le-pow}
use mathlib.Core.Path.{subst}
use native.Mathlib.Nat.{one-le-pow, pow-suc}
use len5_core.Common.{
  ==_iff, ℕ, zero, suc, ◌+◌, ◌-◌, ◌%◌, ◌^◌, ◌≤◌, ◌<◌, ◌≡◌, refl, sym, ◌∙◌, ◌≢◌, inl, inr, Bool,
  true, false, ◌&&◌, arith, leb, ◌==◌, if◌then◌else◌, Bool-cases,
}

-- `$clog2`: the bits of an index below `n`, tried from `bits` on.
clog2_from : (fuel bits n : ℕ) → ℕ
clog2_from zero bits n = bits
clog2_from (suc fuel) bits n =
    let more = clog2_from fuel (bits + 1) n in if leb n (2 ^ bits) then bits else more

pub clog2 : ℕ → ℕ
clog2 n = clog2_from n 0 n

-- `i[$clog2(N)-1:0]`, for `n` at least 2: with one entry there is no bit to take, and the source does
-- not elaborate.
abbrev pub index : (n i : ℕ) → ℕ
index n i = i % 2 ^ clog2 n

-- `tc_o`.
abbrev pub terminal_count : (n count : ℕ) → Bool
terminal_count n count = count == n - 1

-- A rising edge with `rst_ni` high. `count_o` has `$clog2(N)` bits.
unfoldable pub modn_counter : (n init count : ℕ) → (en_i clr_i : Bool) → ℕ
modn_counter n init count en clr =
    if clr
    then init
    else if en && terminal_count n count
    then 0
    else if en
    then (count + 1) % 2 ^ clog2 n
    else count

clog2_from-bound : (fuel bits n : ℕ) → n ≤ 2 ^ (bits + fuel) → n ≤ 2 ^ clog2_from fuel bits n
unfolding clog2_from
clog2_from-bound zero bits n h = subst (λ (k : ℕ). n ≤ 2 ^ k) (omega arith) h
clog2_from-bound (suc fuel) bits n h = elim (Bool-cases (leb n (2 ^ bits))) [
  | inl e ↦ rw e (ground arith)
  | inr e ↦ rw e (clog2_from-bound fuel (bits + 1) n (subst (λ (k : ℕ). n ≤ 2 ^ k) (omega arith) h))
]

le-two_pow : (n : ℕ) → n ≤ 2 ^ n
le-two_pow zero = omega arith
le-two_pow (suc n) = omega (arith, le-two_pow n, pow-suc 2 n, one-le-pow n 2)

-- The bits are enough for every index.
pub clog2-bound : (n : ℕ) → n ≤ 2 ^ clog2 n
unfolding clog2
clog2-bound n = clog2_from-bound n 0 n (subst (λ (k : ℕ). n ≤ 2 ^ k) (omega arith) (le-two_pow n))

-- An enabled counter counts up and starts again at `n`: no bit of the sum is lost.
pub modn_counter-en :
    (n init count : ℕ) → count < n → modn_counter n init count true false ≡ (count + 1) % n
unfolding modn_counter
modn_counter-en n init count h = elim (Bool-cases (count == n - 1)) [
  | inl e ↦ rw (e, wrapped ((==_iff count (n - 1)).0 e)) refl
  | inr e ↦
      rw e (mod-eq_of_lt (omega (arith, bits, ne e)) ∙ sym (mod-eq_of_lt (omega (arith, ne e))))
]
  where
    bits : n ≤ 2 ^ clog2 n
    bits = clog2-bound n

    wrapped : count ≡ n - 1 → (count + 1) % n ≡ 0
    wrapped e = subst (λ (k : ℕ). k % n ≡ 0) (omega arith) (mod_self n)

    ne : (count == n - 1) ≡ false → count ≢ n - 1
    ne e = ground arith

pub modn_counter-off : (n init count : ℕ) → modn_counter n init count false false ≡ count
unfolding modn_counter
modn_counter-off n init count = refl

pub index_lt : (n i : ℕ) → i < n → index n i ≡ i
index_lt n i h = mod-eq_of_lt (omega (arith, clog2-bound n))
