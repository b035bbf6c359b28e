-- ===== src/Rtl/Alu/Reverse.antt =====
-- A shift to the right between two reversals is a shift to the left.
use len5_core.Common.{ℕ, zero, suc, ◌+◌, ◌*◌, ◌/◌, ◌%◌, ◌^◌, ◌≤◌, ◌<◌, ◌≡◌, sym, ap, ◌∙◌, arith}
use native.Mathlib.Nat.{
  div-le_self, pow-suc, mul-le-mul_right, mul-add-mod_self_right, mod-eq_of_lt, div-div-eq-div-mul,
  div-add-mod', mod-lt, one-le-pow, div-eq_of_lt,
}
use len5_core.Rtl.Alu.{reversed}

bit_times-le : (b p : ℕ) → b < 2 → b * p ≤ p
bit_times-le b p h = let small : b ≤ 1 = omega arith in omega (arith, mul-le-mul_right p small)

pub rest_of_multiple : (q r p : ℕ) → r < p → (q * p + r) % p ≡ r
rest_of_multiple q r p h = mul-add-mod_self_right q p r ∙ mod-eq_of_lt h

pub halves : (x n : ℕ) → x / 2 / 2 ^ n ≡ x / 2 ^ suc n
halves x n =
    let e : 2 * 2 ^ n ≡ 2 ^ suc n = omega (arith, pow-suc 2 n) in
    div-div-eq-div-mul x 2 (2 ^ n) ∙ ap (λ (t : ℕ). x / t) e

pub reversed-lt : (n x : ℕ) → reversed n x < 2 ^ n
unfolding reversed
reversed-lt zero x = omega arith
reversed-lt (suc n) x =
    omega (arith, bit_times-le (x % 2) (2 ^ n) (omega arith), reversed-lt n (x / 2), pow-suc 2 n)

-- The top bit goes to the bottom.
reversed_top : (n x : ℕ) → reversed (suc n) x ≡ 2 * reversed n x + x / 2 ^ n % 2
unfolding reversed
reversed_top zero x = omega arith
reversed_top (suc n) x =
    let double : x % 2 * 2 ^ suc n ≡ 2 * (x % 2 * 2 ^ n) =
      omega (arith, ap (λ (t : ℕ). x % 2 * t) (pow-suc 2 n)) in
    let top : x / 2 / 2 ^ n % 2 ≡ x / 2 ^ suc n % 2 = ap (λ (t : ℕ). t % 2) (halves x n) in
    omega (arith, reversed_top n (x / 2), double, top)

low_of_suc : (x n : ℕ) → x % 2 ^ suc n ≡ x / 2 ^ n % 2 * 2 ^ n + x % 2 ^ n
low_of_suc x n =
    let p = 2 ^ n in
    let q = x / p in
    let r = q % 2 * p + x % p in
    let positive : 1 ≤ p = one-le-pow n 2 (omega arith) in
    let below : x % p < p = mod-lt x (omega (arith, positive)) in
    let r_lt : r < 2 ^ suc n =
      omega (arith, bit_times-le (q % 2) p (omega arith), below, pow-suc 2 n) in
    let split_q : q * p ≡ q / 2 * 2 ^ suc n + q % 2 * p =
      (let two : q ≡ q / 2 * 2 + q % 2 = omega arith in
        ap (λ (t : ℕ). t * p) two
        ∙ omega (arith, ap (λ (t : ℕ). q / 2 * t) (pow-suc 2 n), spread (q / 2) (q % 2) p)) in
    let whole : x ≡ q / 2 * 2 ^ suc n + r = omega (arith, div-add-mod' x p, split_q) in
    ap (λ (t : ℕ). t % 2 ^ suc n) whole ∙ rest_of_multiple (q / 2) r (2 ^ suc n) r_lt
  where
    spread : (a b p : ℕ) → (a * 2 + b) * p ≡ 2 * (a * p) + b * p
    spread a b p = grind arith

pub reversed_twice : (n x : ℕ) → reversed n (reversed n x) ≡ x % 2 ^ n
unfolding reversed
reversed_twice zero x = omega arith
reversed_twice (suc n) x =
    let top = x / 2 ^ n % 2 in
    let y = reversed (suc n) x in
    let even : y % 2 ≡ top = omega (arith, reversed_top n x) in
    let half : y / 2 ≡ reversed n x = omega (arith, reversed_top n x) in
    ap (λ (t : ℕ). t * 2 ^ n + reversed n (y / 2)) even
    ∙ ap (λ (t : ℕ). top * 2 ^ n + reversed n t) half
    ∙ omega (arith, reversed_twice n x, low_of_suc x n)

reversed_half : (n y : ℕ) → y < 2 ^ n → reversed n (y / 2) ≡ 2 * reversed n y % 2 ^ n
unfolding reversed
reversed_half zero y h = omega arith
reversed_half (suc n) y h =
    let r = reversed n (y / 2) in
    let small : y / 2 < 2 ^ n = omega (arith, h, pow-suc 2 n) in
    let no_top : y / 2 / 2 ^ n ≡ 0 = div-eq_of_lt small in
    let r_lt : 2 * r < 2 ^ suc n = omega (arith, reversed-lt n (y / 2), pow-suc 2 n) in
    let double : 2 * (y % 2 * 2 ^ n + r) ≡ y % 2 * 2 ^ suc n + 2 * r =
      omega (arith, ap (λ (t : ℕ). y % 2 * t) (pow-suc 2 n)) in
    reversed_top n (y / 2)
    ∙ omega (arith, no_top)
    ∙ sym (ap (λ (t : ℕ). t % 2 ^ suc n) double ∙ rest_of_multiple (y % 2) (2 * r) (2 ^ suc n) r_lt)

pub shift_between : (n s x : ℕ) → reversed n (reversed n x / 2 ^ s) ≡ x * 2 ^ s % 2 ^ n
shift_between n zero x =
    let one : reversed n x / 2 ^ 0 ≡ reversed n x = omega arith in
    let one' : x * 2 ^ 0 ≡ x = omega arith in
    ap (reversed n) one ∙ reversed_twice n x ∙ ap (λ (t : ℕ). t % 2 ^ n) (sym one')
shift_between n (suc s) x =
    let y = reversed n x / 2 ^ s in
    let y_lt : y < 2 ^ n = omega (arith, reversed-lt n x, div-le_self (reversed n x) (2 ^ s)) in
    let next : reversed n x / 2 ^ suc s ≡ y / 2 = halves_right (reversed n x) s in
    ap (reversed n) next
    ∙ reversed_half n y y_lt
    ∙ ap (λ (t : ℕ). 2 * t % 2 ^ n) (shift_between n s x)
    ∙ double_mod (x * 2 ^ s) (2 ^ n)
    ∙ ap (λ (t : ℕ). t % 2 ^ n) (omega (arith, ap (λ (t : ℕ). x * t) (pow-suc 2 s)))
  where
    halves_right : (a s : ℕ) → a / 2 ^ suc s ≡ a / 2 ^ s / 2
    halves_right a s = ap (λ (t : ℕ). a / t) (pow-suc 2 s) ∙ sym (div-div-eq-div-mul a (2 ^ s) 2)

    twice : (a p : ℕ) → 2 * a * p ≡ 2 * (a * p)
    twice a p = grind arith

    double_mod : (a p : ℕ) → 2 * (a % p) % p ≡ 2 * a % p
    double_mod a p =
        let r = a % p in
        let whole : 2 * a ≡ 2 * (a / p) * p + 2 * r =
          omega (arith, div-add-mod' a p, twice (a / p) p) in
        sym (ap (λ (t : ℕ). t % p) whole ∙ mul-add-mod_self_right (2 * (a / p)) p (2 * r))
