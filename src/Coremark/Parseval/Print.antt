-- ===== src/Coremark/Parseval/Print.antt =====
-- The number parser reads what a printer of decimal numbers writes.
use len5_core.Common.{
  ℕ, zero, suc, ◌+◌, ◌-◌, ◌*◌, ◌/◌, ◌%◌, ◌^◌, ◌≤◌, ◌<◌, ◌≡◌, refl, ap, ◌∙◌, ◌≢◌, inl, inr, true,
  false, ◌&&◌, List, [], ◌∷◌, arith, dec_lt, ltb, ◌==◌, if◌then◌else◌, Bool-cases,
}
use native.Mathlib.Nat.{pow-suc}
use len5_core.Coremark.Parseval.{char_at, is_decimal, dec_loop, qualify, parse_digits, parseval}

-- The decimal digits of `n` in front of `tail`, at most `more + 1` of them.
pub decimal : (more n : ℕ) → (tail : List ℕ) → List ℕ
decimal zero n tail = (48 + n % 10) ∷ tail
decimal (suc more) n tail =
    let rest = decimal more (n / 10) ((48 + n % 10) ∷ tail) in
    if ltb n 10 then ((48 + n % 10) ∷ tail) else rest

dec_loop-digit :
    (d : ℕ) (s : List ℕ) (retval : ℕ)
    → d < 10
    → retval * 10 + d < 2 ^ 32
    → dec_loop ((48 + d) ∷ s) retval ≡ dec_loop s (retval * 10 + d)
unfolding dec_loop
dec_loop-digit d s retval h room =
    let digit : is_decimal (48 + d) ≡ true = ground (arith, h) in
    let exact : (retval * 10 + (48 + d - 48)) % 2 ^ 32 ≡ retval * 10 + d = omega (arith, room) in
    rw (digit, exact) refl

dec_loop-decimal :
    (more n : ℕ) (tail : List ℕ)
    → n < 10 ^ (more + 1)
    → n < 2 ^ 32
    → dec_loop (decimal more n tail) 0 ≡ dec_loop tail n
unfolding decimal
dec_loop-decimal zero n tail fits small =
    let low : n % 10 ≡ n = omega (arith, fits) in
    dec_loop-digit (n % 10) tail 0 (omega arith) (omega arith)
    ∙ ap (dec_loop tail) (omega (arith, low))
dec_loop-decimal (suc more) n tail fits small = elim (dec_lt n 10) [
  | yes one ↦
      let stop : ltb n 10 ≡ true = ground (arith, one) in
      let low : 0 * 10 + n % 10 ≡ n = omega (arith, one) in
      rw stop (dec_loop-digit (n % 10) tail 0 (omega arith) (omega arith) ∙ ap (dec_loop tail) low)
  | no several ↦
      let go : ltb n 10 ≡ false = ground (arith, several) in
      let e : suc more + 1 ≡ suc (more + 1) = omega arith in
      let power : 10 ^ (suc more + 1) ≡ 10 ^ suc (more + 1) = ap (λ (t : ℕ). 10 ^ t) e in
      let tenfold = pow-suc 10 (more + 1) in
      let whole : n / 10 * 10 + n % 10 ≡ n = omega arith in
      rw go (
        dec_loop-decimal more (n / 10) ((48 + n % 10) ∷ tail) (omega (arith, power, tenfold, fits))
          (omega (arith, small))
        ∙ dec_loop-digit (n % 10) tail (n / 10) (omega arith) (omega (arith, small))
        ∙ ap (dec_loop tail) whole)
]

-- A printed number starts with a digit, which no `x` follows.
decimal-start :
    (more n : ℕ) (tail : List ℕ)
    → char_at tail 0 ≢ 120
    → (48 ≤ char_at (decimal more n tail) 0) × (char_at (decimal more n tail) 1 ≢ 120)
unfolding decimal
decimal-start zero n tail h = (omega arith, h)
decimal-start (suc more) n tail h = elim (Bool-cases (ltb n 10)) [
  | inl one ↦ rw one (omega arith, h)
  | inr several ↦ rw several (decimal-start more (n / 10) ((48 + n % 10) ∷ tail) (omega arith))
]

-- A qualifier that may follow the digits: none, K or M.
pub data Qualifier : Type 0 where
  none_at_all kilo mega : Qualifier

abbrev pub written : Qualifier → List ℕ
written none_at_all = []
written kilo = 75 ∷ []
written mega = 77 ∷ []

abbrev pub scale : Qualifier → ℕ
scale none_at_all = 1
scale kilo = 1024
scale mega = 1024 * 1024

qualify_lem :
    (n : ℕ) (q : Qualifier)
    → n < 2 ^ 32
    → qualify (dec_loop (written q) n).0 (char_at (dec_loop (written q) n).1 0)
      ≡ n * scale q % 2 ^ 32
unfolding qualify dec_loop
qualify_lem n none_at_all small = omega (arith, small)
qualify_lem n kilo small = refl
qualify_lem n mega small = refl

written-start : (q : Qualifier) → char_at (written q) 0 ≢ 120
written-start none_at_all = omega arith
written-start kilo = omega arith
written-start mega = omega arith

parse_digits-decimal :
    (n : ℕ) (q : Qualifier)
    → n < 2 ^ 32
    → parse_digits (decimal 9 n (written q)) ≡ n * scale q % 2 ^ 32
unfolding parse_digits
parse_digits-decimal n q small =
    let s = decimal 9 n (written q) in
    let no_x = (decimal-start 9 n (written q) (written-start q)).1 in
    let not_hex : (char_at s 0 == 48) && (char_at s 1 == 120) ≡ false = ground (arith, no_x) in
    rw not_hex (
      ap (λ r. qualify r.0 (char_at r.1 0))
        (dec_loop-decimal 9 n (written q) (omega (arith, small)) small)
      ∙ qualify_lem n q small)

-- Of a decimal number below 2^32, with or without a minus sign before it and with none or one of
-- the qualifiers K and M behind it, parseval gives the number times 1, 1024 or 1024^2, or its
-- negative, modulo 2^32.
pub parseval-decimal :
    (n : ℕ) (q : Qualifier)
    → n < 2 ^ 32
    → (parseval (decimal 9 n (written q)) ≡ n * scale q % 2 ^ 32)
      × (parseval (45 ∷ decimal 9 n (written q)) ≡ (2 ^ 32 - n * scale q % 2 ^ 32) % 2 ^ 32)
unfolding parseval
parseval-decimal n q small =
    let digit = (decimal-start 9 n (written q) (written-start q)).0 in
    let no_minus : (char_at (decimal 9 n (written q)) 0 == 45) ≡ false = ground (arith, digit) in
    let same = parse_digits-decimal n q small in
    (rw no_minus same, ap (λ (t : ℕ). (2 ^ 32 - t) % 2 ^ 32) same)
