-- ===== src/Coremark/Parseval.antt =====
-- The number parser of sw/benchmarks/coremark/src/all/core_util.c.
-- A string is the list of its characters, without the NUL that ends it; an `ee_s32` is its 32-bit
-- pattern in two's complement.
pub mod Print
mod Tests
use len5_core.Common.{
  ℕ, zero, suc, ◌+◌, ◌-◌, ◌*◌, ◌/◌, ◌%◌, ◌^◌, ◌≤◌, ◌<◌, ◌≡◌, refl, sym, ap, ◌∙◌, ◌≢◌, ◌↔◌, ◌⊎◌, inl,
  inr, Bool, true, false, not, ◌&&◌, ◌||◌, Option, none, some, List, [], ◌∷◌, ◌++◌, map, arith,
  dec_lt, ℕ_discrete, ltb, leb, ◌==◌, if◌then◌else◌, ◌>>=◌, Bool-cases, Option-cases, some_inj,
  length, get_or, set, take, drop, replicate, All,
}

-- `s[i]`, which is the NUL behind the last character.
abbrev pub char_at : List ℕ → ℕ → ℕ
char_at s i = get_or s i 0

abbrev pub is_decimal : ℕ → Bool
is_decimal c = leb 48 c && leb c 57

abbrev pub is_hex : ℕ → Bool
is_hex c = is_decimal c || (leb 97 c && leb c 102)

-- The loop of the hexadecimal mode: the value and the rest of the string.
pub hex_loop : List ℕ → (retval : ℕ) → ℕ × List ℕ
hex_loop [] retval = (retval, [])
hex_loop (c ∷ s) retval =
    let digit = if ltb 57 c then 10 + c - 97 else c - 48 in
    let rest = hex_loop s ((retval * 16 + digit) % 2 ^ 32) in
    if is_hex c then rest else (retval, c ∷ s)

-- The loop of the decimal mode.
pub dec_loop : List ℕ → (retval : ℕ) → ℕ × List ℕ
dec_loop [] retval = (retval, [])
dec_loop (c ∷ s) retval =
    let rest = dec_loop s ((retval * 10 + (c - 48)) % 2 ^ 32) in
    if is_decimal c then rest else (retval, c ∷ s)

-- The qualifiers.
unfoldable pub qualify : (retval c : ℕ) → ℕ
qualify retval c =
    let retval = if c == 75 then retval * 1024 % 2 ^ 32 else retval in
    if c == 77 then retval * (1024 * 1024) % 2 ^ 32 else retval

-- What follows the sign.
unfoldable pub parse_digits : List ℕ → ℕ
parse_digits s =
    let r =
      if (char_at s 0 == 48) && (char_at s 1 == 120) then hex_loop (drop 2 s) 0 else dec_loop s 0 in
    qualify r.0 (char_at r.1 0)

unfoldable pub parseval : List ℕ → ℕ
parseval s =
    if char_at s 0 == 45 then (2 ^ 32 - parse_digits (drop 1 s)) % 2 ^ 32 else parse_digits s

-- `get_seed_args`; `argc` is the number of the arguments.
unfoldable pub get_seed_args : (i : ℕ) → (argv : List (List ℕ)) → ℕ
get_seed_args i argv = if ltb i (length argv) then parseval (get_or argv i []) else 0
