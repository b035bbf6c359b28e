-- ===== src/Embench/Mont64.antt =====
-- Montgomery multiplication: sw/benchmarks/embench/src/aha-mont64/mont64.c.
-- A `uint64` is a number below 2 ^ 64, and each operation wraps as the code's does.
pub mod Multiply
pub mod Divide
pub mod Montgomery
pub mod Gcd
pub mod Body
mod Tests
use Prim.Native.Nat.{bit_and, bit_or, bit_xor}
use len5_core.Common.{
  ℕ, zero, suc, ◌+◌, ◌-◌, ◌*◌, ◌/◌, ◌%◌, ◌^◌, Bool, ◌&&◌, ◌||◌, Option, none, some, ltb, leb, ◌==◌,
  if◌then◌else◌, not,
}

-- Conversion to `uint64`.
abbrev pub u64 : ℕ → ℕ
u64 n = n % 2 ^ 64

-- The high and the low word of a product; this is the version for a compiler with `__int128`.
unfoldable pub mulul64 : (u v : ℕ) → ℕ × ℕ
mulul64 u v = (u64 (u * v / 2 ^ 64), u64 (u * v))

-- The version for other compilers, Knuth's Algorithm M.
unfoldable pub mulul64_knuth : (u v : ℕ) → ℕ × ℕ
mulul64_knuth u v =
    let u1 = u / 2 ^ 32 in
    let u0 = bit_and u 0xffffffff in
    let v1 = v / 2 ^ 32 in
    let v0 = bit_and v 0xffffffff in
    let t = u64 (u0 * v0) in
    let w0 = bit_and t 0xffffffff in
    let k = t / 2 ^ 32 in
    let t = u64 (u1 * v0 + k) in
    let w1 = bit_and t 0xffffffff in
    let w2 = t / 2 ^ 32 in
    let t = u64 (u0 * v1 + w1) in
    let k = t / 2 ^ 32 in (u64 (u1 * v1 + w2 + k), u64 (u64 (t * 2 ^ 32) + w0))

-- `(int64) x >> 63`: all ones if the top bit is set.
abbrev pub sign_mask : ℕ → ℕ
sign_mask x = if ltb x (2 ^ 63) then 0 else 2 ^ 64 - 1

-- One round of `modul64`: the new x and y.
unfoldable pub modul_round : (x y z : ℕ) → ℕ × ℕ
modul_round x y z =
    let t = sign_mask x in
    let x = bit_or (u64 (x * 2)) (y / 2 ^ 63) in
    let y = u64 (y * 2) in
    if leb z (bit_or x t) then (u64 (x + 2 ^ 64 - z), u64 (y + 1)) else (x, y)

pub modul_loop : ℕ → (x y z : ℕ) → ℕ
modul_loop zero x y z = x
modul_loop (suc left) x y z = modul_loop left (modul_round x y z).0 (modul_round x y z).1 z

unfoldable pub modul64 : (x y z : ℕ) → ℕ
modul64 x y z = modul_loop 64 x y z

-- A C truth value.
abbrev pub bit : Bool → ℕ
bit b = if b then 1 else 0

unfoldable pub montmul : (abar bbar m mprime : ℕ) → ℕ
montmul abar bbar m mprime =
    let (thi, tlo) = mulul64 abar bbar in
    let tm = u64 (tlo * mprime) in
    let (tmmhi, tmmlo) = mulul64 tm m in
    let ulo = u64 (tlo + tmmlo) in
    let uhi = u64 (thi + tmmhi) in
    let uhi = if ltb ulo tlo then u64 (uhi + 1) else uhi in
    let ov = ltb uhi thi || (uhi == thi && ltb ulo tlo) in
    let mask = u64 (2 ^ 64 - bit (ov || leb m uhi)) in u64 (uhi + 2 ^ 64 - bit_and m mask)

-- The `while (a > 0)` loop of `xbinGCD`; `none` means that the fuel ran out.
pub gcd_loop : ℕ → (alpha beta a u v : ℕ) → Option (ℕ × ℕ)
gcd_loop zero alpha beta a u v = none
gcd_loop (suc fuel) alpha beta a u v =
    let u' = if bit_and u 1 == 0 then u / 2 else u64 (bit_xor u beta / 2 + bit_and u beta) in
    let v' = if bit_and u 1 == 0 then v / 2 else u64 (v / 2 + alpha) in
    let rest = gcd_loop fuel alpha beta (a / 2) u' v' in if ltb 0 a then rest else some (u, v)

-- A 64-bit number is halved to 0 in at most 64 rounds.
unfoldable pub xbin_gcd : (a b : ℕ) → Option (ℕ × ℕ)
xbin_gcd a b = gcd_loop 65 a b a 1 0

-- A product of two words reduced modulo m, as the body of the benchmark does it.
unfoldable pub mul_reduced : (m x y : ℕ) → ℕ
mul_reduced m x y = modul64 (mulul64 x y).0 (mulul64 x y).1 m

-- The part of a round behind the call of `xbinGCD`: the number of errors.
unfoldable pub compare_ways : (a b m rinv mprime : ℕ) → ℕ
unfolding mul_reduced
compare_ways a b m rinv mprime =
    let p1 = mul_reduced m a b in
    let p1 = mul_reduced m p1 p1 in
    let p1 = mul_reduced m p1 p1 in
    let wrong = not (u64 (u64 (u64 (2 * 2 ^ 63) * rinv) + 2 ^ 64 - u64 (m * mprime)) == 1) in
    let abar = modul64 a 0 m in
    let bbar = modul64 b 0 m in
    let p = montmul abar bbar m mprime in
    let p = montmul p p m mprime in
    let p = montmul p p m mprime in
    let p = mul_reduced m p rinv in if not (p == p1) then 1 else if wrong then 1 else 0

-- One round of `benchmark_body` for the inputs `in_a`, `in_b` and `in_m`.
unfoldable pub benchmark_round : (in_a in_b in_m : ℕ) → Option ℕ
benchmark_round a b m = elim (xbin_gcd (2 ^ 63) m) [
  | none ↦ none
  | some (rinv, mprime) ↦ some (compare_ways a b m rinv mprime)
]

-- `benchmark_body`: each round sets `errors` anew, so the result is that of the last one. With no
-- round `errors` is never set, and there is no result.
pub benchmark_body : ℕ → (in_a in_b in_m : ℕ) → Option ℕ
benchmark_body zero a b m = none
benchmark_body (suc zero) a b m = benchmark_round a b m
benchmark_body (suc (suc rpt)) a b m = elim (benchmark_round a b m) [
  | none ↦ none
  | some errors ↦ benchmark_body (suc rpt) a b m
]

unfoldable pub verify_benchmark : ℕ → Bool
verify_benchmark r = r == 0
