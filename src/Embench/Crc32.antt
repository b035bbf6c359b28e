-- ===== src/Embench/Crc32.antt =====
-- The CRC program sw/benchmarks/embench/src/crc32/crc_32.c.
-- A `DWORD` has 64 bits; the register only ever uses 32 of them.
pub mod Table
pub mod Update
pub mod Body
mod Tests
use Prim.Native.Nat.{bit_and, bit_xor}
use len5_core.Common.{
  ℕ, zero, suc, ◌+◌, ◌-◌, ◌*◌, ◌/◌, ◌%◌, ◌^◌, ◌≤◌, ◌<◌, ◌≡◌, refl, sym, ap, ◌∙◌, ◌≢◌, ◌↔◌, ◌⊎◌, inl,
  inr, Bool, true, false, not, ◌&&◌, ◌||◌, Option, none, some, List, [], ◌∷◌, ◌++◌, map, arith,
  dec_lt, ℕ_discrete, ltb, leb, ◌==◌, if◌then◌else◌, ◌>>=◌, Bool-cases, Option-cases, some_inj,
  length, get_or, set, take, drop, replicate, All,
}
use len5_core.Embench.Support.{rand_beebs, srand_beebs}
use len5_core.Embench.Crc32.Table.{crc_32_tab}

-- The macro `UPDC32`.
unfoldable pub updc32 : (octet crc : ℕ) → ℕ
updc32 octet crc =
    bit_xor (get_or crc_32_tab (bit_and (bit_xor crc (octet % 2 ^ 8)) 0xff) 0) (crc / 2 ^ 8)

-- The loop of `crc32pseudo`, for `left` more rounds: the register and the seed.
pub pseudo_loop : (left oldcrc32 seed : ℕ) → ℕ × ℕ
pseudo_loop zero oldcrc32 seed = (oldcrc32, seed)
pseudo_loop (suc left) oldcrc32 seed =
    pseudo_loop left (updc32 (rand_beebs seed).0 oldcrc32) (rand_beebs seed).1

-- `~` of a 64-bit number takes it from the largest one.
unfoldable pub crc32pseudo : (seed : ℕ) → ℕ × ℕ
crc32pseudo seed = let r = pseudo_loop 1024 0xffffffff seed in (2 ^ 64 - 1 - r.0, r.1)

-- The body of the loop of `benchmark_body`, which sets `r` anew from a fresh seed in each round;
-- with no round `r` is never set, and there is no result.
pub benchmark_body : (rpt : ℕ) → Option ℕ
benchmark_body zero = none
benchmark_body (suc zero) = some ((crc32pseudo (srand_beebs 0)).0 % 32768)
benchmark_body (suc (suc rpt)) = benchmark_body (suc rpt)

unfoldable pub verify_benchmark : (r : ℕ) → Bool
verify_benchmark r = 11433 == r
