-- ===== src/Embench/Crc32/Update.antt =====
-- The table of crc_32.c against a shift register with the feedback 0xEDB88320.
use Prim.Native.Nat.{bit_xor}
use len5_core.Common.{
  ℕ, zero, suc, ◌+◌, ◌-◌, ◌*◌, ◌/◌, ◌%◌, ◌^◌, ◌<◌, ◌≡◌, refl, sym, ap, ◌∙◌, List, [], ◌∷◌, arith,
  get_or,
}
use len5_core.Common.Bits.{bit_and_mask, bit_xor_comm, bit_xor-lt, bit_xor_fields, bit_xor_assoc}
use len5_core.Common.Lfsr.{lfsr, lfsr_times, lfsr_times-xor, lfsr_times-shift}
use len5_core.Embench.Crc32.{updc32, pseudo_loop, crc32pseudo}
use len5_core.Embench.Support.{rand_beebs}
use len5_core.Embench.Crc32.Table.{crc_32_tab}

-- Eight shifts of the numbers from `i` on.
shifts_from : (left i : ℕ) → List ℕ
shifts_from zero i = []
shifts_from (suc left) i = lfsr_times 0xedb88320 8 i ∷ shifts_from left (i + 1)

crc_32_tab-shifts_from : crc_32_tab ≡ shifts_from 256 0
unfolding crc_32_tab shifts_from lfsr lfsr_times
crc_32_tab-shifts_from = refl

get_or-shifts_from :
    (left i j : ℕ) → j < left → get_or (shifts_from left i) j 0 ≡ lfsr_times 0xedb88320 8 (i + j)
unfolding shifts_from
get_or-shifts_from zero i j h = absurd (omega arith)
get_or-shifts_from (suc left) i zero h = let e : i + 0 ≡ i = omega arith in rw e refl
get_or-shifts_from (suc left) i (suc j) h =
    let e : i + suc j ≡ i + 1 + j = omega arith in
    rw e (get_or-shifts_from left (i + 1) j (omega arith))

-- Each entry of the table is the result of eight shifts of its index.
pub get_or-crc_32_tab : (j : ℕ) → j < 256 → get_or crc_32_tab j 0 ≡ lfsr_times 0xedb88320 8 j
get_or-crc_32_tab j h =
    let e : 0 + j ≡ j = omega arith in
    ap (λ t. get_or t j 0) crc_32_tab-shifts_from
    ∙ get_or-shifts_from 256 0 j h
    ∙ ap (lfsr_times 0xedb88320 8) e

-- A number is the exclusive or of its low byte and the rest.
byte_split : (a : ℕ) → bit_xor (a / 2 ^ 8 * 2 ^ 8) (a % 2 ^ 8) ≡ a
byte_split a =
    let low : a % 2 ^ 8 < 2 ^ 8 = omega arith in
    bit_xor_fields 8 (a / 2 ^ 8) (a % 2 ^ 8) low ∙ omega arith

xor_byte_div : (a b : ℕ) → b < 2 ^ 8 → bit_xor a b / 2 ^ 8 ≡ a / 2 ^ 8
xor_byte_div a b h =
    let low = bit_xor (a % 2 ^ 8) b in
    let low_lt : low < 2 ^ 8 = bit_xor-lt 8 (a % 2 ^ 8) b (omega arith) h in
    let whole : bit_xor a b ≡ a / 2 ^ 8 * 2 ^ 8 + low =
      ap (λ t. bit_xor t b) (sym (byte_split a))
      ∙ bit_xor_assoc (a / 2 ^ 8 * 2 ^ 8) (a % 2 ^ 8) b
      ∙ bit_xor_fields 8 (a / 2 ^ 8) low low_lt in
    omega (arith, whole, low_lt)

lfsr_times-lt : (n x : ℕ) → x < 2 ^ 32 → lfsr_times 0xedb88320 n x < 2 ^ 32
unfolding lfsr_times lfsr
lfsr_times-lt zero x h = h
lfsr_times-lt (suc n) x h =
    let step : lfsr 0xedb88320 x < 2 ^ 32 = ground (arith, bit_xor-lt 32 (x / 2) 0xedb88320) in
    lfsr_times-lt n (lfsr 0xedb88320 x) step

-- Eight shifts by the table.
eight_shifts :
    (x : ℕ) → lfsr_times 0xedb88320 8 x ≡ bit_xor (get_or crc_32_tab (x % 2 ^ 8) 0) (x / 2 ^ 8)
eight_shifts x =
    ap (lfsr_times 0xedb88320 8) (sym (byte_split x))
    ∙ lfsr_times-xor 0xedb88320 8 (x / 2 ^ 8 * 2 ^ 8) (x % 2 ^ 8)
    ∙ ap (λ t. bit_xor t (lfsr_times 0xedb88320 8 (x % 2 ^ 8)))
        (lfsr_times-shift 0xedb88320 8 (x / 2 ^ 8))
    ∙ ap (bit_xor (x / 2 ^ 8)) (sym (get_or-crc_32_tab (x % 2 ^ 8) (omega arith)))
    ∙ bit_xor_comm (x / 2 ^ 8) (get_or crc_32_tab (x % 2 ^ 8) 0)

-- For a 32-bit register, UPDC32 shifts the exclusive or of the register and the octet eight times
-- with the feedback 0xEDB88320, and the result has 32 bits.
pub updc32-lfsr :
    (octet crc : ℕ)
    → crc < 2 ^ 32
    → (updc32 octet crc ≡ lfsr_times 0xedb88320 8 (bit_xor crc (octet % 2 ^ 8)))
      × (updc32 octet crc < 2 ^ 32)
unfolding updc32
updc32-lfsr octet crc h =
    let x = bit_xor crc (octet % 2 ^ 8) in
    let byte : octet % 2 ^ 8 < 2 ^ 8 = omega arith in
    let x_lt : x < 2 ^ 32 = bit_xor-lt 32 crc (octet % 2 ^ 8) h (omega arith) in
    let same : updc32 octet crc ≡ lfsr_times 0xedb88320 8 x =
      ap (λ t. bit_xor (get_or crc_32_tab t 0) (crc / 2 ^ 8)) (bit_and_mask 8 x)
      ∙ ap (bit_xor (get_or crc_32_tab (x % 2 ^ 8) 0)) (sym (xor_byte_div crc (octet % 2 ^ 8) byte))
      ∙ sym (eight_shifts x) in
    (same, omega (arith, same, lfsr_times-lt 8 x x_lt))

-- The bytes that `crc32pseudo` takes from the random numbers.
pub random_bytes : (count seed : ℕ) → List ℕ
random_bytes zero seed = []
random_bytes (suc count) seed = (rand_beebs seed).0 % 2 ^ 8 ∷ random_bytes count (rand_beebs seed).1

-- The shift register over a list of bytes, the low bit of each byte first.
pub register : List ℕ → ℕ → ℕ
register [] x = x
register (b ∷ bs) x = register bs (lfsr_times 0xedb88320 8 (bit_xor x b))

pseudo_loop-register :
    (left x seed : ℕ)
    → x < 2 ^ 32
    → ((pseudo_loop left x seed).0 ≡ register (random_bytes left seed) x)
      × ((pseudo_loop left x seed).0 < 2 ^ 32)
unfolding pseudo_loop random_bytes register
pseudo_loop-register zero x seed h = (refl, h)
pseudo_loop-register (suc left) x seed h =
    let (same, below) = updc32-lfsr (rand_beebs seed).0 x h in
    let (runs, small) =
      pseudo_loop-register left (updc32 (rand_beebs seed).0 x) (rand_beebs seed).1 below in
    (runs ∙ ap (register (random_bytes left (rand_beebs seed).1)) same, small)

-- For every seed, the low 32 bits of the result of crc32pseudo are the complement of the shift
-- register with the feedback 0xEDB88320, started with ones, after the low bytes of the next 1024
-- random numbers.
pub crc32pseudo-register :
    (seed : ℕ)
    → (crc32pseudo seed).0 % 2 ^ 32 ≡ 2 ^ 32 - 1 - register (random_bytes 1024 seed) 0xffffffff
unfolding crc32pseudo
crc32pseudo-register seed =
    let (runs, small) = pseudo_loop-register 1024 0xffffffff seed (omega arith) in
    omega (arith, runs, small)
