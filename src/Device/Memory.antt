-- ===== src/Device/Memory.antt =====
-- The memory routines of sw/device/base/memory.c and the word access of memory.h.
-- A memory gives the byte at each address; the loops run over the rounds that are left.
pub mod Copy
pub mod Compare
pub mod Search
pub mod Words
mod Tests
use len5_core.Common.{
  ℕ, zero, suc, ◌+◌, ◌-◌, ◌*◌, ◌/◌, ◌%◌, ◌^◌, Bool, Option, none, some, ltb, ◌==◌, if◌then◌else◌,
  leb, ◌||◌,
}

abbrev pub Memory : Type 0
Memory = ℕ → ℕ

-- `*a = (uint8_t) v`.
unfoldable pub store8 : Memory → ℕ → ℕ → Memory
store8 m a v x = if x == a then v % 2 ^ 8 else m x

pub copy_loop : ℕ → ℕ → (dest src : ℕ) → Memory → Memory
copy_loop zero i dest src m = m
copy_loop (suc left) i dest src m =
    copy_loop left (i + 1) dest src (store8 m (dest + i) (m (src + i)))

-- `memcpy` returns `dest`; the memory that it leaves stands first. Its pointers are `restrict`: the
-- behaviour is undefined, `none`, when one of the two areas reaches into the other.
unfoldable pub memcpy : (dest src len : ℕ) → Memory → Option (Memory × ℕ)
unfolding copy_loop store8
memcpy dest src len m =
    if leb (dest + len) src || leb (src + len) dest
    then some (copy_loop len 0 dest src m, dest)
    else none

pub set_loop : ℕ → ℕ → (dest value8 : ℕ) → Memory → Memory
set_loop zero i dest value8 m = m
set_loop (suc left) i dest value8 m = set_loop left (i + 1) dest value8 (store8 m (dest + i) value8)

-- `value` is the bit pattern of the `int` argument.
unfoldable pub memset : (dest value len : ℕ) → Memory → Memory × ℕ
unfolding set_loop store8
memset dest value len m = (set_loop len 0 dest (value % 2 ^ 8) m, dest)

-- The three results of `memcmp`: kMemCmpEq, kMemCmpLt and kMemCmpGt.
pub data MemCmp : Type 0 where
  eq lt gt : MemCmp

pub compare_loop : ℕ → ℕ → (lhs rhs : ℕ) → Memory → MemCmp
compare_loop zero i lhs rhs m = eq
compare_loop (suc left) i lhs rhs m =
    let rest = compare_loop left (i + 1) lhs rhs m in
    if ltb (m (lhs + i)) (m (rhs + i))
    then lt
    else if ltb (m (rhs + i)) (m (lhs + i))
    then gt
    else rest

unfoldable pub memcmp : (lhs rhs len : ℕ) → Memory → MemCmp
unfolding compare_loop
memcmp lhs rhs len m = compare_loop len 0 lhs rhs m

pub find_loop : ℕ → ℕ → (ptr value8 : ℕ) → Memory → Option ℕ
find_loop zero i ptr value8 m = none
find_loop (suc left) i ptr value8 m =
    let rest = find_loop left (i + 1) ptr value8 m in
    if m (ptr + i) == value8 then some (ptr + i) else rest

-- `none` is the NULL result.
unfoldable pub memchr : (ptr value len : ℕ) → Memory → Option ℕ
unfolding find_loop
memchr ptr value len m = find_loop len 0 ptr (value % 2 ^ 8) m

pub rfind_loop : ℕ → ℕ → (len ptr value8 : ℕ) → Memory → Option ℕ
rfind_loop zero i len ptr value8 m = none
rfind_loop (suc left) i len ptr value8 m =
    let rest = rfind_loop left (i + 1) len ptr value8 m in
    if m (ptr + (len - i - 1)) == value8 then some (ptr + (len - i - 1)) else rest

unfoldable pub memrchr : (ptr value len : ℕ) → Memory → Option ℕ
unfolding rfind_loop
memrchr ptr value len m = rfind_loop len 0 len ptr (value % 2 ^ 8) m

-- The target is little-endian: the copy of four bytes into a `uint32_t`, and back. The behaviour is
-- undefined, `none`, at an address that is not aligned to a word.
unfoldable pub read_32 : ℕ → Memory → Option ℕ
read_32 ptr m =
    if ptr % 4 == 0
    then some (m ptr + m (ptr + 1) * 2 ^ 8 + m (ptr + 2) * 2 ^ 16 + m (ptr + 3) * 2 ^ 24)
    else none

unfoldable pub write_32 : (value ptr : ℕ) → Memory → Option Memory
unfolding store8
write_32 value ptr m =
    if ptr % 4 == 0
    then some (
        store8
          (store8 (store8 (store8 m ptr value) (ptr + 1) (value / 2 ^ 8)) (ptr + 2)
            (value / 2 ^ 16))
          (ptr + 3) (value / 2 ^ 24))
    else none
