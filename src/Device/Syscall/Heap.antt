-- ===== src/Device/Syscall/Heap.antt =====
-- `_sbrk` of sw/device/runtime/syscall.c: where the break goes, and what that does to the blocks.
use len5_core.Common.{ℕ, ◌+◌, ◌*◌, ◌^◌, ◌<◌, ◌≤◌, ◌≡◌, ◌≢◌, arith}
use len5_core.Common.Int.{ℤ, pos}
use len5_core.Device.Syscall.{Layout, Machine, sbrk, brk}

module _ (l : Layout) (m : Machine) (has_heap : l.heap_bottom ≢ l.heap_top) where
  -- While the requested end stays below the top of the heap, `_sbrk` returns the old break and
  -- moves the break by twice the increment, since the test adds it and the branch adds it again.
  pub sbrk_fits :
      (n : ℕ)
      → m.brk + n < l.heap_top
      → m.brk + 2 * n < 2 ^ 64
      → sbrk l (pos n) m ≡ (record m { brk = m.brk + 2 * n }, m.brk)
  unfolding sbrk
  sbrk_fits n h k = ground arith

  -- A request for more than half of what is left, and less than all of it, puts the break above
  -- the top of the heap.
  pub sbrk_overrun :
      (n : ℕ)
      → m.brk + n < l.heap_top
      → l.heap_top < m.brk + 2 * n
      → m.brk + 2 * n < 2 ^ 64
      → l.heap_top < (sbrk l (pos n) m).0.brk
  unfolding sbrk
  sbrk_overrun n h o k = ground arith

  -- With a heap every request returns the break as it was.
  pub sbrk_returns : (incr : ℤ) → (sbrk l incr m).1 ≡ m.brk
  unfolding sbrk
  sbrk_returns incr = ground arith

-- After a growing request that fits, the next request of any size returns a block behind the
-- first one: the two do not overlap, and a gap of the first block's size is lost between them.
pub sbrk_twice :
    (l : Layout) (m : Machine)
    → l.heap_bottom ≢ l.heap_top
    → (n : ℕ) (incr : ℤ) → m.brk + n < l.heap_top
    → m.brk + 2 * n < 2 ^ 64
    → (sbrk l incr (sbrk l (pos n) m).0).1 ≡ (sbrk l (pos n) m).1 + n + n
sbrk_twice l m has_heap n incr h b =
    rw (sbrk_fits l m has_heap n h b)
      (omega (arith, sbrk_returns l (record m { brk = m.brk + 2 * n }) has_heap incr))

-- `_brk` sets the break, and a following `_sbrk(0)` reports it; below the top it stays there.
pub brk_sbrk :
    (l : Layout) (m : Machine) (addr : ℕ)
    → l.heap_bottom ≢ l.heap_top
    → addr < l.heap_top
    → l.heap_top ≤ 2 ^ 64
    → sbrk l (pos 0) (brk addr m).0 ≡ ((brk addr m).0, addr)
unfolding sbrk brk
brk_sbrk l m addr has_heap h k = ground arith
