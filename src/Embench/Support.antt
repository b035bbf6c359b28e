-- ===== src/Embench/Support.antt =====
-- The library routines of sw/benchmarks/embench/support/beebsc.c.
-- A pointer is an address, `none` the NULL pointer, and objects do not wrap around the end of the
-- address space; a `size_t` has 64 bits.
pub mod Alloc
mod Tests
use len5_core.Common.{
  ℕ, zero, suc, ◌+◌, ◌-◌, ◌*◌, ◌/◌, ◌%◌, ◌^◌, ◌≤◌, ◌<◌, ◌≡◌, refl, sym, ap, ◌∙◌, ◌≢◌, ◌↔◌, ◌⊎◌, inl,
  inr, Bool, true, false, not, ◌&&◌, ◌||◌, Option, none, some, List, [], ◌∷◌, ◌++◌, map, arith,
  dec_lt, ℕ_discrete, ltb, leb, ◌==◌, if◌then◌else◌, ◌>>=◌, Bool-cases, Option-cases, some_inj,
  length, get_or, set, take, drop, replicate, All,
}
use len5_core.Device.Memory.{Memory, store8, memset}

-- `rand_beebs`: the number and the new seed.
unfoldable pub rand_beebs : (seed : ℕ) → ℕ × ℕ
rand_beebs seed = let seed = (seed * 1103515245 + 12345) % 2 ^ 31 in (seed / 2 ^ 16, seed)

-- `srand_beebs`: the new seed.
unfoldable pub srand_beebs : (new_seed : ℕ) → ℕ
srand_beebs new_seed = new_seed % 2 ^ 32

pub record BeebsHeap : Type 0 where
  pub heap_ptr : ℕ
  pub heap_end : ℕ
  pub heap_requested : ℕ

unfoldable pub init_heap_beebs : (heap heap_size : ℕ) → BeebsHeap
init_heap_beebs heap heap_size = record {
  heap_ptr = heap;
  heap_end = heap + heap_size;
  heap_requested = 0;
}

unfoldable pub check_heap_beebs : (heap : ℕ) → BeebsHeap → Bool
check_heap_beebs heap h = leb (heap + h.heap_requested) h.heap_end

unfoldable pub malloc_beebs : (size : ℕ) → BeebsHeap → Option ℕ × BeebsHeap
malloc_beebs size h =
    let requested = record h { heap_requested = (h.heap_requested + size) % 2 ^ 64 } in
    if ltb h.heap_end (h.heap_ptr + size) || (0 == size)
    then (none, requested)
    else (some h.heap_ptr, record requested { heap_ptr = h.heap_ptr + size })

-- `calloc_beebs` with its `memset` of the new block.
unfoldable pub calloc_beebs : (nmemb size : ℕ) → BeebsHeap → Memory → Option ℕ × BeebsHeap × Memory
calloc_beebs nmemb size h m =
    let bytes = nmemb * size % 2 ^ 64 in
    let got = malloc_beebs bytes h in
    (got.0, got.1, elim got.0 [ none ↦ m | some p ↦ (memset p 0 bytes m).0 ])

-- The copy loop of `realloc_beebs`, for `left` more rounds.
pub realloc_loop : (left i new_ptr ptr : ℕ) → Memory → Memory
realloc_loop zero i new_ptr ptr m = m
realloc_loop (suc left) i new_ptr ptr m =
    realloc_loop left (i + 1) new_ptr ptr (store8 m (new_ptr + i) (m (ptr + i)))

unfoldable pub realloc_beebs :
    (ptr : Option ℕ) (size : ℕ) → BeebsHeap → Memory → Option ℕ × BeebsHeap × Memory
realloc_beebs ptr size h m =
    let requested = record h { heap_requested = (h.heap_requested + size) % 2 ^ 64 } in
    let moved : Memory = elim ptr [ none ↦ m | some p ↦ realloc_loop size 0 h.heap_ptr p m ] in
    if ltb h.heap_end (h.heap_ptr + size) || (0 == size)
    then (none, requested, m)
    else (some h.heap_ptr, record requested { heap_ptr = h.heap_ptr + size }, moved)

-- A call of the allocator; `free_beebs` does nothing.
pub data Call : Type 0 where
  malloc : (size : ℕ) → Call
  calloc : (nmemb size : ℕ) → Call
  realloc : (ptr : Option ℕ) → (size : ℕ) → Call
  free : (ptr : ℕ) → Call

-- The pointer that a call returns, the heap and the memory.
unfoldable pub call : Call → BeebsHeap → Memory → Option ℕ × BeebsHeap × Memory
call (malloc size) h m = ((malloc_beebs size h).0, (malloc_beebs size h).1, m)
call (calloc nmemb size) h m = calloc_beebs nmemb size h m
call (realloc ptr size) h m = realloc_beebs ptr size h m
call (free ptr) h m = (none, h, m)
