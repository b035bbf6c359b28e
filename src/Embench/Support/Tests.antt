-- ===== src/Embench/Support/Tests.antt =====
-- Concrete cases of the allocator: three calls on a heap of 16 bytes, the second too big.
use len5_core.Common.{◌≡◌, refl, some, List, [], ◌∷◌, arith}
use len5_core.Device.Memory.{Memory}
use len5_core.Embench.Support.{Call, malloc, calloc, realloc, free, init_heap_beebs, rand_beebs}
use len5_core.Embench.Support.Alloc.{Packed, blocks, blocks-Packed}

abbrev calls : List Call
calls = malloc 8 ∷ realloc (some 100) 20 ∷ free 100 ∷ calloc 2 4 ∷ []

abbrev blank : Memory
blank x = 7

first_random : (rand_beebs 0).1 ≡ 12345
unfolding rand_beebs
first_random = refl

blocks-Packed_example : Packed 100 116 (blocks calls (init_heap_beebs 100 16) blank)
unfolding init_heap_beebs
blocks-Packed_example =
    blocks-Packed calls (init_heap_beebs 100 16) blank (omega arith) (omega arith)
