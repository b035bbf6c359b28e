-- ===== src/Embench/Support/Alloc.antt =====
-- The allocator of beebsc.c over a sequence of calls.
pub mod Check
use len5_core.Common.{
  ℕ, zero, suc, ◌+◌, ◌-◌, ◌*◌, ◌/◌, ◌%◌, ◌^◌, ◌≤◌, ◌<◌, ◌≡◌, refl, sym, ap, ◌∙◌, ◌≢◌, ◌↔◌, ◌⊎◌, inl,
  inr, Bool, true, false, not, ◌&&◌, ◌||◌, Option, none, some, List, [], ◌∷◌, ◌++◌, map, arith,
  dec_lt, ℕ_discrete, ltb, leb, ◌==◌, if◌then◌else◌, ◌>>=◌, Bool-cases, Option-cases, some_inj,
  length, get_or, set, take, drop, replicate, All,
}
use len5_core.Device.Memory.{Memory}
use mathlib.Core.Path.{subst}
use len5_core.Embench.Support.{
  BeebsHeap, Call, malloc, calloc, realloc, free, call, malloc_beebs, calloc_beebs, realloc_beebs,
  init_heap_beebs, check_heap_beebs,
}

-- The bytes that a call requests.
abbrev pub requested : Call → ℕ
requested (malloc size) = size
requested (calloc nmemb size) = nmemb * size % 2 ^ 64
requested (realloc ptr size) = size
requested (free ptr) = 0

-- What a call answers: it counts the request; it returns the next `requested` bytes of the heap if
-- they are there and not none, and else no block.
pub record Answer (c : Call) (h : BeebsHeap) (r : Option ℕ) (h' : BeebsHeap) : Type 0 where
  pub end_kept : h'.heap_end ≡ h.heap_end
  pub counted : h'.heap_requested ≡ (h.heap_requested + requested c) % 2 ^ 64
  pub result :
      ((h.heap_end < h.heap_ptr + requested c) ⊎ (requested c ≡ 0))
        × (r ≡ none)
        × (h'.heap_ptr ≡ h.heap_ptr)
      ⊎ ((h.heap_ptr + requested c ≤ h.heap_end)
          × (0 < requested c)
          × (r ≡ some h.heap_ptr)
          × (h'.heap_ptr ≡ h.heap_ptr + requested c))

pub call-Answer :
    (c : Call) (h : BeebsHeap) (m : Memory)
    → h.heap_requested < 2 ^ 64
    → Answer c h (call c h m).0 (call c h m).1
unfolding call malloc_beebs calloc_beebs realloc_beebs
call-Answer (malloc size) h m small =
    elim (Bool-cases (ltb h.heap_end (h.heap_ptr + size) || (0 == size))) [
      | inl refused ↦ rw refused (record {
        end_kept = refl;
        counted = refl;
        result = inl (ground (arith, refused), refl, refl);
      })
      | inr granted ↦ rw granted (record {
        end_kept = refl;
        counted = refl;
        result = inr (ground (arith, granted), ground (arith, granted), refl, refl);
      })
    ]
call-Answer (calloc nmemb size) h m small =
    elim (Bool-cases
      (ltb h.heap_end (h.heap_ptr + nmemb * size % 2 ^ 64) || (0 == nmemb * size % 2 ^ 64))) [
        | inl refused ↦ rw refused (record {
          end_kept = refl;
          counted = refl;
          result = inl (ground (arith, refused), refl, refl);
        })
        | inr granted ↦ rw granted (record {
          end_kept = refl;
          counted = refl;
          result = inr (ground (arith, granted), ground (arith, granted), refl, refl);
        })
      ]
call-Answer (realloc ptr size) h m small =
    elim (Bool-cases (ltb h.heap_end (h.heap_ptr + size) || (0 == size))) [
      | inl refused ↦ rw refused (record {
        end_kept = refl;
        counted = refl;
        result = inl (ground (arith, refused), refl, refl);
      })
      | inr granted ↦ rw granted (record {
        end_kept = refl;
        counted = refl;
        result = inr (ground (arith, granted), ground (arith, granted), refl, refl);
      })
    ]
call-Answer (free ptr) h m small = record {
  end_kept = refl;
  counted = omega (arith, small);
  result = inl (inr refl, refl, refl);
}

-- A pointer that is not NULL gives a block.
abbrev pub with_block : Option ℕ → (size : ℕ) → List (ℕ × ℕ) → List (ℕ × ℕ)
with_block none size bs = bs
with_block (some p) size bs = (p, size) ∷ bs

-- The blocks that a sequence of calls returned, in order, as their addresses and sizes.
pub blocks : List Call → BeebsHeap → Memory → List (ℕ × ℕ)
blocks [] h m = []
blocks (c ∷ cs) h m =
    let later = blocks cs (call c h m).1 (call c h m).2 in
    with_block (call c h m).0 (requested c) later

pub heap_after : List Call → BeebsHeap → Memory → BeebsHeap
heap_after [] h m = h
heap_after (c ∷ cs) h m = heap_after cs (call c h m).1 (call c h m).2

unfoldable pub total : List Call → ℕ
total [] = 0
total (c ∷ cs) = requested c + total cs

-- Blocks that are not empty, one behind the other, between two addresses.
abbrev pub Packed : (low high : ℕ) → List (ℕ × ℕ) → Type 0
Packed low high [] = low ≤ high
Packed low high ((p, size) ∷ bs) = (low ≤ p) × (0 < size) × Packed (p + size) high bs

-- For any heap with fewer than 2^64 bytes requested so far and its pointer not behind its end, the
-- blocks that any sequence of calls of malloc, calloc, realloc and free returns are not empty, lie
-- in the heap behind its pointer, and no two overlap.
pub blocks-Packed :
    (cs : List Call) (h : BeebsHeap) (m : Memory)
    → h.heap_requested < 2 ^ 64
    → h.heap_ptr ≤ h.heap_end
    → Packed h.heap_ptr h.heap_end (blocks cs h m)
unfolding blocks
blocks-Packed [] h m small room = room
blocks-Packed (c ∷ cs) h m small room =
    let a = call-Answer c h m small in
    let h' = (call c h m).1 in
    let small' : h'.heap_requested < 2 ^ 64 = omega (arith, a.counted) in
    let later = blocks cs h' (call c h m).2 in
    let room' : h'.heap_ptr ≤ h'.heap_end = elim a.result [
      | inl (why, nothing, kept) ↦ omega (arith, kept, a.end_kept, room)
      | inr (fits, positive, something, moved) ↦ omega (arith, moved, a.end_kept, fits)
    ] in
    let rest = blocks-Packed cs h' (call c h m).2 small' room' in
    elim a.result [
      | inl (why, nothing, kept) ↦
          subst (λ r. Packed h.heap_ptr h.heap_end (with_block r (requested c) later)) (sym nothing)
            (subst (λ p. Packed p h.heap_end later) kept
              (subst (λ e. Packed h'.heap_ptr e later) a.end_kept rest))
      | inr (fits, positive, something, moved) ↦
          subst (λ r. Packed h.heap_ptr h.heap_end (with_block r (requested c) later))
            (sym something)
            (
              omega arith,
              positive,
              subst (λ p. Packed p h.heap_end later) moved
                  (subst (λ e. Packed h'.heap_ptr e later) a.end_kept rest),
            )
    ]
