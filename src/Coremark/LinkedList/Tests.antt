-- ===== src/Coremark/LinkedList/Tests.antt =====
-- Runs and concrete cases of the linked list: three cells at the addresses 1, 3 and 2.
use len5_core.Common.{ltb, Option, none, some, refl, arith, ◌≡◌, ◌==◌, [], ◌∷◌, if◌then◌else◌, ℕ}
use len5_core.Coremark.LinkedList.{
  core_list_insert_new, put, load_item, store, core_list_undo_remove, load, find_value,
  reverse_loop, find_idx, core_list_remove, core_list_reverse, core_list_find, Item, Heap, Blocks,
}
use len5_core.Coremark.LinkedList.Chain.{Items, Chain, Distinct, Cells}
use len5_core.Coremark.LinkedList.Find.{first_match, matches, core_list_find-first_match}
use len5_core.Coremark.LinkedList.Reverse.{
  Turned, core_list_reverse-Turned, core_list_reverse_twice,
}
use len5_core.Coremark.LinkedList.Edit.{
  Removed, Inserted, core_list_remove-Removed, core_list_undo_remove_lem,
  core_list_insert_new-Inserted,
}

abbrev cells : Cells
cells = (1, 10) ∷ (3, 11) ∷ (2, 12) ∷ []

abbrev content : ℕ → Item
content i =
    if i == 10
    then (record { data16 = 0x1234; idx = 0 })
    else if i == 11
    then (record { data16 = 0x5678; idx = 5 })
    else (record { data16 = 0x9abc; idx = 7 })

abbrev start : Heap
start = record {
  cell = λ p.
      if p == 1
      then some (record { next = 3; info = 10 })
      else if p == 3
      then some (record { next = 2; info = 11 })
      else if p == 2
      then some (record { next = 0; info = 12 })
      else none;
  item = λ p. if ltb p 10 then none else if ltb p 13 then some (content p) else none;
}

abbrev blocks : Blocks
blocks = record { memblock = 4; datablock = 13; memblock_end = 8; datablock_end = 20 }

abbrev linked : Chain start.cell cells
linked = (
  (λ e. absurd (omega (arith, e))),
  refl,
  ((λ e. absurd (omega (arith, e))), refl, ((λ e. absurd (omega (arith, e))), refl, tt)),
)

abbrev distinct : Distinct cells
distinct = (
  ((λ e. absurd (omega (arith, e))), ((λ e. absurd (omega (arith, e))), tt)),
  (((λ e. absurd (omega (arith, e))), tt), (tt, tt)),
)

abbrev items : Items start.item content cells
items = (
  (λ e. absurd (omega (arith, e))),
  refl,
  ((λ e. absurd (omega (arith, e))), refl, ((λ e. absurd (omega (arith, e))), refl, tt)),
)

find_by_idx : core_list_find 4 1 (record { data16 = 0; idx = 7 }) start ≡ some 2
unfolding core_list_find find_idx load load_item
find_by_idx = refl

find_by_value : core_list_find 4 1 (record { data16 = 0x78; idx = 0xffff }) start ≡ some 3
unfolding core_list_find find_value load load_item
find_by_value = refl

abbrev head_of : Option (ℕ × Heap) → ℕ
head_of none = 99
head_of (some (p, h)) = p

reversed : head_of (core_list_reverse 4 1 start) ≡ 2
unfolding core_list_reverse reverse_loop load store put
reversed = refl

core_list_find-first_match_example :
    core_list_find 4 1 (record { data16 = 0x78; idx = 0xffff }) start
    ≡ some (first_match (matches (record { data16 = 0x78; idx = 0xffff })) content cells)
core_list_find-first_match_example =
    core_list_find-first_match start content 4 (record { data16 = 0x78; idx = 0xffff }) cells
      (omega arith) linked items

core_list_reverse-Turned_example : Turned start cells [] (core_list_reverse 4 1 start)
core_list_reverse-Turned_example =
    core_list_reverse-Turned 4 start cells (omega arith) linked distinct

core_list_reverse_twice_example :
    (p : ℕ) × (g : Heap) × (g' : Heap) × (core_list_reverse 4 1 start ≡ some (p, g))
    × (core_list_reverse 4 p g ≡ some (1, g'))
    × ((b : ℕ) → g'.cell b ≡ start.cell b)
    × (g'.item ≡ start.item)
core_list_reverse_twice_example =
    core_list_reverse_twice 4 start cells (omega arith) linked distinct

core_list_remove-Removed_example : Removed start 1 10 3 11 ((2, 12) ∷ []) (core_list_remove 1 start)
core_list_remove-Removed_example =
    core_list_remove-Removed start 1 10 3 11 ((2, 12) ∷ []) linked distinct

core_list_undo_remove_lem_example :
    (g g' : Heap) × (core_list_remove 1 start ≡ some (3, g))
    × (core_list_undo_remove 3 1 g ≡ some (3, g'))
    × ((c : ℕ) → g'.cell c ≡ start.cell c)
    × (g'.item ≡ start.item)
core_list_undo_remove_lem_example =
    core_list_undo_remove_lem start 1 10 3 11 ((2, 12) ∷ []) linked distinct

core_list_insert_new-Inserted_example :
    Inserted start 1 10
      ((3, 11) ∷ (2, 12) ∷ [])
      (content 10)
      blocks
      (core_list_insert_new 1 (content 10) blocks start)
core_list_insert_new-Inserted_example =
    core_list_insert_new-Inserted start 1 10 ((3, 11) ∷ (2, 12) ∷ []) (content 10) blocks
      (omega arith) (omega arith) (λ e. absurd (omega (arith, e))) linked distinct
      (
        (λ e. absurd (omega (arith, e))),
        ((λ e. absurd (omega (arith, e))), ((λ e. absurd (omega (arith, e))), tt)),
      )
