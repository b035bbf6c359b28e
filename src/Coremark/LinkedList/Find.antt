-- ===== src/Coremark/LinkedList/Find.antt =====
-- `core_list_find` returns the first cell that matches.
use Prim.Native.Nat.{bit_and}
use len5_core.Common.{
  false, true, ℕ, zero, suc, ◌^◌, ◌<◌, ◌≡◌, Bool, [], ◌∷◌, some, refl, arith, ltb, ◌==◌,
  if◌then◌else◌, length, Bool-cases, inl, inr,
}
use len5_core.Coremark.LinkedList.{Item, Heap, null, find_idx, find_value, core_list_find}
use len5_core.Coremark.LinkedList.Chain.{
  Cells, first, Chain, Items, load_lem, load_item_lem, not_null,
}

-- The test that the code makes for the item to find.
abbrev pub matches : Item → Item → Bool
matches info =
    if ltb info.idx (2 ^ 15)
    then (λ v. v.idx == info.idx)
    else (λ v. bit_and v.data16 0xff == info.data16)

-- The address of the first cell whose item passes a test, or NULL.
pub first_match : (Item → Bool) → (content : ℕ → Item) → Cells → ℕ
first_match test content [] = null
first_match test content ((a, i) ∷ xs) = if test (content i) then a else first_match test content xs

if-some : (b : Bool) (x y : ℕ) → (if b then some x else some y) ≡ some (if b then x else y)
if-some true x y = refl
if-some false x y = refl

module _ (h : Heap) (content : ℕ → Item) where
  find_idx_lem :
      (fuel idx : ℕ) (xs : Cells)
      → length xs < fuel
      → Chain h.cell xs
      → Items h.item content xs
      → find_idx fuel (first xs) idx h ≡ some (first_match (λ v. v.idx == idx) content xs)
  unfolding find_idx first_match
  find_idx_lem zero idx xs enough s has = absurd (omega arith)
  find_idx_lem (suc fuel) idx [] enough s has = refl
  find_idx_lem (suc fuel) idx ((a, i) ∷ xs) enough (pos, holds, s) (pos', holds', has) =
      rw (not_null a pos, load_lem h a _ pos holds, load_item_lem h i (content i) pos' holds')
        (rw (find_idx_lem fuel idx xs (omega arith) s has)
          (if-some ((content i).idx == idx) a (first_match (λ v. v.idx == idx) content xs)))

  find_value_lem :
      (fuel wanted : ℕ) (xs : Cells)
      → length xs < fuel
      → Chain h.cell xs
      → Items h.item content xs
      → find_value fuel (first xs) wanted h
        ≡ some (first_match (λ v. bit_and v.data16 0xff == wanted) content xs)
  unfolding find_value first_match
  find_value_lem zero wanted xs enough s has = absurd (omega arith)
  find_value_lem (suc fuel) wanted [] enough s has = refl
  find_value_lem (suc fuel) wanted ((a, i) ∷ xs) enough (pos, holds, s) (pos', holds', has) =
      rw (not_null a pos, load_lem h a _ pos holds, load_item_lem h i (content i) pos' holds')
        (rw (find_value_lem fuel wanted xs (omega arith) s has) (
          if-some (bit_and (content i).data16 0xff == wanted) a
            (first_match (λ v. bit_and v.data16 0xff == wanted) content xs)))

-- With fuel above the length of a list whose cells have items, `core_list_find` ends without a
-- fault at the first cell whose item has the index searched for, or with a negative index the data
-- value in its low byte, or at NULL if there is none.
pub core_list_find-first_match :
    (h : Heap) (content : ℕ → Item) (fuel : ℕ) (info : Item) (xs : Cells)
    → length xs < fuel
    → Chain h.cell xs
    → Items h.item content xs
    → core_list_find fuel (first xs) info h ≡ some (first_match (matches info) content xs)
unfolding core_list_find
core_list_find-first_match h content fuel info xs enough s has =
    elim (Bool-cases (ltb info.idx (2 ^ 15))) [
      | inl by_idx ↦ rw by_idx (find_idx_lem h content fuel info.idx xs enough s has)
      | inr by_value ↦ rw by_value (find_value_lem h content fuel info.data16 xs enough s has)
    ]
