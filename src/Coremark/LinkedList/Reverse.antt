-- ===== src/Coremark/LinkedList/Reverse.antt =====
-- `core_list_reverse` relinks the cells in reverse order, and twice restores the heap.
use mathlib.Core.List.{reverse, reverse_aux, reverse-reverse}
use len5_core.Common.{
  ap, sym, ◌∙◌, ℕ, zero, suc, ◌+◌, ◌<◌, ◌≡◌, [], ◌∷◌, some, refl, arith, length, Option,
}
use len5_core.Coremark.LinkedList.{Heap, put, store, reverse_loop, core_list_reverse}
use mathlib.Core.List.{reverse_aux}
use mathlib.Core.Path.{subst}
use len5_core.Coremark.LinkedList.Chain.{
  put_ne, put_self, Cells, first, Chain, Apart, Distinct, Chain-put, Chain-agree, load_lem,
  not_null,
}

-- The cells of both lists have different addresses.
abbrev Disjoint : Cells → Cells → Type 0
Disjoint [] ys = Unit
Disjoint ((a, i) ∷ xs) ys = Apart a ys × Disjoint xs ys

-- What the loop leaves: the cells `xs` turned round in front of `ys`, and no other cell changed.
pub record Turned (h : Heap) (xs ys : Cells) (r : Option (ℕ × Heap)) : Type 0 where
  pub heap : Heap
  pub returns : r ≡ some (first (reverse_aux xs ys), heap)
  pub chain : Chain heap.cell (reverse_aux xs ys)
  pub outside : (b : ℕ) → Apart b xs → heap.cell b ≡ h.cell b
  pub items : heap.item ≡ h.item

Disjoint-cons : (a i : ℕ) (xs ys : Cells) → Apart a xs → Disjoint xs ys → Disjoint xs ((a, i) ∷ ys)
Disjoint-cons a i [] ys out d = tt
Disjoint-cons a i ((b, j) ∷ xs) ys (ne, out) (o, d) =
    ((λ e. ne (sym e), o), Disjoint-cons a i xs ys out d)

reverse_loop-Turned :
    (fuel : ℕ) (h : Heap) (xs ys : Cells)
    → length xs < fuel
    → Chain h.cell xs
    → Chain h.cell ys
    → Distinct xs
    → Disjoint xs ys
    → Turned h xs ys (reverse_loop fuel (first xs) (first ys) h)
unfolding reverse_loop store put
reverse_loop-Turned zero h xs ys enough s t d apart = absurd (omega arith)
reverse_loop-Turned (suc fuel) h [] ys enough s t d apart = record {
  heap = h;
  returns = refl;
  chain = t;
  outside = λ b o. refl;
  items = refl;
}
reverse_loop-Turned (suc fuel) h ((a, i) ∷ xs) ys enough (pos, holds, s) t (out, d) (o, apart) =
    let h' = store a (record { next = first ys; info = i }) h in
    let rest =
      reverse_loop-Turned fuel h' xs ((a, i) ∷ ys) (omega arith) (Chain-put h.cell a _ xs out s)
        (pos, put_self h.cell a _, Chain-put h.cell a _ ys o t) d
        (Disjoint-cons a i xs ys out apart) in
    rw (not_null a pos, load_lem h a _ pos holds)
      (record {
        heap = rest.heap;
        returns = rest.returns;
        chain = rest.chain;
        outside = λ b (ne, o'). rest.outside b o' ∙ put_ne h.cell a _ b ne;
        items = rest.items;
      })

-- With fuel above the length of a list whose cells have different addresses,
-- `core_list_reverse` ends without a fault, relinks the same cells in reverse order, and changes
-- no other cell and no item.
pub core_list_reverse-Turned :
    (fuel : ℕ) (h : Heap) (xs : Cells)
    → length xs < fuel
    → Chain h.cell xs
    → Distinct xs
    → Turned h xs [] (core_list_reverse fuel (first xs) h)
unfolding core_list_reverse
core_list_reverse-Turned fuel h xs enough s d =
    reverse_loop-Turned fuel h xs [] enough s tt d (apart_nil xs)
  where
    apart_nil : (ys : Cells) → Disjoint ys []
    apart_nil [] = tt
    apart_nil ((a, i) ∷ ys) = (tt, apart_nil ys)

Apart-reverse_aux : (b : ℕ) (xs ys : Cells) → Apart b xs → Apart b ys → Apart b (reverse_aux xs ys)
Apart-reverse_aux b [] ys o p = p
Apart-reverse_aux b ((a, i) ∷ xs) ys (ne, o) p = Apart-reverse_aux b xs ((a, i) ∷ ys) o (ne, p)

reverse_aux-Apart : (b : ℕ) (xs ys : Cells) → Apart b (reverse_aux xs ys) → Apart b xs × Apart b ys
reverse_aux-Apart b [] ys o = (tt, o)
reverse_aux-Apart b ((a, i) ∷ xs) ys o =
    let (l, (ne, r)) = reverse_aux-Apart b xs ((a, i) ∷ ys) o in ((ne, l), r)

Distinct-reverse_aux :
    (xs ys : Cells) → Distinct xs → Distinct ys → Disjoint xs ys → Distinct (reverse_aux xs ys)
Distinct-reverse_aux [] ys d e apart = e
Distinct-reverse_aux ((a, i) ∷ xs) ys (out, d) e (o, apart) =
    Distinct-reverse_aux xs ((a, i) ∷ ys) d (o, e) (Disjoint-cons a i xs ys out apart)

length-reverse_aux : (xs ys : Cells) → length (reverse_aux xs ys) ≡ length xs + length ys
length-reverse_aux [] ys = omega arith
length-reverse_aux (x ∷ xs) ys = omega (arith, length-reverse_aux xs (x ∷ ys))

apart_nil : (ys : Cells) → Disjoint ys []
apart_nil [] = tt
apart_nil ((a, i) ∷ ys) = (tt, apart_nil ys)

-- With fuel above the length of a list whose cells have different addresses, reversing it twice ends without a fault at the old head, and every cell and every item is
-- as it was before.
pub core_list_reverse_twice :
    (fuel : ℕ) (h : Heap) (xs : Cells)
    → length xs < fuel
    → Chain h.cell xs
    → Distinct xs
    → (p : ℕ) × (g : Heap) × (g' : Heap) × (core_list_reverse fuel (first xs) h ≡ some (p, g))
      × (core_list_reverse fuel p g ≡ some (first xs, g'))
      × ((b : ℕ) → g'.cell b ≡ h.cell b)
      × (g'.item ≡ h.item)
core_list_reverse_twice fuel h xs enough s d =
    let once = core_list_reverse-Turned fuel h xs enough s d in
    let twice =
      core_list_reverse-Turned fuel once.heap (reverse xs) (omega (arith, length-reverse_aux xs []))
        once.chain (Distinct-reverse_aux xs [] d tt (apart_nil xs)) in
    let back : reverse_aux (reverse xs) [] ≡ xs = reverse-reverse xs in
    (
      first (reverse xs),
      once.heap,
      twice.heap,
      once.returns,
      twice.returns ∙ ap (λ ys. some (first ys, twice.heap)) back,
      λ b.
          Chain-agree twice.heap.cell h.cell xs b (subst (Chain twice.heap.cell) back twice.chain) s
            (λ o. twice.outside b (Apart-reverse_aux b xs [] o tt) ∙ once.outside b o),
      twice.items ∙ once.items,
    )
