-- ===== src/Coremark/LinkedList/Chain.antt =====
-- What it means that a pointer heads a list, for the lists of core_list_join.c.
use len5_core.Common.{
  true, sym, false, ◌∙◌, ◌==◌, ℕ_discrete, ℕ, ◌≡◌, ◌≢◌, List, [], ◌∷◌, ◌++◌, some, arith, Option,
}
use len5_core.Coremark.LinkedList.{Cell, Item, Heap, null, load, load_item, put}

-- The address and the info pointer of each cell, in order.
abbrev pub Cells : Type 0
Cells = List (ℕ × ℕ)

-- The head pointer.
abbrev pub first : Cells → ℕ
first [] = null
first ((a, i) ∷ xs) = a

-- The `next` pointers lead through the cells to NULL.
abbrev pub Chain : (ℕ → Option Cell) → Cells → Type 0
Chain f [] = Unit
Chain f ((a, i) ∷ xs) =
    (a ≢ null) × (f a ≡ some (record { next = first xs; info = i })) × Chain f xs

-- `a` is the address of none of the cells.
abbrev pub Apart : ℕ → Cells → Type 0
Apart a [] = Unit
Apart a ((b, i) ∷ xs) = (a ≢ b) × Apart a xs

abbrev pub Distinct : Cells → Type 0
Distinct [] = Unit
Distinct ((a, i) ∷ xs) = Apart a xs × Distinct xs

-- A write that spares the cells leaves the chain.
pub Chain-put :
    (f : ℕ → Option Cell) (a : ℕ) (c : Cell) (xs : Cells)
    → Apart a xs
    → Chain f xs
    → Chain (put f a c) xs
unfolding put
Chain-put f a c [] out s = tt
Chain-put f a c ((b, i) ∷ xs) (ne, out) (pos, holds, s) =
    (pos, ground arith, Chain-put f a c xs out s)

pub Apart-append : (a : ℕ) (xs ys : Cells) → Apart a (xs ++ ys) → Apart a xs × Apart a ys
Apart-append a [] ys h = (tt, h)
Apart-append a ((b, i) ∷ xs) ys (ne, h) = let (l, r) = Apart-append a xs ys h in ((ne, l), r)

-- Two heaps agree on the cells of two chains with the same addresses and infos.
pub Chain-agree :
    (f g : ℕ → Option Cell) (xs : Cells) (b : ℕ)
    → Chain f xs
    → Chain g xs
    → (Apart b xs → f b ≡ g b)
    → f b ≡ g b
Chain-agree f g [] b s t out = out tt
Chain-agree f g ((a, i) ∷ xs) b (pos, holds, s) (pos', holds', t) out = elim (ℕ_discrete b a) [
  | yes here ↦ rw here (holds ∙ sym holds')
  | no apart ↦ Chain-agree f g xs b s t (λ o. out (apart, o))
]

pub load_lem : (h : Heap) (a : ℕ) (c : Cell) → a ≢ null → h.cell a ≡ some c → load a h ≡ some c
unfolding load
load_lem h a c pos holds = ground arith

-- `content` is the item that each info pointer of the cells leads to.
abbrev pub Items : (ℕ → Option Item) → (content : ℕ → Item) → Cells → Type 0
Items f content [] = Unit
Items f content ((a, i) ∷ xs) = (i ≢ null) × (f i ≡ some (content i)) × Items f content xs

pub load_item_lem :
    (h : Heap) (i : ℕ) (v : Item) → i ≢ null → h.item i ≡ some v → load_item i h ≡ some v
unfolding load_item
load_item_lem h i v pos holds = ground arith

-- A pointer that is not NULL fails the test for NULL.
pub not_null : (a : ℕ) → a ≢ null → (a == null) ≡ false
not_null a pos = ground arith

pub put_self : {A : Type 0} (f : ℕ → Option A) (p : ℕ) (v : A) → put f p v p ≡ some v
unfolding put
put_self f p v = let here : (p == p) ≡ true = ground arith in rw here

pub put_ne : {A : Type 0} (f : ℕ → Option A) (p : ℕ) (v : A) (a : ℕ) → a ≢ p → put f p v a ≡ f a
unfolding put
put_ne f p v a ne = let other : (a == p) ≡ false = ground arith in rw other
