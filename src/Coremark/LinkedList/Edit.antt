-- ===== src/Coremark/LinkedList/Edit.antt =====
-- `core_list_remove`, its undoing, and `core_list_insert_new`.
use len5_core.Common.{
  false, sym, ℕ_discrete, leb, ◌∙◌, ℕ, ◌+◌, ◌<◌, ◌≤◌, ◌≡◌, ◌≢◌, ◌∷◌, some, refl, arith, Option, ◌⊎◌,
}
use len5_core.Coremark.LinkedList.{
  Cell, Item, Heap, Blocks, null, put, store, store_item, core_list_remove, core_list_undo_remove,
  core_list_insert_new,
}
use len5_core.Coremark.LinkedList.Chain.{
  Cells, first, Chain, Apart, Distinct, Chain-put, load_lem, put_self, put_ne,
}

-- What `core_list_remove` leaves: the list without the info `i`. The cell `b` that carried the
-- next info is unlinked and returned, and holds the removed info.
pub record Removed (h : Heap) (a i b j : ℕ) (xs : Cells) (r : Option (ℕ × Heap)) : Type 0 where
  pub heap : Heap
  pub returns : r ≡ some (b, heap)
  pub chain : Chain heap.cell ((a, j) ∷ xs)
  pub unlinked : heap.cell b ≡ some (record { next = null; info = i })
  pub outside : (c : ℕ) → c ≢ a → c ≢ b → heap.cell c ≡ h.cell c
  pub items : heap.item ≡ h.item

-- `core_list_remove` on the first of at least two cells with different addresses keeps the list
-- less that cell's info, unlinks the second cell with the removed info, and changes no other cell
-- and no item.
pub core_list_remove-Removed :
    (h : Heap) (a i b j : ℕ) (xs : Cells)
    → Chain h.cell ((a, i) ∷ (b, j) ∷ xs)
    → Distinct ((a, i) ∷ (b, j) ∷ xs)
    → Removed h a i b j xs (core_list_remove a h)
unfolding core_list_remove store
core_list_remove-Removed h a i b j xs (pos, holds, (pos', holds', s)) ((ne, out), (out', d)) =
    let removed : Cell = record { next = null; info = i } in
    let kept : Cell = record { next = first xs; info = j } in
    rw (load_lem h a _ pos holds, load_lem h b _ pos' holds')
      (record {
        heap = store b removed (store a kept h);
        returns = refl;
        chain = (
          pos,
          put_ne (put h.cell a kept) b removed a ne ∙ put_self h.cell a kept,
          Chain-put (put h.cell a kept) b removed xs out' (Chain-put h.cell a kept xs out s),
        );
        unlinked = put_self (put h.cell a kept) b removed;
        outside = λ c p q. put_ne (put h.cell a kept) b removed c q ∙ put_ne h.cell a kept c p;
        items = refl;
      })

-- For the first of at least two cells with different addresses, `core_list_remove` returns the
-- second cell, and `core_list_undo_remove` on the two restores every cell and every item.
pub core_list_undo_remove_lem :
    (h : Heap) (a i b j : ℕ) (xs : Cells)
    → Chain h.cell ((a, i) ∷ (b, j) ∷ xs)
    → Distinct ((a, i) ∷ (b, j) ∷ xs)
    → (g g' : Heap) × (core_list_remove a h ≡ some (b, g))
      × (core_list_undo_remove b a g ≡ some (b, g'))
      × ((c : ℕ) → g'.cell c ≡ h.cell c)
      × (g'.item ≡ h.item)
unfolding core_list_undo_remove store
core_list_undo_remove_lem h a i b j xs s d =
    let r = core_list_remove-Removed h a i b j xs s d in
    let (pos, holds, rest) = s in
    let (pos', holds', more) = rest in
    let first_cell : Cell = record { next = b; info = i } in
    let second_cell : Cell = record { next = first xs; info = j } in
    (
      r.heap,
      store a first_cell (store b second_cell r.heap),
      r.returns,
      rw (load_lem r.heap b _ pos' r.unlinked, load_lem r.heap a _ pos r.chain.1),
      λ c. elim (ℕ_discrete c a) [
        | yes at_a ↦ rw at_a (put_self (put r.heap.cell b second_cell) a first_cell ∙ sym holds)
        | no off_a ↦
            put_ne (put r.heap.cell b second_cell) a first_cell c off_a ∙ elim (ℕ_discrete c b) [
              | yes at_b ↦ rw at_b (put_self r.heap.cell b second_cell ∙ sym holds')
              | no off_b ↦ put_ne r.heap.cell b second_cell c off_b ∙ r.outside c off_a off_b
            ]
      ],
      r.items,
    )

-- A full block: with no room for one more head or one more item, nothing changes.
pub core_list_insert_new_full :
    (h : Heap) (a : ℕ) (info : Item) (b : Blocks)
    → (b.memblock_end ≤ b.memblock + 1) ⊎ (b.datablock_end ≤ b.datablock + 1)
    → core_list_insert_new a info b h ≡ some (null, b, h)
unfolding core_list_insert_new
core_list_insert_new_full h a info b full = ground arith

-- What a successful insertion leaves: the new cell behind the insertion point, with a copy of
-- the item, and both blocks advanced by one and still below their ends.
pub record Inserted (h : Heap) (a i : ℕ) (xs : Cells) (info : Item) (b : Blocks)
    (r : Option (ℕ × Blocks × Heap)) : Type 0 where
  pub heap : Heap
  pub blocks : Blocks
  pub returns : r ≡ some (b.memblock, blocks, heap)
  pub chain : Chain heap.cell ((a, i) ∷ (b.memblock, b.datablock) ∷ xs)
  pub copied : heap.item b.datablock ≡ some info
  pub memblock : (blocks.memblock ≡ b.memblock + 1) × (blocks.memblock < b.memblock_end)
  pub datablock : (blocks.datablock ≡ b.datablock + 1) × (blocks.datablock < b.datablock_end)

-- When both blocks have room and the free cell is none of the list, `core_list_insert_new` puts
-- the free cell behind the insertion point with a copy of the item, and advances both blocks, which
-- stay below their ends.
pub core_list_insert_new-Inserted :
    (h : Heap) (a i : ℕ) (xs : Cells) (info : Item) (b : Blocks)
    → b.memblock + 1 < b.memblock_end
    → b.datablock + 1 < b.datablock_end
    → b.memblock ≢ null
    → Chain h.cell ((a, i) ∷ xs)
    → Distinct ((a, i) ∷ xs)
    → Apart b.memblock ((a, i) ∷ xs)
    → Inserted h a i xs info b (core_list_insert_new a info b h)
unfolding core_list_insert_new store store_item
core_list_insert_new-Inserted h a i xs info b room room' new (pos, holds, s) (out, d) (ne, apart) =
    let linked : Cell = record { next = b.memblock; info = i } in
    let fresh : Cell = record { next = first xs; info = b.datablock } in
    let free : leb b.memblock_end (b.memblock + 1) ≡ false = ground arith in
    let free' : leb b.datablock_end (b.datablock + 1) ≡ false = ground arith in
    let grown = store b.memblock fresh h in
    let still = put_ne h.cell b.memblock fresh a (λ e. ne (sym e)) ∙ holds in
    rw (free, free', load_lem h a _ pos holds, load_lem grown a _ pos still)
      (record {
        heap = store_item b.datablock info (store a linked grown);
        blocks = record b { memblock = b.memblock + 1; datablock = b.datablock + 1 };
        returns = refl;
        chain = (
          pos,
          put_self grown.cell a linked,
          (
            new,
            put_ne grown.cell a linked b.memblock ne ∙ put_self h.cell b.memblock fresh,
            Chain-put grown.cell a linked xs out (Chain-put h.cell b.memblock fresh xs apart s),
          ),
        );
        copied = put_self h.item b.datablock info;
        memblock = (refl, room);
        datablock = (refl, room');
      })
