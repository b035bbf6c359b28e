-- ===== src/Coremark/LinkedList.antt =====
-- The linked list of sw/benchmarks/coremark/src/all/core_list_join.c.
-- The block of list heads and the block of data items are two arrays; a pointer is an index into
-- its array, so `p + 1` is the next struct, and 0 is NULL. `none` is a fault (a read through NULL
-- or of no object) or, in a loop, the end of the fuel.
pub mod Chain
pub mod Find
pub mod Reverse
pub mod Edit
mod Tests
use Prim.Native.Nat.{bit_and}
use len5_core.Common.{
  ℕ, zero, suc, ◌+◌, ◌^◌, Bool, Option, none, some, ltb, leb, ◌==◌, if◌then◌else◌, ◌>>=◌,
}

-- `struct list_head_s`.
pub record Cell : Type 0 where
  pub next : ℕ
  pub info : ℕ

-- `struct list_data_s`; both members are 16-bit patterns.
pub record Item : Type 0 where
  pub data16 : ℕ
  pub idx : ℕ

pub record Heap : Type 0 where
  pub cell : ℕ → Option Cell
  pub item : ℕ → Option Item

abbrev pub null : ℕ
null = 0

-- `*p` for a list head and for a data item.
unfoldable pub load : ℕ → Heap → Option Cell
load p h = if p == null then none else h.cell p

unfoldable pub load_item : ℕ → Heap → Option Item
load_item p h = if p == null then none else h.item p

unfoldable pub put : {A : Type 0} → (ℕ → Option A) → ℕ → A → ℕ → Option A
put f p v a = if a == p then some v else f a

unfoldable pub store : ℕ → Cell → Heap → Heap
unfolding put
store p c h = record h { cell = put h.cell p c }

unfoldable pub store_item : ℕ → Item → Heap → Heap
unfolding put
store_item p v h = record h { item = put h.item p v }

-- The two loops of `core_list_find`, by the index and by the low byte of the data.
pub find_idx : ℕ → (list idx : ℕ) → Heap → Option ℕ
find_idx zero list idx h = none
find_idx (suc fuel) list idx h =
    let go_on = load list h >>= λ c. load_item c.info h >>= λ v.
    (let rest = find_idx fuel c.next idx h in if v.idx == idx then some list else rest) in
    if list == null then some null else go_on

pub find_value : ℕ → (list wanted : ℕ) → Heap → Option ℕ
find_value zero list wanted h = none
find_value (suc fuel) list wanted h =
    let go_on = load list h >>= λ c. load_item c.info h >>= λ v.
    (let rest = find_value fuel c.next wanted h in
      if bit_and v.data16 0xff == wanted then some list else rest) in
    if list == null then some null else go_on

-- `info->idx >= 0` is a clear top bit.
unfoldable pub core_list_find : (fuel list : ℕ) → Item → Heap → Option ℕ
core_list_find fuel list info h =
    if ltb info.idx (2 ^ 15)
    then find_idx fuel list info.idx h
    else find_value fuel list info.data16 h

pub reverse_loop : ℕ → (list next : ℕ) → Heap → Option (ℕ × Heap)
reverse_loop zero list next h = none
reverse_loop (suc fuel) list next h =
    let go_on = load list h >>= λ c.
    reverse_loop fuel c.next list (store list (record c { next = next }) h) in
    if list == null then some (next, h) else go_on

unfoldable pub core_list_reverse : (fuel list : ℕ) → Heap → Option (ℕ × Heap)
core_list_reverse fuel list h = reverse_loop fuel list null h

-- The result is the removed cell.
unfoldable pub core_list_remove : ℕ → Heap → Option (ℕ × Heap)
core_list_remove item h = load item h >>= λ c. load c.next h >>= λ r. some (
  c.next,
  store c.next (record { next = null; info = c.info })
      (store item (record { next = r.next; info = r.info }) h),
)

unfoldable pub core_list_undo_remove : (item_removed item_modified : ℕ) → Heap → Option (ℕ × Heap)
core_list_undo_remove item_removed item_modified h = load item_removed h >>= λ r.
    load item_modified h >>= λ m. some (
      item_removed,
      store item_modified (record { next = item_removed; info = r.info })
          (store item_removed (record { next = m.next; info = m.info }) h),
    )

-- The free pointers `*memblock` and `*datablock`, and the ends of the two blocks.
pub record Blocks : Type 0 where
  pub memblock : ℕ
  pub datablock : ℕ
  pub memblock_end : ℕ
  pub datablock_end : ℕ

unfoldable pub core_list_insert_new : ℕ → Item → Blocks → Heap → Option (ℕ × Blocks × Heap)
core_list_insert_new insert_point info b h =
    if leb b.memblock_end (b.memblock + 1)
    then some (null, b, h)
    else if leb b.datablock_end (b.datablock + 1)
    then some (null, b, h)
    else (load insert_point h >>= λ c.
        (let h' = store b.memblock (record { next = c.next; info = b.datablock }) h in
          load insert_point h' >>= λ c'. some (
            b.memblock,
            record b { memblock = b.memblock + 1; datablock = b.datablock + 1 },
            store_item b.datablock info (store insert_point (record c' { next = b.memblock }) h'),
          )))
