-- ===== src/Device/Memory/Copy.antt =====
-- What `memcpy` and `memset` of sw/device/base/memory.c leave in memory.
use len5_core.Common.{
  some, dec_lt, ℕ, zero, suc, ◌+◌, ◌%◌, ◌^◌, ◌≤◌, ◌<◌, ◌≡◌, refl, ◌⊎◌, arith, ◌∙◌,
}
use len5_core.Device.Memory.{Memory, store8, copy_loop, memcpy, set_loop, memset}

-- All cells hold bytes.
abbrev pub IsBytes : Memory → Type 0
IsBytes m = (a : ℕ) → m a < 2 ^ 8

-- `a` lies outside the `len` cells from `p` on.
abbrev pub Outside : (p len a : ℕ) → Type 0
Outside p len a = (a < p) ⊎ (p + len ≤ a)

-- Neither of the two areas reaches into the other.
abbrev pub Apart : (dest src len : ℕ) → Type 0
Apart dest src len = (dest + len ≤ src) ⊎ (src + len ≤ dest)

pub store8_ne : (m : Memory) (a v x : ℕ) → (x < a) ⊎ (a < x) → store8 m a v x ≡ m x
unfolding store8
store8_ne m a v x h = ground arith

pub store8_self : (m : Memory) (a v : ℕ) → store8 m a v a ≡ v % 2 ^ 8
unfolding store8
store8_self m a v = ground arith

pub store8-IsBytes : (m : Memory) (a v : ℕ) → IsBytes m → IsBytes (store8 m a v)
unfolding store8
store8-IsBytes m a v b x = ground (arith, b x)

module _ (dest src : ℕ) where
  pub copy_loop_outside :
      (left i : ℕ) (m : Memory) (a : ℕ)
      → (a < dest + i) ⊎ (dest + (i + left) ≤ a)
      → copy_loop left i dest src m a ≡ m a
  unfolding copy_loop
  copy_loop_outside zero i m a h = refl
  copy_loop_outside (suc left) i m a h =
      copy_loop_outside left (i + 1) _ a (omega arith) ∙ store8_ne m (dest + i) _ a (omega arith)

  pub copy_loop_inside :
      (left i len : ℕ) (m : Memory) (j : ℕ)
      → i + left ≡ len
      → Apart dest src len
      → IsBytes m
      → i ≤ j
      → j < len
      → copy_loop left i dest src m (dest + j) ≡ m (src + j)
  unfolding copy_loop
  copy_loop_inside zero i len m j e n b p q = absurd (omega arith)
  copy_loop_inside (suc left) i len m j e n b p q =
      let m' = store8 m (dest + i) (m (src + i)) in
      elim (dec_lt i j) [
        | yes later ↦
            copy_loop_inside left (i + 1) len m' j (omega arith) n (store8-IsBytes m _ _ b)
              (omega arith) q
            ∙ store8_ne m (dest + i) (m (src + i)) (src + j) (omega arith)
        | no now ↦
            let here : j ≡ i = omega arith in
            rw here (
              copy_loop_outside left (i + 1) m' (dest + i) (omega arith)
              ∙ omega (arith, store8_self m (dest + i) (m (src + i)), b (src + i)))
      ]

-- When all cells hold bytes and neither area reaches into the other, `memcpy` is defined and returns the
-- destination; every byte of the destination is that of the source before the call, and no cell
-- outside the destination, the source included, is changed.
pub memcpy_lem :
    (dest src len : ℕ) (m : Memory)
    → Apart dest src len
    → IsBytes m
    → (m' : Memory) × (memcpy dest src len m ≡ some (m', dest))
      × ((j : ℕ) → j < len → m' (dest + j) ≡ m (src + j))
      × ((a : ℕ) → Outside dest len a → m' a ≡ m a)
unfolding memcpy
memcpy_lem dest src len m n b = (
  copy_loop len 0 dest src m,
  ground (arith, n),
  λ j h. copy_loop_inside dest src len 0 len m j (omega arith) n b (omega arith) h,
  λ a h. copy_loop_outside dest src len 0 m a (omega arith),
)

module _ (dest value8 : ℕ) where
  pub set_loop_outside :
      (left i : ℕ) (m : Memory) (a : ℕ)
      → (a < dest + i) ⊎ (dest + (i + left) ≤ a)
      → set_loop left i dest value8 m a ≡ m a
  unfolding set_loop
  set_loop_outside zero i m a h = refl
  set_loop_outside (suc left) i m a h =
      set_loop_outside left (i + 1) _ a (omega arith) ∙ store8_ne m (dest + i) _ a (omega arith)

  pub set_loop_inside :
      (left i : ℕ) (m : Memory) (j : ℕ)
      → i ≤ j
      → j < i + left
      → set_loop left i dest value8 m (dest + j) ≡ value8 % 2 ^ 8
  unfolding set_loop
  set_loop_inside zero i m j p q = absurd (omega arith)
  set_loop_inside (suc left) i m j p q =
      let m' = store8 m (dest + i) value8 in
      elim (dec_lt i j) [
        | yes later ↦ set_loop_inside left (i + 1) m' j (omega arith) (omega arith)
        | no now ↦
            let here : j ≡ i = omega arith in
            rw here (
              set_loop_outside left (i + 1) m' (dest + i) (omega arith)
              ∙ store8_self m (dest + i) value8)
      ]

-- `memset` returns the destination, fills exactly the `len` cells from there on with the low
-- byte of its value and leaves all others alone.
pub memset_lem :
    (dest value len : ℕ) (m : Memory)
    → ((memset dest value len m).1 ≡ dest)
      × ((j : ℕ) → j < len → (memset dest value len m).0 (dest + j) ≡ value % 2 ^ 8)
      × ((a : ℕ) → Outside dest len a → (memset dest value len m).0 a ≡ m a)
unfolding memset
memset_lem dest value len m = (
  refl,
  λ j h. set_loop_inside dest (value % 2 ^ 8) len 0 m j (omega arith) (omega arith) ∙ omega arith,
  λ a h. set_loop_outside dest (value % 2 ^ 8) len 0 m a (omega arith),
)
