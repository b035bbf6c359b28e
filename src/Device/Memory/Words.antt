-- ===== src/Device/Memory/Words.antt =====
-- `read_32` and `write_32` of sw/device/base/memory.h.
use len5_core.Common.{ℕ, ◌+◌, ◌%◌, ◌^◌, ◌≤◌, ◌≡◌, arith, some, refl, ap}
use len5_core.Device.Memory.{Memory, read_32, write_32, memcpy}
use len5_core.Device.Memory.Copy.{IsBytes, Outside, Apart, memcpy_lem}

-- At an aligned address a word that `write_32` stores is the word that `read_32` loads, cut to 32 bits,
-- and no cell outside its four is changed.
pub read_32-write_32 :
    (value ptr : ℕ) (m : Memory)
    → ptr % 4 ≡ 0
    → (m' : Memory) × (write_32 value ptr m ≡ some m')
      × (read_32 ptr m' ≡ some (value % 2 ^ 32))
      × ((a : ℕ) → Outside ptr 4 a → m' a ≡ m a)
unfolding read_32 write_32
read_32-write_32 value ptr m aligned =
    rw aligned (_, refl, ap some (ground arith), λ a h. ground arith)

-- `memcpy` of a whole word, or of any run of bytes that holds it, moves the word between aligned
-- addresses.
pub read_32-memcpy :
    (dest src len k : ℕ) (m : Memory)
    → Apart dest src len
    → IsBytes m
    → k + 4 ≤ len
    → (dest + k) % 4 ≡ 0
    → (src + k) % 4 ≡ 0
    → (m' : Memory) × (memcpy dest src len m ≡ some (m', dest))
      × (read_32 (dest + k) m' ≡ read_32 (src + k) m)
unfolding read_32
read_32-memcpy dest src len k m n b h at_dest at_src =
    let (m', ends, copied, kept) = memcpy_lem dest src len m n b in
    (
      m',
      ends,
      rw (at_dest, at_src)
          (ap some (ground (arith, copied k, copied (k + 1), copied (k + 2), copied (k + 3)))),
    )
