-- ===== src/Device/Syscall/Serial.antt =====
-- `_write` and `_read` of sw/device/runtime/syscall.c on the serial interface.
use mathlib.Core.Path.{ap₂}
use len5_core.Common.{
  ap, ◌>>=◌, true, false, take, drop, All, ℕ, zero, suc, ◌+◌, ◌^◌, ◌<◌, ◌≤◌, ◌≡◌, refl, ◌∙◌, arith,
  Option, none, some, List, [], ◌∷◌, ◌++◌, ◌==◌, length, ◌⊎◌, inl, inr, Bool-cases, if◌then◌else◌,
}
use mathlib.Core.List.{append_assoc, append-nil}
use len5_core.Common.Int.{ℤ, pos, negsuc}
use len5_core.Device.Memory.{Memory, store8}
use len5_core.Device.Memory.Copy.{Outside, store8_ne, store8_self}
use len5_core.Device.Syscall.{
  unimplemented_syscall, Machine, is, enosys, serial_write, write_loop, write, read_loop, read,
  isatty,
}

-- The `n` bytes of memory from `a` on, in order.
pub bytes : Memory → (a n : ℕ) → List ℕ
bytes m a zero = []
bytes m a (suc n) = m a ∷ bytes m (a + 1) n

write_loop_lem :
    (fuel n a : ℕ) (m : Machine)
    → n < fuel
    → write_loop fuel a (a + n) m ≡ some (record m { uart_out = m.uart_out ++ bytes m.memory a n })
unfolding write_loop bytes
write_loop_lem zero n a m h = absurd (omega arith)
write_loop_lem (suc fuel) zero a m h =
    let done : (a == a + 0) ≡ true = ground arith in rw (done, append-nil)
write_loop_lem (suc fuel) (suc n) a m h =
    let more : (a == a + suc n) ≡ false = ground arith in
    let shift : a + suc n ≡ a + 1 + n = omega arith in
    rw more (
      rw shift (
        write_loop_lem fuel n (a + 1) (serial_write (m.memory a) m) (omega arith)
        ∙ rw append_assoc))

-- On STDOUT `_write` ends, sends exactly the `size` bytes of the buffer in order, changes nothing
-- else and returns `size`; on any other handle it only sets `errno` and returns -1.
pub write_lem :
    (handle a size : ℕ) (m : Machine)
    → write handle a size m ≡ (
        if handle == 1
        then some (record m { uart_out = m.uart_out ++ bytes m.memory a size }, pos size)
        else some (record m { errno = is enosys }, negsuc 0))
unfolding write
write_lem handle a size m = rw (write_loop_lem (size + 1) size a m (omega arith))

-- The message is cut to its first 8 characters.
pub unimplemented_syscall-write :
    (msg : ℕ) (m : Machine)
    → unimplemented_syscall msg m
      ≡ some (record m { uart_out = m.uart_out ++ bytes m.memory msg 8 })
unfolding unimplemented_syscall
unimplemented_syscall-write msg m =
    ap (λ (o : Option (Machine × ℤ)). o >>= (λ r. some r.0)) (write_lem 1 msg 8 m)

-- The handles that `_isatty` calls a terminal are those on which `_write` does not fail.
pub isatty-write :
    (handle a size : ℕ) (m : Machine)
    → ((isatty handle ≡ pos 1)
        × (write handle a size m
            ≡ some (record m { uart_out = m.uart_out ++ bytes m.memory a size }, pos size)))
      ⊎ ((isatty handle ≡ pos 0)
          × (write handle a size m ≡ some (record m { errno = is enosys }, negsuc 0)))
unfolding isatty
isatty-write handle a size m = elim (Bool-cases (handle == 1)) [
  | inl out ↦ inl (rw out, write_lem handle a size m ∙ rw out)
  | inr other ↦ inr (rw other, write_lem handle a size m ∙ rw other)
]

abbrev IsBytes : List ℕ → Type 0
IsBytes = All (λ c. c < 2 ^ 8)

-- `m'` is `m` after `len` characters of `pending` went to the cells from `ptr` on.
pub record Received (m m' : Machine) (len ptr : ℕ) (pending : List ℕ) : Type 0 where
  pub stored : bytes m'.memory ptr len ≡ take len pending
  pub outside : (a : ℕ) → Outside ptr len a → m'.memory a ≡ m.memory a
  pub left : m'.uart_in ≡ drop len pending
  pub sent : m'.uart_out ≡ m.uart_out

-- What a read gives for the characters that are pending: it waits for ever if they are too few.
abbrev pub Delivers : Machine → (len ptr : ℕ) → List ℕ → Option Machine → Type 0
Delivers m len ptr pending none = length pending < len
Delivers m len ptr pending (some m') = Received m m' len ptr pending

-- One character stored, and the rest received behind it.
Delivers-cons :
    (m : Machine) (len ptr c : ℕ) (pending : List ℕ) (r : Option Machine)
    → c < 2 ^ 8
    → Delivers (record m { memory = store8 m.memory ptr c }) len (ptr + 1) pending r
    → Delivers m (suc len) ptr (c ∷ pending) r
unfolding bytes
Delivers-cons m len ptr c pending none b h = omega arith
Delivers-cons m len ptr c pending (some m') b h = record {
  stored =
      ap₂ ◌∷◌ (h.outside ptr (omega arith) ∙ store8_self m.memory ptr c ∙ omega arith) h.stored;
  outside = λ a o. h.outside a (omega arith) ∙ store8_ne m.memory ptr c a (omega arith);
  left = h.left;
  sent = h.sent;
}

read_loop-Delivers :
    (len ptr : ℕ) (m : Machine) (pending : List ℕ)
    → IsBytes pending
    → Delivers m len ptr pending (read_loop len ptr m pending)
unfolding read_loop bytes
read_loop-Delivers zero ptr m pending b = record {
  stored = refl;
  outside = λ a o. refl;
  left = refl;
  sent = refl;
}
read_loop-Delivers (suc len) ptr m [] b = omega arith
read_loop-Delivers (suc len) ptr m (c ∷ pending) (b, bs) =
    Delivers-cons m len ptr c pending _ b
      (read_loop-Delivers len (ptr + 1) (record m { memory = store8 m.memory ptr c }) pending bs)

-- What a call of `_read` on STDIN comes to.
abbrev pub Reads : Machine → (len ptr : ℕ) → Option (Machine × ℤ) → Type 0
Reads m len ptr none = length m.uart_in < len
Reads m len ptr (some (m', result)) = Received m m' len ptr m.uart_in × (result ≡ pos 0)

Reads-Delivers :
    (m : Machine) (len ptr : ℕ) (r : Option Machine)
    → Delivers m len ptr m.uart_in r
    → Reads m len ptr (elim r [ none ↦ none | some m' ↦ some (m', pos 0) ])
Reads-Delivers m len ptr none h = h
Reads-Delivers m len ptr (some m') h = (h, refl)

-- On STDIN `_read` ends only when `len` characters come. It then has stored them in order from
-- `ptr` on, with all other cells and the output as they were, and returns 0 whatever `len` is.
pub read-Reads :
    (len ptr : ℕ) (m : Machine) → IsBytes m.uart_in → Reads m len ptr (read 0 ptr len m)
unfolding read
read-Reads len ptr m b = Reads-Delivers m len ptr _ (read_loop-Delivers len ptr m m.uart_in b)

-- With enough characters pending `_read` does end.
pub read_ends :
    (len ptr : ℕ) (m : Machine)
    → IsBytes m.uart_in
    → len ≤ length m.uart_in
    → (m' : Machine) × (read 0 ptr len m ≡ some (m', pos 0)) × Received m m' len ptr m.uart_in
read_ends len ptr m b h = pick (read 0 ptr len m) (read-Reads len ptr m b) refl
  where
    pick :
        (r : Option (Machine × ℤ))
        → Reads m len ptr r
        → read 0 ptr len m ≡ r
        → (m' : Machine) × (read 0 ptr len m ≡ some (m', pos 0)) × Received m m' len ptr m.uart_in
    pick none short e = absurd (omega arith)
    pick (some (m', result)) (got, zero_result) e = (m', e ∙ rw zero_result, got)

-- What `_read` takes from STDIN a `_write` of the same buffer sends to STDOUT.
pub write-read :
    (len ptr : ℕ) (m : Machine)
    → IsBytes m.uart_in
    → len ≤ length m.uart_in
    → (m' m'' : Machine) × (read 0 ptr len m ≡ some (m', pos 0))
      × (write 1 ptr len m' ≡ some (m'', pos len))
      × (m''.uart_out ≡ m.uart_out ++ take len m.uart_in)
write-read len ptr m b h =
    let (m', ends, got) = read_ends len ptr m b h in
    (
      m',
      record m' { uart_out = m'.uart_out ++ bytes m'.memory ptr len },
      ends,
      write_lem 1 ptr len m',
      ap₂ ◌++◌ got.sent got.stored,
    )
