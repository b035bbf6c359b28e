-- ===== src/Device/Syscall.antt =====
-- The system calls of sw/device/runtime/syscall.c over the serial interface of len5.c and len5.h.
pub mod Serial
pub mod Heap
pub mod Calls
mod Tests
use len5_core.Common.{
  ℕ, zero, suc, ◌+◌, ◌-◌, ◌%◌, ◌^◌, ◌≡◌, Bool, Option, none, some, List, [], ◌∷◌, ◌++◌, ltb, ◌==◌,
  if◌then◌else◌, ◌>>=◌,
}
use len5_core.Common.Int.{ℤ, pos, negsuc}
use len5_core.Device.Memory.{Memory, store8}

-- The error names that the file takes from errno.h.
pub data ErrorName : Type 0 where
  enosys enomem eagain einval emlink enoent echild : ErrorName

-- The value of `errno`: not set, a name, or a name with a minus sign.
pub data Errno : Type 0 where
  unset : Errno
  is : ErrorName → Errno
  minus : ErrorName → Errno

-- The bounds of the heap, from the linker script.
pub record Layout : Type 0 where
  pub heap_bottom : ℕ
  pub heap_top : ℕ

-- `uart_in` holds the characters that the receiver will deliver, `uart_out` those sent, oldest
-- first; `exit_reg` is none until the exit register is written; `cycles` is the mcycle counter.
pub record Machine : Type 0 where
  pub memory : Memory
  pub brk : ℕ
  pub errno : Errno
  pub uart_in : List ℕ
  pub uart_out : List ℕ
  pub exit_reg : Option ℕ
  pub cycles : ℕ

-- `errno = e; return -1`.
unfoldable pub fail : Errno → Machine → Machine × ℤ
fail e m = (record m { errno = e }, negsuc 0)

unfoldable pub serial_write : ℕ → Machine → Machine
serial_write c m = record m { uart_out = m.uart_out ++ c ∷ [] }

-- The loop `while (data != end_data)`; `none` means that the fuel ran out.
pub write_loop : ℕ → (address end_data : ℕ) → Machine → Option Machine
unfolding serial_write
write_loop zero address end_data m = none
write_loop (suc fuel) address end_data m =
    let rest = write_loop fuel (address + 1) end_data (serial_write (m.memory address) m) in
    if address == end_data then some m else rest

unfoldable pub write : (handle address size : ℕ) → Machine → Option (Machine × ℤ)
unfolding write_loop fail
write handle address size m =
    if handle == 1
    then (elim (write_loop (size + 1) address (address + size) m) [
      | none ↦ none
      | some m' ↦ some (m', pos size)
    ])
    else some (fail (is enosys) m)

-- `sizeof(msg)` is that of a pointer.
unfoldable pub unimplemented_syscall : (msg : ℕ) → Machine → Option Machine
unfolding write
unimplemented_syscall msg m = write 1 msg 8 m >>= (λ r. some r.0)

-- The `for` loop of `_read`. With nothing left to deliver the busy wait never ends: `none`.
pub read_loop : ℕ → (ptr : ℕ) → Machine → (pending : List ℕ) → Option Machine
unfolding store8
read_loop zero ptr m pending = some (record m { uart_in = pending })
read_loop (suc left) ptr m [] = none
read_loop (suc left) ptr m (c ∷ pending) =
    read_loop left (ptr + 1) (record m { memory = store8 m.memory ptr c }) pending

unfoldable pub read : (file ptr len : ℕ) → Machine → Option (Machine × ℤ)
unfolding read_loop
read file ptr len m =
    if file == 0
    then (elim (read_loop len ptr m m.uart_in) [ none ↦ none | some m' ↦ some (m', pos 0) ])
    else some (m, negsuc 0)

unfoldable pub isatty : ℕ → ℤ
isatty file = if file == 1 then pos 1 else pos 0

-- The register takes the low byte of the status.
unfoldable pub exit : ℕ → Machine → Machine
exit exit_status m = record m { exit_reg = some (exit_status % 2 ^ 8) }

unfoldable pub brk : ℕ → Machine → Machine × ℤ
brk addr m = (record m { brk = addr }, pos 0)

-- A 64-bit pointer moved by a `ptrdiff_t`.
unfoldable pub offset : ℕ → ℤ → ℕ
offset p (pos n) = (p + n) % 2 ^ 64
offset p (negsuc n) = (p + 2 ^ 64 - suc n) % 2 ^ 64

-- The first addition stands in the test, the second in the branch.
unfoldable pub sbrk : Layout → ℤ → Machine → Machine × ℕ
unfolding offset
sbrk l incr m =
    if l.heap_bottom == l.heap_top
    then (m, 0)
    else (let tested = offset m.brk incr in
        if ltb tested l.heap_top
        then (record m { brk = offset tested incr }, m.brk)
        else (record m { brk = l.heap_top }, m.brk))

-- The fields of `struct tms`.
pub record Tms : Type 0 where
  pub utime : ℕ
  pub stime : ℕ
  pub cutime : ℕ
  pub cstime : ℕ

unfoldable pub times : Machine → Tms × ℕ
times m = (record { utime = 0; stime = m.cycles; cutime = 0; cstime = 0 }, m.cycles)
