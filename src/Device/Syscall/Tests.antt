-- ===== src/Device/Syscall/Tests.antt =====
-- Runs of the system calls, and their theorems at a small machine.
use len5_core.Common.{◌+◌, ◌<◌, ◌≡◌, refl, arith, List, [], ◌∷◌, ◌++◌, none, some, ◌%◌, ◌^◌}
use len5_core.Common.Int.{pos, negsuc}
use len5_core.Device.Syscall.{
  Layout, Machine, unset, is, enosys, write, read, sbrk, brk, write_loop, unimplemented_syscall,
}
use len5_core.Device.Memory.{store8}
use len5_core.Device.Syscall.Serial.{Reads, write_lem, read-Reads, write-read}
use len5_core.Device.Syscall.Heap.{sbrk_fits, sbrk_overrun, sbrk_twice, brk_sbrk}
use len5_core.Device.Syscall.Calls.Program.{
  Target, Call, stub, write_call, times_call, unimplemented_call, exit_call, getpid, run_all, run,
  answer,
}
use len5_core.Device.Syscall.Calls.Steps.{sent_all, run_all-uart_out, run_all-brk}

-- A heap from 4096 to 8192.
abbrev layout : Layout
layout = record { heap_bottom = 4096; heap_top = 8192 }

abbrev machine : Machine
machine = record {
  memory = λ a. a % 2 ^ 8;
  brk = 4096;
  errno = unset;
  uart_in = b'h' ∷ b'i' ∷ b'!' ∷ [];
  uart_out = [];
  exit_reg = none;
  cycles = 7;
}

write_runs : write 1 65 3 machine ≡ some (record machine { uart_out = 65 ∷ 66 ∷ 67 ∷ [] }, pos 3)
unfolding write
write_runs = refl

write_lem_example : write 2 65 3 machine ≡ some (record machine { errno = is enosys }, negsuc 0)
write_lem_example = write_lem 2 65 3 machine

read-Reads_example : Reads machine 2 50 (read 0 50 2 machine)
read-Reads_example = read-Reads 2 50 machine (omega arith)

write-read_example :
    (m' m'' : Machine) × (read 0 50 2 machine ≡ some (m', pos 0))
    × (write 1 50 2 m' ≡ some (m'', pos 2))
    × (m''.uart_out ≡ b'h' ∷ b'i' ∷ [])
write-read_example = write-read 2 50 machine (omega arith) (omega arith)

sbrk_fits_example : sbrk layout (pos 16) machine ≡ (record machine { brk = 4128 }, 4096)
sbrk_fits_example = sbrk_fits layout machine (omega arith) 16 (omega arith) (omega arith)

sbrk_runs : sbrk layout (pos 9999) machine ≡ (record machine { brk = 8192 }, 4096)
unfolding sbrk
sbrk_runs = refl

sbrk_overrun_example : 8192 < (sbrk layout (pos 3000) machine).0.brk
sbrk_overrun_example =
    sbrk_overrun layout machine (omega arith) 3000 (omega arith) (omega arith) (omega arith)

sbrk_twice_example :
    (sbrk layout (pos 8) (sbrk layout (pos 16) machine).0).1
    ≡ (sbrk layout (pos 16) machine).1 + 16 + 16
sbrk_twice_example = sbrk_twice layout machine (omega arith) 16 (pos 8) (omega arith) (omega arith)

brk_sbrk_example : sbrk layout (pos 0) (brk 5000 machine).0 ≡ ((brk 5000 machine).0, 5000)
brk_sbrk_example = brk_sbrk layout machine 5000 (omega arith) (omega arith) (omega arith)

-- `st_mode` stands at the start of its structure, `tms_stime` behind 8 bytes; a byte of each is stored.
abbrev target : Target
target = record {
  layout = layout;
  store_mode = λ st mode m. store8 m st 32;
  store_tms = λ buf t m. store8 m (buf + 8) t.stime;
}

-- The second message is that of the memory that _times has changed; the last call is not made.
abbrev calls : List Call
calls =
    write_call 1 65 2
    ∷ stub getpid
    ∷ write_call 2 65 2
    ∷ times_call 62
    ∷ unimplemented_call 65
    ∷ exit_call 0
    ∷ write_call 1 70 1
    ∷ []

-- The machine after these calls.
abbrev after : Machine
after = record machine {
  memory = store8 machine.memory 70 7;
  uart_out = 65 ∷ 66 ∷ 65 ∷ 66 ∷ 67 ∷ 68 ∷ 69 ∷ 7 ∷ 71 ∷ 72 ∷ [];
  errno = is enosys;
  exit_reg = some 0;
}

calls_run : run_all target calls machine ≡ some after
unfolding run_all run answer write write_loop unimplemented_syscall store8
calls_run = refl

run_all-uart_out_example : after.uart_out ≡ machine.uart_out ++ sent_all target calls machine
run_all-uart_out_example = run_all-uart_out target calls machine after calls_run

run_all-brk_example : after.brk ≡ machine.brk
run_all-brk_example =
    run_all-brk target calls machine after (tt, (tt, (tt, (tt, (tt, (tt, (tt, tt))))))) calls_run
