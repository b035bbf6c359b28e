-- ===== src/Device/Syscall/Calls/Program.antt =====
-- A program as the sequence of its calls of sw/device/runtime/syscall.c, each with the store through its
-- pointer. What `struct stat` and `struct tms` look like comes from the C library, and is a parameter.
use len5_core.Common.{ℕ, Option, none, some, List, [], ◌∷◌, Bool, true, false}
use len5_core.Common.Int.{ℤ}
use len5_core.Device.Syscall.{
  Layout, Machine, write, read, brk, sbrk, Tms, times, isatty, exit, unimplemented_syscall,
}
use len5_core.Device.Syscall.Calls
use len5_core.Device.Syscall.Calls.{FileMode}
use len5_core.Device.Memory.{Memory}

-- The calls that only answer.
pub data Stub : Type 0 where
  access chdir chmod chown close execve : Stub
  faccessat fork fstatat ftime gettimeofday kill : Stub
  link lstat open_file openat sysconf unlink : Stub
  utime wait getcwd getpid lseek : Stub

unfoldable pub answer : Stub → Machine → Machine × ℤ
unfolding Calls.access Calls.chdir Calls.chmod Calls.chown Calls.close Calls.execve Calls.faccessat
    Calls.fork Calls.fstatat Calls.ftime Calls.gettimeofday Calls.kill Calls.link Calls.lstat
    Calls.open_file Calls.openat Calls.sysconf Calls.unlink Calls.utime Calls.wait Calls.getcwd
    Calls.getpid Calls.lseek
answer access = Calls.access
answer chdir = Calls.chdir
answer chmod = Calls.chmod
answer chown = Calls.chown
answer close = Calls.close
answer execve = Calls.execve
answer faccessat = Calls.faccessat
answer fork = Calls.fork
answer fstatat = Calls.fstatat
answer ftime = Calls.ftime
answer gettimeofday = Calls.gettimeofday
answer kill = Calls.kill
answer link = Calls.link
answer lstat = Calls.lstat
answer open_file = Calls.open_file
answer openat = Calls.openat
answer sysconf = Calls.sysconf
answer unlink = Calls.unlink
answer utime = Calls.utime
answer wait = Calls.wait
answer getcwd = Calls.getcwd
answer getpid = Calls.getpid
answer lseek = Calls.lseek

pub data Call : Type 0 where
  stub : Stub → Call
  write_call read_call : (handle address size : ℕ) → Call
  brk_call : ℕ → Call
  sbrk_call : ℤ → Call
  fstat_call stat_call : (st : ℕ) → Call
  times_call : (buf : ℕ) → Call
  isatty_call : (file : ℕ) → Call
  unimplemented_call : (msg : ℕ) → Call
  exit_call : (exit_status : ℕ) → Call

-- What the linker script and the headers of the C library give: the bounds of the heap, and where
-- the mode and the times stand in the structures that the calls fill.
pub record Target : Type 0 where
  pub layout : Layout
  pub store_mode : (st : ℕ) → FileMode → Memory → Memory
  pub store_tms : (buf : ℕ) → Tms → Memory → Memory

-- The state that a call leaves, from the state and the value that it gives.
abbrev pub state_of : Option (Machine × ℤ) → Option Machine
state_of r = elim r [ none ↦ none | some (t, v) ↦ some t ]

-- One call; `none` is a read that waits for ever.
unfoldable pub run : Target → Call → Machine → Option Machine
unfolding Calls.fstat Calls.stat times exit
run l (stub s) m = some (answer s m).0
run l (write_call handle address size) m = state_of (write handle address size m)
run l (read_call file ptr len) m = state_of (read file ptr len m)
run l (brk_call addr) m = some (brk addr m).0
run l (sbrk_call incr) m = some (sbrk l.layout incr m).0
run l (fstat_call st) m =
    let r = Calls.fstat m in some (record r.0 { memory = l.store_mode st r.2 r.0.memory })
run l (stat_call st) m =
    let r = Calls.stat m in some (record r.0 { memory = l.store_mode st r.2 r.0.memory })
run l (times_call buf) m = some (record m { memory = l.store_tms buf (times m).0 m.memory })
run l (isatty_call file) m = state_of (some (m, isatty file))
run l (unimplemented_call msg) m = unimplemented_syscall msg m
run l (exit_call exit_status) m = some (exit exit_status m)

-- `_exit` does not return.
abbrev pub returns : Call → Bool
returns (exit_call exit_status) = false
returns _ = true

-- The calls up to the first that does not return.
unfoldable pub run_all : Target → List Call → Machine → Option Machine
run_all l [] m = some m
run_all l (c ∷ cs) m = elim (run l c m) [
  | none ↦ none
  | some m' ↦ elim (returns c) [ true ↦ run_all l cs m' | false ↦ some m' ]
]
