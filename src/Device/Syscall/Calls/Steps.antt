-- ===== src/Device/Syscall/Calls/Steps.antt =====
-- A program's calls as steps of the machine: what any sequence of them can do to the serial
-- lines and to the break of sw/device/runtime/syscall.c.
use mathlib.Core.List.{append_assoc, append-nil}
use len5_core.Common.{
  some_inj, Option-cases, All, ℕ, zero, suc, ◌+◌, ◌≡◌, refl, sym, ap, ◌∙◌, arith, Option, none,
  some, List, [], ◌∷◌, ◌++◌, true, false, ◌==◌, if◌then◌else◌, Bool-cases, inl, inr,
}
use len5_core.Common.Int.{ℤ, pos}
use len5_core.Device.Syscall.{Layout, Machine, read_loop, read, brk, sbrk, unimplemented_syscall}
use len5_core.Device.Syscall.Serial.{bytes, write_lem}
use len5_core.Device.Syscall.Calls.Program.{
  Stub, answer, Call, Target, run, returns, run_all, state_of, stub, write_call, read_call,
  brk_call, sbrk_call, fstat_call, stat_call, times_call, isatty_call, unimplemented_call,
  exit_call, access, chdir, chmod, chown, close, execve, faccessat, fork, fstatat, ftime,
  gettimeofday, kill, link, lstat, open_file, openat, sysconf, unlink, utime, wait, getcwd, getpid,
  lseek,
}

-- The bytes that a call sends.
pub sent : Call → Machine → List ℕ
sent (write_call handle address size) m = if handle == 1 then bytes m.memory address size else []
sent (unimplemented_call msg) m = bytes m.memory msg 8
sent _ m = []

answer-uart_out : (s : Stub) (m : Machine) → (answer s m).0.uart_out ≡ m.uart_out
unfolding answer
answer-uart_out access m = refl
answer-uart_out chdir m = refl
answer-uart_out chmod m = refl
answer-uart_out chown m = refl
answer-uart_out close m = refl
answer-uart_out execve m = refl
answer-uart_out faccessat m = refl
answer-uart_out fork m = refl
answer-uart_out fstatat m = refl
answer-uart_out ftime m = refl
answer-uart_out gettimeofday m = refl
answer-uart_out kill m = refl
answer-uart_out link m = refl
answer-uart_out lstat m = refl
answer-uart_out open_file m = refl
answer-uart_out openat m = refl
answer-uart_out sysconf m = refl
answer-uart_out unlink m = refl
answer-uart_out utime m = refl
answer-uart_out wait m = refl
answer-uart_out getcwd m = refl
answer-uart_out getpid m = refl
answer-uart_out lseek m = refl

answer-brk : (s : Stub) (m : Machine) → (answer s m).0.brk ≡ m.brk
unfolding answer
answer-brk access m = refl
answer-brk chdir m = refl
answer-brk chmod m = refl
answer-brk chown m = refl
answer-brk close m = refl
answer-brk execve m = refl
answer-brk faccessat m = refl
answer-brk fork m = refl
answer-brk fstatat m = refl
answer-brk ftime m = refl
answer-brk gettimeofday m = refl
answer-brk kill m = refl
answer-brk link m = refl
answer-brk lstat m = refl
answer-brk open_file m = refl
answer-brk openat m = refl
answer-brk sysconf m = refl
answer-brk unlink m = refl
answer-brk utime m = refl
answer-brk wait m = refl
answer-brk getcwd m = refl
answer-brk getpid m = refl
answer-brk lseek m = refl

read_loop-uart_out :
    (left ptr : ℕ) (m m' : Machine) (pending : List ℕ)
    → read_loop left ptr m pending ≡ some m'
    → (m'.uart_out ≡ m.uart_out) × (m'.brk ≡ m.brk)
unfolding read_loop
read_loop-uart_out zero ptr m m' pending h = ground arith
read_loop-uart_out (suc left) ptr m m' [] h = cc
read_loop-uart_out (suc left) ptr m m' (c ∷ pending) h =
    read_loop-uart_out left (ptr + 1) _ m' pending h

-- What a call does to the output and, unless it is `_brk` or `_sbrk`, to the break.
abbrev pub Effect : Call → Machine → Machine → Type 0
Effect (brk_call addr) m m' = m'.uart_out ≡ m.uart_out ++ []
Effect (sbrk_call incr) m m' = m'.uart_out ≡ m.uart_out ++ []
Effect c m m' = (m'.uart_out ≡ m.uart_out ++ sent c m) × (m'.brk ≡ m.brk)

sbrk-uart_out : (l : Layout) (incr : ℤ) (m : Machine) → (sbrk l incr m).0.uart_out ≡ m.uart_out
unfolding sbrk
sbrk-uart_out l incr m = ground arith

-- A call that leaves both alone.
silent :
    (m t m' : Machine)
    → t.uart_out ≡ m.uart_out
    → t.brk ≡ m.brk
    → some t ≡ some m'
    → (m'.uart_out ≡ m.uart_out ++ []) × (m'.brk ≡ m.brk)
silent m t m' out top h =
    let e = some_inj h in
    (
      sym (ap (λ (s : Machine). s.uart_out) e) ∙ out ∙ sym (append-nil m.uart_out),
      sym (ap (λ (s : Machine). s.brk) e) ∙ top,
    )

none_ne_some : {m : Machine} → ¬ (none ≡ some m)
none_ne_some h = cc

finished :
    (r : Option Machine) (m m' : Machine)
    → ((t : Machine) → r ≡ some t → (t.uart_out ≡ m.uart_out) × (t.brk ≡ m.brk))
    → state_of (elim r [ none ↦ none | some t ↦ some (t, pos 0) ]) ≡ some m'
    → (m'.uart_out ≡ m.uart_out) × (m'.brk ≡ m.brk)
finished none m m' same h = cc
finished (some t) m m' same h =
    let e = some_inj h in
    let (out, top) = same t refl in
    (sym (ap (λ (s : Machine). s.uart_out) e) ∙ out, sym (ap (λ (s : Machine). s.brk) e) ∙ top)

read-Effect :
    (file ptr len : ℕ) (m m' : Machine)
    → state_of (read file ptr len m) ≡ some m'
    → (m'.uart_out ≡ m.uart_out) × (m'.brk ≡ m.brk)
unfolding read
read-Effect file ptr len m m' h = elim (Bool-cases (file == 0)) [
  | inl in_use ↦
      finished (read_loop len ptr m m.uart_in) m m' (λ t. read_loop-uart_out len ptr m t m.uart_in)
        (rw in_use at h)
  | inr other ↦
      let e : m ≡ m' = some_inj (rw other at h) in
      (sym (ap (λ (t : Machine). t.uart_out) e), sym (ap (λ (t : Machine). t.brk) e))
]

run-Effect : (l : Target) (c : Call) (m m' : Machine) → run l c m ≡ some m' → Effect c m m'
unfolding run sent brk unimplemented_syscall
run-Effect l (stub s) m m' h = silent m (answer s m).0 m' (answer-uart_out s m) (answer-brk s m) h
run-Effect l (write_call handle address size) m m' h =
    ground (arith, write_lem handle address size m, append-nil m.uart_out)
run-Effect l (read_call file ptr len) m m' h =
    let (out, top) = read-Effect file ptr len m m' h in (out ∙ sym (append-nil _), top)
run-Effect l (brk_call addr) m m' h =
    sym (ap (λ (t : Machine). t.uart_out) (some_inj h)) ∙ sym (append-nil m.uart_out)
run-Effect l (sbrk_call incr) m m' h =
    sym (ap (λ (t : Machine). t.uart_out) (some_inj h))
    ∙ sbrk-uart_out l.layout incr m
    ∙ sym (append-nil m.uart_out)
run-Effect l (fstat_call st) m m' h = silent m _ m' refl refl h
run-Effect l (stat_call st) m m' h = silent m _ m' refl refl h
run-Effect l (times_call buf) m m' h = silent m _ m' refl refl h
run-Effect l (isatty_call file) m m' h = silent m m m' refl refl h
run-Effect l (unimplemented_call msg) m m' h =
    ground (arith, write_lem 1 msg 8 m, append-nil m.uart_out)
run-Effect l (exit_call exit_status) m m' h = silent m _ m' refl refl h

-- The bytes that a sequence of calls sends, each call's taken from the memory that it finds.
pub sent_all : Target → List Call → Machine → List ℕ
sent_all l [] m = []
sent_all l (c ∷ cs) m = elim (run l c m) [
  | none ↦ []
  | some m' ↦ sent c m ++ (elim (returns c) [ true ↦ sent_all l cs m' | false ↦ [] ])
]

Effect-uart_out : (c : Call) (m m' : Machine) → Effect c m m' → m'.uart_out ≡ m.uart_out ++ sent c m
unfolding sent
Effect-uart_out (stub s) m m' h = h.0
Effect-uart_out (write_call handle address size) m m' h = h.0
Effect-uart_out (read_call file ptr len) m m' h = h.0
Effect-uart_out (brk_call addr) m m' h = h
Effect-uart_out (sbrk_call incr) m m' h = h
Effect-uart_out (fstat_call st) m m' h = h.0
Effect-uart_out (stat_call st) m m' h = h.0
Effect-uart_out (times_call buf) m m' h = h.0
Effect-uart_out (isatty_call file) m m' h = h.0
Effect-uart_out (unimplemented_call msg) m m' h = h.0
Effect-uart_out (exit_call exit_status) m m' h = h.0

-- Over any sequence of system calls in which no read waits for ever, up to an `_exit` if it has one, the
-- serial output is what was there before, followed by exactly the bytes of the writes to STDOUT and the
-- first 8 bytes of the message of each unimplemented_syscall, in the order of the calls, each read
-- from the memory that the earlier calls left.
pub run_all-uart_out :
    (l : Target) (cs : List Call) (m m' : Machine)
    → run_all l cs m ≡ some m'
    → m'.uart_out ≡ m.uart_out ++ sent_all l cs m
unfolding run_all sent_all
run_all-uart_out l [] m m' h =
    sym (ap (λ (t : Machine). t.uart_out) (some_inj h)) ∙ sym (append-nil _)
run_all-uart_out l (c ∷ cs) m m' h = elim (Option-cases (run l c m)) [
  | inl stuck ↦ absurd (none_ne_some (rw (stuck, run_all) at h))
  | inr (t, e) ↦
      let first = Effect-uart_out c m t (run-Effect l c m t e) in
      elim (Bool-cases (returns c)) [
        | inl goes_on ↦
            rw (e, sent_all, goes_on)
              (run_all-uart_out l cs t m' (rw (e, run_all, goes_on) at h)
                ∙ ap (λ o. o ++ sent_all l cs t) first
                ∙ append_assoc m.uart_out (sent c m) (sent_all l cs t))
        | inr stops ↦
            let over : t ≡ m' = some_inj (rw (e, run_all, stops) at h) in
            rw (e, sent_all, stops)
              (sym (ap (λ (s : Machine). s.uart_out) over)
                ∙ first
                ∙ ap (λ o. m.uart_out ++ o) (sym (append-nil (sent c m))))
      ]
]

-- A call that leaves the break alone.
abbrev pub KeepsBreak : Call → Type 0
KeepsBreak (brk_call addr) = ⊥
KeepsBreak (sbrk_call incr) = ⊥
KeepsBreak _ = Unit

Effect-brk : (c : Call) (m m' : Machine) → KeepsBreak c → Effect c m m' → m'.brk ≡ m.brk
Effect-brk (stub s) m m' k h = h.1
Effect-brk (write_call handle address size) m m' k h = h.1
Effect-brk (read_call file ptr len) m m' k h = h.1
Effect-brk (brk_call addr) m m' k h = absurd k
Effect-brk (sbrk_call incr) m m' k h = absurd k
Effect-brk (fstat_call st) m m' k h = h.1
Effect-brk (stat_call st) m m' k h = h.1
Effect-brk (times_call buf) m m' k h = h.1
Effect-brk (isatty_call file) m m' k h = h.1
Effect-brk (unimplemented_call msg) m m' k h = h.1
Effect-brk (exit_call exit_status) m m' k h = h.1

-- Only `_brk` and `_sbrk` move the break: a sequence of the other calls leaves it where it was.
pub run_all-brk :
    (l : Target) (cs : List Call) (m m' : Machine)
    → All KeepsBreak cs
    → run_all l cs m ≡ some m'
    → m'.brk ≡ m.brk
unfolding run_all
run_all-brk l [] m m' k h = sym (ap (λ (t : Machine). t.brk) (some_inj h))
run_all-brk l (c ∷ cs) m m' (k, ks) h = elim (Option-cases (run l c m)) [
  | inl stuck ↦ absurd (none_ne_some (rw (stuck, run_all) at h))
  | inr (t, e) ↦
      let first = Effect-brk c m t k (run-Effect l c m t e) in
      elim (Bool-cases (returns c)) [
        | inl goes_on ↦ run_all-brk l cs t m' ks (rw (e, run_all, goes_on) at h) ∙ first
        | inr stops ↦
            let over : t ≡ m' = some_inj (rw (e, run_all, stops) at h) in
            sym (ap (λ (s : Machine). s.brk) over) ∙ first
      ]
]
