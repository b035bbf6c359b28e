-- ===== src/Device/Memory/Tests.antt =====
-- Runs of the memory routines, and their theorems at a small memory.
use len5_core.Common.{ℕ, ◌+◌, ◌%◌, ◌^◌, ◌<◌, ◌≡◌, refl, arith, none, some}
use len5_core.Device.Memory.{
  Memory, eq, lt, gt, memcpy, memset, memcmp, memchr, memrchr, read_32, write_32,
}
use len5_core.Device.Memory.Copy.{IsBytes, Outside, memcpy_lem, memset_lem}
use len5_core.Device.Memory.Compare.{Verdict, flip, memcmp-Verdict, memcmp-flip, memcmp-memcpy}
use len5_core.Device.Memory.Search.{
  First, Last, Ordered, memchr-First, memrchr-Last, memchr-memrchr,
}
use len5_core.Device.Memory.Words.{read_32-write_32, read_32-memcpy}

-- Each cell holds the low byte of its address.
abbrev sample : Memory
sample a = a % 2 ^ 8

sample-IsBytes : IsBytes sample
sample-IsBytes a = omega arith

memcpy_runs :
    ((m' : Memory) × (memcpy 10 3 4 sample ≡ some (m', 10)) × (m' 12 ≡ 5))
    × (memcpy 3 5 4 sample ≡ none)
    × (memcpy 5 3 4 sample ≡ none)
unfolding memcpy
memcpy_runs = ((_, refl, refl), refl, refl)

words_run :
    (read_32 8 sample ≡ some 0x0b0a0908) × (read_32 6 sample ≡ none) × (write_32 1 9 sample ≡ none)
unfolding read_32 write_32
words_run = (refl, refl, refl)

memcmp_runs : (memcmp 3 259 5 sample ≡ eq) × (memcmp 3 4 1 sample ≡ lt) × (memcmp 9 4 2 sample ≡ gt)
unfolding memcmp
memcmp_runs = (refl, refl, refl)

memchr_runs :
    (memchr 0 5 600 sample ≡ some 5)
    × (memrchr 0 5 600 sample ≡ some 517)
    × (memchr 0 9 5 sample ≡ none)
unfolding memchr memrchr
memchr_runs = (refl, refl, refl)

memcpy_lem_example :
    (m' : Memory) × (memcpy 10 3 4 sample ≡ some (m', 10))
    × ((j : ℕ) → j < 4 → m' (10 + j) ≡ sample (3 + j))
    × ((a : ℕ) → Outside 10 4 a → m' a ≡ sample a)
memcpy_lem_example = memcpy_lem 10 3 4 sample (omega arith) sample-IsBytes

memset_lem_example :
    ((memset 10 300 4 sample).1 ≡ 10)
    × ((j : ℕ) → j < 4 → (memset 10 300 4 sample).0 (10 + j) ≡ 44)
    × ((a : ℕ) → Outside 10 4 a → (memset 10 300 4 sample).0 a ≡ sample a)
memset_lem_example = memset_lem 10 300 4 sample

memcmp-Verdict_example : Verdict sample 3 4 0 2 (memcmp 3 4 2 sample)
memcmp-Verdict_example = memcmp-Verdict 3 4 2 sample

memcmp-flip_example : memcmp 4 3 2 sample ≡ flip (memcmp 3 4 2 sample)
memcmp-flip_example = memcmp-flip 3 4 2 sample

memcmp-memcpy_example :
    (m' : Memory) × (memcpy 10 3 4 sample ≡ some (m', 10)) × (memcmp 10 3 4 m' ≡ eq)
memcmp-memcpy_example = memcmp-memcpy 10 3 4 sample (omega arith) sample-IsBytes

memchr-First_example : First sample 0 5 0 600 (memchr 0 261 600 sample)
memchr-First_example = memchr-First 0 261 600 sample

memrchr-Last_example : Last sample 0 5 600 (memrchr 0 261 600 sample)
memrchr-Last_example = memrchr-Last 0 261 600 sample

memchr-memrchr_example : Ordered (memchr 0 5 600 sample) (memrchr 0 5 600 sample)
memchr-memrchr_example = memchr-memrchr 0 5 600 sample

read_32-write_32_example :
    (m' : Memory) × (write_32 0x1_0000_0005 8 sample ≡ some m')
    × (read_32 8 m' ≡ some 5)
    × ((a : ℕ) → Outside 8 4 a → m' a ≡ sample a)
read_32-write_32_example = read_32-write_32 0x1_0000_0005 8 sample (omega arith)

read_32-memcpy_example :
    (m' : Memory) × (memcpy 11 3 6 sample ≡ some (m', 11)) × (read_32 12 m' ≡ read_32 4 sample)
read_32-memcpy_example =
    read_32-memcpy 11 3 6 1 sample (omega arith) sample-IsBytes (omega arith) (omega arith)
      (omega arith)
