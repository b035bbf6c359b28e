-- ===== src/Device/Memory/Search.antt =====
-- `memchr` and `memrchr` of sw/device/base/memory.c: the first and the last occurrence of a byte.
use len5_core.Common.{
  ℕ, zero, suc, ◌+◌, ◌-◌, ◌%◌, ◌^◌, ◌<◌, ◌≤◌, ◌≡◌, ◌≢◌, refl, arith, Option, none, some, dec_lt,
  ◌==◌, ==_iff, Bool-cases, inl, inr,
}
use native.Mathlib.Numerals.{add-one}
use len5_core.Device.Memory.{Memory, find_loop, memchr, rfind_loop, memrchr}

-- No byte from `i` to `k` is `v`.
abbrev pub Lacks : Memory → (ptr v i k : ℕ) → Type 0
Lacks m ptr v i k = (j : ℕ) → i ≤ j → j < k → m (ptr + j) ≢ v

-- `a` is the address of the byte at an index between `i` and `k` that is `v`.
pub record At (m : Memory) (ptr v i k a : ℕ) : Type 0 where
  pub index : ℕ
  pub from : i ≤ index
  pub within : index < k
  pub address : a ≡ ptr + index
  pub holds : m a ≡ v

-- The search of the bytes `i` to `len` ends at the first `v`, or there is none.
abbrev pub First : Memory → (ptr v i len : ℕ) → Option ℕ → Type 0
First m ptr v i len none = Lacks m ptr v i len
First m ptr v i len (some a) = (at : At m ptr v i len a) × Lacks m ptr v i at.index

-- The search of the bytes below `k` ends at the last `v`, or there is none.
abbrev pub Last : Memory → (ptr v k : ℕ) → Option ℕ → Type 0
Last m ptr v k none = Lacks m ptr v 0 k
Last m ptr v k (some a) = (at : At m ptr v 0 k a) × Lacks m ptr v (at.index + 1) k

module _ (m : Memory) (ptr v : ℕ) where
  First-extend :
      (i len : ℕ) (r : Option ℕ)
      → m (ptr + i) ≢ v
      → First m ptr v (i + 1) len r
      → First m ptr v i len r
  First-extend i len none ne f = λ j p q. elim (dec_lt i j) [
    | yes later ↦ f j (omega arith) q
    | no now ↦ let here : j ≡ i = omega arith in rw here ne
  ]
  First-extend i len (some a) ne (at, f) = (
    record {
      index = at.index;
      from = omega (arith, at.from);
      within = at.within;
      address = at.address;
      holds = at.holds;
    },
    λ j p q. elim (dec_lt i j) [
      | yes later ↦ f j (omega arith) q
      | no now ↦ let here : j ≡ i = omega arith in rw here ne
    ],
  )

  find_loop-First :
      (left i len : ℕ) → i + left ≡ len → First m ptr v i len (find_loop left i ptr v m)
  unfolding find_loop
  find_loop-First zero i len e = λ j p q. absurd (omega arith)
  find_loop-First (suc left) i len e = elim (Bool-cases (m (ptr + i) == v)) [
    | inl hit ↦ rw hit (
      record {
        index = i;
        from = omega arith;
        within = omega arith;
        address = refl;
        holds = (==_iff (m (ptr + i)) v).0 hit;
      },
      λ j p q. absurd (omega arith),
    )
    | inr miss ↦
        rw miss (
          First-extend i len _ (λ h. ground arith) (find_loop-First left (i + 1) len (omega arith)))
  ]

  Last-extend : (k : ℕ) (r : Option ℕ) → m (ptr + k) ≢ v → Last m ptr v k r → Last m ptr v (k + 1) r
  Last-extend k none ne f = λ j p q. elim (dec_lt j k) [
    | yes later ↦ f j p later
    | no now ↦ let here : j ≡ k = omega arith in rw here ne
  ]
  Last-extend k (some a) ne (at, f) = (
    record {
      index = at.index;
      from = at.from;
      within = omega (arith, at.within);
      address = at.address;
      holds = at.holds;
    },
    λ j p q. elim (dec_lt j k) [
      | yes later ↦ f j p later
      | no now ↦ let here : j ≡ k = omega arith in rw here ne
    ],
  )

  rfind_loop-Last :
      (left i len : ℕ) → i + left ≡ len → Last m ptr v left (rfind_loop left i len ptr v m)
  unfolding rfind_loop
  rfind_loop-Last zero i len e = λ j p q. absurd (omega arith)
  rfind_loop-Last (suc left) i len e =
      let index : len - i - 1 ≡ left = omega arith in
      rw (index, ← add-one left)
        (elim (Bool-cases (m (ptr + left) == v)) [
          | inl hit ↦ rw hit (
            record {
              index = left;
              from = omega arith;
              within = omega arith;
              address = refl;
              holds = (==_iff (m (ptr + left)) v).0 hit;
            },
            λ j p q. absurd (omega arith),
          )
          | inr miss ↦ rw miss (
              Last-extend left _ (λ h. ground arith)
                (rfind_loop-Last left (i + 1) len (omega arith)))
        ])

-- `memchr` returns the address of the first of the `len` bytes that is the low byte of `value`,
-- and NULL only if none is.
pub memchr-First :
    (ptr value len : ℕ) (m : Memory) → First m ptr (value % 2 ^ 8) 0 len (memchr ptr value len m)
unfolding memchr
memchr-First ptr value len m = find_loop-First m ptr (value % 2 ^ 8) len 0 len (omega arith)

-- `memrchr` returns the address of the last of the `len` bytes that is the low byte of `value`,
-- and NULL only if none is.
pub memrchr-Last :
    (ptr value len : ℕ) (m : Memory) → Last m ptr (value % 2 ^ 8) len (memrchr ptr value len m)
unfolding memrchr
memrchr-Last ptr value len m = rfind_loop-Last m ptr (value % 2 ^ 8) len 0 len (omega arith)

-- How the two searches compare: both fail, or the first hit stands no later than the last.
abbrev pub Ordered : Option ℕ → Option ℕ → Type 0
Ordered none none = Unit {0}
Ordered none (some b) = ⊥
Ordered (some a) none = ⊥
Ordered (some a) (some b) = a ≤ b

First-Last-Ordered :
    (m : Memory) (ptr v len : ℕ) (r s : Option ℕ)
    → First m ptr v 0 len r
    → Last m ptr v len s
    → Ordered r s
First-Last-Ordered m ptr v len none none f l = tt
First-Last-Ordered m ptr v len none (some b) f (at, l) =
    f at.index at.from at.within (rw (← at.address) at.holds)
First-Last-Ordered m ptr v len (some a) none (at, f) l =
    l at.index at.from at.within (rw (← at.address) at.holds)
First-Last-Ordered m ptr v len (some a) (some b) (at, f) (at', l) =
    elim (dec_lt at'.index at.index) [
      | yes before ↦ absurd (f at'.index at'.from before (rw (← at'.address) at'.holds))
      | no after ↦ omega (arith, at.address, at'.address)
    ]

-- `memchr` and `memrchr` of the same bytes both fail or both find, the first no later.
pub memchr-memrchr :
    (ptr value len : ℕ) (m : Memory) → Ordered (memchr ptr value len m) (memrchr ptr value len m)
memchr-memrchr ptr value len m =
    First-Last-Ordered m ptr (value % 2 ^ 8) len (memchr ptr value len m) (memrchr ptr value len m)
      (memchr-First ptr value len m) (memrchr-Last ptr value len m)
