-- ===== src/Device/Memory/Compare.antt =====
-- `memcmp` of sw/device/base/memory.c as the lexicographic order of unsigned bytes.
use len5_core.Common.{
  some, ℕ, zero, suc, ◌+◌, ◌<◌, ◌≤◌, ◌≡◌, refl, arith, lt→ltb, le→ltb, dec_lt, sym,
}
use len5_core.Device.Memory.{Memory, MemCmp, eq, lt, gt, compare_loop, memcmp, memcpy}
use len5_core.Device.Memory.Copy.{Apart, IsBytes, memcpy_lem}

-- The two areas agree on the bytes `i` to `k`.
abbrev pub SameBytes : Memory → (lhs rhs i k : ℕ) → Type 0
SameBytes m lhs rhs i k = (j : ℕ) → i ≤ j → j < k → m (lhs + j) ≡ m (rhs + j)

-- The first byte from `i` on that differs is byte `k`, where `lhs` holds the smaller one.
pub record FirstBelow (m : Memory) (lhs rhs i len : ℕ) : Type 0 where
  pub k : ℕ
  pub from : i ≤ k
  pub within : k < len
  pub before : SameBytes m lhs rhs i k
  pub below : m (lhs + k) < m (rhs + k)

-- What each result says about the bytes `i` to `len`.
abbrev pub Verdict : Memory → (lhs rhs i len : ℕ) → MemCmp → Type 0
Verdict m lhs rhs i len eq = SameBytes m lhs rhs i len
Verdict m lhs rhs i len lt = FirstBelow m lhs rhs i len
Verdict m lhs rhs i len gt = FirstBelow m rhs lhs i len

module _ (m : Memory) where
  SameBytes-extend :
      (lhs rhs i k : ℕ)
      → m (lhs + i) ≡ m (rhs + i)
      → SameBytes m lhs rhs (i + 1) k
      → SameBytes m lhs rhs i k
  SameBytes-extend lhs rhs i k e s j p q = elim (dec_lt i j) [
    | yes later ↦ s j (omega arith) q
    | no now ↦ let here : j ≡ i = omega arith in rw here e
  ]

  FirstBelow-extend :
      (lhs rhs i len : ℕ)
      → m (lhs + i) ≡ m (rhs + i)
      → FirstBelow m lhs rhs (i + 1) len
      → FirstBelow m lhs rhs i len
  FirstBelow-extend lhs rhs i len e f = record {
    k = f.k;
    from = omega (arith, f.from);
    within = f.within;
    before = SameBytes-extend lhs rhs i f.k e f.before;
    below = f.below;
  }

  FirstBelow-here :
      (lhs rhs i len : ℕ) → i < len → m (lhs + i) < m (rhs + i) → FirstBelow m lhs rhs i len
  FirstBelow-here lhs rhs i len h b = record {
    k = i;
    from = omega arith;
    within = h;
    before = λ j p q. absurd (omega arith);
    below = b;
  }

  Verdict-extend :
      (lhs rhs i len : ℕ) (r : MemCmp)
      → m (lhs + i) ≡ m (rhs + i)
      → Verdict m lhs rhs (i + 1) len r
      → Verdict m lhs rhs i len r
  Verdict-extend lhs rhs i len eq e v = SameBytes-extend lhs rhs i len e v
  Verdict-extend lhs rhs i len lt e v = FirstBelow-extend lhs rhs i len e v
  Verdict-extend lhs rhs i len gt e v = FirstBelow-extend rhs lhs i len (sym e) v

  compare_loop-Verdict :
      (left i lhs rhs len : ℕ)
      → i + left ≡ len
      → Verdict m lhs rhs i len (compare_loop left i lhs rhs m)
  unfolding compare_loop
  compare_loop-Verdict zero i lhs rhs len e = λ j p q. absurd (omega arith)
  compare_loop-Verdict (suc left) i lhs rhs len e = elim (dec_lt (m (lhs + i)) (m (rhs + i))) [
    | yes below ↦
        rw (lt→ltb (m (lhs + i)) (m (rhs + i)) below)
          (FirstBelow-here lhs rhs i len (omega arith) below)
    | no above ↦ elim (dec_lt (m (rhs + i)) (m (lhs + i))) [
      | yes less ↦
          rw
            (
              le→ltb (m (lhs + i)) (m (rhs + i)) (omega arith),
              lt→ltb (m (rhs + i)) (m (lhs + i)) less,
            )
            (FirstBelow-here rhs lhs i len (omega arith) less)
      | no more ↦
          rw
            (
              le→ltb (m (lhs + i)) (m (rhs + i)) (omega arith),
              le→ltb (m (rhs + i)) (m (lhs + i)) (omega arith),
            )
            (Verdict-extend lhs rhs i len _ (omega arith)
              (compare_loop-Verdict left (i + 1) lhs rhs len (omega arith)))
    ]
  ]

-- `memcmp` returns kMemCmpEq only if all bytes agree, and kMemCmpLt (kMemCmpGt) only if at the
-- first byte that differs the left (right) side is the smaller one, as unsigned bytes.
pub memcmp-Verdict : (lhs rhs len : ℕ) (m : Memory) → Verdict m lhs rhs 0 len (memcmp lhs rhs len m)
unfolding memcmp
memcmp-Verdict lhs rhs len m = compare_loop-Verdict m len 0 lhs rhs len (omega arith)

abbrev pub flip : MemCmp → MemCmp
flip eq = eq
flip lt = gt
flip gt = lt

compare_loop-flip :
    (left i lhs rhs : ℕ) (m : Memory)
    → compare_loop left i rhs lhs m ≡ flip (compare_loop left i lhs rhs m)
unfolding compare_loop
compare_loop-flip zero i lhs rhs m = refl
compare_loop-flip (suc left) i lhs rhs m = ground (arith, compare_loop-flip left (i + 1) lhs rhs m)

-- Swapping the arguments of `memcmp` flips its result.
pub memcmp-flip :
    (lhs rhs len : ℕ) (m : Memory) → memcmp rhs lhs len m ≡ flip (memcmp lhs rhs len m)
unfolding memcmp
memcmp-flip lhs rhs len m = compare_loop-flip len 0 lhs rhs m

eq_of-Verdict :
    (m : Memory) (lhs rhs len : ℕ) (r : MemCmp)
    → Verdict m lhs rhs 0 len r
    → SameBytes m lhs rhs 0 len
    → r ≡ eq
eq_of-Verdict m lhs rhs len eq v s = refl
eq_of-Verdict m lhs rhs len lt v s = absurd (omega (arith, s v.k v.from v.within, v.below))
eq_of-Verdict m lhs rhs len gt v s = absurd (omega (arith, s v.k v.from v.within, v.below))

-- A `memcpy` between areas that do not overlap leaves two areas that `memcmp` finds equal.
pub memcmp-memcpy :
    (dest src len : ℕ) (m : Memory)
    → Apart dest src len
    → IsBytes m
    → (m' : Memory) × (memcpy dest src len m ≡ some (m', dest)) × (memcmp dest src len m' ≡ eq)
memcmp-memcpy dest src len m apart b =
    let (m', ends, copied, kept) = memcpy_lem dest src len m apart b in
    (
      m',
      ends,
      eq_of-Verdict m' dest src len _ (memcmp-Verdict dest src len m')
          (λ j p q. omega (arith, copied j q, kept (src + j) (omega (arith, apart)))),
    )
