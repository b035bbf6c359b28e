-- ===== src/Coremark/StateMachine/Corrupt.antt =====
-- The corruption loops of `core_bench_state`: they end, and with equal seeds the second one undoes
-- the first.
use len5_core.Common.{
  ℕ, zero, suc, ◌+◌, ◌-◌, ◌*◌, ◌%◌, ◌^◌, ◌≤◌, ◌<◌, ◌≡◌, refl, ap, ◌∙◌, ◌≢◌, ◌⊎◌, inl, inr, true,
  false, not, some, arith, dec_lt, ℕ_discrete, ltb, if◌then◌else◌, Bool-cases,
}
use len5_core.Common.Bits.{bit_xor_cancel, bit_xor-lt}
use len5_core.Device.Memory.{Memory, store8}
use len5_core.Device.Memory.Copy.{store8_self, store8_ne, IsBytes}
use len5_core.Coremark.StateMachine.{is_comma, corrupt_loop}
use native.Mathlib.Nat.{mul-le-mul}
use Prim.Native.Nat.{bit_xor}
use native.Mathlib.Nat.{le_refl}

-- What the loop makes of one byte.
abbrev pub flip : (seed b : ℕ) → ℕ
flip seed b = if not (is_comma b) then bit_xor b seed % 2 ^ 8 else b

-- The loop as a function on memories: each cell is either left alone by every run, or is one of
-- the cells `p + i * step` below `end` and flipped by every run.
pub record Pass (fuel p end seed step : ℕ) : Type 0 where
  pub after : Memory → Memory
  pub returns : (m : Memory) → corrupt_loop fuel p end seed step m ≡ some (after m)
  pub before : (m : Memory) (x : ℕ) → x < p → after m x ≡ m x
  pub each :
      (x : ℕ)
      → ((m : Memory) → after m x ≡ m x)
        ⊎ ((i : ℕ) × (x ≡ p + i * step) × (x < end) × ((m : Memory) → after m x ≡ flip seed (m x)))

corrupt_step : (seed p : ℕ) → Memory → Memory
corrupt_step seed p m = if not (is_comma (m p)) then store8 m p (bit_xor (m p) seed) else m

corrupt_step_self : (seed p : ℕ) (m : Memory) → corrupt_step seed p m p ≡ flip seed (m p)
unfolding corrupt_step
corrupt_step_self seed p m = elim (Bool-cases (is_comma (m p))) [
  | inl h ↦ rw h refl
  | inr h ↦ rw h (store8_self m p _)
]

corrupt_step_ne : (seed p : ℕ) (m : Memory) (x : ℕ) → x ≢ p → corrupt_step seed p m x ≡ m x
unfolding corrupt_step
corrupt_step_ne seed p m x ne = elim (Bool-cases (is_comma (m p))) [
  | inl h ↦ rw h refl
  | inr h ↦ rw h (store8_ne m p _ x (omega (arith, ne)))
]

pub corrupt_loop-Pass :
    (fuel p end seed step : ℕ) → 1 ≤ step → end - p < fuel → Pass fuel p end seed step
unfolding corrupt_loop corrupt_step
corrupt_loop-Pass zero p end seed step pos enough = absurd (omega (arith, enough))
corrupt_loop-Pass (suc fuel) p end seed step pos enough = elim (dec_lt p end) [
  | no done ↦
      let stop : ltb p end ≡ false = ground (arith, done) in
      record {
        after = λ m. m;
        returns = λ m. rw stop refl;
        before = λ m x h. refl;
        each = λ x. inl (λ m. refl);
      }
  | yes more ↦
      let go : ltb p end ≡ true = ground (arith, more) in
      let rest = corrupt_loop-Pass fuel (p + step) end seed step pos (omega arith) in
      record {
        after = λ m. rest.after (corrupt_step seed p m);
        returns = λ m. rw go (rest.returns (corrupt_step seed p m));
        before = λ m x h.
            rest.before (corrupt_step seed p m) x (omega arith)
            ∙ corrupt_step_ne seed p m x (omega arith);
        each = λ x. elim (ℕ_discrete x p) [
          | yes here ↦ inr (
            0,
            omega (arith, here),
            omega (arith, here, more),
            λ m.
                rest.before (corrupt_step seed p m) x (omega arith)
                ∙ rw here (corrupt_step_self seed p m),
          )
          | no other ↦ elim (rest.each x) [
            | inl same ↦ inl (λ m. same (corrupt_step seed p m) ∙ corrupt_step_ne seed p m x other)
            | inr (i, at_x, below, flips) ↦ inr (
              i + 1,
              grind (arith, at_x),
              below,
              λ m.
                  flips (corrupt_step seed p m) ∙ ap (flip seed) (corrupt_step_ne seed p m x other),
            )
          ]
        ];
      }
]

-- No cell that the loop changes becomes a comma.
abbrev pub NoComma : (p end seed step : ℕ) → Memory → Type 0
NoComma p end seed step m =
    (i : ℕ) → p + i * step < end → m (p + i * step) ≢ 44 → bit_xor (m (p + i * step)) seed ≢ 44

flip_twice :
    (seed b : ℕ)
    → b < 2 ^ 8
    → seed < 2 ^ 8
    → (b ≢ 44 → bit_xor b seed ≢ 44)
    → flip seed (flip seed b) ≡ b
flip_twice seed b byte byte' safe = elim (Bool-cases (is_comma b)) [
  | inl h ↦ rw h (rw h refl)
  | inr h ↦
      let small : bit_xor b seed % 2 ^ 8 ≡ bit_xor b seed =
        omega (arith, bit_xor-lt 8 b seed byte byte') in
      let other : is_comma (bit_xor b seed) ≡ false = ground (arith, h, safe) in
      rw (h, small, other) (rw (bit_xor_cancel b seed) (omega (arith, byte)))
]

-- A second pass with the same seed undoes the first.
pub Pass_twice :
    {fuel p end seed step : ℕ} (pass : Pass fuel p end seed step) (m : Memory)
    → IsBytes m
    → seed < 2 ^ 8
    → NoComma p end seed step m
    → (x : ℕ) → pass.after (pass.after m) x ≡ m x
Pass_twice {seed = seed} pass m bytes small safe x = elim (pass.each x) [
  | inl same ↦ same (pass.after m) ∙ same m
  | inr (i, at_x, below, flips) ↦
      let safe_x : m x ≢ 44 → bit_xor (m x) seed ≢ 44 =
        rw at_x (safe i (omega (arith, at_x, below))) in
      flips (pass.after m) ∙ ap (flip seed) (flips m) ∙ flip_twice seed (m x) (bytes x) small safe_x
]

pub Pass-outside :
    {fuel p end seed step : ℕ} (pass : Pass fuel p end seed step) (m : Memory) (x : ℕ)
    → (x < p) ⊎ (end ≤ x)
    → pass.after m x ≡ m x
Pass-outside pass m x out = elim (pass.each x) [
  | inl same ↦ same m
  | inr (i, at_x, below, flips) ↦ elim out [
    | inl left ↦ pass.before m x left
    | inr right ↦ absurd (omega (arith, below, right))
  ]
]

no_neighbours : (p x i j step : ℕ) → 2 ≤ step → x ≡ p + i * step → x + 1 ≢ p + j * step
no_neighbours p x i j step two e e' = elim (dec_lt i j) [
  | yes more ↦
      let later : i + 1 ≤ j = omega (arith, more) in
      let far : (i + 1) * step ≤ j * step = mul-le-mul later (le_refl step) in
      let wide : (i + 1) * step ≡ i * step + step = grind arith in omega (arith, e, e', far, wide)
  | no less ↦
      let near : j * step ≤ i * step =
        (let sooner : j ≤ i = omega (arith, less) in mul-le-mul sooner (le_refl step)) in
      omega (arith, e, e', near)
]

-- Of two neighbours at least one is left as it is, if the step is at least two.
pub untouched :
    (fuel p end seed step : ℕ) (m : Memory) (x : ℕ)
    → 2 ≤ step
    → (pass : Pass fuel p end seed step)
    → (pass.after m x ≡ m x) ⊎ (pass.after m (x + 1) ≡ m (x + 1))
untouched fuel p end seed step m x two pass = elim (pass.each x) [
  | inl same ↦ inl (same m)
  | inr (i, at_x, below, flips) ↦ elim (pass.each (x + 1)) [
    | inl same ↦ inr (same m)
    | inr (j, at_next, below', flips') ↦ absurd (no_neighbours p x i j step two at_x at_next)
  ]
]
