-- ===== src/Coremark/StateMachine/Init/Layout.antt =====
-- The buffer that `core_init_state` leaves.
use len5_core.Common.{
  ℕ, zero, suc, ◌+◌, ◌-◌, ◌%◌, ◌^◌, ◌≤◌, ◌<◌, ◌≡◌, refl, ◌∙◌, ◌⊎◌, inl, inr, true, false, Option,
  some, List, [], arith, dec_lt, ℕ_discrete, ltb,
}
use len5_core.Device.Memory.{Memory, store8}
use len5_core.Device.Memory.Copy.{store8_self, store8_ne}
use len5_core.Coremark.StateMachine.Init.{
  pattern_of, pattern_loop, init_loop, zero_loop, core_init_state,
}

zero_loop_before :
    (left total p : ℕ) (m : Memory) (x : ℕ) → x < p + total → zero_loop left total p m x ≡ m x
unfolding zero_loop
zero_loop_before zero total p m x h = refl
zero_loop_before (suc left) total p m x h =
    zero_loop_before left (total + 1) p _ x (omega arith)
    ∙ store8_ne m (p + total) 0 x (inl (omega (arith, h)))

zero_loop_behind :
    (left total p : ℕ) (m : Memory) (x : ℕ)
    → p + (total + left) ≤ x
    → zero_loop left total p m x ≡ m x
unfolding zero_loop
zero_loop_behind zero total p m x h = refl
zero_loop_behind (suc left) total p m x h =
    zero_loop_behind left (total + 1) p _ x (omega arith)
    ∙ store8_ne m (p + total) 0 x (inr (omega (arith, h)))

zero_loop_inside :
    (left total p : ℕ) (m : Memory) (x : ℕ)
    → p + total ≤ x
    → x < p + (total + left)
    → zero_loop left total p m x ≡ 0
unfolding zero_loop
zero_loop_inside zero total p m x h below = absurd (omega (arith, h, below))
zero_loop_inside (suc left) total p m x h below = elim (ℕ_discrete x (p + total)) [
  | yes here ↦ rw here (
      zero_loop_before left (total + 1) p _ (p + total) (omega arith) ∙ store8_self m (p + total) 0)
  | no other ↦ zero_loop_inside left (total + 1) p _ x (omega (arith, other, h)) (omega arith)
]

pattern_loop_outside :
    (left i : ℕ) (buf : List ℕ) (at : ℕ) (m : Memory) (x : ℕ)
    → (x < at) ⊎ (at + (i + left) ≤ x)
    → pattern_loop left i buf at m x ≡ m x
unfolding pattern_loop
pattern_loop_outside zero i buf at m x h = refl
pattern_loop_outside (suc left) i buf at m x h =
    pattern_loop_outside left (i + 1) buf at _ x (omega arith)
    ∙ store8_ne m (at + i) _ x (omega arith)

-- The length of the chosen pattern.
pattern_length : (seed : ℕ) → ((pattern_of seed).1 ≡ 4) ⊎ ((pattern_of seed).1 ≡ 8)
unfolding pattern_of
pattern_length seed = ground arith

-- The first loop ends with `total` at least one below the reduced size, and changes only cells
-- from `p` up to there.
record Filled (total next size p : ℕ) (m : Memory) (r : Option (ℕ × Memory)) : Type 0 where
  pub total' : ℕ
  pub memory : Memory
  pub returns : r ≡ some (total', memory)
  pub below : total' < size
  pub outside : (x : ℕ) → (x < p) ⊎ (p + size ≤ x) → memory x ≡ m x

pattern_nonempty : (seed : ℕ) → (1 ≤ (pattern_of seed).1) × ((pattern_of seed).1 ≤ 8)
pattern_nonempty seed = elim (pattern_length seed) [
  | inl e ↦ (omega (arith, e), omega (arith, e))
  | inr e ↦ (omega (arith, e), omega (arith, e))
]

-- One round: the pattern and its comma.
place : (total next : ℕ) → (buf : List ℕ) → (p : ℕ) → Memory → Memory
place total next buf p m = store8 (pattern_loop next 0 buf (p + total) m) (p + total + next) 44

place_outside :
    (total next : ℕ) (buf : List ℕ) (p : ℕ) (m : Memory) (x : ℕ)
    → (x < p + total) ⊎ (p + total + next < x)
    → place total next buf p m x ≡ m x
unfolding place
place_outside total next buf p m x out =
    store8_ne (pattern_loop next 0 buf (p + total) m) (p + total + next) 44 x (omega arith)
    ∙ pattern_loop_outside next 0 buf (p + total) m x (omega arith)

init_loop-Filled :
    (fuel total next : ℕ) (buf : List ℕ) (seed size p : ℕ) (m : Memory)
    → 1 ≤ next
    → next ≤ 8
    → total < size
    → size + 9 < 2 ^ 32
    → size - total < fuel
    → Filled total next size p m (init_loop fuel total next buf seed size p m)
unfolding init_loop place
init_loop-Filled zero total next buf seed size p m some_text short room no_wrap enough =
    absurd (omega (arith, enough))
init_loop-Filled (suc fuel) total next buf seed size p m some_text short room no_wrap enough =
    let positive : ltb 0 next ≡ true = ground arith in
    let exact : (total + next + 1) % 2 ^ 32 ≡ total + (next + 1) = omega arith in
    let exact' : (total + (next + 1)) % 2 ^ 32 ≡ total + (next + 1) = omega arith in
    elim (dec_lt (total + (next + 1)) size) [
      | yes more ↦
          let go : ltb (total + (next + 1)) size ≡ true = ground (arith, more) in
          let seed' = (seed + 1) % 2 ^ 16 in
          let (some_text', short') = pattern_nonempty seed' in
          let rest =
            init_loop-Filled fuel (total + (next + 1)) (pattern_of seed').1 (pattern_of seed').0
              seed' size p (place total next buf p m) some_text' short' more no_wrap
              (omega arith) in
          rw (exact, go, positive, exact')
            (record {
              total' = rest.total';
              memory = rest.memory;
              returns = rest.returns;
              below = rest.below;
              outside = λ x out.
                  rest.outside x out
                  ∙ place_outside total next buf p m x (omega (arith, out, more));
            })
      | no full ↦
          let stop : ltb (total + (next + 1)) size ≡ false = ground (arith, full) in
          rw (exact, stop)
            (record {
              total' = total;
              memory = m;
              returns = refl;
              below = room;
              outside = λ x out. refl;
            })
    ]

-- A filled buffer: at least two zero bytes at its end, and nothing changed outside it.
pub record Text (size p : ℕ) (m : Memory) (r : Option Memory) : Type 0 where
  pub memory : Memory
  pub returns : r ≡ some memory
  pub last : memory (p + (size - 1)) ≡ 0
  pub last_but_one : memory (p + (size - 2)) ≡ 0
  pub outside : (x : ℕ) → (x < p) ⊎ (p + size ≤ x) → memory x ≡ m x

init_start :
    (fuel seed size p : ℕ) (m : Memory)
    → 1 ≤ size
    → size + 9 < 2 ^ 32
    → size + 1 < fuel
    → Filled 0 0 size p m (init_loop fuel 0 0 [] seed size p m)
unfolding init_loop
init_start zero seed size p m room no_wrap enough = absurd (omega (arith, enough))
init_start (suc fuel) seed size p m room no_wrap enough = elim (dec_lt 1 size) [
  | yes more ↦
      let go : ltb 1 size ≡ true = ground (arith, more) in
      let seed' = (seed + 1) % 2 ^ 16 in
      let (some_text', short') = pattern_nonempty seed' in
      let rest =
        init_loop-Filled fuel 0 (pattern_of seed').1 (pattern_of seed').0 seed' size p m some_text'
          short' room no_wrap (omega arith) in
      rw go (record {
        total' = rest.total';
        memory = rest.memory;
        returns = rest.returns;
        below = rest.below;
        outside = rest.outside;
      })
  | no full ↦
      let stop : ltb 1 size ≡ false = ground (arith, full) in
      rw stop
        (record { total' = 0; memory = m; returns = refl; below = room; outside = λ x out. refl })
]

-- For a size from 2 to 2^32 - 9 and fuel above the size, core_init_state ends with two zero bytes
-- at the end of the buffer, and changes no cell outside the buffer.
pub core_init_state-Text :
    (fuel size seed p : ℕ) (m : Memory)
    → 2 ≤ size
    → size + 8 < 2 ^ 32
    → size < fuel
    → Text size p m (core_init_state fuel size seed p m)
unfolding core_init_state
core_init_state-Text fuel size seed p m two no_wrap enough =
    let less : (size + 2 ^ 32 - 1) % 2 ^ 32 ≡ size - 1 = omega arith in
    let r = init_start fuel seed (size - 1) p m (omega arith) (omega arith) (omega arith) in
    let within : r.total' < size - 1 = r.below in
    let zeros = zero_loop_inside (size - r.total') r.total' p r.memory in
    rw (less, r.returns)
      (record {
        memory = zero_loop (size - r.total') r.total' p r.memory;
        returns = refl;
        last = zeros (p + (size - 1)) (omega (arith, within)) (omega (arith, within));
        last_but_one = zeros (p + (size - 2)) (omega (arith, within)) (omega (arith, within));
        outside = λ x out. elim out [
          | inl h ↦
              zero_loop_before (size - r.total') r.total' p r.memory x (omega (arith, h))
              ∙ r.outside x (inl h)
          | inr h ↦
              zero_loop_behind (size - r.total') r.total' p r.memory x (omega (arith, h, within))
              ∙ r.outside x (inr (omega (arith, h)))
        ];
      })
