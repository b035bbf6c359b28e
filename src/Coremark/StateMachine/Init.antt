-- ===== src/Coremark/StateMachine/Init.antt =====
-- `core_init_state` of sw/benchmarks/coremark/src/all/core_state.c: the text for the state machine.
pub mod Layout
use len5_core.Common.{
  ◌>>=◌, ◌-◌, some, ◌^◌, zero, ◌%◌, get_or, ltb, ◌∷◌, ◌+◌, ◌/◌, ◌==◌, none, [], if◌then◌else◌, suc,
  Option, List, ℕ,
}
use len5_core.Device.Memory.{Memory, store8}

abbrev pub pick : {A : Type 0} → ℕ → A → A → A → A → A
pick i a b c d = if i == 0 then a else if i == 1 then b else if i == 2 then c else d

-- The default initialization patterns, as ASCII codes:
-- "5012", "1234", "-874", "+122".
abbrev pub intpat : ℕ → List ℕ
intpat i =
    pick i (53 ∷ 48 ∷ 49 ∷ 50 ∷ []) (49 ∷ 50 ∷ 51 ∷ 52 ∷ []) (45 ∷ 56 ∷ 55 ∷ 52 ∷ [])
      (43 ∷ 49 ∷ 50 ∷ 50 ∷ [])

-- "35.54400", ".1234500", "-110.700", "+0.64400".
abbrev pub floatpat : ℕ → List ℕ
floatpat i =
    pick i (51 ∷ 53 ∷ 46 ∷ 53 ∷ 52 ∷ 52 ∷ 48 ∷ 48 ∷ []) (46 ∷ 49 ∷ 50 ∷ 51 ∷ 52 ∷ 53 ∷ 48 ∷ 48 ∷ [])
      (45 ∷ 49 ∷ 49 ∷ 48 ∷ 46 ∷ 55 ∷ 48 ∷ 48 ∷ []) (43 ∷ 48 ∷ 46 ∷ 54 ∷ 52 ∷ 52 ∷ 48 ∷ 48 ∷ [])

-- "5.500e+3", "-.123e-2", "-87e+832", "+0.6e-12".
abbrev pub scipat : ℕ → List ℕ
scipat i =
    pick i (53 ∷ 46 ∷ 53 ∷ 48 ∷ 48 ∷ 101 ∷ 43 ∷ 51 ∷ [])
      (45 ∷ 46 ∷ 49 ∷ 50 ∷ 51 ∷ 101 ∷ 45 ∷ 50 ∷ []) (45 ∷ 56 ∷ 55 ∷ 101 ∷ 43 ∷ 56 ∷ 51 ∷ 50 ∷ [])
      (43 ∷ 48 ∷ 46 ∷ 54 ∷ 101 ∷ 45 ∷ 49 ∷ 50 ∷ [])

-- "T0.3e-1F", "-T.T++Tq", "1T3.4e4z", "34.0e-T^".
abbrev pub errpat : ℕ → List ℕ
errpat i =
    pick i (84 ∷ 48 ∷ 46 ∷ 51 ∷ 101 ∷ 45 ∷ 49 ∷ 70 ∷ [])
      (45 ∷ 84 ∷ 46 ∷ 84 ∷ 43 ∷ 43 ∷ 84 ∷ 113 ∷ []) (49 ∷ 84 ∷ 51 ∷ 46 ∷ 52 ∷ 101 ∷ 52 ∷ 122 ∷ [])
      (51 ∷ 52 ∷ 46 ∷ 48 ∷ 101 ∷ 45 ∷ 84 ∷ 94 ∷ [])

-- The `switch` on the seed: the pattern and its length.
unfoldable pub pattern_of : (seed : ℕ) → List ℕ × ℕ
pattern_of seed =
    let i = seed / 8 % 4 in
    if ltb (seed % 8) 3
    then (intpat i, 4)
    else if ltb (seed % 8) 5
    then (floatpat i, 8)
    else if ltb (seed % 8) 7
    then (scipat i, 8)
    else (errpat i, 8)

-- `for(i=0;i<next;i++) *(p+total+i)=buf[i]`, for `left` more rounds.
pub pattern_loop : (left i : ℕ) → (buf : List ℕ) → (at : ℕ) → Memory → Memory
pattern_loop zero i buf at m = m
pattern_loop (suc left) i buf at m =
    pattern_loop left (i + 1) buf at (store8 m (at + i) (get_or buf i 0))

-- The first loop, with `size` already decremented; `none` means that the fuel ran out.
pub init_loop :
    ℕ → (total next : ℕ) → (buf : List ℕ) → (seed size p : ℕ) → Memory → Option (ℕ × Memory)
init_loop zero total next buf seed size p m = none
init_loop (suc fuel) total next buf seed size p m =
    let copied = store8 (pattern_loop next 0 buf (p + total) m) (p + total + next) 44 in
    let total' = if ltb 0 next then (total + (next + 1)) % 2 ^ 32 else total in
    let m' = if ltb 0 next then copied else m in
    let seed' = (seed + 1) % 2 ^ 16 in
    let chosen = pattern_of seed' in
    let rest = init_loop fuel total' chosen.1 chosen.0 seed' size p m' in
    if ltb ((total + next + 1) % 2 ^ 32) size then rest else some (total, m)

-- `while (total<size)`: fill the rest with 0, for `left` more rounds.
pub zero_loop : (left total p : ℕ) → Memory → Memory
zero_loop zero total p m = m
zero_loop (suc left) total p m = zero_loop left (total + 1) p (store8 m (p + total) 0)

-- The seed is a 16-bit pattern.
unfoldable pub core_init_state : (fuel size seed p : ℕ) → Memory → Option Memory
core_init_state fuel size seed p m =
    init_loop fuel 0 0 [] seed ((size + 2 ^ 32 - 1) % 2 ^ 32) p m >>= λ r.
    some (zero_loop (size - r.0) r.0 p r.1)
