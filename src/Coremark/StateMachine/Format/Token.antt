-- ===== src/Coremark/StateMachine/Format/Token.antt =====
-- `core_state_transition` of the state machine on one word of the input, ended by a comma or a NUL.
use len5_core.Common.{
  ℕ, zero, suc, ◌+◌, ◌<◌, ◌≡◌, refl, sym, ap, ◌∙◌, ◌≢◌, ◌↔◌, ◌⊎◌, inl, inr, true, false, ◌||◌,
  Option, some, List, [], ◌∷◌, arith, ◌==◌, if◌then◌else◌, Bool-cases, length,
}
use len5_core.Device.Memory.{Memory}
use len5_core.Coremark.StateMachine.{
  core_start, core_s1, core_s2, core_int, core_float, core_exponent, core_scientific, core_invalid,
  is_comma, is_invalid, CoreState, Counts, step, scan_loop, core_state_transition,
}
use len5_core.Coremark.StateMachine.Format.{next, run, IntFormat, PointFormat}
use len5_core.Coremark.StateMachine.Format.Sound.{IntFormat-run, PointFormat-run}
use mathlib.Core.Path.{subst}
use len5_core.Coremark.StateMachine.Format.Complete.{run-IntFormat, run-PointFormat}

-- The characters of `w` stand at `p`, none of them a NUL or a comma.
abbrev pub Word : Memory → ℕ → List ℕ → Type 0
Word m p [] = Unit
Word m p (c ∷ w) = (m p ≡ c) × (c ≢ 0) × (c ≢ 44) × Word m (p + 1) w

-- Behind a word that ends at `e`: behind its comma, or at the NUL.
abbrev pub behind : Memory → ℕ → ℕ
behind m e = if is_comma (m e) then e + 1 else e

step-next : (s : CoreState) (c : ℕ) (k : Counts) → (step s c k).0 ≡ next s c
unfolding step
step-next core_start c k = ground arith
step-next core_s1 c k = ground arith
step-next core_int c k = ground arith
step-next core_float c k = ground arith
step-next core_s2 c k = ground arith
step-next core_exponent c k = ground arith
step-next core_scientific c k = ground arith
step-next core_invalid c k = refl

is_invalid_lem : (s : CoreState) → is_invalid s ≡ true → s ≡ core_invalid
is_invalid_lem core_start h = ground arith
is_invalid_lem core_s1 h = ground arith
is_invalid_lem core_s2 h = ground arith
is_invalid_lem core_int h = ground arith
is_invalid_lem core_float h = ground arith
is_invalid_lem core_exponent h = ground arith
is_invalid_lem core_scientific h = ground arith
is_invalid_lem core_invalid h = refl

run-invalid : (w : List ℕ) → run core_invalid w ≡ core_invalid
unfolding run step
run-invalid [] = refl
run-invalid (c ∷ w) = run-invalid w

-- A scan of the word `w` at `p` that came to the state of the run.
record Scanned (m : Memory) (p : ℕ) (s : CoreState) (w : List ℕ)
    (r : Option (CoreState × ℕ × Counts)) : Type 0 where
  pub pointer : ℕ
  pub counts : Counts
  pub returns : r ≡ some (run s w, pointer, counts)
  pub at_end : run s w ≢ core_invalid → pointer ≡ behind m (p + length w)

scan_loop-Scanned :
    (m : Memory) (fuel p : ℕ) (s : CoreState) (k : Counts) (w : List ℕ)
    → length w < fuel
    → Word m p w
    → (m (p + length w) ≡ 0) ⊎ (m (p + length w) ≡ 44)
    → Scanned m p s w (scan_loop fuel p s k m)
unfolding scan_loop run
scan_loop-Scanned m zero p s k w enough word stop = absurd (omega arith)
scan_loop-Scanned m (suc fuel) p s k [] enough word stop =
    let same : p + 0 ≡ p = omega arith in
    let here : (m p ≡ 0) ⊎ (m p ≡ 44) = subst (λ e. (m e ≡ 0) ⊎ (m e ≡ 44)) same stop in
    elim (Bool-cases ((m p == 0) || is_invalid s)) [
      | inl stops ↦ rw stops (record {
        pointer = p;
        counts = k;
        returns = refl;
        at_end = λ valid.
            (let sound = is_invalid_lem s in rw same (ground (arith, stops, valid, sound, here)));
      })
      | inr goes ↦
          let comma : is_comma (m p) ≡ true = ground (arith, goes, here) in
          rw (goes, comma)
            (record {
              pointer = p + 1;
              counts = k;
              returns = refl;
              at_end = λ valid. rw (same, comma) refl;
            })
    ]
scan_loop-Scanned m (suc fuel) p s k (c ∷ w) enough (here, ne, ne', word) stop =
    elim (Bool-cases (is_invalid s)) [
      | inl stops ↦
          let s_is = is_invalid_lem s stops in
          let end : (m p == 0) || is_invalid s ≡ true = ground (arith, stops) in
          let dead = ap (λ t. run t (c ∷ w)) s_is ∙ run-invalid (c ∷ w) in
          rw end (record {
            pointer = p;
            counts = k;
            returns = ap (λ t. some (t, p, k)) (s_is ∙ sym dead);
            at_end = λ valid. absurd (valid dead);
          })
      | inr goes ↦
          let shift : p + 1 + length w ≡ p + suc (length w) = omega arith in
          let on : (m p == 0) || is_invalid s ≡ false = ground (arith, goes, here, ne) in
          let other : is_comma (m p) ≡ false = ground (arith, here, ne') in
          let to : (step s (m p) k).0 ≡ next s c = step-next s (m p) k ∙ ap (next s) here in
          let rest =
            scan_loop-Scanned m fuel (p + 1) (step s (m p) k).0 (step s (m p) k).1 w (omega arith)
              word (subst (λ e. (m e ≡ 0) ⊎ (m e ≡ 44)) (sym shift) stop) in
          let same : run (step s (m p) k).0 w ≡ run (next s c) w = ap (λ t. run t w) to in
          rw (on, other)
            (record {
              pointer = rest.pointer;
              counts = rest.counts;
              returns = rest.returns ∙ ap (λ t. some (t, rest.pointer, rest.counts)) same;
              at_end = λ valid. rest.at_end (λ e. valid (sym same ∙ e)) ∙ ap (behind m) shift;
            })
    ]

-- What a scan of the word `w` at `p` returns.
pub record Recognised (m : Memory) (p : ℕ) (w : List ℕ) (r : Option (CoreState × ℕ × Counts))
    : Type 0 where
  pub state : CoreState
  pub pointer : ℕ
  pub counts : Counts
  pub returns : r ≡ some (state, pointer, counts)
  pub int : (state ≡ core_int) ↔ IntFormat w
  pub float : (state ≡ core_float) ↔ PointFormat false w
  pub scientific : (state ≡ core_scientific) ↔ PointFormat true w
  pub at_end : state ≢ core_invalid → pointer ≡ behind m (p + length w)

-- On a word without NUL and comma that a NUL or a comma ends, with fuel above its length,
-- core_state_transition ends. It returns CORE_INT exactly for an optional sign and digits,
-- CORE_FLOAT exactly for an optional sign, digits, a point and digits, and CORE_SCIENTIFIC exactly
-- for the latter with a letter e, a sign and digits behind it; unless it returns CORE_INVALID, the
-- pointer stands behind the comma or at the NUL.
pub core_state_transition-Recognised :
    (m : Memory) (fuel p : ℕ) (k : Counts) (w : List ℕ)
    → length w < fuel
    → Word m p w
    → (m (p + length w) ≡ 0) ⊎ (m (p + length w) ≡ 44)
    → Recognised m p w (core_state_transition fuel p k m)
unfolding core_state_transition
core_state_transition-Recognised m fuel p k w enough word stop =
    let r = scan_loop-Scanned m fuel p core_start k w enough word stop in
    record {
      state = run core_start w;
      pointer = r.pointer;
      counts = r.counts;
      returns = r.returns;
      int = (IntFormat-run w, run-IntFormat w);
      float = (PointFormat-run false w, run-PointFormat false w);
      scientific = (PointFormat-run true w, run-PointFormat true w);
      at_end = r.at_end;
    }
