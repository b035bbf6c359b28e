-- ===== src/Coremark/StateMachine/Scan.antt =====
-- `core_state_transition` of the state machine: it ends, and its state is that of a run over the
-- characters of the word.
use len5_core.Common.{
  ℕ, zero, suc, ◌+◌, ◌≤◌, ◌<◌, ◌≡◌, refl, ap, ◌∙◌, ◌≢◌, inl, inr, true, false, ◌||◌, Option, some,
  arith, ◌==◌, Bool-cases,
}
use len5_core.Device.Memory.{Memory}
use len5_core.Coremark.StateMachine.{is_comma, is_invalid, CoreState, Counts, step, scan_loop}

-- A scan that ended at a pointer no later than `limit`, and behind `p` if it had work to do.
pub record Ends (m : Memory) (p limit : ℕ) (state : CoreState) (r : Option (CoreState × ℕ × Counts))
    : Type 0 where
  pub state' : CoreState
  pub pointer : ℕ
  pub counts : Counts
  pub returns : r ≡ some (state', pointer, counts)
  pub from_start : p ≤ pointer
  pub to_limit : pointer ≤ limit
  pub moved : m p ≢ 0 → is_invalid state ≡ false → p < pointer

pub scan_loop-Ends :
    (m : Memory) (fuel p : ℕ) (state : CoreState) (k : Counts) (n : ℕ)
    → n < fuel
    → m (p + n) ≡ 0
    → Ends m p (p + n) state (scan_loop fuel p state k m)
unfolding scan_loop
scan_loop-Ends m zero p state k n enough nul = absurd (omega arith)
scan_loop-Ends m (suc fuel) p state k zero enough nul =
    let same : p ≡ p + 0 = omega arith in
    let here : m p ≡ 0 = ap m same ∙ nul in
    let at_nul : (m p == 0) ≡ true = ground (arith, here) in
    rw at_nul (record {
      state' = state;
      pointer = p;
      counts = k;
      returns = refl;
      from_start = omega arith;
      to_limit = omega arith;
      moved = λ ne valid. absurd (ne here);
    })
scan_loop-Ends m (suc fuel) p state k (suc n) enough nul =
    elim (Bool-cases ((m p == 0) || is_invalid state)) [
      | inl stops ↦ rw stops (record {
        state' = state;
        pointer = p;
        counts = k;
        returns = refl;
        from_start = omega arith;
        to_limit = omega arith;
        moved = λ ne valid. absurd (ground (arith, stops, ne, valid));
      })
      | inr goes ↦ rw goes (elim (Bool-cases (is_comma (m p))) [
        | inl comma ↦ rw comma (record {
          state' = state;
          pointer = p + 1;
          counts = k;
          returns = refl;
          from_start = omega arith;
          to_limit = omega arith;
          moved = λ ne valid. omega arith;
        })
        | inr other ↦
            let shift : p + 1 + n ≡ p + suc n = omega arith in
            let next = step state (m p) k in
            let rest =
              scan_loop-Ends m fuel (p + 1) next.0 next.1 n (omega arith) (ap m shift ∙ nul) in
            rw other (record {
              state' = rest.state';
              pointer = rest.pointer;
              counts = rest.counts;
              returns = rest.returns;
              from_start = omega (arith, rest.from_start);
              to_limit = omega (arith, rest.to_limit);
              moved = λ ne valid. omega (arith, rest.from_start);
            })
      ])
    ]
