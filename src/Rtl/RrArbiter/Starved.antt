-- ===== src/Rtl/RrArbiter/Starved.antt =====
-- A unit that asks for service may have none while the consumer is not always ready.
use len5_core.Common.{
  ℕ, zero, suc, ◌<◌, ◌≡◌, refl, ap, ◌∙◌, Bool, true, false, not, ◌&&◌, ◌||◌, List, [], ◌∷◌, arith,
  ltb, ◌==◌, if◌then◌else◌,
}
use len5_core.Rtl.PrioEnc.{Encoded, prio_enc}
use len5_core.Rtl.PrioEnc.Prefix.{prio_enc_inv-prefix}
use len5_core.Rtl.RrArbiter.{ArbiterInputs, any_one, mux_valid, is_served}
use len5_core.Rtl.RrArbiter.Turns.{dec, left, any_one-active}

-- Two units that are always valid, with a consumer that is ready at every other edge only.
abbrev both_valid : (ready : Bool) → ArbiterInputs
both_valid r = record { flush_i = false; valid_i = λ k. true; ready_i = r }

abbrev pub alternating : (rounds : ℕ) → List ArbiterInputs
alternating zero = []
alternating (suc rounds) = both_valid false ∷ both_valid true ∷ alternating rounds

-- The first edge of a round, at which unit 0 has its turn, and the second.
abbrev all_valid : ℕ → Bool
all_valid k = true

abbrev second_left : ℕ → Bool
second_left = left 2 all_valid

first_turn : prio_enc 2 all_valid true ≡ (0, true)
first_turn =
    prio_enc_inv-prefix 2 0 all_valid (omega arith) (λ i inside. ground arith) (omega arith)

second_left-lines : (second_left 0 ≡ false) × (second_left 1 ≡ true)
second_left-lines = (
  ap (λ (e : Encoded). true && not (e.1 && 0 == e.0)) first_turn,
  ap (λ (e : Encoded). true && not (e.1 && 1 == e.0)) first_turn,
)

second_turn : prio_enc 2 second_left true ≡ (1, true)
second_turn = prio_enc_inv-prefix 2 1 second_left (omega arith) lines (omega arith)
  where
    lines : (i : ℕ) → i < 2 → second_left i ≡ not (ltb i 1)
    lines zero inside = second_left-lines.0
    lines (suc zero) inside = second_left-lines.1
    lines (suc (suc i)) inside = absurd (omega (arith, inside))

nothing_left : (left 2 second_left 0 ≡ false) × (left 2 second_left 1 ≡ false)
nothing_left = (
  ap (λ (b : Bool). b && not (dec 2 second_left 0)) second_left-lines.0,
  ap (λ (e : Encoded). second_left 1 && not (e.1 && 1 == e.0)) second_turn
      ∙ ap (λ (b : Bool). b && false) second_left-lines.1,
)

starved :
    (rounds : ℕ) (rem : ℕ → Bool)
    → rem 0 ≡ false
    → rem 1 ≡ false
    → is_served 2 0 rem (alternating rounds) ≡ false
unfolding is_served any_one
starved zero rem none_0 none_1 = refl
starved (suc rounds) rem none_0 none_1 =
    ap
      (λ (l : ℕ → Bool).
        dec 2 (mux_valid 2 (left 2 l) all_valid) 0
        || is_served 2 0 (left 2 (mux_valid 2 (left 2 l) all_valid)) (alternating rounds))
      new_round
    ∙ ap (λ (l : ℕ → Bool). dec 2 l 0 || is_served 2 0 (left 2 l) (alternating rounds)) same_round
    ∙ ap
        (λ (e : Encoded).
          (e.1 && 0 == e.0) || is_served 2 0 (left 2 second_left) (alternating rounds))
        second_turn
    ∙ starved rounds (left 2 second_left) nothing_left.0 nothing_left.1
  where
    none_left : any_one 2 rem ≡ false
    none_left = rw (none_0, none_1) refl

    new_round : mux_valid 2 rem all_valid ≡ all_valid
    new_round = ap (λ (b : Bool). if b then rem else all_valid) none_left

    same_round : mux_valid 2 second_left all_valid ≡ second_left
    same_round =
        ap (λ (b : Bool). if b then second_left else all_valid)
          (any_one-active 2 1 second_left (omega arith) second_left-lines.1)

-- Unit 0 is then never served, however long the units wait: its turns are the edges at which the
-- consumer is not ready.
pub alternating-starved : (rounds : ℕ) → is_served 2 0 (λ k. false) (alternating rounds) ≡ false
alternating-starved rounds = starved rounds (λ k. false) refl refl
