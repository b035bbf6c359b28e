-- ===== src/Rtl/PrioEnc/Found.antt =====
-- What the priority encoder finds: the last or the first active line.
use native.Mathlib.Nat.{le_refl}
use len5_core.Common.{
  ℕ, zero, suc, ◌+◌, ◌≤◌, ◌<◌, ◌≡◌, refl, ap, ◌∙◌, inl, inr, Bool, true, false, arith, ℕ_discrete,
  ◌==◌, Bool-cases,
}
use len5_core.Rtl.Counter.{index_lt}
use len5_core.Rtl.PrioEnc.{Encoded, prio_enc_logic, prio_enc_inv_logic, prio_enc}

-- An encoder whose highest line is the strongest finds the last active line.
pub record IsLast (n : ℕ) (lines : ℕ → Bool) (e : Encoded) : Type 0 where
  pub found : e.1 ≡ true → (e.0 < n) × (lines e.0 ≡ true)
  pub beyond : (i : ℕ) → e.1 ≡ true → e.0 < i → i < n → lines i ≡ false
  pub none_active : (i : ℕ) → e.1 ≡ false → i < n → lines i ≡ false
  pub zero_unless : e.1 ≡ false → e.0 ≡ 0

-- An encoder whose lowest line is the strongest finds the first active line, from `base` on.
pub record IsFirst (base n : ℕ) (lines : ℕ → Bool) (e : Encoded) : Type 0 where
  pub found : e.1 ≡ true → (base ≤ e.0) × (e.0 < base + n) × (lines e.0 ≡ true)
  pub before : (i : ℕ) → e.1 ≡ true → base ≤ i → i < e.0 → lines i ≡ false
  pub none_active : (i : ℕ) → e.1 ≡ false → base ≤ i → i < base + n → lines i ≡ false
  pub zero_unless : e.1 ≡ false → e.0 ≡ 0

only_line : (n i : ℕ) → (n == 1) ≡ true → i < n → i ≡ 0
only_line n i e h = ground arith

module _ (n : ℕ) (lines : ℕ → Bool) where
  prio_enc_logic-IsLast :
      (count : ℕ) → count ≤ n → IsLast count lines (prio_enc_logic n lines count)
  unfolding prio_enc_logic
  prio_enc_logic-IsLast zero h = record {
    found = λ e. absurd (ground (arith, e));
    beyond = λ i e after inside. absurd (omega (arith, inside));
    none_active = λ i e inside. absurd (omega (arith, inside));
    zero_unless = λ e. refl;
  }
  prio_enc_logic-IsLast (suc count) h =
      let earlier = prio_enc_logic-IsLast count (omega (arith, h)) in
      elim (Bool-cases (lines count)) [
        | inl on ↦
            rw (on, index_lt n count (omega (arith, h)))
              (record {
                found = λ e. (omega arith, on);
                beyond = λ i e after inside. absurd (omega (arith, after, inside));
                none_active = λ i e inside. absurd (ground (arith, e));
                zero_unless = λ e. absurd (ground (arith, e));
              })
        | inr off ↦ rw off (record {
          found = λ e. (omega (arith, (earlier.found e).0), (earlier.found e).1);
          beyond = λ i e after inside. elim (ℕ_discrete i count) [
            | yes last ↦ rw last off
            | no ne ↦ earlier.beyond i e after (omega (arith, inside))
          ];
          none_active = λ i e inside. elim (ℕ_discrete i count) [
            | yes last ↦ rw last off
            | no ne ↦ earlier.none_active i e (omega (arith, inside))
          ];
          zero_unless = earlier.zero_unless;
        })
      ]

  prio_enc_inv_logic-IsFirst :
      (i count : ℕ) → i + count ≤ n → IsFirst i count lines (prio_enc_inv_logic n lines i count)
  unfolding prio_enc_inv_logic
  prio_enc_inv_logic-IsFirst i zero h = record {
    found = λ e. absurd (ground (arith, e));
    before = λ j e from inside. absurd (omega (arith, inside));
    none_active = λ j e from inside. absurd (omega (arith, from, inside));
    zero_unless = λ e. refl;
  }
  prio_enc_inv_logic-IsFirst i (suc count) h =
      let later = prio_enc_inv_logic-IsFirst (i + 1) count (omega (arith, h)) in
      elim (Bool-cases (lines i)) [
        | inl on ↦
            rw (on, index_lt n i (omega (arith, h)))
              (record {
                found = λ e. (omega arith, omega arith, on);
                before = λ j e from inside. absurd (omega (arith, from, inside));
                none_active = λ j e from inside. absurd (ground (arith, e));
                zero_unless = λ e. absurd (ground (arith, e));
              })
        | inr off ↦ rw off (record {
          found = λ e. (
            omega (arith, (later.found e).0),
            omega (arith, (later.found e).1),
            (later.found e).2,
          );
          before = λ j e from inside. elim (ℕ_discrete j i) [
            | yes first ↦ rw first off
            | no ne ↦ later.before j e (omega (arith, from)) inside
          ];
          none_active = λ j e from inside. elim (ℕ_discrete j i) [
            | yes first ↦ rw first off
            | no ne ↦ later.none_active j e (omega (arith, from)) (omega (arith, inside))
          ];
          zero_unless = later.zero_unless;
        })
      ]

  pub prio_enc-IsLast : IsLast n lines (prio_enc n lines false)
  unfolding prio_enc
  prio_enc-IsLast = elim (Bool-cases (n == 1)) [
    | inl e ↦ rw e (record {
      found = λ on. (ground arith, on);
      beyond = λ i on after inside. absurd (ground arith);
      none_active = λ i on inside. ap lines (only_line n i e (omega (arith, inside))) ∙ on;
      zero_unless = λ on. refl;
    })
    | inr e ↦ rw e (prio_enc_logic-IsLast n (le_refl n))
  ]

  pub prio_enc-IsFirst : IsFirst 0 n lines (prio_enc n lines true)
  unfolding prio_enc
  prio_enc-IsFirst = elim (Bool-cases (n == 1)) [
    | inl e ↦ rw e (record {
      found = λ on. (omega arith, ground arith, on);
      before = λ i on from inside. absurd (omega arith);
      none_active = λ i on from inside. ap lines (only_line n i e (omega (arith, inside))) ∙ on;
      zero_unless = λ on. refl;
    })
    | inr e ↦ rw e (prio_enc_inv_logic-IsFirst 0 n (omega arith))
  ]
