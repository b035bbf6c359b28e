-- ===== src/Rtl/RrArbiter/Turns.antt =====
-- Every unit has its turn while the arbiter's consumer is ready, and may have none otherwise.
use len5_core.Common.{
  ℕ, zero, suc, ◌+◌, ◌*◌, ◌≤◌, ◌<◌, ◌≡◌, refl, sym, ap, ◌∙◌, ◌⊎◌, inl, inr, Bool, true, false, not,
  ◌&&◌, ◌||◌, List, [], ◌∷◌, arith, ℕ_discrete, ◌==◌, if◌then◌else◌, Bool-cases, length, All,
}
use len5_core.Rtl.PrioEnc.{prio_enc}
use len5_core.Rtl.PrioEnc.Found.{prio_enc-IsFirst}
use len5_core.Rtl.RrArbiter.{ArbiterInputs, any_one, mux_valid, arbiter_edge, is_served}

-- The active ones of the first `n` lines.
count : (n : ℕ) → (ℕ → Bool) → ℕ
count zero lines = 0
count (suc n) lines = (if lines n then 1 else 0) + count n lines

count-bound : (n : ℕ) (lines : ℕ → Bool) → count n lines ≤ n
unfolding count
count-bound zero lines = omega arith
count-bound (suc n) lines = elim (Bool-cases (lines n)) [
  | inl e ↦ rw e (omega (arith, count-bound n lines))
  | inr e ↦ rw e (omega (arith, count-bound n lines))
]

pub any_one-active : (n k : ℕ) (lines : ℕ → Bool) → k < n → lines k ≡ true → any_one n lines ≡ true
unfolding any_one
any_one-active zero k lines h on = absurd (omega (arith, h))
any_one-active (suc n) k lines h on = elim (ℕ_discrete k n) [
  | yes e ↦ rw (sym (ap lines e) ∙ on) refl
  | no ne ↦ rw (any_one-active n k lines (omega (arith, h, ne)) on) (ground arith)
]

any_one-found :
    (n : ℕ) (lines : ℕ → Bool) → any_one n lines ≡ true → (k : ℕ) × (k < n) × (lines k ≡ true)
unfolding any_one
any_one-found zero lines h = absurd (ground (arith, h))
any_one-found (suc n) lines h = elim (Bool-cases (lines n)) [
  | inl on ↦ (n, omega arith, on)
  | inr off ↦
      let (k, inside, on) = any_one-found n lines (ground (arith, h, off)) in
      (k, omega (arith, inside), on)
]

count-positive : (n k : ℕ) (lines : ℕ → Bool) → k < n → lines k ≡ true → 1 ≤ count n lines
unfolding count
count-positive zero k lines h on = absurd (omega (arith, h))
count-positive (suc n) k lines h on = elim (ℕ_discrete k n) [
  | yes e ↦ rw (sym (ap lines e) ∙ on) (omega arith)
  | no ne ↦ omega (arith, count-positive n k lines (omega (arith, h, ne)) on)
]

-- Without one active line there is one less.
count-mask_beyond :
    (n e : ℕ) (lines : ℕ → Bool)
    → n ≤ e
    → count n (λ i. lines i && not (true && i == e)) ≡ count n lines
unfolding count
count-mask_beyond zero e lines h = refl
count-mask_beyond (suc n) e lines h = ground (arith, count-mask_beyond n e lines (omega (arith, h)))

count-mask :
    (n e : ℕ) (lines : ℕ → Bool)
    → e < n
    → lines e ≡ true
    → suc (count n (λ i. lines i && not (true && i == e))) ≡ count n lines
unfolding count
count-mask zero e lines h on = absurd (omega (arith, h))
count-mask (suc n) e lines h on = elim (ℕ_discrete n e) [
  | yes same ↦
      ground (arith, same, ap lines same ∙ on, count-mask_beyond n e lines (omega (arith, same)))
  | no ne ↦ ground (arith, ne, count-mask n e lines (omega (arith, h, ne)) on)
]

module _ (n : ℕ) where
  -- What the encoder finds when a line is active.
  encoded-active :
      (k : ℕ) (lines : ℕ → Bool)
      → k < n
      → lines k ≡ true
      → ((prio_enc n lines true).1 ≡ true)
        × ((prio_enc n lines true).0 < n)
        × (lines (prio_enc n lines true).0 ≡ true)
  encoded-active k lines h on =
      let l = prio_enc-IsFirst n lines in
      elim (Bool-cases (prio_enc n lines true).1) [
        | inl e ↦ (e, omega (arith, (l.found e).1), (l.found e).2)
        | inr e ↦ absurd (ground (arith, on, l.none_active k e (omega arith) (omega (arith, h))))
      ]

  -- The decoded line, and the lines that stay in the round.
  abbrev pub dec : (ℕ → Bool) → ℕ → Bool
  dec lines i = (prio_enc n lines true).1 && i == (prio_enc n lines true).0

  abbrev pub left : (ℕ → Bool) → ℕ → Bool
  left lines i = lines i && not (dec lines i)

  -- An edge at which the lines `lines` are in the round and the consumer is ready: an active unit has
  -- its turn or stays in the round, of which one unit less remains.
  module _ (lines : ℕ → Bool) (k : ℕ) (h : k < n) (on : lines k ≡ true) where
    turn : (dec lines k ≡ true) ⊎ (left lines k ≡ true)
    turn = elim (Bool-cases (dec lines k)) [ inl e ↦ inl e | inr e ↦ inr (rw (on, e) refl) ]

    one_less : suc (count n (left lines)) ≡ count n lines
    one_less =
        let (valid, inside, active) = encoded-active k lines h on in
        ap (λ (b : Bool). suc (count n (λ i. lines i && not (b && i == (prio_enc n lines true).0))))
          valid
        ∙ count-mask n (prio_enc n lines true).0 lines inside active

-- An edge without a flush at which the consumer is ready.
abbrev pub IsFree : ArbiterInputs → Type 0
IsFree i = (i.flush_i ≡ false) × (i.ready_i ≡ true)

All-first :
    (P : ArbiterInputs → Type 0) (is : List ArbiterInputs)
    → All (λ i. IsFree i × P i) is
    → All IsFree is
All-first P [] h = h
All-first P (i ∷ is) ((f, _), hs) = (f, All-first P is hs)

module _ (n k : ℕ) (h : k < n) where
  serve_edge :
      (rem lines : ℕ → Bool) (i : ArbiterInputs) (is : List ArbiterInputs)
      → mux_valid n rem i.valid_i ≡ lines
      → IsFree i
      → is_served n k rem (i ∷ is) ≡ (dec n lines k || is_served n k (left n lines) is)
  unfolding is_served
  serve_edge rem lines i is e (flush, ready) =
      ap
        (λ (b : Bool).
          (if b then dec n (mux_valid n rem i.valid_i) k else false)
          || is_served n k (arbiter_edge n rem i) is)
        ready
      ∙ ap
          (λ (b : Bool).
            dec n (mux_valid n rem i.valid_i) k
            || is_served n k (if b then (λ j. false) else left n (mux_valid n rem i.valid_i)) is)
          flush
      ∙ ap (λ (l : ℕ → Bool). dec n l k || is_served n k (left n l) is) e

  in_round : (rem valid : ℕ → Bool) → rem k ≡ true → mux_valid n rem valid ≡ rem
  in_round rem valid on = ap (λ (b : Bool). if b then rem else valid) (any_one-active n k rem h on)

  -- A unit of the round has its turn in as many edges as there are units in it.
  round-served :
      (rem : ℕ → Bool) (is : List ArbiterInputs)
      → rem k ≡ true
      → All IsFree is
      → count n rem ≤ length is
      → is_served n k rem is ≡ true
  round-served rem [] on free enough = absurd (omega (arith, count-positive n k rem h on, enough))
  round-served rem (i ∷ is) on (f, free) enough =
      serve_edge rem rem i is (in_round rem i.valid_i on) f ∙ (elim (turn n rem k h on) [
        | inl e ↦ rw e refl
        | inr e ↦
            rw (round-served (left n rem) is e free (omega (arith, one_less n rem k h on, enough)))
              (ground arith)
      ])

  asked-served :
      (rem : ℕ → Bool) (is : List ArbiterInputs)
      → All (λ i. IsFree i × (i.valid_i k ≡ true)) is
      → count n rem + n ≤ length is
      → is_served n k rem is ≡ true
  asked-served rem [] free enough = absurd (omega (arith, h, enough))
  asked-served rem (i ∷ is) ((f, asks), free) enough = elim (Bool-cases (any_one n rem)) [
    | inl some_left ↦
        let same = ap (λ (b : Bool). if b then rem else i.valid_i) some_left in
        let (j, inside, active) = any_one-found n rem some_left in
        elim (Bool-cases (rem k)) [
          | inl on ↦
              round-served rem (i ∷ is) on (f, All-first (λ j. j.valid_i k ≡ true) is free)
                (omega (arith, enough))
          | inr off ↦
              serve_edge rem rem i is same f
              ∙ rw
                  (asked-served (left n rem) is free
                    (omega (arith, one_less n rem j inside active, enough)))
                  (ground arith)
        ]
    | inr none_left ↦
        let same = ap (λ (b : Bool). if b then rem else i.valid_i) none_left in
        serve_edge rem i.valid_i i is same f ∙ (elim (turn n i.valid_i k h asks) [
          | inl e ↦ rw e refl
          | inr e ↦
              rw
                (round-served (left n i.valid_i) is e (All-first (λ j. j.valid_i k ≡ true) is free)
                  (omega (arith, one_less n i.valid_i k h asks, count-bound n i.valid_i, enough)))
                (ground arith)
        ])
  ]

  -- In `2 * n` edges without a flush at which the consumer is ready, for any state of the round, each
  -- unit below `n` that is valid at all of them is served.
  pub arbiter-served :
      (rem : ℕ → Bool) (is : List ArbiterInputs)
      → All (λ i. IsFree i × (i.valid_i k ≡ true)) is
      → 2 * n ≤ length is
      → is_served n k rem is ≡ true
  arbiter-served rem is free enough =
      asked-served rem is free (omega (arith, count-bound n rem, enough))
