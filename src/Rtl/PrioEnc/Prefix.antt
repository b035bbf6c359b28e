-- ===== src/Rtl/PrioEnc/Prefix.antt =====
-- The encoder on lines of which a first part is active.
use len5_core.Common.{
  ltb→lt, lt→ltb, le→ltb, ℕ, ◌+◌, ◌-◌, ◌≤◌, ◌<◌, ◌≡◌, sym, ap, ◌∙◌, inl, inr, Bool, true, false,
  not, arith, dec_lt, ltb, Bool-cases,
}
use len5_core.Rtl.PrioEnc.{ap₂, prio_enc}
use len5_core.Rtl.PrioEnc.Found.{IsLast, IsFirst, prio_enc-IsLast, prio_enc-IsFirst}

-- The lines below `count` are active: the last of them, and the first line behind them.
module _ (n count : ℕ) (lines : ℕ → Bool) (fits : count ≤ n) where
  pub prio_enc-prefix :
      ((i : ℕ) → i < n → lines i ≡ ltb i count) → prio_enc n lines false ≡ (count - 1, ltb 0 count)
  prio_enc-prefix h = elim (Bool-cases found) [
    | inl on ↦
        let (inside, active) = l.found on in
        let below = ltb→lt index count (sym (h index inside) ∙ active) in
        let last = not_below on inside below in
        ap₂ (λ (i : ℕ) (b : Bool). (i, b)) last (on ∙ sym (lt→ltb 0 count (omega (arith, below))))
    | inr off ↦
        let empty = no_line off in
        ap₂ (λ (i : ℕ) (b : Bool). (i, b)) (l.zero_unless off ∙ omega (arith, empty))
          (off ∙ (ground (arith, empty)))
  ]
    where
      index : ℕ
      index = (prio_enc n lines false).0

      found : Bool
      found = (prio_enc n lines false).1

      l : IsLast n lines (prio_enc n lines false)
      l = prio_enc-IsLast n lines

      no_line : found ≡ false → count ≡ 0
      no_line off = elim (dec_lt 0 count) [
        | yes p ↦ absurd (
            ground (
              arith,
              l.none_active 0 off (omega (arith, p, fits)),
              h 0 (omega (arith, p, fits)),
              p,
            ))
        | no p ↦ omega (arith, p)
      ]

      not_below : found ≡ true → index < n → index < count → index ≡ count - 1
      not_below on inside below = elim (dec_lt index (count - 1)) [
        | yes p ↦ absurd (
            ground (
              arith,
              l.beyond (count - 1) on p (omega (arith, p, fits)),
              h (count - 1) (omega (arith, p, fits)),
              lt→ltb (count - 1) count (omega (arith, p)),
            ))
        | no p ↦ omega (arith, p, below)
      ]

  pub prio_enc_inv-prefix :
      ((i : ℕ) → i < n → lines i ≡ not (ltb i count))
      → count < n
      → prio_enc n lines true ≡ (count, true)
  prio_enc_inv-prefix h room = elim (Bool-cases found) [
    | inl on ↦
        let (_, inside, active) = l.found on in
        ap₂ (λ (i : ℕ) (b : Bool). (i, b)) (first on inside active) on
    | inr off ↦
        absurd (ground (arith, l.none_active count off (omega arith) (omega (arith, room)), free))
  ]
    where
      index : ℕ
      index = (prio_enc n lines true).0

      found : Bool
      found = (prio_enc n lines true).1

      l : IsFirst 0 n lines (prio_enc n lines true)
      l = prio_enc-IsFirst n lines

      free : lines count ≡ true
      free = h count room ∙ ap not (le→ltb count count (omega arith))

      first : found ≡ true → index < 0 + n → lines index ≡ true → index ≡ count
      first on inside active = elim (dec_lt index count) [
        | yes p ↦
            absurd (ground (arith, active, h index (omega (arith, inside)), lt→ltb index count p))
        | no p ↦ elim (dec_lt count index) [
          | yes q ↦ absurd (ground (arith, l.before count on (omega arith) q, free))
          | no q ↦ omega (arith, p, q)
        ]
      ]
