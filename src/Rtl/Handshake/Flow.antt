-- ===== src/Rtl/Handshake/Flow.antt =====
-- A stage that stands for a queue loses nothing, repeats nothing and keeps the order.
use len5_core.Common.{
  ◌≡◌, refl, sym, ap, ◌∙◌, inl, inr, Bool, true, false, List, [], ◌∷◌, ◌++◌, arith, if◌then◌else◌,
  Bool-cases, length, All,
}
use mathlib.Core.List.{append_assoc, append-nil}
use mathlib.Core.Path.{subst}
use len5_core.Rtl.Handshake.{
  Inputs, Stage, Refines, after, pushes, pops, accepted, delivered, final,
}

-- No edge of a run has a flush.
abbrev pub Undisturbed : {A : Type 0} → List (Inputs A) → Type 0
Undisturbed is = All (λ i. i.flush_i ≡ false) is

-- Every edge of a run finds the unit downstream ready.
abbrev pub Ready : {A : Type 0} → List (Inputs A) → Type 0
Ready is = All (λ i. i.ready_i ≡ true) is

module _ {S A : Type 0} (stage : Stage S A) (r : Refines stage) where
  open r use {Represents, represents_valid, represents_data, represents_edge}

  -- One edge without a flush: what is popped and what is left are what was there and what came.
  edge_flow :
      (s : S) (q : List A) (i : Inputs A)
      → Represents s q
      → (if pops stage s i then stage.data_o s ∷ [] else [])
          ++ after (pops stage s i) (pushes stage s i) i.data_i q
        ≡ q ++ (if pushes stage s i then i.data_i ∷ [] else [])
  unfolding after
  edge_flow s [] i h = rw (represents_valid s [] h) refl
  edge_flow s (x ∷ q) i h = elim (Bool-cases i.ready_i) [
    | inl e ↦ rw (represents_valid s (x ∷ q) h, e, represents_data s x q h) refl
    | inr e ↦ rw (represents_valid s (x ∷ q) h, e) refl
  ]

  -- Along a run, what was there and what came is what left, in order, and what the stage holds now.
  pub accepted-delivered :
      (s : S) (q : List A) (is : List (Inputs A))
      → Represents s q
      → Undisturbed is
      → (q' : List A) × Represents (final stage s is) q'
        × (q ++ accepted stage s is ≡ delivered stage s is ++ q')
  unfolding accepted delivered final
  accepted-delivered s q [] h u = (q, h, append-nil q)
  accepted-delivered s q (i ∷ is) h (u, us) =
      let rest = accepted-delivered (stage.edge s i) (after out into i.data_i q) is next us in
      (
        rest.0,
        rest.1,
        sym (append_assoc q came later)
            ∙ ap (λ (t : List A). t ++ later) (sym (edge_flow s q i h))
            ∙ append_assoc left (after out into i.data_i q) later
            ∙ ap (λ (t : List A). left ++ t) rest.2
            ∙ sym (append_assoc left (delivered stage (stage.edge s i) is) rest.0),
      )
    where
      out : Bool
      out = pops stage s i

      into : Bool
      into = pushes stage s i

      came : List A
      came = if into then i.data_i ∷ [] else []

      left : List A
      left = if out then stage.data_o s ∷ [] else []

      later : List A
      later = accepted stage (stage.edge s i) is

      next : Represents (stage.edge s i) (after out into i.data_i q)
      next = represents_edge s q i h u

  -- A stage whose consumer is ready hands over what it holds, one item at every edge.
  pub delivered-Ready :
      (s : S) (q later : List A) (is : List (Inputs A))
      → Represents s (q ++ later)
      → length is ≡ length q
      → Undisturbed is
      → Ready is
      → delivered stage s is ≡ q
  unfolding delivered after
  delivered-Ready s [] later [] h e u d = refl
  delivered-Ready s (x ∷ q) later (i ∷ is) h e (u, us) (d, ds) =
      rw (out, represents_data s x (q ++ later) h)
        (ap (λ (t : List A). x ∷ t)
          (delivered-Ready (stage.edge s i) q (later ++ came) is next (omega arith) us ds))
    where
      came : List A
      came = if pushes stage s i then i.data_i ∷ [] else []

      out : pops stage s i ≡ true
      out = rw (represents_valid s (x ∷ q ++ later) h, d) refl

      next : Represents (stage.edge s i) (q ++ (later ++ came))
      next =
          subst (λ (t : List A). Represents (stage.edge s i) t)
            (ap (λ (b : Bool). after b (pushes stage s i) i.data_i (x ∷ q ++ later)) out
              ∙ append_assoc q later came)
            (represents_edge s (x ∷ q ++ later) i h u)
  delivered-Ready s (x ∷ q) later [] h e u d = absurd (omega arith)
  delivered-Ready s [] later (i ∷ is) h e u d = absurd (omega arith)
