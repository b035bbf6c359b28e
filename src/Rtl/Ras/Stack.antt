-- ===== src/Rtl/Ras/Stack.antt =====
-- The return address stack is two stacks of at most `DEPTH` addresses.
use len5_core.Common.{
  ==_iff, ℕ, ◌<◌, inl, inr, Bool, true, false, not, ◌&&◌, List, [], ◌∷◌, ◌++◌, arith, ◌==◌,
  if◌then◌else◌, Bool-cases, length, drop,
}
use len5_core.Rtl.Ras.{
  Ras, RasInputs, with_entry, last_idx, lifo_push_pop, lifo_confirm, ras_edge, ras_reset,
}
use len5_core.Rtl.Ras.Entries.{
  Entries, older, all_ones-Entries, Entries-push, Entries-pop, Entries-exchange, Entries-forget,
  Entries-overflow,
}

-- The addresses that predict returns, and the confirmed ones, oldest first.
pub record Stacks : Type 0 where
  pub predicted : List ℕ
  pub confirmed : List ℕ

module _ (depth : ℕ) where
  -- A call and a return at one edge replace the newest address; a call on a full stack forgets the
  -- oldest.
  abbrev pub predict : (push pop : Bool) → (link : ℕ) → List ℕ → List ℕ
  predict true true link [] = []
  predict true true link (x ∷ s) = older (x ∷ s) ++ link ∷ []
  predict true false link s = (if length s == depth then drop 1 s else s) ++ link ∷ []
  predict false true link s = older s
  predict false false link s = s

  -- A confirmation; `overflow` forgets the newest confirmed address.
  abbrev pub confirm : (overflow call ret : Bool) → (link : ℕ) → List ℕ → List ℕ
  confirm true call ret link s = older s
  confirm false true false link s = if length s == depth then s else s ++ link ∷ []
  confirm false false true link s = older s
  confirm false _ _ link s = s

  pub stacks_edge : Stacks → RasInputs → Stacks
  stacks_edge t i = record {
    predicted =
        if i.flush_i then t.confirmed else predict i.push_i i.pop_i i.link_addr_i t.predicted;
    confirmed =
        confirm (i.push_i && not i.pop_i && (length t.predicted == depth)) i.call_confirm_i
          i.ret_confirm_i i.res_link_addr_i t.confirmed;
  }

  -- The registers hold the two stacks.
  pub record IsRas (r : Ras) (t : Stacks) : Type 0 where
    pub predicted_held : Entries depth r.ras_valid_q r.ras_addr_q t.predicted
    pub confirmed_held : Entries depth r.ras_valid_confirmed_q r.ras_addr_confirmed_q t.confirmed

  exchange-Entries :
      (valid : ℕ → Bool) (addr : ℕ → ℕ) (s : List ℕ) (link : ℕ)
      → Entries depth valid addr s
      → Entries depth valid (with_entry addr (last_idx depth valid) link) (predict true true link s)
  exchange-Entries valid addr [] link h = record {
    fits = h.fits;
    valid_at = h.valid_at;
    addr_at = λ i inside. absurd (omega (arith, inside));
  }
  exchange-Entries valid addr (x ∷ s) link h =
      Entries-exchange depth valid addr (x ∷ s) h link (omega arith)

  module _ (valid : ℕ → Bool) (addr : ℕ → ℕ) (s : List ℕ) (h : Entries depth valid addr s) where
    lifo_push_pop-Entries :
        (push pop : Bool) (link : ℕ)
        → 0 < depth
        → Entries depth
            (lifo_push_pop depth push pop link valid addr).0
            (lifo_push_pop depth push pop link valid addr).1
            (predict push pop link s)
    unfolding lifo_push_pop
    lifo_push_pop-Entries true true link positive = exchange-Entries valid addr s link h
    lifo_push_pop-Entries true false link positive = elim (Bool-cases (length s == depth)) [
      | inl e ↦
          rw (all_ones-Entries depth valid addr s h, e)
            (Entries-overflow depth valid addr s h link positive ((==_iff (length s) depth).0 e))
      | inr e ↦
          rw (all_ones-Entries depth valid addr s h, e)
            (Entries-push depth valid addr s h link (ground (arith, h.fits, e)))
    ]
    lifo_push_pop-Entries false true link positive = Entries-pop depth valid addr s h
    lifo_push_pop-Entries false false link positive = h

    lifo_confirm-Entries :
        (overflow call ret : Bool) (link : ℕ)
        → Entries depth
            (lifo_confirm depth overflow call ret link valid addr).0
            (lifo_confirm depth overflow call ret link valid addr).1
            (confirm overflow call ret link s)
    unfolding lifo_confirm
    lifo_confirm-Entries true call ret link = Entries-forget depth valid addr s h
    lifo_confirm-Entries false true true link = h
    lifo_confirm-Entries false false false link = h
    lifo_confirm-Entries false false true link = Entries-pop depth valid addr s h
    lifo_confirm-Entries false true false link = elim (Bool-cases (length s == depth)) [
      | inl e ↦ rw (all_ones-Entries depth valid addr s h, e) h
      | inr e ↦
          rw (all_ones-Entries depth valid addr s h, e)
            (Entries-push depth valid addr s h link (ground (arith, h.fits, e)))
    ]

  -- Every edge of the stack is that of the two abstract stacks, for a depth that is not 0.
  pub ras_edge-IsRas :
      (r : Ras) (t : Stacks) (i : RasInputs)
      → 0 < depth
      → IsRas r t
      → IsRas (ras_edge depth r i) (stacks_edge t i)
  unfolding ras_edge stacks_edge
  ras_edge-IsRas r t i positive h = record {
    predicted_held = elim (Bool-cases i.flush_i) [
      | inl e ↦ rw e h.confirmed_held
      | inr e ↦ rw e (
          lifo_push_pop-Entries r.ras_valid_q r.ras_addr_q t.predicted h.predicted_held i.push_i
            i.pop_i i.link_addr_i positive)
    ];
    confirmed_held =
        rw (all_ones-Entries depth r.ras_valid_q r.ras_addr_q t.predicted h.predicted_held) (
          lifo_confirm-Entries r.ras_valid_confirmed_q r.ras_addr_confirmed_q t.confirmed
            h.confirmed_held (i.push_i && not i.pop_i && (length t.predicted == depth))
            i.call_confirm_i i.ret_confirm_i i.res_link_addr_i);
  }

  pub ras_reset-IsRas :
      (r : Ras) → IsRas (ras_reset depth r) (record { predicted = []; confirmed = [] })
  unfolding ras_reset
  ras_reset-IsRas r = record {
    predicted_held = record {
      fits = omega arith;
      valid_at = λ i inside. ground arith;
      addr_at = λ i inside. absurd (omega (arith, inside));
    };
    confirmed_held = record {
      fits = omega arith;
      valid_at = λ i inside. ground arith;
      addr_at = λ i inside. absurd (omega (arith, inside));
    };
  }
