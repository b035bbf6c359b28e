-- ===== src/Rtl/Fifo/Queue.antt =====
-- The entries from the head on, going round at `DEPTH`, are a queue of `DEPTH` items.
use mathlib.Core.List.{append-nil}
use mathlib.Core.Path.{subst}
use native.Mathlib.Nat.{mod-eq_of_lt}
use len5_core.Common.{
  ltb→lt, and_split, ℕ, ◌≤◌, ◌<◌, ◌≡◌, refl, sym, ap, ◌∙◌, inl, inr, Bool, true, false, not, ◌&&◌,
  List, [], ◌∷◌, ◌++◌, arith, if◌then◌else◌, Bool-cases, length,
}
use len5_core.Rtl.Counter.{modn_counter}
use len5_core.Rtl.Handshake.{
  Inputs, Refines, is_empty, after, pushes, pops, accepted, delivered, final,
}
use len5_core.Rtl.Handshake.Flow.{Undisturbed, accepted-delivered}
use len5_core.Rtl.Fifo.{Fifo, fifo_valid, fifo_ready, fifo_update, fifo_flush, fifo_edge, fifo}
use len5_core.Rtl.Fifo.Holds.{
  Holds, Holds-pop, Holds-push, Holds-idle, Holds-valid, Holds-data, Holds-ready,
}

module _ {A : Type 0} (depth : ℕ) where
  Holds-update :
      (push pop : Bool) (f : Fifo A) (x : A) (q : List A)
      → Holds depth f q
      → (push ≡ true → length q < depth)
      → (pop ≡ true → not (is_empty q) ≡ true)
      → Holds depth (fifo_update depth push pop x f) (after pop push x q)
  unfolding after fifo_update modn_counter
  Holds-update true true f x (y ∷ q) h room some_item =
      Holds-push depth (fifo_update depth false true x f) x q (Holds-pop depth f x y q h)
        (omega (arith, room refl))
  Holds-update true true f x [] h room some_item = absurd (ground (arith, some_item refl))
  Holds-update false true f x (y ∷ q) h room some_item =
      subst (λ (t : List A). Holds depth (fifo_update depth false true x f) t) (sym (append-nil q))
        (Holds-pop depth f x y q h)
  Holds-update false true f x [] h room some_item = absurd (ground (arith, some_item refl))
  Holds-update true false f x q h room some_item = Holds-push depth f x q h (room refl)
  Holds-update false false f x q h room some_item =
      subst (λ (t : List A). Holds depth (fifo_update depth false false x f) t) (sym (append-nil q))
        (Holds-idle depth f x q h)

  Holds-pushes :
      (f : Fifo A) (i : Inputs A) (q : List A)
      → Holds depth f q
      → i.valid_i && fifo_ready depth f i.flush_i ≡ true
      → length q < depth
  Holds-pushes f i q h e = ltb→lt (length q) depth (
      sym (Holds-ready depth f q i.flush_i h)
      ∙ (and_split i.valid_i (fifo_ready depth f i.flush_i) e).1)

  Holds-pops :
      (f : Fifo A) (i : Inputs A) (q : List A)
      → Holds depth f q
      → fifo_valid depth f && i.ready_i ≡ true
      → not (is_empty q) ≡ true
  Holds-pops f i q h e =
      sym (Holds-valid depth f q h) ∙ (and_split (fifo_valid depth f) i.ready_i e).0

  -- Cleared valid bits are an empty queue.
  pub Holds-empty :
      (entries : ℕ → A)
      → 2 ≤ depth
      → Holds depth
          (record { head_cnt = 0; tail_cnt = 0; entries = entries; data_valid = λ i. false })
          []
  Holds-empty entries h = record {
    at_least_two = h;
    head_in = omega (arith, h);
    tail_at = sym (mod-eq_of_lt (omega (arith, h)));
    fits = omega arith;
    valid_at = λ k hk. ground arith;
    data_at = λ k hk. absurd (omega (arith, hk));
  }

  -- With at least two entries, an edge with a flush leaves nothing; another one drops what was handed over and adds what came.
  pub fifo_edge-Holds :
      (f : Fifo A) (q : List A) (i : Inputs A)
      → Holds depth f q
      → Holds depth (fifo_edge depth f i) (
          if i.flush_i
          then []
          else after
              (fifo_valid depth f && i.ready_i)
              (i.valid_i && fifo_ready depth f i.flush_i)
              i.data_i
              q)
  unfolding fifo_edge fifo_flush modn_counter
  fifo_edge-Holds f q i h = elim (Bool-cases i.flush_i) [
    | inl e ↦ rw e (Holds-empty f.entries h.at_least_two)
    | inr e ↦ rw e (
        Holds-update (i.valid_i && fifo_ready depth f i.flush_i) (fifo_valid depth f && i.ready_i) f
          i.data_i q h (Holds-pushes f i q h) (Holds-pops f i q h))
  ]

  pub fifo_queue : (zeros : A) → 2 ≤ depth → Refines (fifo depth zeros)
  fifo_queue zeros enough = record {
    capacity = depth;
    Represents = Holds depth;
    represents_reset = Holds-empty (λ i. zeros) enough;
    represents_bound = λ f q h. h.fits;
    represents_ready =
        λ f q flush h e. ltb→lt (length q) depth (sym (Holds-ready depth f q flush h) ∙ e);
    represents_valid = Holds-valid depth;
    represents_data = Holds-data depth;
    represents_edge = λ f q i h u.
        subst (λ (t : List A). Holds depth (fifo_edge depth f i) t)
          (ap
            (λ (b : Bool).
              if b
              then []
              else after (pops (fifo depth zeros) f i) (pushes (fifo depth zeros) f i) i.data_i q)
            u)
          (fifo_edge-Holds f q i h);
  }

  -- With at least two entries, out of reset, while nothing is flushed, the queue hands over what it
  -- accepted, in order and once; the valid entries are what it has accepted and not handed over, `DEPTH` items at most.
  pub fifo-in_order :
      (zeros : A) (is : List (Inputs A))
      → 2 ≤ depth
      → Undisturbed is
      → let queue = fifo depth zeros in
        (q : List A) × Holds depth (final queue queue.reset is) q
        × (accepted queue queue.reset is ≡ delivered queue queue.reset is ++ q)
        × (length q ≤ depth)
  unfolding fifo_queue
  fifo-in_order zeros is enough u =
      let queue = fifo depth zeros in
      let (q, held, flow) =
        accepted-delivered queue (fifo_queue zeros enough) queue.reset [] is
          (Holds-empty (λ i. zeros) enough) u in
      (q, held, flow, held.fits)
