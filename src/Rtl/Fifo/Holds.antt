-- ===== src/Rtl/Fifo/Holds.antt =====
-- The registers of a queue and the items they hold, and a push and a pop of an entry.
use native.Mathlib.Nat.{mod-eq_of_lt, mod-lt, mod-add-mod}
use len5_core.Common.{
  get_elem?-append_lt, ne→==, ==_iff, get_elem?-append_end, le→ltb, get_elem?, lt→ltb,
  length-append, ℕ, suc, ◌+◌, ◌%◌, ◌≤◌, ◌<◌, ◌≡◌, refl, sym, ap, ◌∙◌, inl, inr, Bool, true, false,
  not, some, List, [], ◌∷◌, ◌++◌, arith, dec_lt, ℕ_discrete, ltb, some_inj, length,
}
use len5_core.Rtl.Counter.{modn_counter-en, modn_counter-off}
use len5_core.Rtl.Handshake.{is_empty}
use len5_core.Rtl.Fifo.{Fifo, fifo_valid, fifo_ready, fifo_data, fifo_update}
use len5_core.Rtl.Fifo.Indices.{around, is_tail, is_head, head_next}

-- The registers hold the queue `q`: the valid entries are those of its items. There are at least two
-- entries, as fifo.sv needs.
pub record Holds {A : Type 0} (depth : ℕ) (f : Fifo A) (q : List A) : Type 0 where
  pub at_least_two : 2 ≤ depth
  pub head_in : f.head_cnt < depth
  pub tail_at : f.tail_cnt ≡ (f.head_cnt + length q) % depth
  pub fits : length q ≤ depth
  pub valid_at : (k : ℕ) → k < depth → f.data_valid ((f.head_cnt + k) % depth) ≡ ltb k (length q)
  pub data_at : (k : ℕ) → k < length q → get_elem? q k ≡ some (f.entries ((f.head_cnt + k) % depth))

module _ {A : Type 0} (depth : ℕ) where
  pub Holds-pop :
      (f : Fifo A) (x y : A) (q : List A)
      → Holds depth f (y ∷ q)
      → Holds depth (fifo_update depth false true x f) q
  unfolding fifo_update
  Holds-pop f x y q h = record {
    at_least_two = h.at_least_two;
    head_in = rw (modn_counter-en depth 0 f.head_cnt h.head_in) (mod-lt _ (omega (arith, h.fits)));
    tail_at =
        modn_counter-off depth 0 f.tail_cnt
        ∙ h.tail_at
        ∙ sym (head_next depth f.head_cnt (length q) h.head_in);
    fits = omega (arith, h.fits);
    valid_at = λ k hk.
        rw (head_next depth f.head_cnt k h.head_in, is_head depth f.head_cnt k h.head_in hk)
          (elim (dec_lt (suc k) depth) [
            | yes p ↦ rw (lt→ltb (suc k) depth p, h.valid_at (suc k) p) (ground arith)
            | no p ↦ rw (le→ltb (suc k) depth (omega arith)) (ground (arith, h.fits))
          ]);
    data_at = λ k hk. rw (head_next depth f.head_cnt k h.head_in) (h.data_at (suc k) (omega arith));
  }

  pub Holds-push :
      (f : Fifo A) (x : A) (q : List A)
      → Holds depth f q
      → length q < depth
      → Holds depth (fifo_update depth true false x f) (q ++ (x ∷ []))
  unfolding fifo_update
  Holds-push f x q h room = record {
    at_least_two = h.at_least_two;
    head_in = rw (modn_counter-off depth 0 f.head_cnt) h.head_in;
    tail_at =
        modn_counter-en depth 0 f.tail_cnt (omega (arith, h.tail_at, tail_in))
        ∙ ap (λ (t : ℕ). (t + 1) % depth) h.tail_at
        ∙ mod-add-mod (f.head_cnt + length q) depth 1
        ∙ ap (λ (t : ℕ). t % depth) (omega (arith, more, modn_counter-off depth 0 f.head_cnt));
    fits = omega (arith, more);
    valid_at = λ k hk.
        rw
          (
            modn_counter-off depth 0 f.head_cnt,
            h.tail_at,
            is_tail depth f.head_cnt k (length q) h.head_in hk room,
          )
          (rw more (ground (arith, h.valid_at k hk)));
    data_at = λ k hk.
        rw
          (
            modn_counter-off depth 0 f.head_cnt,
            h.tail_at,
            is_tail depth f.head_cnt k (length q) h.head_in (omega (arith, more)) room,
          )
          (elim (ℕ_discrete k (length q)) [
            | yes e ↦ rw (e, get_elem?-append_end q x, (==_iff (length q) (length q)).1 refl) refl
            | no ne ↦
                rw (ne→== k (length q) ne, get_elem?-append_lt q (x ∷ []) k (omega (arith, more)))
                  (h.data_at k (omega (arith, more)))
          ]);
  }
    where
      tail_in : (f.head_cnt + length q) % depth < depth
      tail_in = mod-lt (f.head_cnt + length q) (omega (arith, room))

      more : length (q ++ (x ∷ [])) ≡ length q + 1
      more = length-append q (x ∷ [])

  pub Holds-idle :
      (f : Fifo A) (x : A) (q : List A)
      → Holds depth f q
      → Holds depth (fifo_update depth false false x f) q
  unfolding fifo_update
  Holds-idle f x q h = record {
    at_least_two = h.at_least_two;
    head_in = rw (modn_counter-off depth 0 f.head_cnt) h.head_in;
    tail_at =
        rw (modn_counter-off depth 0 f.head_cnt, modn_counter-off depth 0 f.tail_cnt) h.tail_at;
    fits = h.fits;
    valid_at = λ k hk. rw (modn_counter-off depth 0 f.head_cnt) (h.valid_at k hk);
    data_at = λ k hk. rw (modn_counter-off depth 0 f.head_cnt) (h.data_at k hk);
  }

  at_head : (f : Fifo A) → f.head_cnt < depth → f.head_cnt ≡ (f.head_cnt + 0) % depth
  at_head f h = sym (mod-eq_of_lt h) ∙ ap (λ (t : ℕ). t % depth) (omega arith)

  -- What the outputs show of the queue.
  pub Holds-valid :
      (f : Fifo A) (q : List A) → Holds depth f q → fifo_valid depth f ≡ not (is_empty q)
  Holds-valid f q h =
      ap f.data_valid (at_head f h.head_in) ∙ h.valid_at 0 (omega (arith, h.head_in)) ∙ some_item q
    where
      some_item : (l : List A) → ltb 0 (length l) ≡ not (is_empty l)
      some_item [] = refl
      some_item (x ∷ l) = ground arith

  pub Holds-data : (f : Fifo A) (x : A) (q : List A) → Holds depth f (x ∷ q) → fifo_data depth f ≡ x
  Holds-data f x q h =
      ap f.entries (at_head f h.head_in) ∙ sym (some_inj (h.data_at 0 (omega arith)))

  -- There is room just when the entry of the tail is not valid.
  pub Holds-ready :
      (f : Fifo A) (q : List A) (flush : Bool)
      → Holds depth f q
      → fifo_ready depth f flush ≡ ltb (length q) depth
  Holds-ready f q flush h = elim (dec_lt (length q) depth) [
    | yes p ↦
        ap (λ (t : ℕ). not (f.data_valid t)) h.tail_at
        ∙ ap not (h.valid_at (length q) p)
        ∙ (ground (arith, p))
    | no p ↦
        ap (λ (t : ℕ). not (f.data_valid t))
          (h.tail_at
            ∙ ap (λ (t : ℕ). (f.head_cnt + t) % depth) (omega (arith, h.fits))
            ∙ around_full
            ∙ at_head f h.head_in)
        ∙ ap not (h.valid_at 0 (omega (arith, h.head_in)))
        ∙ (ground (arith, p, h.head_in))
  ]
    where
      around_full : (f.head_cnt + depth) % depth ≡ f.head_cnt
      around_full = elim (around depth f.head_cnt depth h.head_in (omega arith)) [
        | inl a ↦ absurd (omega (arith, a.1))
        | inr a ↦ a.0 ∙ omega arith
      ]
