-- ===== src/Rtl/Rob/Allocate.antt =====
-- An allocation adds its instruction behind the others.
use mathlib.Core.Path.{subst}
use native.Mathlib.Nat.{mod-lt, mod-add-mod}
use len5_core.Common.{
  get_elem?-append_lt, get_elem?-append_end, ==_iff, ne→==, length-append, ℕ, ◌+◌, ◌%◌, ◌≤◌, ◌<◌,
  ◌≡◌, refl, sym, ap, ◌∙◌, true, false, List, [], ◌∷◌, ◌++◌, arith, ℕ_discrete, ◌==◌, length,
}
use len5_core.Rtl.Counter.{index, modn_counter, modn_counter-en}
use len5_core.Rtl.Fifo.Indices.{is_tail}
use len5_core.Rtl.Rob.Window.{Issued, View, view_push, Empty, Filled, at_head}

module _ (depth : ℕ) (v : View) (e : Issued) where
  pub push-Empty : Empty depth v → 2 ≤ depth → Filled depth (view_push depth e v) 1 e []
  push-Empty h two = record {
    head_in = h.head_in;
    gap_in = omega arith;
    fits = omega (arith, two);
    work_at = h.work_at;
    tail_at =
        modn_counter-en depth 0 v.tail (subst (λ (t : ℕ). t < depth) (sym h.tail_at) h.head_in)
        ∙ ap (λ (t : ℕ). (t + 1) % depth) h.tail_at;
    valid_at = λ k hk. rw (tail_test k hk) (ground (arith, h.valid_at k hk));
    head_at = rw (tail_test_head) refl;
    rest_at = λ k hk. absurd (omega (arith, hk));
  }
    where
      tail_test : (k : ℕ) → k < depth → (v.tail == index depth ((v.head + k) % depth)) ≡ (k == 0)
      tail_test k hk =
          ap (λ (t : ℕ). t == index depth ((v.head + k) % depth))
            (h.tail_at ∙ at_head depth v.head h.head_in)
          ∙ is_tail depth v.head k 0 h.head_in hk (omega (arith, two))

      tail_test_head : (v.tail == index depth v.head) ≡ true
      tail_test_head =
          subst (λ (t : ℕ). (v.tail == index depth t) ≡ true) (sym (at_head depth v.head h.head_in))
            (tail_test 0 (omega (arith, two)))

  pub push-Filled :
      (gap : ℕ) (x : Issued) (rest : List Issued)
      → Filled depth v gap x rest
      → gap + length rest < depth
      → Filled depth (view_push depth e v) gap x (rest ++ e ∷ [])
  push-Filled gap x rest h room = record {
    head_in = h.head_in;
    gap_in = h.gap_in;
    fits = omega (arith, more, room);
    work_at = h.work_at;
    tail_at = next_tail;
    valid_at = λ k hk.
        rw (more, h.tail_at, is_tail depth v.head k (gap + length rest) h.head_in hk room)
          (ground (arith, h.valid_at k hk, h.gap_in));
    head_at = rw (head_test, ne→== 0 (gap + length rest) (omega (arith, h.gap_in))) h.head_at;
    rest_at = λ k hk.
        rw (tail_test (gap + k) (omega (arith, more, hk, room)))
          (elim (ℕ_discrete k (length rest)) [
            | yes e' ↦
                rw (e', (==_iff (gap + length rest) (gap + length rest)).1 refl)
                  (get_elem?-append_end rest e)
            | no ne ↦
                rw
                  (
                    ne→== (gap + k) (gap + length rest) (omega (arith, ne)),
                    get_elem?-append_lt rest (e ∷ []) k (omega (arith, more, hk, ne)),
                  )
                  (h.rest_at k (omega (arith, more, hk, ne)))
          ]);
  }
    where
      more : length (rest ++ e ∷ []) ≡ length rest + 1
      more = length-append rest (e ∷ [])

      tail_in : v.tail < depth
      tail_in = subst (λ (t : ℕ). t < depth) (sym h.tail_at) (mod-lt _ (omega (arith, room)))

      tail_test :
          (k : ℕ)
          → k < depth
          → (v.tail == index depth ((v.head + k) % depth)) ≡ (k == gap + length rest)
      tail_test k hk = rw h.tail_at (is_tail depth v.head k (gap + length rest) h.head_in hk room)

      head_test : (v.tail == index depth v.head) ≡ (0 == gap + length rest)
      head_test =
          subst (λ (t : ℕ). (v.tail == index depth t) ≡ (0 == gap + length rest))
            (sym (at_head depth v.head h.head_in)) (tail_test 0 (omega (arith, room)))

      next_tail :
          modn_counter depth 0 v.tail true false
          ≡ (v.head + (gap + length (rest ++ e ∷ []))) % depth
      next_tail =
          modn_counter-en depth 0 v.tail tail_in
          ∙ ap (λ (t : ℕ). (t + 1) % depth) h.tail_at
          ∙ mod-add-mod (v.head + (gap + length rest)) depth 1
          ∙ ap (λ (t : ℕ). t % depth) (omega (arith, more))
