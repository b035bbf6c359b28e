-- ===== src/Rtl/Rob/Retire.antt =====
-- A commit from the head takes the oldest instruction, one from the work index the second.
use mathlib.Core.Path.{subst}
use native.Mathlib.Nat.{mod-eq-sub-mod, mod-lt}
use len5_core.Common.{
  ℕ, suc, ◌+◌, ◌-◌, ◌%◌, ◌≤◌, ◌<◌, ◌≡◌, sym, ap, ◌∙◌, Bool, true, false, ◌&&◌, some, List, [], ◌∷◌,
  arith, dec_lt, ltb, leb, ◌==◌, some_inj, length,
}
use len5_core.Rtl.Counter.{index, modn_counter, modn_counter-en}
use len5_core.Rtl.Fifo.Indices.{is_tail}
use len5_core.Rtl.Rob.Window.{Issued, View, view_commit, Filled, Window, at_head, around_sum}

-- The entries as they are seen from the work index, which becomes the head: those behind the oldest.
module _ (depth : ℕ) (v : View) (gap : ℕ) (x : Issued) (rest : List Issued)
    (h : Filled depth v gap x rest) where
  work_in : v.work < depth
  work_in = subst (λ (t : ℕ). t < depth) (sym h.work_at) (mod-lt _ (omega (arith, h.head_in)))

  next_work : modn_counter depth 1 v.work true false ≡ (v.work + 1) % depth
  next_work = modn_counter-en depth 1 v.work work_in

  from_work : (k : ℕ) → (v.work + k) % depth ≡ (v.head + (gap + k)) % depth
  from_work k = ap (λ (t : ℕ). (t + k) % depth) h.work_at ∙ around_sum depth v.head gap k

  head_test : (k : ℕ) → k < depth → (v.head == index depth ((v.head + k) % depth)) ≡ (k == 0)
  head_test k hk =
      ap (λ (t : ℕ). t == index depth ((v.head + k) % depth)) (at_head depth v.head h.head_in)
      ∙ is_tail depth v.head k 0 h.head_in hk (omega (arith, hk))

  left_valid : ℕ → Bool
  left_valid = (view_commit depth true v).valid

  left_at :
      (k : ℕ)
      → k < depth
      → left_valid ((v.head + k) % depth) ≡ (leb gap k && ltb k (gap + length rest))
  unfolding left_valid
  left_at k hk = rw (head_test k hk) (ground (arith, h.valid_at k hk, h.gap_in))

  left_from_work : (k : ℕ) → k < depth → left_valid ((v.work + k) % depth) ≡ ltb k (length rest)
  left_from_work k hk = elim (dec_lt (gap + k) depth) [
    | yes p ↦ rw (from_work k) (left_at (gap + k) p ∙ (ground arith))
    | no p ↦
        rw (from_work k, round p)
          (left_at (gap + k - depth) (omega (arith, hk, h.fits, p))
            ∙ (ground (arith, hk, h.fits, p)))
  ]
    where
      round :
          ¬ (gap + k < depth) → (v.head + (gap + k)) % depth ≡ (v.head + (gap + k - depth)) % depth
      round p =
          mod-eq-sub-mod {n = v.head + (gap + k)} {m = depth} (omega (arith, p))
          ∙ ap (λ (t : ℕ). t % depth) (omega (arith, p))

pub commit-head :
    (depth : ℕ) (v : View) (gap : ℕ) (x : Issued) (rest : List Issued)
    → 2 ≤ depth
    → Filled depth v gap x rest
    → Window depth (view_commit depth true v) rest
unfolding Window left_valid
commit-head depth v gap x [] two h = record {
  head_in = work_in depth v gap x [] h;
  tail_at = h.tail_at ∙ ap (λ (t : ℕ). (v.head + t) % depth) (omega arith) ∙ sym h.work_at;
  work_at = next_work depth v gap x [] h;
  valid_at = λ k hk. left_from_work depth v gap x [] h k hk ∙ (ground arith);
}
commit-head depth v gap x (y ∷ rest) two h = (
  1,
  record {
    head_in = work_in depth v gap x (y ∷ rest) h;
    gap_in = omega arith;
    fits = omega (arith, h.fits, h.gap_in);
    work_at = next_work depth v gap x (y ∷ rest) h;
    tail_at =
        h.tail_at
        ∙ sym (
            from_work depth v gap x (y ∷ rest) h (1 + length rest)
            ∙ ap (λ (t : ℕ). (v.head + t) % depth) (omega arith));
    valid_at = λ k hk. left_from_work depth v gap x (y ∷ rest) h k hk ∙ (ground arith);
    head_at =
        ap v.issued (h.work_at ∙ ap (λ (t : ℕ). (v.head + t) % depth) (omega arith))
        ∙ sym (some_inj (h.rest_at 0 (omega arith)));
    rest_at = λ k hk.
        h.rest_at (suc k) (omega (arith, hk))
        ∙ ap (λ (t : ℕ). some (v.issued t))
            (ap (λ (t : ℕ). (v.head + t) % depth) (omega arith)
              ∙ sym (from_work depth v gap x (y ∷ rest) h (1 + k)));
  },
)

pub commit-second :
    (depth : ℕ) (v : View) (gap : ℕ) (x y : Issued) (rest : List Issued)
    → Filled depth v gap x (y ∷ rest)
    → Filled depth (view_commit depth false v) (gap + 1) x rest
commit-second depth v gap x y rest h = record {
  head_in = h.head_in;
  gap_in = omega arith;
  fits = omega (arith, h.fits);
  work_at = next_work depth v gap x (y ∷ rest) h ∙ from_work depth v gap x (y ∷ rest) h 1;
  tail_at = h.tail_at ∙ ap (λ (t : ℕ). (v.head + t) % depth) (omega arith);
  valid_at = λ k hk.
      rw (h.work_at, is_tail depth v.head k gap h.head_in hk (omega (arith, h.fits)))
        (ground (arith, h.valid_at k hk, h.gap_in));
  head_at = h.head_at;
  rest_at = λ k hk.
      h.rest_at (suc k) (omega (arith, hk))
      ∙ ap (λ (t : ℕ). some (v.issued ((v.head + t) % depth))) (omega arith);
}
