-- ===== src/Rtl/Fifo/Indices.antt =====
-- The indices of the queue: those from the head on, going round at `DEPTH`.
use native.Mathlib.Nat.{mod-eq_of_lt, mod-eq-sub-mod, mod-lt, mod-add-mod}
use len5_core.Common.{
  ne→==, ==_iff, ℕ, suc, ◌+◌, ◌-◌, ◌%◌, ◌≤◌, ◌<◌, ◌≡◌, refl, sym, ap, ◌∙◌, ◌⊎◌, inl, inr, true,
  false, not, arith, dec_lt, ℕ_discrete, ltb, ◌==◌,
}
use len5_core.Rtl.Counter.{index, index_lt, modn_counter, modn_counter-en}

-- Going round at `n` once at most.
pub around :
    (n h k : ℕ)
    → h < n
    → k ≤ n
    → (((h + k) % n ≡ h + k) × (h + k < n)) ⊎ (((h + k) % n ≡ h + k - n) × (n ≤ h + k))
around n h k hh hk = elim (dec_lt (h + k) n) [
  | yes p ↦ inl (mod-eq_of_lt p, p)
  | no p ↦ inr (
    mod-eq-sub-mod {n = h + k} {m = n} (omega arith)
        ∙ mod-eq_of_lt {n = h + k - n} {m = n} (omega arith),
    omega arith,
  )
]

-- The entries of a queue are different ones.
around-inj : (n h k l : ℕ) → h < n → k < n → l < n → (h + k) % n ≡ (h + l) % n → k ≡ l
around-inj n h k l hh hk hl e = elim (around n h k hh (omega arith)) [
  | inl a ↦ elim (around n h l hh (omega arith)) [
    | inl b ↦ omega (arith, e, a.0, b.0)
    | inr b ↦ omega (arith, e, a.0, b.0, a.1, b.1)
  ]
  | inr a ↦ elim (around n h l hh (omega arith)) [
    | inl b ↦ omega (arith, e, a.0, b.0, a.1, b.1)
    | inr b ↦ omega (arith, e, a.0, b.0, a.1, b.1)
  ]
]

pub around-next : (n h k : ℕ) → ((h + 1) % n + k) % n ≡ (h + suc k) % n
around-next n h k = mod-add-mod (h + 1) n k ∙ ap (λ (t : ℕ). t % n) (omega arith)

-- The entry `k` places behind the head is that of the tail just when `k` items stand before it, and
-- the entry behind it is again the head when it has gone round.
pub is_tail :
    (n h k l : ℕ) → h < n → k < n → l < n → ((h + l) % n == index n ((h + k) % n)) ≡ (k == l)
is_tail n h k l hh hk hl =
    rw (index_lt n ((h + k) % n) (mod-lt _ (omega arith))) (elim (ℕ_discrete k l) [
      | yes e ↦ rw (e, (==_iff l l).1 refl) ((==_iff _ _).1 refl)
      | no ne ↦ rw (ne→== k l ne) (ne→== _ _ (λ e. ne (sym (around-inj n h l k hh hl hk e))))
    ])

pub is_head : (n h k : ℕ) → h < n → k < n → (h == index n ((h + suc k) % n)) ≡ not (ltb (suc k) n)
is_head n h k hh hk =
    rw (index_lt n ((h + suc k) % n) (mod-lt _ (omega arith)))
      (elim (around n h (suc k) hh (omega arith)) [
        | inl a ↦ rw a.0 (ground (arith, a.1))
        | inr a ↦ rw a.0 (ground (arith, a.1))
      ])

pub head_next :
    (depth head k : ℕ)
    → head < depth
    → (modn_counter depth 0 head true false + k) % depth ≡ (head + suc k) % depth
head_next depth head k h =
    ap (λ (t : ℕ). (t + k) % depth) (modn_counter-en depth 0 head h) ∙ around-next depth head k
