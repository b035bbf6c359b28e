-- ===== src/Rtl/Ras/Entries.antt =====
-- The entries of the return address stack as a list of addresses, oldest first.
use len5_core.Common.{
  get_elem?-append_lt, ne→==, get_elem?-append_end, le→ltb, get_elem?-take, lt→ltb, ==_iff,
  get_elem?, length-append, length-take, ℕ, zero, suc, ◌+◌, ◌-◌, ◌≤◌, ◌<◌, ◌≡◌, refl, ap, ◌∙◌, Bool,
  true, false, not, some, List, [], ◌∷◌, ◌++◌, arith, dec_lt, ℕ_discrete, ltb, leb, ◌==◌,
  if◌then◌else◌, length, take, drop,
}
use len5_core.Rtl.PrioEnc.{prio_enc}
use len5_core.Rtl.PrioEnc.Prefix.{prio_enc-prefix, prio_enc_inv-prefix}
use mathlib.Core.Path.{subst}
use len5_core.Rtl.Ras.{all_ones, with_entry, last_idx, new_idx}

-- The first entries are valid and hold the addresses of `s`.
pub record Entries (depth : ℕ) (valid : ℕ → Bool) (addr : ℕ → ℕ) (s : List ℕ) : Type 0 where
  pub fits : length s ≤ depth
  pub valid_at : (i : ℕ) → i < depth → valid i ≡ ltb i (length s)
  pub addr_at : (i : ℕ) → i < length s → get_elem? s i ≡ some (addr i)

-- The addresses without the newest.
abbrev pub older : List ℕ → List ℕ
older s = take (length s - 1) s

module _ (depth : ℕ) (valid : ℕ → Bool) (addr : ℕ → ℕ) (s : List ℕ)
    (h : Entries depth valid addr s) where
  last_idx-Entries : last_idx depth valid ≡ length s - 1
  last_idx-Entries =
      ap (λ (e : ℕ × Bool). e.0) (prio_enc-prefix depth (length s) valid h.fits h.valid_at)

  pub ras_valid-Entries : (prio_enc depth valid false).1 ≡ ltb 0 (length s)
  ras_valid-Entries =
      ap (λ (e : ℕ × Bool). e.1) (prio_enc-prefix depth (length s) valid h.fits h.valid_at)

  pub ret_addr-Entries :
      0 < length s → get_elem? s (length s - 1) ≡ some (addr (last_idx depth valid))
  ret_addr-Entries some_entry =
      rw last_idx-Entries (h.addr_at (length s - 1) (omega (arith, some_entry)))

  new_idx-Entries : length s < depth → new_idx depth valid ≡ length s
  new_idx-Entries room =
      ap (λ (e : ℕ × Bool). e.0)
        (prio_enc_inv-prefix depth (length s) (λ i. not (valid i)) h.fits
          (λ i inside. ap not (h.valid_at i inside)) room)

  all_ones-below : (n : ℕ) → n ≤ depth → all_ones n valid ≡ leb n (length s)
  unfolding all_ones
  all_ones-below zero inside = ground arith
  all_ones-below (suc n) inside =
      rw (all_ones-below n (omega (arith, inside)), h.valid_at n inside) (ground arith)

  pub all_ones-Entries : all_ones depth valid ≡ (length s == depth)
  all_ones-Entries = all_ones-below depth (omega arith) ∙ (ground (arith, h.fits))

  -- A push on free entries.
  pub Entries-push :
      (x : ℕ)
      → length s < depth
      → Entries depth
          (with_entry valid (new_idx depth valid) true)
          (with_entry addr (new_idx depth valid) x)
          (s ++ x ∷ [])
  Entries-push x room = rw (new_idx-Entries room) (record {
    fits = omega (arith, more, room);
    valid_at = λ i inside. rw more (ground (arith, h.valid_at i inside));
    addr_at = λ i inside. elim (ℕ_discrete i (length s)) [
      | yes e ↦ rw (e, (==_iff (length s) (length s)).1 refl) (get_elem?-append_end s x)
      | no ne ↦
          rw (ne→== i (length s) ne, get_elem?-append_lt s (x ∷ []) i (omega (arith, more, inside)))
            (h.addr_at i (omega (arith, more, inside)))
    ];
  })
    where
      more : length (s ++ x ∷ []) ≡ length s + 1
      more = length-append s (x ∷ [])

  pub Entries-pop : Entries depth (with_entry valid (last_idx depth valid) false) addr (older s)
  Entries-pop = rw last_idx-Entries (record {
    fits = omega (arith, less, h.fits);
    valid_at = λ i inside. rw less (ground (arith, h.valid_at i inside));
    addr_at = λ i inside.
        get_elem?-take s (length s - 1) i (omega (arith, less, inside))
        ∙ h.addr_at i (omega (arith, less, inside));
  })
    where
      less : length (older s) ≡ length s - 1
      less = length-take s (length s - 1) (omega arith)

  -- A push with a pop replaces the newest address.
  pub Entries-exchange :
      (x : ℕ)
      → 0 < length s
      → Entries depth valid (with_entry addr (last_idx depth valid) x) (older s ++ x ∷ [])
  Entries-exchange x some_entry = rw last_idx-Entries (record {
    fits = omega (arith, same, h.fits);
    valid_at = λ i inside. rw same (h.valid_at i inside);
    addr_at = λ i inside. elim (ℕ_discrete i (length s - 1)) [
      | yes e ↦
          rw (e, (==_iff (length s - 1) (length s - 1)).1 refl)
            (subst (λ (k : ℕ). get_elem? (older s ++ x ∷ []) k ≡ some x) less
              (get_elem?-append_end (older s) x))
      | no ne ↦
          rw
            (
              ne→== i (length s - 1) ne,
              get_elem?-append_lt (older s) (x ∷ []) i (omega (arith, less, same, inside)),
              get_elem?-take s (length s - 1) i (omega (arith, same, inside)),
            )
            (h.addr_at i (omega (arith, same, inside)))
    ];
  })
    where
      less : length (older s) ≡ length s - 1
      less = length-take s (length s - 1) (omega arith)

      same : length (older s ++ x ∷ []) ≡ length s
      same = length-append (older s) (x ∷ []) ∙ omega (arith, less, some_entry)

  -- The valid bits moved down by one leave the addresses where they are: the newest is forgotten.
  pub Entries-forget :
      Entries depth (λ i. if ltb i (depth - 1) then valid (i + 1) else false) addr (older s)
  Entries-forget = record {
    fits = omega (arith, less, h.fits);
    valid_at = λ i inside. rw less (elim (dec_lt i (depth - 1)) [
      | yes p ↦ rw (lt→ltb i (depth - 1) p, h.valid_at (i + 1) (omega (arith, p))) (ground arith)
      | no p ↦ rw (le→ltb i (depth - 1) (omega (arith, p))) (ground (arith, p, h.fits))
    ]);
    addr_at = λ i inside.
        get_elem?-take s (length s - 1) i (omega (arith, less, inside))
        ∙ h.addr_at i (omega (arith, less, inside));
  }
    where
      less : length (older s) ≡ length s - 1
      less = length-take s (length s - 1) (omega arith)

-- A push on full entries moves the addresses down by one: the oldest is forgotten.
pub Entries-overflow :
    (depth : ℕ) (valid : ℕ → Bool) (addr : ℕ → ℕ) (s : List ℕ)
    → Entries depth valid addr s
    → (x : ℕ) → 0 < depth
    → length s ≡ depth
    → Entries depth valid
        (with_entry (λ i. if ltb i (depth - 1) then addr (i + 1) else addr i) (depth - 1) x)
        (drop 1 s ++ x ∷ [])
Entries-overflow depth valid addr [] h x positive full = absurd (omega (arith, positive, full))
Entries-overflow depth valid addr (y ∷ s) h x positive full = record {
  fits = omega (arith, same, h.fits);
  valid_at = λ i inside. rw same (h.valid_at i inside);
  addr_at = λ i inside. elim (ℕ_discrete i (depth - 1)) [
    | yes e ↦
        rw (e, (==_iff (depth - 1) (depth - 1)).1 refl)
          (subst (λ (k : ℕ). get_elem? (s ++ x ∷ []) k ≡ some x) (omega (arith, full))
            (get_elem?-append_end s x))
    | no ne ↦
        rw
          (
            ne→== i (depth - 1) ne,
            lt→ltb i (depth - 1) (omega (arith, same, inside, full, ne)),
            get_elem?-append_lt s (x ∷ []) i (omega (arith, same, inside, full, ne)),
          )
          (h.addr_at (suc i) (omega (arith, same, inside, full, ne))
            ∙ ap (λ (k : ℕ). some (addr k)) (omega arith))
  ];
}
  where
    same : length (s ++ x ∷ []) ≡ suc (length s)
    same = length-append s (x ∷ []) ∙ omega arith
