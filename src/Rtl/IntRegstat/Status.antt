-- ===== src/Rtl/IntRegstat/Status.antt =====
-- The register status names, for every register, the newest instruction in flight that writes it.
use mathlib.Core.Path.{subst}
use native.Mathlib.Nat.{one-le-pow}
use len5_core.Common.{
  ==_iff, and_split, ne→==, ℕ, ◌+◌, ◌-◌, ◌^◌, ◌≤◌, ◌<◌, ◌≡◌, refl, sym, ap, ◌∙◌, ◌≢◌, inl, inr,
  Bool, true, false, not, ◌&&◌, Option, none, some, List, [], ◌∷◌, ◌++◌, arith, ℕ_discrete, ◌==◌,
  if◌then◌else◌, Bool-cases, some_inj,
}
use len5_core.Rtl.IntRegstat.{
  RegStat, RegStatInputs, updown_counter, skip_cnt_upd, regstat_edge, regstat_reset, rs_status,
}
use len5_core.Rtl.IntRegstat.Writers.{Writer, writers, newest, newest-writers}
use len5_core.Rtl.IntRegstat.Edge.{
  left, issued, in_flight, writers-in_flight, newest-left, newest-in_flight, counter_edge,
}

module _ (width : ℕ) where
  -- A commit has an instruction in flight that writes its register, and a register has fewer writers
  -- than its counter can count.
  abbrev pub IsCounted : List Writer → RegStatInputs → Type 0
  IsCounted q i =
      (i.comm_valid_i ≡ true → 1 ≤ writers i.comm_rd_idx_i q)
      × ((r : ℕ) → writers r (in_flight q i) < 2 ^ width)

  pub record Tracks (s : RegStat) (q : List Writer) : Type 0 where
    pub counts : (r : ℕ) → s.busy_cnt r ≡ writers r q
    pub fits : (r : ℕ) → writers r q < 2 ^ width
    pub names : (r x : ℕ) → r ≢ 0 → newest r q ≡ some x → s.busy_rob_idx r ≡ x

  edge-counts :
      (s : RegStat) (q : List Writer) (i : RegStatInputs) (r : ℕ)
      → Tracks s q
      → IsCounted q i
      → (regstat_edge width s i).busy_cnt r ≡ writers r (in_flight q i)
  unfolding regstat_edge in_flight updown_counter
  edge-counts s q i r t (commits, fits) = elim (Bool-cases i.flush_i) [
    | inl e ↦ rw e refl
    | inr e ↦
        rw (e, t.counts r)
          (counter_edge width (writers r q) (skip_cnt_upd i) up down both apart one (t.fits r)
              (room e)
            ∙ sym (writers-in_flight r q i))
  ]
    where
      up : Bool
      up = i.issue_valid_i && r == i.issue_rd_idx_i

      down : Bool
      down = i.comm_valid_i && r == i.comm_rd_idx_i

      both : skip_cnt_upd i ≡ true → up ≡ down
      both h = ground arith

      apart : skip_cnt_upd i ≡ false → (up && down) ≡ false
      apart h = ground arith

      one : down ≡ true → 1 ≤ writers r q
      one h =
          let (v, same) = and_split i.comm_valid_i (r == i.comm_rd_idx_i) h in
          subst (λ (k : ℕ). 1 ≤ writers k q) (sym ((==_iff r i.comm_rd_idx_i).0 same)) (commits v)

      room :
          i.flush_i ≡ false
          → (if down then writers r q - 1 else writers r q) + (if up then 1 else 0) < 2 ^ width
      room e =
          subst (λ (k : ℕ). k < 2 ^ width)
            (ap (λ (b : Bool). writers r (if b then [] else left q i ++ issued i)) e
              ∙ writers-in_flight r q i)
            (fits r)

  edge-names :
      (s : RegStat) (q : List Writer) (i : RegStatInputs) (r x : ℕ)
      → Tracks s q
      → r ≢ 0
      → newest r (in_flight q i) ≡ some x
      → (regstat_edge width s i).busy_rob_idx r ≡ x
  unfolding regstat_edge in_flight
  edge-names s q i r x t ne h = elim (Bool-cases i.flush_i) [
    | inl e ↦ absurd (ground (arith, subst flight e h))
    | inr e ↦
        rw (e, same_test)
          (elim (Bool-cases up) [
            | inl u ↦ rw u (some_inj (subst by_issue u (found e)))
            | inr u ↦ rw u (t.names r x ne (newest-left r x q i (subst by_issue u (found e))))
          ])
  ]
    where
      up : Bool
      up = i.issue_valid_i && r == i.issue_rd_idx_i

      same_test : (i.issue_valid_i && (not (i.issue_rd_idx_i == 0) && r == i.issue_rd_idx_i)) ≡ up
      same_test = ground arith

      flight : Bool → Type 0
      flight b = newest r (if b then [] else left q i ++ issued i) ≡ some x

      by_issue : Bool → Type 0
      by_issue b = (if b then some i.issue_rob_idx_i else newest r (left q i)) ≡ some x

      found : i.flush_i ≡ false → by_issue up
      found e = sym (newest-in_flight r q i) ∙ subst flight e h

  edge-Tracks :
      (s : RegStat) (q : List Writer) (i : RegStatInputs)
      → Tracks s q
      → IsCounted q i
      → Tracks (regstat_edge width s i) (in_flight q i)
  edge-Tracks s q i t c = record {
    counts = λ r. edge-counts s q i r t c;
    fits = c.1;
    names = λ r x ne h. edge-names s q i r x t ne h;
  }

  -- The registers and the instructions in flight after a run of edges.
  unfoldable pub regstat_run : RegStat → List RegStatInputs → RegStat
  regstat_run s [] = s
  regstat_run s (i ∷ is) = regstat_run (regstat_edge width s i) is

  unfoldable pub in_flight_run : List Writer → List RegStatInputs → List Writer
  in_flight_run q [] = q
  in_flight_run q (i ∷ is) = in_flight_run (in_flight q i) is

  unfoldable pub AllCounted : List Writer → List RegStatInputs → Type 0
  AllCounted q [] = Unit
  AllCounted q (i ∷ is) = IsCounted q i × AllCounted (in_flight q i) is

  run-Tracks :
      (s : RegStat) (q : List Writer) (is : List RegStatInputs)
      → Tracks s q
      → AllCounted q is
      → Tracks (regstat_run s is) (in_flight_run q is)
  unfolding regstat_run in_flight_run AllCounted
  run-Tracks s q [] t c = t
  run-Tracks s q (i ∷ is) t (c, cs) =
      run-Tracks (regstat_edge width s i) (in_flight q i) is (edge-Tracks s q i t c) cs

  -- What a read port answers.
  abbrev pub producer : RegStat → (r : ℕ) → Option ℕ
  producer s r = if (rs_status s r).0 then some (rs_status s r).1 else none

  Tracks-producer :
      (s : RegStat) (q : List Writer) (r : ℕ)
      → Tracks s q
      → producer s r ≡ (if r == 0 then none else newest r q)
  Tracks-producer s q r t = elim (ℕ_discrete r 0) [
    | yes zero_reg ↦ rw zero_reg refl
    | no ne ↦
        rw (ne→== r 0 ne, t.counts r)
          (elim (newest-writers r q) [
            | inl (e, none_writes) ↦ rw (none_writes, e) refl
            | inr (x, e, one_writes) ↦
                rw (ne→== (writers r q) 0 (omega (arith, one_writes)), e)
                  (ap some (t.names r x ne e))
          ])
  ]

  -- From a reset on, while every commit has an instruction in flight that writes its register and no
  -- register has more of them than its counter can count: for each register but 0 a read port names
  -- the entry of the newest instruction in flight that writes it, or answers that there is none.
  pub regstat_run-newest :
      (is : List RegStatInputs) (r : ℕ)
      → AllCounted [] is
      → producer (regstat_run regstat_reset is) r
        ≡ (if r == 0 then none else newest r (in_flight_run [] is))
  regstat_run-newest is r c =
      Tracks-producer (regstat_run regstat_reset is) (in_flight_run [] is) r
        (run-Tracks regstat_reset [] is start c)
    where
      start : Tracks regstat_reset []
      start = record {
        counts = λ k. refl;
        fits = λ k. one-le-pow width 2 (omega arith);
        names = λ k x ne h. absurd (ground (arith, h));
      }
