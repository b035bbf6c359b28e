-- ===== src/Rtl/Ras.antt =====
-- The return address stack rtl/frontend/ras.sv: the entries that predict the next return, and the
-- confirmed ones that a flush goes back to. A vector of registers is the function of the index.
pub mod Entries
pub mod Stack
pub mod Prediction
use len5_core.Common.{
  ℕ, zero, suc, ◌+◌, ◌-◌, ◌*◌, ◌/◌, ◌%◌, ◌^◌, ◌≤◌, ◌<◌, ◌≡◌, refl, sym, ap, ◌∙◌, ◌≢◌, ◌↔◌, ◌⊎◌, inl,
  inr, Bool, true, false, not, ◌&&◌, ◌||◌, Option, none, some, List, [], ◌∷◌, ◌++◌, map, arith,
  dec_lt, ℕ_discrete, ltb, leb, ◌==◌, if◌then◌else◌, ◌>>=◌, Bool-cases, Option-cases, some_inj,
  length, get_or, set, take, drop, replicate, All,
}
use len5_core.Rtl.Counter.{index}
use len5_core.Rtl.PrioEnc.{prio_enc}

pub record Ras : Type 0 where
  pub ras_valid_q : ℕ → Bool
  pub ras_addr_q : ℕ → ℕ
  pub ras_valid_confirmed_q : ℕ → Bool
  pub ras_addr_confirmed_q : ℕ → ℕ

pub record RasInputs : Type 0 where
  pub flush_i : Bool
  pub push_i : Bool
  pub pop_i : Bool
  pub link_addr_i : ℕ
  pub call_confirm_i : Bool
  pub ret_confirm_i : Bool
  pub res_link_addr_i : ℕ

-- `&lines`.
pub all_ones : (n : ℕ) → (ℕ → Bool) → Bool
all_ones zero lines = true
all_ones (suc n) lines = lines n && all_ones n lines

-- A vector with one entry written.
abbrev pub with_entry {ℓ} : {A : Type ℓ} → (ℕ → A) → ℕ → A → (ℕ → A)
with_entry lines k x i = if i == k then x else lines i

module _ (depth : ℕ) where
  -- `enc_o` of `prio_enc_last`, `prio_enc_confirmed`, and of `prio_enc_new`, `prio_enc_spec`.
  abbrev pub last_idx : (valid_q : ℕ → Bool) → ℕ
  last_idx valid = (prio_enc depth valid false).0

  abbrev pub new_idx : (valid_q : ℕ → Bool) → ℕ
  new_idx valid = (prio_enc depth (λ i. not (valid i)) true).0

  -- `lifo_upd` with no flush, on the valid bits and the addresses.
  unfoldable pub lifo_push_pop :
      (push_i pop_i : Bool) → (link_addr_i : ℕ) → (ℕ → Bool) → (ℕ → ℕ) → (ℕ → Bool) × (ℕ → ℕ)
  lifo_push_pop push pop link valid addr =
      if push && pop
      then (valid, with_entry addr (last_idx valid) link)
      else if push && all_ones depth valid
      then (
        valid,
        with_entry (λ i. if ltb i (depth - 1) then addr (i + 1) else addr i) (depth - 1) link,
      )
      else if push
      then (with_entry valid (new_idx valid) true, with_entry addr (new_idx valid) link)
      else if pop
      then (with_entry valid (last_idx valid) false, addr)
      else (valid, addr)

  -- `lifo_spec`: the confirmed entries. `overflow` is a push on full entries.
  unfoldable pub lifo_confirm :
      (overflow call_confirm_i ret_confirm_i : Bool)
      → (res_link_addr_i : ℕ) → (ℕ → Bool)
      → (ℕ → ℕ)
      → (ℕ → Bool) × (ℕ → ℕ)
  lifo_confirm overflow call ret link valid addr =
      if overflow
      then (λ i. if ltb i (depth - 1) then valid (i + 1) else false, addr)
      else if (call && not ret) || (not call && ret)
      then (if call && not (all_ones depth valid)
          then (with_entry valid (new_idx valid) true, with_entry addr (new_idx valid) link)
          else if ret
          then (with_entry valid (last_idx valid) false, addr)
          else (valid, addr))
      else (valid, addr)

  unfoldable pub ras_edge : Ras → RasInputs → Ras
  ras_edge r i =
      let overflow = i.push_i && not i.pop_i && all_ones depth r.ras_valid_q in
      let lifo =
        if i.flush_i
        then (r.ras_valid_confirmed_q, r.ras_addr_confirmed_q)
        else lifo_push_pop i.push_i i.pop_i i.link_addr_i r.ras_valid_q r.ras_addr_q in
      let confirmed =
        lifo_confirm overflow i.call_confirm_i i.ret_confirm_i i.res_link_addr_i
          r.ras_valid_confirmed_q r.ras_addr_confirmed_q in
      record {
        ras_valid_q = lifo.0;
        ras_addr_q = lifo.1;
        ras_valid_confirmed_q = confirmed.0;
        ras_addr_confirmed_q = confirmed.1;
      }

  -- Under reset: the addresses are left alone.
  unfoldable pub ras_reset : Ras → Ras
  ras_reset r = record r { ras_valid_q = λ i. false; ras_valid_confirmed_q = λ i. false }

  abbrev pub ras_valid : Ras → Bool
  ras_valid r = (prio_enc depth r.ras_valid_q false).1

  abbrev pub ret_addr : Ras → ℕ
  ret_addr r = r.ras_addr_q (last_idx r.ras_valid_q)
