-- ===== src/Rtl/RrArbiter.antt =====
-- The round-robin arbiter rtl/common/rr_arbiter.sv: the requests that remain of a round are served
-- from the lowest index on, and a new round takes the requests of its first edge. A vector of lines
-- is the function of the index.
pub mod Turns
pub mod Starved
use len5_core.Common.{
  ℕ, zero, suc, ◌+◌, ◌-◌, ◌*◌, ◌/◌, ◌%◌, ◌^◌, ◌≤◌, ◌<◌, ◌≡◌, refl, sym, ap, ◌∙◌, ◌≢◌, ◌↔◌, ◌⊎◌, inl,
  inr, Bool, true, false, not, ◌&&◌, ◌||◌, Option, none, some, List, [], ◌∷◌, ◌++◌, map, arith,
  dec_lt, ℕ_discrete, ltb, leb, ◌==◌, if◌then◌else◌, ◌>>=◌, Bool-cases, Option-cases, some_inj,
  length, get_or, set, take, drop, replicate, All,
}
use len5_core.Rtl.PrioEnc.{Encoded, prio_enc}

pub record ArbiterInputs : Type 0 where
  pub flush_i : Bool
  pub valid_i : ℕ → Bool
  pub ready_i : Bool

-- `|lines`.
unfoldable pub any_one : (n : ℕ) → (ℕ → Bool) → Bool
any_one zero lines = false
any_one (suc n) lines = lines n || any_one n lines

module _ (n : ℕ) where
  abbrev pub mux_valid : (rem_valid_q valid_i : ℕ → Bool) → (ℕ → Bool)
  mux_valid rem valid = if any_one n rem then rem else valid

  -- `enc_out` and `enc_valid`.
  abbrev pub encoded : (rem_valid_q valid_i : ℕ → Bool) → Encoded
  encoded rem valid = prio_enc n (mux_valid rem valid) true

  -- `valid_dec`.
  abbrev pub dec_valid : (rem_valid_q valid_i : ℕ → Bool) → (ℕ → Bool)
  dec_valid rem valid i = (encoded rem valid).1 && i == (encoded rem valid).0

  abbrev pub msk_valid : (rem_valid_q valid_i : ℕ → Bool) → (ℕ → Bool)
  msk_valid rem valid i = mux_valid rem valid i && not (dec_valid rem valid i)

  abbrev pub arbiter_valid : (rem_valid_q valid_i : ℕ → Bool) → Bool
  arbiter_valid rem valid = any_one n (dec_valid rem valid)

  -- `ready_mux`.
  abbrev pub arbiter_ready : (rem_valid_q : ℕ → Bool) → ArbiterInputs → (ℕ → Bool)
  arbiter_ready rem i k = if i.ready_i then dec_valid rem i.valid_i k else false

  -- `served_o`.
  abbrev pub served : (rem_valid_q valid_i : ℕ → Bool) → ℕ
  served rem valid = (encoded rem valid).0

  -- `last_served_reg` with `rst_ni` high. It does not look at `ready_i`.
  abbrev pub arbiter_edge : (rem_valid_q : ℕ → Bool) → ArbiterInputs → (ℕ → Bool)
  arbiter_edge rem i = if i.flush_i then (λ k. false) else msk_valid rem i.valid_i

  -- Whether a unit sees `ready_o` at one of the edges.
  unfoldable pub is_served : (unit : ℕ) → (rem_valid_q : ℕ → Bool) → List ArbiterInputs → Bool
  is_served unit rem [] = false
  is_served unit rem (i ∷ is) = arbiter_ready rem i unit || is_served unit (arbiter_edge rem i) is
