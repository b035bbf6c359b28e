-- ===== src/Rtl/PrioEnc.antt =====
-- The priority encoder rtl/common/prio_enc.sv. A vector of lines is the function of the index. An
-- encoder has at least two lines: the index of one would have no bit.
pub mod Found
pub mod Prefix
use len5_core.Common.{
  ℕ, zero, suc, ◌+◌, ◌-◌, ◌*◌, ◌/◌, ◌%◌, ◌^◌, ◌≤◌, ◌<◌, ◌≡◌, refl, sym, ap, ◌∙◌, ◌≢◌, ◌↔◌, ◌⊎◌, inl,
  inr, Bool, true, false, not, ◌&&◌, ◌||◌, Option, none, some, List, [], ◌∷◌, ◌++◌, map, arith,
  dec_lt, ℕ_discrete, ltb, leb, ◌==◌, if◌then◌else◌, ◌>>=◌, Bool-cases, Option-cases, some_inj,
  length, get_or, set, take, drop, replicate, All,
}
use mathlib.Core.Path.{ap₂}
use len5_core.Rtl.Counter.{index}

-- `enc_o` and `valid_o`.
abbrev pub Encoded : Type 0
Encoded = ℕ × Bool

module _ (n : ℕ) (lines_i : ℕ → Bool) where
  -- One iteration of the loops.
  abbrev iteration : ℕ → Encoded → Encoded
  iteration i before = if lines_i i then (index n i, true) else before

  -- The loop of `gen_prio_enc` up to `count`, and that of `gen_prio_enc_inv`, which goes down, over
  -- the `count` lines from `i` on.
  pub prio_enc_logic : (count : ℕ) → Encoded
  prio_enc_logic zero = (0, false)
  prio_enc_logic (suc count) = iteration count (prio_enc_logic count)

  pub prio_enc_inv_logic : (i count : ℕ) → Encoded
  prio_enc_inv_logic i zero = (0, false)
  prio_enc_inv_logic i (suc count) = iteration i (prio_enc_inv_logic (i + 1) count)

  unfoldable pub prio_enc : (inv : Bool) → Encoded
  unfolding prio_enc_logic prio_enc_inv_logic
  prio_enc inv =
      if n == 1 then (0, lines_i 0) else if inv then prio_enc_inv_logic 0 n else prio_enc_logic n
