-- ===== src/Rtl/IntRegstat.antt =====
-- The register status rtl/expipe/register-file/int_regstat.sv, with the counters of
-- rtl/common/updown_counter.sv: for each register the number of instructions in flight that write it,
-- and the entry of the reorder buffer that holds the newest of them. An array of registers is the
-- function of its index; there is no register 0.
pub mod Writers
pub mod Edge
pub mod Status
use len5_core.Common.{
  ℕ, zero, suc, ◌+◌, ◌-◌, ◌*◌, ◌/◌, ◌%◌, ◌^◌, ◌≤◌, ◌<◌, ◌≡◌, refl, sym, ap, ◌∙◌, ◌≢◌, ◌↔◌, ◌⊎◌, inl,
  inr, Bool, true, false, not, ◌&&◌, ◌||◌, Option, none, some, List, [], ◌∷◌, ◌++◌, map, arith,
  dec_lt, ℕ_discrete, ltb, leb, ◌==◌, if◌then◌else◌, ◌>>=◌, Bool-cases, Option-cases, some_inj,
  length, get_or, set, take, drop, replicate, All,
}

pub record RegStat : Type 0 where
  pub busy_rob_idx : ℕ → ℕ
  pub busy_cnt : ℕ → ℕ

pub record RegStatInputs : Type 0 where
  pub flush_i : Bool
  pub issue_valid_i : Bool
  pub issue_rd_idx_i : ℕ
  pub issue_rob_idx_i : ℕ
  pub comm_valid_i : Bool
  pub comm_rd_idx_i : ℕ

-- A rising edge of the counter with `rst_ni` high; `ld_i` is 0.
unfoldable pub updown_counter : (width count : ℕ) → (en_i clr_i dn_i : Bool) → ℕ
updown_counter width count en clr dn =
    if clr
    then 0
    else if en
    then (if dn then (count + 2 ^ width - 1) % 2 ^ width else (count + 1) % 2 ^ width)
    else count

abbrev pub skip_cnt_upd : RegStatInputs → Bool
skip_cnt_upd i = i.issue_valid_i && (i.comm_valid_i && i.issue_rd_idx_i == i.comm_rd_idx_i)

-- `busy_cnt_control`.
abbrev pub busy_cnt_en : RegStatInputs → ℕ → Bool
busy_cnt_en i k =
    not (skip_cnt_upd i)
    && ((i.issue_valid_i && k == i.issue_rd_idx_i) || (i.comm_valid_i && k == i.comm_rd_idx_i))

abbrev pub busy_cnt_dn : RegStatInputs → ℕ → Bool
busy_cnt_dn i k = not (not (skip_cnt_upd i) && (i.issue_valid_i && k == i.issue_rd_idx_i))

module _ (width : ℕ) where
  -- `rs_data_update` and `gen_busy_counters`.
  unfoldable pub regstat_edge : RegStat → RegStatInputs → RegStat
  regstat_edge s i = record {
    busy_rob_idx = λ k.
        if i.flush_i
        then 0
        else if i.issue_valid_i && (not (i.issue_rd_idx_i == 0) && k == i.issue_rd_idx_i)
        then i.issue_rob_idx_i
        else s.busy_rob_idx k;
    busy_cnt =
        λ k. updown_counter width (s.busy_cnt k) (busy_cnt_en i k) i.flush_i (busy_cnt_dn i k);
  }

abbrev pub regstat_reset : RegStat
regstat_reset = record { busy_rob_idx = λ k. 0; busy_cnt = λ k. 0 }

-- A read port of `int_rs_out`.
abbrev pub rs_status : RegStat → (issue_rs_idx_i : ℕ) → Bool × ℕ
rs_status s r = if not (r == 0) then (not (s.busy_cnt r == 0), s.busy_rob_idx r) else (false, 0)
