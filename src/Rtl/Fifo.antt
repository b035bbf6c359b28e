-- ===== src/Rtl/Fifo.antt =====
-- The queue rtl/common/fifo.sv: `DEPTH` entries, each with a valid bit, and the counters of the head
-- and the tail. An array of registers is the function of the index that reads it.
pub mod Indices
pub mod Holds
pub mod Queue
use len5_core.Common.{
  ℕ, zero, suc, ◌+◌, ◌-◌, ◌*◌, ◌/◌, ◌%◌, ◌^◌, ◌≤◌, ◌<◌, ◌≡◌, refl, sym, ap, ◌∙◌, ◌≢◌, ◌↔◌, ◌⊎◌, inl,
  inr, Bool, true, false, not, ◌&&◌, ◌||◌, Option, none, some, List, [], ◌∷◌, ◌++◌, map, arith,
  dec_lt, ℕ_discrete, ltb, leb, ◌==◌, if◌then◌else◌, ◌>>=◌, Bool-cases, Option-cases, some_inj,
  length, get_or, set, take, drop, replicate, All,
}
use len5_core.Rtl.Counter.{index, modn_counter}
use len5_core.Rtl.Handshake.{Inputs, Stage}

pub record Fifo (A : Type 0) : Type 0 where
  pub head_cnt : ℕ
  pub tail_cnt : ℕ
  pub entries : ℕ → A
  pub data_valid : ℕ → Bool

module _ {A : Type 0} (depth : ℕ) where
  abbrev pub fifo_valid : Fifo A → Bool
  fifo_valid f = f.data_valid f.head_cnt

  -- The flush does not lower it.
  abbrev pub fifo_ready : Fifo A → (flush_i : Bool) → Bool
  fifo_ready f flush = not (f.data_valid f.tail_cnt)

  abbrev pub fifo_data : Fifo A → A
  fifo_data f = f.entries f.head_cnt

  -- `fifo_update` without a flush, and the two counters: a push goes before a pop in every entry.
  unfoldable pub fifo_update : (fifo_push fifo_pop : Bool) → (data_i : A) → Fifo A → Fifo A
  fifo_update push pop x f = record {
    head_cnt = modn_counter depth 0 f.head_cnt pop false;
    tail_cnt = modn_counter depth 0 f.tail_cnt push false;
    entries = λ i. if push && f.tail_cnt == index depth i then x else f.entries i;
    data_valid = λ i.
        if push && f.tail_cnt == index depth i
        then true
        else if pop && f.head_cnt == index depth i
        then false
        else f.data_valid i;
  }

  -- With a flush: clearing the valid bits is enough.
  unfoldable pub fifo_flush : Fifo A → Fifo A
  fifo_flush f = record f {
    head_cnt = modn_counter depth 0 f.head_cnt false true;
    tail_cnt = modn_counter depth 0 f.tail_cnt false true;
    data_valid = λ i. false;
  }

  unfoldable pub fifo_edge : Fifo A → Inputs A → Fifo A
  fifo_edge f i =
      let push = i.valid_i && fifo_ready f i.flush_i in
      let pop = fifo_valid f && i.ready_i in
      if i.flush_i then fifo_flush f else fifo_update push pop i.data_i f

  abbrev pub fifo : (zeros : A) → Stage (Fifo A) A
  fifo zeros = record {
    reset = record { head_cnt = 0; tail_cnt = 0; entries = λ i. zeros; data_valid = λ i. false };
    valid_o = fifo_valid;
    ready_o = fifo_ready;
    data_o = fifo_data;
    edge = fifo_edge;
  }
