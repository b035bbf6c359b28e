-- ===== src/Rtl/Rob/Window.antt =====
-- The occupied entries of the reorder buffer: the oldest instruction at the head, and the others
-- from the work index on to the tail.
use native.Mathlib.Nat.{mod-eq_of_lt, mod-add-mod}
use len5_core.Common.{
  get_elem?, ℕ, ◌+◌, ◌%◌, ◌≤◌, ◌<◌, ◌≡◌, sym, ap, ◌∙◌, Bool, true, false, ◌&&◌, ◌||◌, some, List,
  [], ◌∷◌, arith, ltb, leb, ◌==◌, if◌then◌else◌, length,
}
use len5_core.Rtl.Counter.{index, modn_counter}
use len5_core.Rtl.Rob.{RobEntry, Rob}

-- What the issue stage says of an instruction.
pub record Issued : Type 0 where
  pub instruction : ℕ
  pub instr_pc : ℕ
  pub rd_idx : ℕ
  pub rd_upd : Bool
  pub mem_crit : Bool
  pub order_crit : Bool

abbrev pub issued_part : RobEntry → Issued
issued_part e = record {
  instruction = e.instruction;
  instr_pc = e.instr_pc;
  rd_idx = e.rd_idx;
  rd_upd = e.rd_upd;
  mem_crit = e.mem_crit;
  order_crit = e.order_crit;
}

-- The indices, the valid bits and the instructions of a buffer.
pub record View : Type 0 where
  pub head : ℕ
  pub tail : ℕ
  pub work : ℕ
  pub valid : ℕ → Bool
  pub issued : ℕ → Issued

abbrev pub view : Rob → View
view r = record {
  head = r.head_idx;
  tail = r.tail_idx;
  work = r.work_idx;
  valid = r.data_valid;
  issued = λ k. issued_part (r.entries k);
}

module _ (depth : ℕ) where
  -- A commit from the head or from the work index, and an allocation.
  abbrev pub view_commit : (in_order : Bool) → View → View
  view_commit in_order v = record v {
    head = if in_order then v.work else v.head;
    work = modn_counter depth 1 v.work true false;
    valid =
        λ k. if (if in_order then v.head else v.work) == index depth k then false else v.valid k;
  }

  abbrev pub view_push : Issued → View → View
  view_push e v = record v {
    tail = modn_counter depth 0 v.tail true false;
    valid = λ k. if v.tail == index depth k then true else v.valid k;
    issued = λ k. if v.tail == index depth k then e else v.issued k;
  }

-- No entry is occupied.
pub record Empty (depth : ℕ) (v : View) : Type 0 where
  pub head_in : v.head < depth
  pub tail_at : v.tail ≡ v.head
  pub work_at : v.work ≡ (v.head + 1) % depth
  pub valid_at : (k : ℕ) → k < depth → v.valid ((v.head + k) % depth) ≡ false

-- The oldest instruction is `x`; those behind it are `rest`, from `gap` places behind the head on.
pub record Filled (depth : ℕ) (v : View) (gap : ℕ) (x : Issued) (rest : List Issued) : Type 0 where
  pub head_in : v.head < depth
  pub gap_in : 1 ≤ gap
  pub fits : gap + length rest ≤ depth
  pub work_at : v.work ≡ (v.head + gap) % depth
  pub tail_at : v.tail ≡ (v.head + (gap + length rest)) % depth
  pub valid_at :
      (k : ℕ)
      → k < depth
      → v.valid ((v.head + k) % depth) ≡ (k == 0 || (leb gap k && ltb k (gap + length rest)))
  pub head_at : v.issued v.head ≡ x
  pub rest_at :
      (k : ℕ) → k < length rest → get_elem? rest k ≡ some (v.issued ((v.head + (gap + k)) % depth))

-- The buffer holds the instructions `q`, in program order.
unfoldable pub Window : (depth : ℕ) → View → List Issued → Type 0
Window depth v [] = Empty depth v
Window depth v (x ∷ rest) = (gap : ℕ) × Filled depth v gap x rest

-- The entry of the head is the first of those around it.
pub at_head : (n h : ℕ) → h < n → h ≡ (h + 0) % n
at_head n h hh = sym (mod-eq_of_lt hh) ∙ ap (λ (t : ℕ). t % n) (omega arith)

pub around_sum : (n h gap k : ℕ) → ((h + gap) % n + k) % n ≡ (h + (gap + k)) % n
around_sum n h gap k = mod-add-mod (h + gap) n k ∙ ap (λ (t : ℕ). t % n) (omega arith)
