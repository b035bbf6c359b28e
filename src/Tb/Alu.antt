-- ===== src/Tb/Alu.antt =====
-- The components of the bench of the arithmetic unit, tb/expipe/alu/tb_components.cpp and
-- tb_components.hh. Integers are bit patterns. `fresh` is what a new object holds before it is
-- written to. The fields `req` and `req_busy` of ReqMonitor, which nothing reads, are left out.
pub mod Expected
pub mod Scoreboard
pub mod Main
mod Tests
use Prim.Native.Nat.{bit_and, bit_or, bit_xor}
use Prim.Native.String.{String}
use len5_core.Common.{
  ℕ, ◌+◌, ◌-◌, ◌*◌, ◌/◌, ◌%◌, ◌^◌, Bool, true, false, not, ◌&&◌, Option, none, some, List, [], ◌∷◌,
  ◌++◌, ltb, ◌==◌, if◌then◌else◌, get_elem?,
}
use len5_core.Common.Int.{leb_ℤ}
use len5_core.Isa.{
  AluCtl, alu_add, alu_addw, alu_sub, alu_subw, alu_and, alu_or, alu_xor, alu_sll, alu_sllw,
  alu_srl, alu_srlw, alu_sra, alu_sraw, alu_slt, alu_sltu, unknown, alu_ctl_of, signed64,
}

-- The ports of Valu that the bench uses.
pub record Ports : Type 0 where
  pub clk_i : ℕ
  pub rst_ni : ℕ
  pub flush_i : ℕ
  pub valid_i : ℕ
  pub ready_i : ℕ
  pub ctl_i : ℕ
  pub rob_idx_i : ℕ
  pub rs1_i : ℕ
  pub rs2_i : ℕ
  pub valid_o : ℕ
  pub result_o : ℕ

pub record ReqTx : Type 0 where
  pub rs1 : ℕ
  pub rs2 : ℕ
  pub alu_ctl : ℕ
  pub valid : ℕ
  pub flush : ℕ
  pub rob_idx : ℕ

-- The fields `valid` and `ready` are never used.
pub record RspTx : Type 0 where
  pub res : ℕ

abbrev pub op_str : List String
op_str =
    "ALU_ADD" ∷ "ALU_ADDW" ∷ "ALU_SUB" ∷ "ALU_SUBW" ∷ "ALU_AND" ∷ "ALU_OR" ∷ "ALU_XOR" ∷ "ALU_SLL"
    ∷ "ALU_SLLW" ∷ "ALU_SRL" ∷ "ALU_SRLW" ∷ "ALU_SRA" ∷ "ALU_SRAW" ∷ "ALU_SLT" ∷ "ALU_SLTU" ∷ []

-- The messages of the components: a request, a flush, and a response that is wrong or right.
pub data Report : Type 0 where
  requested : (op : String) → (rs1 rs2 : ℕ) → Report
  flushed : Report
  wrong : (op : String) → (rs1 rs2 res expected : ℕ) → Report
  right : (op : String) → (rs1 rs2 res expected : ℕ) → Report

-- `reports` are the messages so far, the newest first.
pub record Scb : Type 0 where
  pub req_q : List ReqTx
  pub rsp_q : List RspTx
  pub tx_num : ℕ
  pub err_num : ℕ
  pub reports : List Report

-- `Drv::drive`.
unfoldable pub drive : Option ReqTx → Ports → Ports
drive none p = record p { valid_i = 0; flush_i = 0 }
drive (some r) p = record p {
  rs1_i = r.rs1;
  rs2_i = r.rs2;
  ctl_i = r.alu_ctl;
  valid_i = r.valid;
  flush_i = r.flush;
  rob_idx_i = r.rob_idx;
}

unfoldable pub new_scb : Scb
new_scb = record { req_q = []; rsp_q = []; tx_num = 0; err_num = 0; reports = [] }

unfoldable pub write_req : ReqTx → Scb → Scb
write_req r s = record s { req_q = s.req_q ++ r ∷ [] }

unfoldable pub flush_queues : Scb → Scb
flush_queues s = record s { req_q = []; rsp_q = [] }

-- `(uint64_t) (int32_t) x`.
unfoldable pub sext_32 : ℕ → ℕ
sext_32 x = let low = x % 2 ^ 32 in if ltb low (2 ^ 31) then low else 2 ^ 64 - 2 ^ 32 + low

-- `(x & 0x80000000) ? 0xffffffff00000000 | x : x`.
unfoldable pub widen : ℕ → ℕ
widen x = if bit_and x (2 ^ 31) == 0 then x else bit_or ((2 ^ 32 - 1) * 2 ^ 32) x

-- `(int64_t) x >> shamt`.
unfoldable pub shift_signed : (x shamt : ℕ) → ℕ
shift_signed x shamt =
    if ltb x (2 ^ 63) then x / 2 ^ shamt else 2 ^ 64 - 1 - (2 ^ 64 - 1 - x) / 2 ^ shamt

-- `exp_res`, by the case of the `switch`.
unfoldable pub exp_res : AluCtl → (rs1 rs2 : ℕ) → ℕ
unfolding sext_32 widen shift_signed
exp_res alu_add a b = (a + b) % 2 ^ 64
exp_res alu_addw a b = widen ((sext_32 a % 2 ^ 32 + sext_32 b) % 2 ^ 64 % 2 ^ 32)
exp_res alu_sub a b = (a + (2 ^ 64 - b)) % 2 ^ 64
exp_res alu_subw a b = widen ((sext_32 (sext_32 a) + (2 ^ 64 - sext_32 b)) % 2 ^ 64 % 2 ^ 32)
exp_res alu_and a b = bit_and a b
exp_res alu_or a b = bit_or a b
exp_res alu_xor a b = bit_xor a b
exp_res alu_sll a b = a * 2 ^ bit_and b 63 % 2 ^ 64
exp_res alu_sllw a b = widen (sext_32 a * 2 ^ bit_and b 31 % 2 ^ 64 % 2 ^ 32)
exp_res alu_srl a b = a / 2 ^ bit_and b 63
exp_res alu_srlw a b = widen (a % 2 ^ 32 / 2 ^ bit_and b 31 % 2 ^ 32)
exp_res alu_sra a b = shift_signed a (bit_and b 63)
exp_res alu_sraw a b = widen (sext_32 a / 2 ^ bit_and b 31 % 2 ^ 32)
exp_res alu_slt a b = if not (leb_ℤ (signed64 b) (signed64 a)) then 1 else 0
exp_res alu_sltu a b = if ltb a b then 1 else 0
exp_res unknown a b = (a + b) % 2 ^ 64

-- The comparison at the end of `checkRes`; none where `op_str` is read out of bounds.
unfoldable pub compare_res : ReqTx → RspTx → Scb → Option Scb
unfolding exp_res
compare_res req rsp s =
    let expected = exp_res (alu_ctl_of req.alu_ctl) req.rs1 req.rs2 in
    elim (get_elem? op_str req.alu_ctl) [
      | none ↦ none
      | some op ↦ some (
          if rsp.res == expected
          then record s { reports = right op req.rs1 req.rs2 rsp.res expected ∷ s.reports }
          else record s {
            err_num = (s.err_num + 1) % 2 ^ 32;
            reports = wrong op req.rs1 req.rs2 rsp.res expected ∷ s.reports;
          })
    ]

-- `checkRes`. It goes on to the first element when there is no request: none.
unfoldable pub check_res : Scb → Option Scb
unfolding compare_res
check_res s = elim s.req_q [
  | [] ↦ none
  | req ∷ req_q ↦ elim s.rsp_q [
    | [] ↦ none
    | rsp ∷ rsp_q ↦
        compare_res req rsp
          (record s { req_q = req_q; rsp_q = rsp_q; tx_num = (s.tx_num + 1) % 2 ^ 32 })
  ]
]

unfoldable pub write_rsp : RspTx → Scb → Option Scb
unfolding check_res
write_rsp r s = check_res (record s { rsp_q = s.rsp_q ++ r ∷ [] })

unfoldable pub get_tx_num : Scb → ℕ
get_tx_num s = s.tx_num

unfoldable pub get_err_num : Scb → ℕ
get_err_num s = s.err_num

unfoldable pub is_done : Scb → Bool
is_done s = elim s.req_q [ [] ↦ elim s.rsp_q [ [] ↦ true | _ ∷ _ ↦ false ] | _ ∷ _ ↦ false ]

-- `ReqMonitor::monitor`.
unfoldable pub req_monitor : (fresh : ReqTx) → Ports → Scb → Option Scb
unfolding flush_queues write_req
req_monitor fresh p s =
    let r = record fresh {
      rs1 = p.rs1_i;
      rs2 = p.rs2_i;
      alu_ctl = p.ctl_i;
      rob_idx = p.rob_idx_i;
    } in
    let s' = write_req r s in
    let f = flush_queues s in
    if not (p.flush_i == 0)
    then some (record f { reports = flushed ∷ f.reports })
    else if not (p.valid_i == 0)
    then (elim (get_elem? op_str p.ctl_i) [
      | none ↦ none
      | some op ↦ some (record s' { reports = requested op p.rs1_i p.rs2_i ∷ s'.reports })
    ])
    else some s

-- `RspMonitor::monitor`.
unfoldable pub rsp_monitor : Ports → Scb → Option Scb
unfolding write_rsp
rsp_monitor p s =
    if not (p.valid_o == 0) && (p.flush_i == 0)
    then write_rsp (record { res = p.result_o }) s
    else some s
