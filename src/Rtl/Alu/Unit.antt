-- ===== src/Rtl/Alu/Unit.antt =====
-- The arithmetic unit rtl/expipe/exec-units/alu.sv with its output register (SKIP_REG is 0): the
-- circuit in front of a spill cell that a flush empties.
use mathlib.Core.List.{append-nil}
use len5_core.Common.{
  ℕ, suc, ◌^◌, ◌<◌, ◌≡◌, refl, sym, ap, ◌∙◌, inl, inr, List, [], ◌∷◌, ◌++◌, map, if◌then◌else◌,
  Bool-cases, length, All,
}
use len5_core.Isa.{AluCtl, meaning}
use len5_core.Rtl.Alu.{result}
use len5_core.Rtl.Alu.Result.{result-meaning}
use len5_core.Rtl.Handshake.{Inputs, Stage, pushes, accepted, delivered, final}
use len5_core.Rtl.Handshake.Flow.{Undisturbed, Ready, accepted-delivered, delivered-Ready}
use len5_core.Rtl.SpillCell.{flush, CellRegs, spill_cell}
use len5_core.Rtl.SpillCell.Contents.{cell_contents}
use len5_core.Rtl.SpillCell.Queue.{cell_queue}

-- What the unit reads with `valid_i`.
pub record Request : Type 0 where
  pub ctl_i : AluCtl
  pub rob_idx_i : ℕ
  pub rs1_i : ℕ
  pub rs2_i : ℕ

-- `out_reg_data_t`.
pub record OutRegData : Type 0 where
  pub res : ℕ
  pub rob_idx : ℕ

-- `out_reg_data_in`.
abbrev pub out_reg_data_in : Request → OutRegData
out_reg_data_in r = record { res = result r.ctl_i r.rs1_i r.rs2_i; rob_idx = r.rob_idx_i }

-- `u_out_reg`, and what it reads at an edge at which the unit reads `i`.
abbrev pub u_out_reg : Stage (CellRegs OutRegData) OutRegData
u_out_reg = spill_cell flush (record { res = 0; rob_idx = 0 })

abbrev pub reg_inputs : Inputs Request → Inputs OutRegData
reg_inputs i = record {
  flush_i = i.flush_i;
  valid_i = i.valid_i;
  ready_i = i.ready_i;
  data_i = out_reg_data_in i.data_i;
}

-- The unit at successive edges: what it answers, and its registers afterwards.
abbrev pub answers : CellRegs OutRegData → List (Inputs Request) → List OutRegData
answers c is = delivered u_out_reg c (map reg_inputs is)

abbrev pub registers : CellRegs OutRegData → List (Inputs Request) → CellRegs OutRegData
registers c is = final u_out_reg c (map reg_inputs is)

-- The requests that the unit accepts.
pub requests : CellRegs OutRegData → List (Inputs Request) → List Request
requests c [] = []
requests c (i ∷ is) =
    (if pushes u_out_reg c (reg_inputs i) then i.data_i ∷ [] else [])
    ++ requests (u_out_reg.edge c (reg_inputs i)) is

-- The answer that the instruction set gives to a request.
abbrev pub specified : Request → OutRegData
specified r = record { res = meaning r.ctl_i r.rs1_i r.rs2_i; rob_idx = r.rob_idx_i }

-- The operands are patterns of 64 bits.
abbrev pub Fits : Request → Type 0
Fits r = (r.rs1_i < 2 ^ 64) × (r.rs2_i < 2 ^ 64)

accepted-specified :
    (c : CellRegs OutRegData) (is : List (Inputs Request))
    → All (λ i. Fits i.data_i) is
    → accepted u_out_reg c (map reg_inputs is) ≡ map specified (requests c is)
unfolding accepted requests
accepted-specified c [] h = refl
accepted-specified c (i ∷ is) (h, hs) =
    let rest = accepted-specified (u_out_reg.edge c (reg_inputs i)) is hs in
    elim (Bool-cases (pushes u_out_reg c (reg_inputs i))) [
      | inl e ↦
          rw (e, rest, result-meaning i.data_i.ctl_i i.data_i.rs1_i i.data_i.rs2_i h.0 h.1) refl
      | inr e ↦ rw (e, rest) refl
    ]

Undisturbed-reg_inputs :
    (is : List (Inputs Request)) → Undisturbed is → Undisturbed (map reg_inputs is)
Undisturbed-reg_inputs [] u = u
Undisturbed-reg_inputs (i ∷ is) (u, us) = (u, Undisturbed-reg_inputs is us)

Ready-reg_inputs : (is : List (Inputs Request)) → Ready is → Ready (map reg_inputs is)
Ready-reg_inputs [] r = r
Ready-reg_inputs (i ∷ is) (r, rs) = (r, Ready-reg_inputs is rs)

length-reg_inputs : (is : List (Inputs Request)) → length (map reg_inputs is) ≡ length is
length-reg_inputs [] = refl
length-reg_inputs (i ∷ is) = ap suc (length-reg_inputs is)

-- Out of reset, while nothing is flushed and the operands are patterns of 64 bits: with the results
-- that the registers still hold, the unit has answered every request that it accepted, in order and
-- once, by the meaning of the operation and with the index of the request.
pub unit-meaning :
    (is : List (Inputs Request))
    → Undisturbed is
    → All (λ i. Fits i.data_i) is
    → answers u_out_reg.reset is ++ cell_contents (registers u_out_reg.reset is)
      ≡ map specified (requests u_out_reg.reset is)
unfolding cell_queue
unit-meaning is u h =
    let (q, held, flow) =
      accepted-delivered u_out_reg (cell_queue flush u_out_reg.reset.a_data_q) u_out_reg.reset []
        (map reg_inputs is) refl (Undisturbed-reg_inputs is u) in
    ap (λ t. answers u_out_reg.reset is ++ t) held
    ∙ sym flow
    ∙ accepted-specified u_out_reg.reset is h

-- Then, at as many more edges as it holds results, at which the consumer is ready and nothing is
-- flushed, the unit gives every answer that was due.
pub unit-answered :
    (is js : List (Inputs Request))
    → Undisturbed is
    → All (λ i. Fits i.data_i) is
    → length js ≡ length (cell_contents (registers u_out_reg.reset is))
    → Undisturbed js
    → Ready js
    → answers u_out_reg.reset is ++ answers (registers u_out_reg.reset is) js
      ≡ map specified (requests u_out_reg.reset is)
unfolding cell_queue
unit-answered is js u h e uj rj =
    ap (λ t. answers u_out_reg.reset is ++ t)
      (delivered-Ready u_out_reg (cell_queue flush u_out_reg.reset.a_data_q)
        (registers u_out_reg.reset is) (cell_contents (registers u_out_reg.reset is)) []
        (map reg_inputs js) (sym (append-nil _)) (length-reg_inputs js ∙ e)
        (Undisturbed-reg_inputs js uj) (Ready-reg_inputs js rj))
    ∙ unit-meaning is u h
