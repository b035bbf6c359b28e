-- ===== src/Tb/Alu/Main/Device.antt =====
-- The bench on a combinational unit, and on the unit of rtl/expipe/exec-units/alu.sv.
use len5_core.Common.{ℕ}
use len5_core.Isa.{AluCtl, alu_ctl_of}
use len5_core.Rtl.Alu.{result}
use len5_core.Tb.Alu.{Ports}

-- A unit without state that answers at once with the function `f`.
abbrev pub combinational : (AluCtl → ℕ → ℕ → ℕ) → Unit {0} → Ports → Unit {0} × ℕ × ℕ
combinational f s p = (tt, p.valid_i, f (alu_ctl_of p.ctl_i) p.rs1_i p.rs2_i)

-- The outputs `valid_o` and `result_o` of alu.sv: with SKIP_REG the spill cell is a wire.
unfoldable pub alu_eval : Unit {0} → Ports → Unit {0} × ℕ × ℕ
alu_eval s p = combinational result s p
