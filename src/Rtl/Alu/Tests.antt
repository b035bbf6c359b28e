-- ===== src/Rtl/Alu/Tests.antt =====
-- Runs of the arithmetic unit at concrete operands.
use len5_core.Common.{◌+◌, ◌-◌, ◌^◌, ◌≡◌, refl, arith}
use len5_core.Isa.{alu_sraw, meaning}
use len5_core.Rtl.Alu.{result, shifter_res, shifter, shifter_a, shifter_shamt}
use len5_core.Rtl.Alu.Result.{result-meaning}

result-meaning_example : result alu_sraw (2 ^ 31 + 8) 3 ≡ meaning alu_sraw (2 ^ 31 + 8) 3
result-meaning_example = result-meaning alu_sraw (2 ^ 31 + 8) 3 (omega arith) (omega arith)

sraw_negative : result alu_sraw (2 ^ 31 + 8) 3 ≡ 2 ^ 64 - 2 ^ 28 + 1
unfolding result shifter_res shifter shifter_a shifter_shamt
sraw_negative = refl
