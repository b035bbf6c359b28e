-- ===== src/Coremark/Parseval/Tests.antt =====
-- Runs and concrete cases of the number parser.
use len5_core.Common.{◌-◌, ◌*◌, ◌%◌, ◌^◌, ◌≡◌, refl, [], ◌∷◌, arith}
use len5_core.Coremark.Parseval.{parseval, parse_digits, hex_loop, dec_loop, qualify}
use len5_core.Coremark.Parseval.Print.{decimal, written, scale, kilo, parseval-decimal}

-- "0x1fK" and "-12".
hex_run : parseval (48 ∷ 120 ∷ 49 ∷ 102 ∷ 75 ∷ []) ≡ 31744
unfolding parseval parse_digits hex_loop qualify
hex_run = refl

negative_run : parseval (45 ∷ 49 ∷ 50 ∷ []) ≡ 0xfffffff4
unfolding parseval parse_digits dec_loop qualify
negative_run = refl

parseval-decimal_example :
    (parseval (decimal 9 66 (written kilo)) ≡ 66 * scale kilo % 2 ^ 32)
    × (parseval (45 ∷ decimal 9 66 (written kilo)) ≡ (2 ^ 32 - 66 * scale kilo % 2 ^ 32) % 2 ^ 32)
parseval-decimal_example = parseval-decimal 66 kilo (omega arith)
