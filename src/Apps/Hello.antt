-- ===== src/Apps/Hello.antt =====
-- The application sw/applications/hello_world/main.c on a memory of bytes: what it prints, oldest first.
pub mod Palindrome
use len5_core.Common.{
  ℕ, zero, suc, ◌+◌, ◌/◌, ◌%◌, ◌^◌, Option, none, some, List, [], ◌∷◌, ◌++◌, ◌==◌, if◌then◌else◌,
  ◌>>=◌,
}
use len5_core.Common.Text.{decimal, codes_before}
use len5_core.Device.Memory.{Memory}

-- `print_char`: none if the fuel runs out.
pub print_char : (fuel : ℕ) → (c : ℕ) → Memory → Option (List ℕ)
print_char zero c m = none
print_char (suc fuel) c m =
    let next = c + 1 in
    let deeper = print_char fuel next m in
    (if m next == 0 then some (b'O' ∷ []) else deeper)
    >>= (λ middle. some (m c ∷ middle ++ m c ∷ []))

-- The loop `for (size_t i = 0; i < 160; i++) a++`.
unfoldable pub waste_loop : (left a : ℕ) → ℕ
waste_loop zero a = a
waste_loop (suc left) a = waste_loop left (a + 1)

-- `main`, with the address of the array `str`.
unfoldable pub hello_main : (fuel str : ℕ) → Memory → Option (List ℕ × ℕ)
unfolding print_char waste_loop
hello_main fuel str m =
    let a = waste_loop 160 0 in
    let hello =
      codes_before "Hello LEN" (codes_before (decimal (a / 2 ^ 5)) (codes_before "!\n" [])) in
    print_char fuel str m >>= (λ printed. some (hello ++ printed ++ b'\n' ∷ [], 0))
