-- ===== src/Apps/Hello/Palindrome.antt =====
-- What the recursion prints.
use len5_core.Common.{
  ne→==, ℕ, zero, suc, ◌+◌, ◌<◌, ◌≡◌, refl, sym, ap, ◌∙◌, ◌≢◌, false, some, List, [], ◌∷◌, ◌++◌,
  arith, ◌==◌, length,
}
use mathlib.Core.List.{reverse, reverse-cons, reverse-append, reverse-reverse, append_assoc}
use len5_core.Common.Text.{decimal, decimal_loop, codes_before}
use len5_core.Device.Memory.{Memory}
use len5_core.Apps.Hello.{print_char, hello_main}

-- A text without NUL, and the NUL behind it.
abbrev pub IsText : Memory → (c : ℕ) → List ℕ → Type 0
IsText m c [] = m c ≡ 0
IsText m c (x ∷ s) = (m c ≡ x) × (x ≢ 0) × IsText m (c + 1) s

-- A text, the letter O, and the text from its end.
abbrev pub mirrored : List ℕ → List ℕ
mirrored s = s ++ b'O' ∷ reverse s

mirrored-cons : (x : ℕ) (s : List ℕ) → x ∷ mirrored s ++ x ∷ [] ≡ mirrored (x ∷ s)
mirrored-cons x s =
    ap (λ (t : List ℕ). x ∷ t)
      (append_assoc s (b'O' ∷ reverse s) (x ∷ [])
        ∙ ap (λ (t : List ℕ). s ++ b'O' ∷ t) (sym (reverse-cons x s)))

print_char-mirrored :
    (fuel c x : ℕ) (s : List ℕ) (m : Memory)
    → length s < fuel
    → IsText m c (x ∷ s)
    → print_char fuel c m ≡ some (mirrored (x ∷ s))
unfolding print_char
print_char-mirrored zero c x s m h k = absurd (omega arith)
print_char-mirrored (suc fuel) c x [] m h k = rw (k.2, k.0) refl
print_char-mirrored (suc fuel) c x (y ∷ s) m h k =
    let deeper = print_char-mirrored fuel (c + 1) y s m (omega (arith, h)) (k.2) in
    let more : (m (c + 1) == 0) ≡ false = ap (λ (t : ℕ). t == 0) (k.2.0) ∙ ne→== y 0 (k.2.1) in
    rw (more, deeper, k.0) (ap some (mirrored-cons x (y ∷ s)))

mirrored-reverse : (s : List ℕ) → reverse (mirrored s) ≡ mirrored s
mirrored-reverse s =
    reverse-append s (b'O' ∷ reverse s)
    ∙ ap (λ (t : List ℕ). t ++ reverse s)
        (reverse-cons b'O' (reverse s) ∙ ap (λ (t : List ℕ). t ++ b'O' ∷ []) (reverse-reverse s))
    ∙ append_assoc s (b'O' ∷ []) (reverse s)

-- When the array holds a text of at least one character without NUL, and a NUL behind it, and the fuel
-- is at least its length, the program prints the greeting with the number 5, then the text, an O and
-- the text backwards, which is a palindrome, and a newline, and returns 0.
pub hello_main-mirrored :
    (fuel str x : ℕ) (s : List ℕ) (m : Memory)
    → length s < fuel
    → IsText m str (x ∷ s)
    → (hello_main fuel str m
        ≡ some (codes_before "Hello LEN5!\n" (mirrored (x ∷ s) ++ b'\n' ∷ []), 0))
      × (reverse (mirrored (x ∷ s)) ≡ mirrored (x ∷ s))
unfolding hello_main codes_before decimal decimal_loop
hello_main-mirrored fuel str x s m h k =
    (rw (print_char-mirrored fuel str x s m h k) refl, mirrored-reverse (x ∷ s))
