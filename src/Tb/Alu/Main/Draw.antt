-- ===== src/Tb/Alu/Main/Draw.antt =====
-- What the requests that the bench draws can be.
use len5_core.Common.{
  ltb→lt, ℕ, zero, suc, ◌+◌, ◌%◌, ◌^◌, ◌≤◌, ◌<◌, ◌≡◌, refl, ◌⊎◌, inl, inr, false, Option, none,
  some, List, [], ◌∷◌, arith, ltb, ◌==◌, Bool-cases, get_or, All,
}
use len5_core.Tb.Alu.{ReqTx}
use len5_core.Tb.Alu.Main.{Source, Draws, gen_req_tx, corner_cases}

-- A request below the bounds: operands of 64 bits and a code that has a name.
abbrev pub IsBounded : (rs1 rs2 alu_ctl : ℕ) → Type 0
IsBounded rs1 rs2 alu_ctl = (rs1 < 2 ^ 64) × (rs2 < 2 ^ 64) × (alu_ctl < 15)

-- A flush, or a valid request that is no flush.
abbrev pub IsRequest : ReqTx → Type 0
IsRequest r =
    ((r.valid ≡ 0) × (r.flush ≡ 1))
    ⊎ ((r.valid ≡ 1) × (r.flush ≡ 0) × IsBounded r.rs1 r.rs2 r.alu_ctl)

-- What the percentage `p` that is drawn first makes of the request.
abbrev pub DrawsAt : (p : ℕ) → Option ReqTx → Type 0
DrawsAt p none = p < 20
DrawsAt p (some r) =
    ((20 ≤ p) × (p < 25) × (r.valid ≡ 0) × (r.flush ≡ 1))
    ⊎ ((25 ≤ p)
        × (r.valid ≡ 1)
        × (r.flush ≡ 0)
        × (r.rs1 < 2 ^ 64)
        × (r.rs2 < 2 ^ 64)
        × (r.alu_ctl < 14)
        × (r.rob_idx < 31))

get_or-All : (P : ℕ → Type 0) (xs : List ℕ) (i d : ℕ) → All P xs → P d → P (get_or xs i d)
get_or-All P [] i d h k = k
get_or-All P (x ∷ xs) zero d h k = h.0
get_or-All P (x ∷ xs) (suc i) d h k = get_or-All P xs i d (h.1) k

corner-lt : (i : ℕ) → get_or corner_cases i 0 < 2 ^ 64
corner-lt i =
    get_or-All (λ x. x < 2 ^ 64) corner_cases i 0
      (
        omega arith,
        (
          omega arith,
          (
            omega arith,
            (
              omega arith,
              (
                omega arith,
                (
                  omega arith,
                  (
                    omega arith,
                    (
                      omega arith,
                      (
                        omega arith,
                        (
                          omega arith,
                          (
                            omega arith,
                            (
                              omega arith,
                              (
                                omega arith,
                                (omega arith, (omega arith, (omega arith, (omega arith, tt)))),
                              ),
                            ),
                          ),
                        ),
                      ),
                    ),
                  ),
                ),
              ),
            ),
          ),
        ),
      )
      (omega arith)

-- When the draws of vl_rand64 are below 2^64: for a first draw whose rest by 100 is below 20 the bench
-- has no request, below 25 a flush, and otherwise a valid request of 64-bit operands that is no flush,
-- with a code of at most 13, so that ALU_SLTU, the code 14, is never drawn, and with an index of the
-- reorder buffer of at most 30.
pub gen_req_tx-DrawsAt :
    (src : Source) (d : Draws)
    → ((n : ℕ) → src.vl_rand64 n < 2 ^ 64)
    → DrawsAt (src.rand d.rands % 100) (gen_req_tx src d).0
unfolding gen_req_tx
gen_req_tx-DrawsAt src d h =
    let p = src.rand d.rands % 100 in
    elim (Bool-cases (ltb p 20)) [
      | inl a ↦ rw a (ltb→lt p 20 a)
      | inr a ↦ elim (Bool-cases (ltb p 25)) [
        | inl b ↦ rw (a, b) (inl (above p 20 a, ltb→lt p 25 b, refl, refl))
        | inr b ↦ elim (Bool-cases (p == 26)) [
          | inl c ↦
              rw (a, b, c)
                (inr (
                  above p 25 b,
                  refl,
                  refl,
                  corner-lt (src.rand (d.rands + 1) % 16),
                  corner-lt (src.rand (d.rands + 2) % 16),
                  omega arith,
                  omega arith,
                ))
          | inr c ↦
              rw (a, b, c)
                (inr (
                  above p 25 b,
                  refl,
                  refl,
                  h d.rand64s,
                  h (d.rand64s + 1),
                  omega arith,
                  omega arith,
                ))
        ]
      ]
    ]
  where
    above : (p n : ℕ) → ltb p n ≡ false → n ≤ p
    above p n e = ground arith

pub DrawsAt-IsRequest : (p : ℕ) (r : ReqTx) → DrawsAt p (some r) → IsRequest r
DrawsAt-IsRequest p r (inl h) = inl (h.2, h.3)
DrawsAt-IsRequest p r (inr h) = inr (h.1, h.2, (h.3, h.4, omega (arith, h.5)))
