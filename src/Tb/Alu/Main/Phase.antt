-- ===== src/Tb/Alu/Main/Phase.antt =====
-- The open request through the reset, the clock and `eval` of a round, and through the driver.
use Prim.Native.Nat.{bit_xor}
use len5_core.Common.{
  le→ltb, lt→ltb, ℕ, ◌+◌, ◌/◌, ◌%◌, ◌≤◌, ◌<◌, ◌≡◌, refl, ◌∙◌, ◌⊎◌, inl, inr, ◌&&◌, Option, none,
  some, List, [], arith, dec_lt, ltb, Bool-cases,
}
use len5_core.Isa.{AluCtl, alu_ctl_of}
use len5_core.Tb.Alu.{Ports, ReqTx, drive}
use len5_core.Tb.Alu.Main.{clk_gen, rst_dut}
use len5_core.Tb.Alu.Main.Draw.{DrawsAt}
use len5_core.Tb.Alu.Main.Reports.{IsAnswer, IsDriven, IsPending}

-- Up to the time 3 nothing is known of the inputs, up to 6 there is no request at them, and then the
-- open request is that at the inputs.
abbrev pub IsPhase : (t : ℕ) → Ports → List ReqTx → Type 0
IsPhase t p q =
    ((t < 4) × (q ≡ []))
    ⊎ ((3 < t) × (t < 7) × (p.valid_i ≡ 0) × (q ≡ []))
    ⊎ ((6 < t) × IsPending p q)

-- The same between the reset and the request of a round at the time `t`.
abbrev pub IsReady : (t : ℕ) → Ports → List ReqTx → Type 0
IsReady t p q =
    ((t < 3) × (q ≡ []))
    ⊎ ((2 < t) × (t < 7) × (p.valid_i ≡ 0) × (q ≡ []))
    ⊎ ((6 < t) × IsPending p q)

pub toggle : (n : ℕ) → bit_xor (n % 2) 1 ≡ (n + 1) % 2
toggle n = elim (dec_lt (n % 2) 1) [
  | yes p ↦
      (let e : n % 2 ≡ 0 = omega arith in let f : (n + 1) % 2 ≡ 1 = omega arith in rw (e, f) refl)
  | no p ↦
      (let e : n % 2 ≡ 1 = omega arith in let f : (n + 1) % 2 ≡ 0 = omega arith in rw (e, f) refl)
]

abbrev pub choose : Option ReqTx → Ports → Ports
choose o p = elim o [ none ↦ p | some r ↦ drive (some r) p ]

module _ (f : AluCtl → ℕ → ℕ → ℕ) where
  -- The ports after the reset, the clock and `eval`.
  abbrev pub evaluated : (sim_cycles : ℕ) → Ports → Ports
  evaluated sim_cycles p =
      let q = clk_gen (rst_dut sim_cycles p) in
      record q { valid_o = q.valid_i; result_o = f (alu_ctl_of q.ctl_i) q.rs1_i q.rs2_i }

  pub evaluated_clk :
      (sim_cycles : ℕ) (p : Ports) → (evaluated sim_cycles p).clk_i ≡ bit_xor p.clk_i 1
  unfolding clk_gen rst_dut
  evaluated_clk sim_cycles p = elim (Bool-cases (ltb 1 sim_cycles && ltb sim_cycles 4)) [
    | inl h ↦ rw h refl
    | inr h ↦ rw h refl
  ]

  evaluated_low :
      (sim_cycles : ℕ) (p : Ports)
      → 1 < sim_cycles
      → sim_cycles < 4
      → (evaluated sim_cycles p).valid_i ≡ 0
  unfolding clk_gen rst_dut
  evaluated_low sim_cycles p h k = rw (lt→ltb 1 sim_cycles h, lt→ltb sim_cycles 4 k) refl

  evaluated-IsPending :
      (sim_cycles : ℕ) (p : Ports) (q : List ReqTx)
      → 4 ≤ sim_cycles
      → IsPending p q
      → IsPending (evaluated sim_cycles p) q
  unfolding clk_gen rst_dut
  evaluated-IsPending sim_cycles p q h k =
      rw (lt→ltb 1 sim_cycles (omega (arith, h)), le→ltb sim_cycles 4 h) k

  pub evaluated-IsReady :
      (t sim_cycles : ℕ) (p : Ports) (q : List ReqTx)
      → sim_cycles ≡ (t + 1) / 2
      → IsPhase t p q
      → IsReady t (evaluated sim_cycles p) q
  evaluated-IsReady t sim_cycles p q e (inl h) = elim (dec_lt t 3) [
    | yes k ↦ inl (k, h.1)
    | no k ↦ inr (
        inl (
          omega (arith, k),
          omega (arith, h.0),
          evaluated_low sim_cycles p (omega (arith, e, k)) (omega (arith, e, h.0)),
          h.1,
        ))
  ]
  evaluated-IsReady t sim_cycles p q e (inr (inl h)) = inr (
      inl (
        omega (arith, h.0),
        h.1,
        evaluated_low sim_cycles p (omega (arith, e, h.0)) (omega (arith, e, h.1)),
        h.3,
      ))
  evaluated-IsReady t sim_cycles p q e (inr (inr h)) =
      inr (inr (h.0, evaluated-IsPending sim_cycles p q (omega (arith, e, h.0)) (h.1)))

  pub pending-IsAnswer :
      (p : Ports) (q : List ReqTx)
      → p.valid_o ≡ p.valid_i
      → p.result_o ≡ f (alu_ctl_of p.ctl_i) p.rs1_i p.rs2_i
      → IsPending p q
      → IsAnswer f p q
  pending-IsAnswer p q v e (inl h) = inl (v ∙ h.0, h.1)
  pending-IsAnswer p q v e (inr h) =
      inr (v ∙ h.0, h.3, h.4, rw (h.5, h.6, h.7) (h.2), rw (h.5, h.6, h.7) e)

  pub choose-IsDriven :
      (o : Option ReqTx) (p : Ports) (q : List ReqTx) (n : ℕ)
      → DrawsAt n o
      → IsPending p q
      → IsDriven (choose o p)
  unfolding drive
  choose-IsDriven none p q n h (inl k) = inl (k.0)
  choose-IsDriven none p q n h (inr k) = inr (k.0, k.1, k.2)
  choose-IsDriven (some r) p q n (inl h) k = inl (h.2)
  choose-IsDriven (some r) p q n (inr h) k = inr (h.1, h.2, (h.3, h.4, omega (arith, h.5)))

  pub choose_outputs :
      (o : Option ReqTx) (p : Ports)
      → ((choose o p).valid_o ≡ p.valid_o)
        × ((choose o p).result_o ≡ p.result_o)
        × ((choose o p).clk_i ≡ p.clk_i)
  unfolding drive
  choose_outputs none p = (refl, refl, refl)
  choose_outputs (some r) p = (refl, refl, refl)

  pub IsAnswer-moves :
      (p p' : Ports) (q : List ReqTx)
      → p'.valid_o ≡ p.valid_o
      → p'.result_o ≡ p.result_o
      → IsAnswer f p q
      → IsAnswer f p' q
  IsAnswer-moves p p' q v e (inl a) = inl (v ∙ a.0, a.1)
  IsAnswer-moves p p' q v e (inr a) = inr (v ∙ a.0, a.1, a.2, a.3, e ∙ a.4)
