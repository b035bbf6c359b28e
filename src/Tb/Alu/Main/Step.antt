-- ===== src/Tb/Alu/Main/Step.antt =====
-- What one round of the loop keeps true.
use Prim.Native.Nat.{bit_xor}
use len5_core.Common.{
  ℕ, ◌+◌, ◌/◌, ◌%◌, ◌^◌, ◌<◌, ◌≡◌, refl, ap, ◌∙◌, ◌≢◌, inl, inr, true, false, ◌&&◌, Option, some,
  List, [], arith, ltb, ◌==◌, if◌then◌else◌, ◌>>=◌, Bool-cases,
}
use len5_core.Isa.{AluCtl}
use len5_core.Tb.Alu.{Ports, ReqTx, Scb}
use len5_core.Tb.Alu.Main.{Source, Draws, Sim, gen_req_tx, exercise, step}
use len5_core.Tb.Alu.Main.Draw.{gen_req_tx-DrawsAt}
use len5_core.Tb.Alu.Main.Reports.{IsSound, IsAnswer, IsPending, monitors-IsSound}
use len5_core.Tb.Alu.Main.Device.{combinational}
use len5_core.Tb.Alu.Main.Phase.{
  IsPhase, IsReady, toggle, choose, evaluated, evaluated_clk, evaluated-IsReady, pending-IsAnswer,
  choose-IsDriven, choose_outputs, IsAnswer-moves,
}

module _ (f : AluCtl → ℕ → ℕ → ℕ) (src : Source)
    (bounded : (n : ℕ) → src.vl_rand64 n < 2 ^ 64) where
  exercise-IsPending :
      (p : Ports) (s : Scb) (d : Draws)
      → IsPending p s.req_q
      → IsAnswer f p s.req_q
      → s.rsp_q ≡ []
      → IsSound f s
      → (p' : Ports) × (s' : Scb) × (d' : Draws) × (exercise (combinational f) src p s d
          ≡ some (p', s', d'))
        × IsPending p' s'.req_q
        × (s'.rsp_q ≡ [])
        × IsSound f s'
        × (p'.clk_i ≡ p.clk_i)
  unfolding exercise
  exercise-IsPending p s d pending a hr h =
      let drawn = gen_req_tx src d in
      let p' = choose drawn.0 p in
      let out = choose_outputs f drawn.0 p in
      let isDriven =
        choose-IsDriven f drawn.0 p s.req_q (src.rand d.rands % 100)
          (gen_req_tx-DrawsAt src d bounded) pending in
      let c =
        monitors-IsSound f src.fresh p' s isDriven (IsAnswer-moves f p p' s.req_q (out.0) (out.1) a)
          hr h in
      (
        p',
        c.0,
        drawn.1,
        ap (λ (o : Option Scb). o >>= (λ s1. some (p', s1, drawn.1))) (c.1),
        c.3,
        c.4,
        c.2,
        out.2,
      )

  -- The state between two rounds.
  abbrev pub IsRunning : Sim (Unit {0}) → Type 0
  IsRunning m =
      (m.ports.clk_i ≡ m.time % 2)
      × (m.sim_cycles ≡ (m.time + 1) / 2)
      × (m.scb.rsp_q ≡ [])
      × IsSound f m.scb
      × IsPhase m.time m.ports m.scb.req_q

  count :
      (t c n : ℕ)
      → c ≡ (t + 1) % 2
      → n ≡ (t + 1) / 2
      → (if c == 1 then n + 1 else n) ≡ (t + 1 + 1) / 2
  count t c n e k = ground arith

  sampling_time : (t c : ℕ) → c ≡ (t + 1) % 2 → ((c == 1) && ltb 4 t) ≡ true → (4 < t) × (6 < t + 1)
  sampling_time t c e h = ground arith

  not_six : (t c : ℕ) → c ≡ (t + 1) % 2 → ((c == 1) && ltb 4 t) ≡ false → t ≢ 6
  not_six t c e h k = ground arith

  ready-IsPending : (t : ℕ) (p : Ports) (q : List ReqTx) → 4 < t → IsReady t p q → IsPending p q
  ready-IsPending t p q h (inl r) = absurd (omega (arith, h, r.0))
  ready-IsPending t p q h (inr (inl r)) = inl (r.2, r.3)
  ready-IsPending t p q h (inr (inr r)) = r.1

  ready-IsPhase : (t : ℕ) (p : Ports) (q : List ReqTx) → t ≢ 6 → IsReady t p q → IsPhase (t + 1) p q
  ready-IsPhase t p q h (inl r) = inl (omega (arith, r.0), r.1)
  ready-IsPhase t p q h (inr (inl r)) =
      inr (inl (omega (arith, r.0), omega (arith, h, r.1), r.2, r.3))
  ready-IsPhase t p q h (inr (inr r)) = inr (inr (omega (arith, r.0), r.1))

  pub step-IsRunning :
      (m : Sim (Unit {0}))
      → IsRunning m
      → (m' : Sim (Unit {0})) × (step (combinational f) src m ≡ some m')
        × IsRunning m'
        × (m'.time ≡ m.time + 1)
  unfolding step
  step-IsRunning m h =
      let t = m.time in
      let p = evaluated f m.sim_cycles m.ports in
      let clk : p.clk_i ≡ (t + 1) % 2 =
        evaluated_clk f m.sim_cycles m.ports ∙ ap (λ (c : ℕ). bit_xor c 1) (h.0) ∙ toggle t in
      let ready = evaluated-IsReady f t m.sim_cycles m.ports m.scb.req_q (h.1) (h.4) in
      elim (Bool-cases ((p.clk_i == 1) && ltb 4 t)) [
        | inl c ↦
            (let sampled = sampling_time t p.clk_i clk c in
              let pending = ready-IsPending t p m.scb.req_q (sampled.0) ready in
              let x =
                exercise-IsPending p m.scb m.draws pending
                  (pending-IsAnswer f p m.scb.req_q refl refl pending) (h.2) (h.3) in
              let next = λ (y : Ports × Scb × Draws). some (
                let after : Sim (Unit {0}) = record {
                  ports = y.0;
                  dut = tt;
                  scb = y.1;
                  draws = y.2;
                  time = t + 1;
                  sim_cycles = if y.0.clk_i == 1 then m.sim_cycles + 1 else m.sim_cycles;
                } in
                after) in
              (
                record {
                  ports = x.0;
                  dut = tt;
                  scb = x.1;
                  draws = x.2;
                  time = t + 1;
                  sim_cycles = if x.0.clk_i == 1 then m.sim_cycles + 1 else m.sim_cycles;
                },
                rw c (ap (λ (o : Option (Ports × Scb × Draws)). o >>= next) (x.3)),
                (
                  x.7 ∙ clk,
                  count t x.0.clk_i m.sim_cycles (x.7 ∙ clk) (h.1),
                  x.5,
                  x.6,
                  inr (inr (sampled.1, x.4)),
                ),
                refl,
              ))
        | inr c ↦ (
          record {
            ports = p;
            dut = tt;
            scb = m.scb;
            draws = m.draws;
            time = t + 1;
            sim_cycles = if p.clk_i == 1 then m.sim_cycles + 1 else m.sim_cycles;
          },
          rw c refl,
          (
            clk,
            count t p.clk_i m.sim_cycles clk (h.1),
            h.2,
            h.3,
            ready-IsPhase t p m.scb.req_q (not_six t p.clk_i clk c) ready,
          ),
          refl,
        )
      ]
