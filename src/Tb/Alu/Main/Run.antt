-- ===== src/Tb/Alu/Main/Run.antt =====
-- The whole run of the bench.
use len5_core.Common.{
  length, ltb→lt, ℕ, zero, suc, ◌+◌, ◌*◌, ◌%◌, ◌^◌, ◌≤◌, ◌<◌, ◌≡◌, refl, sym, ap, ◌∙◌, inl, inr,
  false, Option, some, List, [], ◌∷◌, arith, ltb, ◌>>=◌, Bool-cases, All,
}
use len5_core.Isa.{AluCtl, alu_ctl_of}
use len5_core.Rtl.Alu.{result}
use len5_core.Rtl.Alu.Result.{result-meaning}
use len5_core.Tb.Alu.{
  Ports, ReqTx, Report, wrong, right, requested, flushed, new_scb, get_err_num, get_tx_num,
}
use len5_core.Tb.Alu.Main.{Source, Sim, test_succeeded, main_loop, simulate, summary}
use len5_core.Tb.Alu.Main.Reports.{IsSound, IsJudged, count_wrong}
use len5_core.Tb.Alu.Main.Device.{combinational, alu_eval}
use len5_core.Tb.Alu.Main.Phase.{IsPhase}
use len5_core.Tb.Alu.Main.Step.{IsRunning, step-IsRunning}

few_open : (t : ℕ) (p : Ports) (q : List ReqTx) → IsPhase t p q → length q ≤ 1
few_open t p q (inl h) = rw (h.1) (omega arith)
few_open t p q (inr (inl h)) = rw (h.3) (omega arith)
few_open t p q (inr (inr (late, inl h))) = rw (h.1) (omega arith)
few_open t p q (inr (inr (late, inr h))) = rw (h.4) (omega arith)

module _ (f : AluCtl → ℕ → ℕ → ℕ) (src : Source)
    (bounded : (n : ℕ) → src.vl_rand64 n < 2 ^ 64) where
  main_loop-IsRunning :
      (fuel bound : ℕ) (m : Sim (Unit {0}))
      → IsRunning f src bounded m
      → m.time ≤ bound
      → bound < m.time + fuel
      → (m' : Sim (Unit {0})) × (main_loop (combinational f) src fuel bound m ≡ some m')
        × IsRunning f src bounded m'
        × (m'.time ≡ bound)
  unfolding main_loop
  main_loop-IsRunning zero bound m h le lt = absurd (omega arith)
  main_loop-IsRunning (suc fuel) bound m h le lt = elim (Bool-cases (ltb m.time bound)) [
    | inl c ↦
        (let x = step-IsRunning f src bounded m h in
          let below = ltb→lt m.time bound c in
          let r =
            main_loop-IsRunning fuel bound x.0 (x.2) (omega (arith, x.3, below))
              (omega (arith, x.3, lt)) in
          (
            r.0,
            rw c (
                ap
                  (λ (o : Option (Sim (Unit {0}))).
                    o >>= main_loop (combinational f) src fuel bound)
                  (x.1)
                ∙ r.1),
            r.2,
            r.3,
          ))
    | inr c ↦ (m, rw c refl, h, omega (arith, le, not_below m.time bound c))
  ]
    where
      not_below : (a b : ℕ) → ltb a b ≡ false → b ≤ a
      not_below a b c = ground arith

  -- On a combinational unit with the function `f`, below 2^63 cycles, with the clock low at the start
  -- and draws of vl_rand64 below 2^64, the bench runs to twice max_cycles without an undefined
  -- access. At most one request then waits for its response: each other one that was reported was
  -- dropped by a flush or, in the order of the requests, judged once. A judgement gives the result
  -- that `f` gives for the operands of its own request and the one that the instruction set means, and
  -- is right just when they agree. The number of errors is that of the wrong judgements, the number of
  -- transactions that of all judgements, on 32 bits.
  pub simulate-IsSound :
      (max_cycles : ℕ) (ports : Ports)
      → max_cycles < 2 ^ 63
      → ports.clk_i ≡ 0
      → (m : Sim (Unit {0})) × (simulate (combinational f) src max_cycles ports tt ≡ some m)
        × (m.time ≡ max_cycles * 2)
        × IsSound f m.scb
        × (length m.scb.req_q ≤ 1)
  unfolding simulate new_scb
  simulate-IsSound max_cycles ports h clk =
      let bound : max_cycles * 2 % 2 ^ 64 ≡ max_cycles * 2 = omega (arith, h) in
      let start : Sim (Unit {0}) = record {
        ports = ports;
        dut = tt;
        scb = new_scb;
        draws = record { rands = 0; rand64s = 0 };
        time = 0;
        sim_cycles = 0;
      } in
      let r =
        main_loop-IsRunning (max_cycles * 2 + 1) (max_cycles * 2) start
          (clk, refl, refl, (refl, tt, refl, refl), inl (omega arith, refl)) (omega arith)
          (omega arith) in
      (
        r.0,
        ap (λ (t : ℕ). main_loop (combinational f) src (t + 1) t start) bound ∙ r.1,
        r.3,
        r.2.3,
        few_open r.0.time r.0.ports r.0.scb.req_q (r.2.4),
      )

no_wrong : (rs : List Report) → All (IsJudged result) rs → count_wrong rs ≡ 0
no_wrong [] h = refl
no_wrong (requested op a b ∷ rs) h = no_wrong rs (h.1)
no_wrong (flushed ∷ rs) h = no_wrong rs (h.1)
no_wrong (right op a b res e ∷ rs) h = no_wrong rs (h.1)
no_wrong (wrong op a b res e ∷ rs) h =
    (let told = h.0.0 in
      absurd
        (h.0.1 (told.4 ∙ result-meaning (alu_ctl_of told.2) a b (told.0) (told.1) ∙ sym (told.5))))

-- Below 2^63 cycles, with the clock low at the start and draws of vl_rand64 below 2^64, the bench runs on
-- the unit of alu.sv to its end without an undefined access, counts no error and reports that the
-- test has succeeded.
pub simulate-alu_eval :
    (src : Source) (max_cycles : ℕ) (ports : Ports)
    → ((n : ℕ) → src.vl_rand64 n < 2 ^ 64)
    → max_cycles < 2 ^ 63
    → ports.clk_i ≡ 0
    → (m : Sim (Unit {0})) × (simulate alu_eval src max_cycles ports tt ≡ some m)
      × (m.time ≡ max_cycles * 2)
      × (summary m.scb ≡ test_succeeded 0 (get_tx_num m.scb))
unfolding alu_eval summary get_err_num
simulate-alu_eval src max_cycles ports bounded h clk =
    let r = simulate-IsSound result src bounded max_cycles ports h clk in
    let none_wrong : r.0.scb.err_num ≡ 0 = omega (arith, r.3.0, no_wrong r.0.scb.reports (r.3.1)) in
    (r.0, r.1, r.2, rw none_wrong refl)
