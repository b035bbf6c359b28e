-- ===== src/Tb/Bare/Wave.antt =====
-- What the model of the core is driven with, and for how long.
use len5_core.Common.{
  ltb→lt, ℕ, zero, suc, ◌+◌, ◌*◌, ◌/◌, ◌%◌, ◌^◌, ◌≤◌, ◌<◌, ◌≡◌, refl, sym, ap, ◌∙◌, ◌⊎◌, inl, inr,
  Bool, true, false, ◌&&◌, some, arith, dec_lt, ℕ_discrete, ltb, ◌==◌, if◌then◌else◌, Bool-cases,
}
use Prim.Native.Nat.{bit_xor}
use len5_core.Tb.Bare.{
  Top, Bench, completed, timed_out, clk_gen, rst_dut, init_dut, step, main_loop, simulate, verdict,
}

-- The inputs at a time: reset is low from 2 to 19, and the clock is low at even times.
abbrev pub wave : (trace_en t : ℕ) → Top
wave trace_en t = record {
  rst_ni = if ltb t 2 then 1 else if ltb t 20 then 0 else 1;
  clk_i = t % 2;
  trace_en_i = trace_en;
}

toggle : (n : ℕ) → bit_xor ((n + 1) % 2) 1 ≡ n % 2
toggle n = elim (dec_lt (n % 2) 1) [
  | yes p ↦
      (let e : n % 2 ≡ 0 = omega arith in let f : (n + 1) % 2 ≡ 1 = omega arith in rw (e, f) refl)
  | no p ↦
      (let e : n % 2 ≡ 1 = omega arith in let f : (n + 1) % 2 ≡ 0 = omega arith in rw (e, f) refl)
]

reset_wave :
    (t : ℕ)
    → ◌≡◌ {A = ℕ}
        (if ltb 1 t && ltb t 20 then 0 else 1)
        (if ltb t 2 then 1 else if ltb t 20 then 0 else 1)
reset_wave t = ground arith

cycle_count : (n : ℕ) → ◌≡◌ {A = ℕ} (if n % 2 == 1 then n / 2 + 1 else n / 2) (suc n / 2)
cycle_count n = ground arith

inputs-wave :
    (top : Top) (trace_en n : ℕ)
    → top.clk_i ≡ (n + 1) % 2
    → top.trace_en_i ≡ trace_en
    → clk_gen (rst_dut n top) ≡ wave trace_en n
unfolding clk_gen rst_dut
inputs-wave top trace_en n e f = rw (e, f, toggle n, reset_wave n) refl

module _ {S : Type 0} (eval : Top → S → S) where
  -- The state of the model once it has seen the initial inputs and those at the first `n` times.
  pub driven : (trace_en n : ℕ) → S → S
  driven trace_en zero s = eval (record { rst_ni = 0; clk_i = 1; trace_en_i = trace_en }) s
  driven trace_en (suc n) s = eval (wave trace_en n) (driven trace_en n s)

  -- The bench at a time.
  abbrev pub At : (trace_en n : ℕ) → S → Bench S → Type 0
  At trace_en n s b =
      (b.time ≡ n)
      × (b.top.clk_i ≡ (n + 1) % 2)
      × (b.top.trace_en_i ≡ trace_en)
      × (b.dut ≡ driven trace_en n s)
      × (b.sim_cycles ≡ n / 2)

  step-At :
      (trace_en n : ℕ) (s : S) (b : Bench S)
      → At trace_en n s b
      → At trace_en (suc n) s (step eval b)
  unfolding step driven
  step-At trace_en n s b h =
      let top : clk_gen (rst_dut b.time b.top) ≡ wave trace_en n =
        rw (h.0) (inputs-wave b.top trace_en n (h.1) (h.2)) in
      (
        omega (arith, h.0),
        ap (λ (t : Top). t.clk_i) top ∙ omega arith,
        ap (λ (t : Top). t.trace_en_i) top,
        ap (λ (t : Top). eval t b.dut) top ∙ ap (eval (wave trace_en n)) (h.3),
        ap (λ (t : Top). if t.clk_i == 1 then b.sim_cycles + 1 else b.sim_cycles) top
            ∙ rw (h.4) (cycle_count n),
      )

  init_dut-At : (trace_en : ℕ) (top : Top) (s : S) → At trace_en 0 s (init_dut eval trace_en top s)
  unfolding init_dut driven
  init_dut-At trace_en top s = (refl, refl, refl, refl, refl)

module _ {S : Type 0} (eval : Top → S → S) (got_finish : S → Bool) where
  -- The run stops at the first of the times up to `bound` at which the model has finished, or at
  -- `bound`.
  abbrev pub Stops : (trace_en bound n : ℕ) → S → Type 0
  Stops trace_en bound n s =
      (n ≤ bound)
      × ((k : ℕ) → k < n → got_finish (driven eval trace_en k s) ≡ false)
      × ((got_finish (driven eval trace_en n s) ≡ true) ⊎ (n ≡ bound))

  main_loop-Stops :
      (fuel bound trace_en n : ℕ) (s : S) (b : Bench S)
      → At eval trace_en n s b
      → n ≤ bound
      → bound < n + fuel
      → ((k : ℕ) → k < n → got_finish (driven eval trace_en k s) ≡ false)
      → (m : ℕ) × (b' : Bench S) × (main_loop eval got_finish fuel bound b ≡ some b')
        × At eval trace_en m s b'
        × Stops trace_en bound m s
  unfolding main_loop
  main_loop-Stops zero bound trace_en n s b h le lt before = absurd (omega arith)
  main_loop-Stops (suc fuel) bound trace_en n s b h le lt before =
      elim (Bool-cases (got_finish b.dut)) [
        | inl f ↦ (n, b, rw f refl, h, (le, before, inl (sym (ap got_finish (h.3)) ∙ f)))
        | inr f ↦ elim (Bool-cases (ltb b.time bound)) [
          | inl g ↦
              (let less : n < bound = omega (arith, h.0, ltb→lt b.time bound g) in
                let unfinished : got_finish (driven eval trace_en n s) ≡ false =
                  sym (ap got_finish (h.3)) ∙ f in
                let rest =
                  main_loop-Stops fuel bound trace_en (suc n) s (step eval b)
                    (step-At eval trace_en n s b h) (omega (arith, less)) (omega (arith, lt))
                    (extend n unfinished before) in
                (rest.0, rest.1, rw (f, g) (rest.2), rest.3, rest.4))
          | inr g ↦ (
            n,
            b,
            rw (f, g) refl,
            h,
            (le, before, inr (omega (arith, le, h.0, ltb-false b.time bound g))),
          )
        ]
      ]
    where
      extend :
          (n : ℕ)
          → got_finish (driven eval trace_en n s) ≡ false
          → ((k : ℕ) → k < n → got_finish (driven eval trace_en k s) ≡ false)
          → (k : ℕ) → k < suc n
          → got_finish (driven eval trace_en k s) ≡ false
      extend n u before k lt = elim (ℕ_discrete k n) [
        | yes e ↦ ap (λ (t : ℕ). got_finish (driven eval trace_en t s)) e ∙ u
        | no e ↦ before k (omega (arith, lt, e))
      ]

      ltb-false : (a c : ℕ) → ltb a c ≡ false → c ≤ a
      ltb-false a c g = ground arith

  -- Below 2^63 cycles the simulation ends: at the first of the times up to twice max_cycles at which
  -- the model has called $finish, and else at twice max_cycles. The model has then seen, after the
  -- initial inputs, the clock toggled at every time with the reset low at the times 2 to 19 only; the
  -- cycles counted are half the time, and the verdict is success just when the model has finished.
  pub simulate-Stops :
      (max_cycles trace_en : ℕ) (top : Top) (s : S)
      → max_cycles < 2 ^ 63
      → (n : ℕ) × (b : Bench S) × (simulate eval got_finish max_cycles trace_en top s ≡ some b)
        × Stops trace_en (max_cycles * 2) n s
        × (b.dut ≡ driven eval trace_en n s)
        × (b.time ≡ n)
        × (b.sim_cycles ≡ n / 2)
        × (verdict got_finish b
            ≡ (if got_finish (driven eval trace_en n s) then completed else timed_out))
  unfolding simulate verdict
  simulate-Stops max_cycles trace_en top s h =
      let bound : max_cycles * 2 % 2 ^ 64 ≡ max_cycles * 2 = omega (arith, h) in
      let r =
        main_loop-Stops (max_cycles * 2 + 1) (max_cycles * 2) trace_en 0 s
          (init_dut eval trace_en top s) (init_dut-At eval trace_en top s) (omega arith)
          (omega arith) (λ k lt. absurd (omega (arith, lt))) in
      (
        r.0,
        r.1,
        ap (λ (t : ℕ). main_loop eval got_finish (t + 1) t (init_dut eval trace_en top s)) bound
            ∙ r.2,
        r.4,
        r.3.3,
        r.3.0,
        r.3.4,
        ap (λ (t : S). if got_finish t then completed else timed_out) (r.3.3),
      )
