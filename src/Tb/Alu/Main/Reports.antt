-- ===== src/Tb/Alu/Main/Reports.antt =====
-- The scoreboard behind a combinational unit: `f` is the function that the unit computes.
use Prim.Native.String.{String}
use mathlib.Core.Path.{subst}
use len5_core.Common.{
  ==_iff, get_elem?, ℕ, zero, suc, ◌+◌, ◌%◌, ◌^◌, ◌<◌, ◌≡◌, refl, ap, ◌∙◌, ◌≢◌, ◌⊎◌, inl, inr, true,
  false, Option, some, List, [], ◌∷◌, ◌++◌, arith, ◌==◌, ◌>>=◌, Bool-cases, length, All,
}
use len5_core.Isa.{AluCtl, alu_ctl_of, meaning}
use len5_core.Tb.Alu.{
  Ports, ReqTx, RspTx, Scb, Report, requested, flushed, wrong, right, op_str, exp_res, compare_res,
  check_res, write_req, write_rsp, flush_queues, req_monitor, rsp_monitor,
}
use len5_core.Tb.Alu.Expected.{exp_res-meaning}
use len5_core.Tb.Alu.Main.Draw.{IsBounded}

abbrev pub count_wrong : List Report → ℕ
count_wrong [] = 0
count_wrong (requested op a b ∷ rs) = count_wrong rs
count_wrong (flushed ∷ rs) = count_wrong rs
count_wrong (wrong op a b res e ∷ rs) = suc (count_wrong rs)
count_wrong (right op a b res e ∷ rs) = count_wrong rs

-- The responses that were compared.
abbrev pub count_judged : List Report → ℕ
count_judged [] = 0
count_judged (requested op a b ∷ rs) = count_judged rs
count_judged (flushed ∷ rs) = count_judged rs
count_judged (wrong op a b res e ∷ rs) = suc (count_judged rs)
count_judged (right op a b res e ∷ rs) = suc (count_judged rs)

-- The operation and the operands of a report are those of the request.
abbrev pub IsAbout : (op : String) → (a b : ℕ) → ReqTx → Type 0
IsAbout op a b r = (get_elem? op_str r.alu_ctl ≡ some op) × (r.rs1 ≡ a) × (r.rs2 ≡ b)

-- Of the requests that the reports name, those in `q` are neither judged nor flushed, the oldest first. Each
-- judgement is about the oldest request that was open before it, and a flush drops all that are open.
abbrev pub AreOpen : List Report → List ReqTx → Type 0
AreOpen [] q = q ≡ []
AreOpen (requested op a b ∷ rs) q =
    (r : ReqTx) × (before : List ReqTx) × (q ≡ before ++ r ∷ [])
    × IsAbout op a b r
    × AreOpen rs before
AreOpen (flushed ∷ rs) q = (q ≡ []) × (dropped : List ReqTx) × AreOpen rs dropped
AreOpen (wrong op a b res e ∷ rs) q = (r : ReqTx) × IsAbout op a b r × AreOpen rs (r ∷ q)
AreOpen (right op a b res e ∷ rs) q = (r : ReqTx) × IsAbout op a b r × AreOpen rs (r ∷ q)

-- The report of a response on 64-bit operands names the operation and gives the result that the unit computes and the
-- one that the instruction set means.
abbrev pub IsTold : (f : AluCtl → ℕ → ℕ → ℕ) → (op : String) → (a b res e : ℕ) → Type 0
IsTold f op a b res e =
    (a < 2 ^ 64)
    × (b < 2 ^ 64)
    × (ctl : ℕ) × (get_elem? op_str ctl ≡ some op)
    × (res ≡ f (alu_ctl_of ctl) a b)
    × (e ≡ meaning (alu_ctl_of ctl) a b)

-- A response is called right just when the two agree.
abbrev pub IsJudged : (f : AluCtl → ℕ → ℕ → ℕ) → Report → Type 0
IsJudged f (requested op a b) = Unit
IsJudged f flushed = Unit
IsJudged f (wrong op a b res e) = IsTold f op a b res e × (res ≢ e)
IsJudged f (right op a b res e) = IsTold f op a b res e × (res ≡ e)

-- The numbers of errors and of transactions are those of the wrong responses and of all that were
-- compared, on 32 bits, and the queue holds the requests that wait for their response.
abbrev pub IsSound : (f : AluCtl → ℕ → ℕ → ℕ) → Scb → Type 0
IsSound f s =
    (s.err_num ≡ count_wrong s.reports % 2 ^ 32)
    × All (IsJudged f) s.reports
    × (s.tx_num ≡ count_judged s.reports % 2 ^ 32)
    × AreOpen s.reports s.req_q

-- The response at the outputs is the answer to the one open request, if there is any.
abbrev pub IsAnswer : (f : AluCtl → ℕ → ℕ → ℕ) → Ports → List ReqTx → Type 0
IsAnswer f p q =
    ((p.valid_o ≡ 0) × (q ≡ []))
    ⊎ ((p.valid_o ≡ 1)
        × (r : ReqTx) × (q ≡ r ∷ [])
        × IsBounded r.rs1 r.rs2 r.alu_ctl
        × (p.result_o ≡ f (alu_ctl_of r.alu_ctl) r.rs1 r.rs2))

-- The inputs hold no request, or a valid one that is no flush.
abbrev pub IsDriven : Ports → Type 0
IsDriven p =
    (p.valid_i ≡ 0) ⊎ ((p.valid_i ≡ 1) × (p.flush_i ≡ 0) × IsBounded p.rs1_i p.rs2_i p.ctl_i)

-- The one open request, if there is any, is that at the inputs.
abbrev pub IsPending : Ports → List ReqTx → Type 0
IsPending p q =
    ((p.valid_i ≡ 0) × (q ≡ []))
    ⊎ ((p.valid_i ≡ 1)
        × (p.flush_i ≡ 0)
        × IsBounded p.rs1_i p.rs2_i p.ctl_i
        × (r : ReqTx) × (q ≡ r ∷ [])
        × (r.rs1 ≡ p.rs1_i)
        × (r.rs2 ≡ p.rs2_i)
        × (r.alu_ctl ≡ p.ctl_i))

get_elem?-some :
    {A : Type 0} (xs : List A) (i : ℕ) → i < length xs → (a : A) × (get_elem? xs i ≡ some a)
get_elem?-some [] i h = absurd (omega arith)
get_elem?-some (x ∷ xs) zero h = (x, refl)
get_elem?-some (x ∷ xs) (suc i) h = get_elem?-some xs i (omega arith)

module _ (f : AluCtl → ℕ → ℕ → ℕ) where
  -- `s` has taken the request from the queue and counted it.
  compare_res-IsSound :
      (req : ReqTx) (rsp : RspTx) (s : Scb)
      → s.err_num ≡ count_wrong s.reports % 2 ^ 32
      → All (IsJudged f) s.reports
      → s.tx_num ≡ suc (count_judged s.reports) % 2 ^ 32
      → AreOpen s.reports (req ∷ s.req_q)
      → IsBounded req.rs1 req.rs2 req.alu_ctl
      → rsp.res ≡ f (alu_ctl_of req.alu_ctl) req.rs1 req.rs2
      → (s' : Scb) × (compare_res req rsp s ≡ some s')
        × IsSound f s'
        × (s'.req_q ≡ s.req_q)
        × (s'.rsp_q ≡ s.rsp_q)
  unfolding compare_res
  compare_res-IsSound req rsp s errors judged count waiting k e =
      let found = get_elem?-some op_str req.alu_ctl (k.2) in
      let expected = exp_res (alu_ctl_of req.alu_ctl) req.rs1 req.rs2 in
      let told : IsTold f found.0 req.rs1 req.rs2 rsp.res expected = (
        k.0,
        k.1,
        req.alu_ctl,
        found.1,
        e,
        exp_res-meaning (alu_ctl_of req.alu_ctl) req.rs1 req.rs2 (k.0) (k.1),
      ) in
      elim (Bool-cases (rsp.res == expected)) [
        | inl c ↦ (
          record s { reports = right found.0 req.rs1 req.rs2 rsp.res expected ∷ s.reports },
          rw (found.1, c) refl,
          (
            errors,
            ((told, (==_iff rsp.res expected).0 c), judged),
            count,
            (req, (found.1, refl, refl), waiting),
          ),
          refl,
          refl,
        )
        | inr c ↦ (
          record s {
            err_num = (s.err_num + 1) % 2 ^ 32;
            reports = wrong found.0 req.rs1 req.rs2 rsp.res expected ∷ s.reports;
          },
          rw (found.1, c) refl,
          (
            omega (arith, errors),
            ((told, differs rsp.res expected c), judged),
            count,
            (req, (found.1, refl, refl), waiting),
          ),
          refl,
          refl,
        )
      ]
    where
      differs : (a b : ℕ) → (a == b) ≡ false → a ≢ b
      differs a b c = ground arith

  rsp_monitor-IsSound :
      (p : Ports) (s : Scb) (q rest : List ReqTx)
      → p.flush_i ≡ 0
      → IsAnswer f p q
      → s.req_q ≡ q ++ rest
      → s.rsp_q ≡ []
      → IsSound f s
      → (s' : Scb) × (rsp_monitor p s ≡ some s')
        × IsSound f s'
        × (s'.req_q ≡ rest)
        × (s'.rsp_q ≡ [])
  unfolding rsp_monitor write_rsp check_res
  rsp_monitor-IsSound p s q rest hf (inl a) hq hr h =
      (s, rw (a.0) refl, h, hq ∙ ap (λ (t : List ReqTx). t ++ rest) (a.1), hr)
  rsp_monitor-IsSound p s q rest hf (inr a) hq hr h =
      let r = a.1 in
      let open_ : s.req_q ≡ r ∷ rest = hq ∙ ap (λ (t : List ReqTx). t ++ rest) (a.2) in
      let rsp : RspTx = record { res = p.result_o } in
      let taken : Scb = record s { req_q = rest; rsp_q = []; tx_num = (s.tx_num + 1) % 2 ^ 32 } in
      let c =
        compare_res-IsSound r rsp taken (h.0) (h.1) (omega (arith, h.2))
          (subst (λ (t : List ReqTx). AreOpen s.reports t) open_ (h.3)) (a.3) (a.4) in
      (c.0, rw (a.0, hf, open_, hr) (c.1), c.2, c.3, c.4)

  req_monitor_idle :
      (fresh : ReqTx) (p : Ports) (s : Scb)
      → p.valid_i ≡ 0
      → (p.flush_i == 0) ≡ true
      → req_monitor fresh p s ≡ some s
  unfolding req_monitor
  req_monitor_idle fresh p s v e = rw (v, e) refl

  req_monitor_flush :
      (fresh : ReqTx) (p : Ports) (s : Scb)
      → (p.flush_i == 0) ≡ false
      → (req_monitor fresh p s >>= rsp_monitor p)
        ≡ some (record s { req_q = []; rsp_q = []; reports = flushed ∷ s.reports })
  unfolding req_monitor rsp_monitor flush_queues
  req_monitor_flush fresh p s e = elim (Bool-cases (p.valid_o == 0)) [
    | inl o ↦ rw (e, o) refl
    | inr o ↦ rw (e, o, e) refl
  ]

  req_monitor_request :
      (fresh : ReqTx) (p : Ports) (s : Scb) (op : String)
      → p.valid_i ≡ 1
      → p.flush_i ≡ 0
      → get_elem? op_str p.ctl_i ≡ some op
      → req_monitor fresh p s
        ≡ some (record s {
          req_q =
              s.req_q
              ++ (record fresh {
                rs1 = p.rs1_i;
                rs2 = p.rs2_i;
                alu_ctl = p.ctl_i;
                rob_idx = p.rob_idx_i;
              })
                ∷ [];
          reports = requested op p.rs1_i p.rs2_i ∷ s.reports;
        })
  unfolding req_monitor write_req
  req_monitor_request fresh p s op v e g = rw (v, e, g) refl

  append_none : (q : List ReqTx) → q ≡ q ++ []
  append_none [] = refl
  append_none (r ∷ q) = ap (λ (t : List ReqTx). r ∷ t) (append_none q)

  -- Both monitors leave the request at the inputs as the open one.
  pub monitors-IsSound :
      (fresh : ReqTx) (p : Ports) (s : Scb)
      → IsDriven p
      → IsAnswer f p s.req_q
      → s.rsp_q ≡ []
      → IsSound f s
      → (s' : Scb) × ((req_monitor fresh p s >>= rsp_monitor p) ≡ some s')
        × IsSound f s'
        × IsPending p s'.req_q
        × (s'.rsp_q ≡ [])
  monitors-IsSound fresh p s (inl v) a hr h = elim (Bool-cases (p.flush_i == 0)) [
    | inl e ↦
        (let flush : p.flush_i ≡ 0 = (==_iff p.flush_i 0).0 e in
          let c = rsp_monitor-IsSound p s s.req_q [] flush a (append_none s.req_q) hr h in
          (
            c.0,
            ap (λ (o : Option Scb). o >>= rsp_monitor p) (req_monitor_idle fresh p s v e) ∙ c.1,
            c.2,
            inl (v, c.3),
            c.4,
          ))
    | inr e ↦ (
      record s { req_q = []; rsp_q = []; reports = flushed ∷ s.reports },
      req_monitor_flush fresh p s e,
      (h.0, (tt, h.1), h.2, (refl, s.req_q, h.3)),
      inl (v, refl),
      refl,
    )
  ]
  monitors-IsSound fresh p s (inr d) a hr h =
      let r : ReqTx = record fresh {
        rs1 = p.rs1_i;
        rs2 = p.rs2_i;
        alu_ctl = p.ctl_i;
        rob_idx = p.rob_idx_i;
      } in
      let found = get_elem?-some op_str p.ctl_i (d.2.2) in
      let s1 : Scb = record s {
        req_q = s.req_q ++ r ∷ [];
        reports = requested found.0 p.rs1_i p.rs2_i ∷ s.reports;
      } in
      let c =
        rsp_monitor-IsSound p s1 s.req_q (r ∷ []) (d.1) a refl hr
          (h.0, (tt, h.1), h.2, (r, s.req_q, refl, (found.1, refl, refl), h.3)) in
      (
        c.0,
        ap (λ (o : Option Scb). o >>= rsp_monitor p)
              (req_monitor_request fresh p s found.0 (d.0) (d.1) found.1)
            ∙ c.1,
        c.2,
        inr (d.0, d.1, d.2, r, c.3, refl, refl, refl),
        c.4,
      )
