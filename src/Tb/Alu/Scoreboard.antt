-- ===== src/Tb/Alu/Scoreboard.antt =====
-- The scoreboard under any interleaving of requests and responses, as of a unit with a pipeline.
use len5_core.Common.{
  ◌<◌, get_elem?, length-append, ℕ, zero, suc, ◌+◌, ◌%◌, ◌^◌, ◌≡◌, refl, sym, ap, ◌∙◌, inl, inr,
  Option, none, some, List, [], ◌∷◌, ◌++◌, arith, ◌==◌, if◌then◌else◌, ◌>>=◌, Bool-cases, length,
  drop, All,
}
use Prim.Native.String.{String}
use mathlib.Core.List.{append_assoc}
use mathlib.Core.Path.{subst}
use len5_core.Isa.{alu_ctl_of}
use len5_core.Tb.Alu.{
  String, ReqTx, RspTx, Scb, Report, wrong, right, op_str, exp_res, compare_res, check_res,
  write_req, write_rsp, flush_queues, get_tx_num, get_err_num,
}

-- What the monitors hand to the scoreboard.
pub data Event : Type 0 where
  request : ReqTx → Event
  response : RspTx → Event

pub play : List Event → Scb → Option Scb
play [] s = some s
play (request r ∷ es) s = play es (write_req r s)
play (response p ∷ es) s = write_rsp p s >>= play es

abbrev pub requests : List Event → List ReqTx
requests [] = []
requests (request r ∷ es) = r ∷ requests es
requests (response p ∷ es) = requests es

abbrev pub responses : List Event → List RspTx
responses [] = []
responses (request r ∷ es) = responses es
responses (response p ∷ es) = p ∷ responses es

-- No response comes before its request, when `n` requests are open.
abbrev pub IsCausal : (n : ℕ) → List Event → Type 0
IsCausal n [] = Unit
IsCausal n (request r ∷ es) = IsCausal (suc n) es
IsCausal zero (response p ∷ es) = ⊥
IsCausal (suc n) (response p ∷ es) = IsCausal n es

-- The code of a request has a name.
abbrev pub IsNamed : ReqTx → Type 0
IsNamed r = (op : String) × (get_elem? op_str r.alu_ctl ≡ some op)

-- The report on a response to a request.
abbrev pub judge : ReqTx → RspTx → Report
judge r p =
    let expected = exp_res (alu_ctl_of r.alu_ctl) r.rs1 r.rs2 in
    let op : String = elim (get_elem? op_str r.alu_ctl) [ none ↦ "" | some name ↦ name ] in
    if p.res == expected
    then right op r.rs1 r.rs2 p.res expected
    else wrong op r.rs1 r.rs2 p.res expected

abbrev pub mismatch : ReqTx → RspTx → ℕ
mismatch r p = if p.res == exp_res (alu_ctl_of r.alu_ctl) r.rs1 r.rs2 then 0 else 1

-- The responses paired with the requests in the order of their own.
abbrev pub verdicts : List ReqTx → List RspTx → List Report
verdicts [] ps = []
verdicts (r ∷ rs) [] = []
verdicts (r ∷ rs) (p ∷ ps) = judge r p ∷ verdicts rs ps

abbrev pub mismatches : List ReqTx → List RspTx → ℕ
mismatches [] ps = 0
mismatches (r ∷ rs) [] = 0
mismatches (r ∷ rs) (p ∷ ps) = mismatch r p + mismatches rs ps

-- Reports written one after the other in front of the older ones.
abbrev pub pile : List Report → List Report → List Report
pile [] old = old
pile (t ∷ ts) old = pile ts (t ∷ old)

compare_res-judge :
    (r : ReqTx) (p : RspTx) (s : Scb) (k : ℕ)
    → IsNamed r
    → s.err_num ≡ k % 2 ^ 32
    → (s' : Scb) × (compare_res r p s ≡ some s')
      × (s'.req_q ≡ s.req_q)
      × (s'.rsp_q ≡ s.rsp_q)
      × (s'.tx_num ≡ s.tx_num)
      × (s'.err_num ≡ (k + mismatch r p) % 2 ^ 32)
      × (s'.reports ≡ judge r p ∷ s.reports)
unfolding compare_res
compare_res-judge r p s k h e =
    let expected = exp_res (alu_ctl_of r.alu_ctl) r.rs1 r.rs2 in
    elim (Bool-cases (p.res == expected)) [
      | inl c ↦ (
        record s { reports = right h.0 r.rs1 r.rs2 p.res expected ∷ s.reports },
        rw (h.1, c) refl,
        refl,
        refl,
        refl,
        rw c (omega (arith, e)),
        rw (h.1, c) refl,
      )
      | inr c ↦ (
        record s {
          err_num = (s.err_num + 1) % 2 ^ 32;
          reports = wrong h.0 r.rs1 r.rs2 p.res expected ∷ s.reports;
        },
        rw (h.1, c) refl,
        refl,
        refl,
        refl,
        rw c (omega (arith, e)),
        rw (h.1, c) refl,
      )
    ]

write_rsp-judge :
    (r : ReqTx) (q : List ReqTx) (p : RspTx) (s : Scb) (k n : ℕ)
    → IsNamed r
    → s.req_q ≡ r ∷ q
    → s.rsp_q ≡ []
    → s.tx_num ≡ n % 2 ^ 32
    → s.err_num ≡ k % 2 ^ 32
    → (s' : Scb) × (write_rsp p s ≡ some s')
      × (s'.req_q ≡ q)
      × (s'.rsp_q ≡ [])
      × (s'.tx_num ≡ (n + 1) % 2 ^ 32)
      × (s'.err_num ≡ (k + mismatch r p) % 2 ^ 32)
      × (s'.reports ≡ judge r p ∷ s.reports)
unfolding write_rsp check_res
write_rsp-judge r q p s k n h eq er en ek =
    let taken : Scb = record s { req_q = q; rsp_q = []; tx_num = (s.tx_num + 1) % 2 ^ 32 } in
    let c = compare_res-judge r p taken k h ek in
    (c.0, rw (eq, er) (c.1), c.2, c.3, c.4 ∙ omega (arith, en), c.5, c.6)

verdicts-none : (rs : List ReqTx) → verdicts rs [] ≡ []
verdicts-none [] = refl
verdicts-none (r ∷ rs) = refl

mismatches-none : (rs : List ReqTx) → mismatches rs [] ≡ 0
mismatches-none [] = refl
mismatches-none (r ∷ rs) = refl

-- What the scoreboard is behind the events, when `rs` are the open requests and those to come.
abbrev Settled : (rs : List ReqTx) (ps : List RspTx) (k n : ℕ) (old : List Report) → Scb → Type 0
Settled rs ps k n old s =
    (s.req_q ≡ drop (length ps) rs)
    × (s.rsp_q ≡ [])
    × (s.tx_num ≡ (n + length ps) % 2 ^ 32)
    × (s.err_num ≡ (k + mismatches rs ps) % 2 ^ 32)
    × (s.reports ≡ pile (verdicts rs ps) old)

Settled-cons :
    (rs rest : List ReqTx) (r : ReqTx) (p : RspTx) (ps : List RspTx) (k n : ℕ)
    (old reports : List Report) (s : Scb)
    → rs ≡ r ∷ rest
    → reports ≡ judge r p ∷ old
    → Settled rest ps (k + mismatch r p) (n + 1) reports s
    → Settled rs (p ∷ ps) k n old s
Settled-cons rs rest r p ps k n old reports s e f h =
    subst (λ (x : List ReqTx). Settled x (p ∷ ps) k n old s) (sym e)
      (h.0, h.1, h.2 ∙ omega arith, h.3 ∙ omega arith, h.4 ∙ ap (pile (verdicts rest ps)) f)

play-Settled :
    (es : List Event) (rs q : List ReqTx) (s : Scb) (m k n : ℕ)
    → IsCausal m es
    → m ≡ length q
    → rs ≡ q ++ requests es
    → All IsNamed rs
    → s.req_q ≡ q
    → s.rsp_q ≡ []
    → s.tx_num ≡ n % 2 ^ 32
    → s.err_num ≡ k % 2 ^ 32
    → (s' : Scb) × (play es s ≡ some s') × Settled rs (responses es) k n s.reports s'
unfolding play write_req
play-Settled [] rs q s m k n c em e h eq er en ek = (
  s,
  refl,
  (
    eq ∙ append_none q ∙ sym e,
    er,
    en ∙ omega arith,
    ek ∙ omega (arith, mismatches-none rs),
    sym (ap (λ (ts : List Report). pile ts s.reports) (verdicts-none rs)),
  ),
)
  where
    append_none : (q : List ReqTx) → q ≡ q ++ []
    append_none [] = refl
    append_none (r ∷ q) = ap (λ (t : List ReqTx). r ∷ t) (append_none q)
play-Settled (request r ∷ es) rs q s m k n c em e h eq er en ek =
    play-Settled es rs (q ++ r ∷ []) (write_req r s) (suc m) k n c
      (omega (arith, em, length-append q (r ∷ [])))
      (e ∙ sym (append_assoc q (r ∷ []) (requests es))) h (ap (λ (t : List ReqTx). t ++ r ∷ []) eq)
      er en ek
play-Settled (response p ∷ es) rs q s zero k n c em e h eq er en ek = elim c [ ]
play-Settled (response p ∷ es) rs [] s (suc m) k n c em e h eq er en ek = absurd (omega (arith, em))
play-Settled (response p ∷ es) rs (r ∷ q) s (suc m) k n c em e h eq er en ek =
    let named : All IsNamed (r ∷ q ++ requests es) = subst (All IsNamed) e h in
    let x = write_rsp-judge r q p s k n (named.0) eq er en ek in
    let y =
      play-Settled es (q ++ requests es) q x.0 m (k + mismatch r p) (n + 1) c (omega (arith, em))
        refl (named.1) (x.2) (x.3) (x.4) (x.5) in
    (
      y.0,
      ap (λ (o : Option Scb). o >>= play es) (x.1) ∙ y.1,
      Settled-cons rs (q ++ requests es) r p (responses es) k n s.reports x.0.reports y.0 e (x.6)
          (y.2),
    )

-- Behind a flush of a scoreboard whose counters have 32 bits, for any interleaving of requests with codes
-- that have a name and responses, none of them before its request, the scoreboard never makes an
-- undefined access and compares the n-th response with the n-th request: the reports that it adds, in
-- the order of the responses, its open requests and what it adds to its two counters, on 32 bits,
-- depend on the sequence of the requests and that of the responses only.
pub play-verdicts :
    (es : List Event) (s : Scb)
    → IsCausal 0 es
    → All IsNamed (requests es)
    → get_tx_num s < 2 ^ 32
    → get_err_num s < 2 ^ 32
    → (s' : Scb) × (play es (flush_queues s) ≡ some s')
      × (s'.reports ≡ pile (verdicts (requests es) (responses es)) s.reports)
      × (s'.req_q ≡ drop (length (responses es)) (requests es))
      × (s'.rsp_q ≡ [])
      × (get_tx_num s' ≡ (get_tx_num s + length (responses es)) % 2 ^ 32)
      × (get_err_num s' ≡ (get_err_num s + mismatches (requests es) (responses es)) % 2 ^ 32)
unfolding flush_queues get_tx_num get_err_num
play-verdicts es s c h t e =
    let y =
      play-Settled es (requests es) [] (flush_queues s) 0 s.err_num s.tx_num c refl refl h refl refl
        (omega (arith, t)) (omega (arith, e)) in
    (y.0, y.1, y.2.4, y.2.0, y.2.1, y.2.2, y.2.3)
