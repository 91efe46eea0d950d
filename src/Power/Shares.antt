-- ===== src/Power/Shares.antt =====
-- The clock is voted for by the sum of the active sessions' shares, and a session that leaves takes
-- away its own.
use nabu_iris.Common.{
  ℕ, ◌+◌, ◌-◌, ◌<◌, ◌^◌, ◌≡◌, ◌≢◌, ◌==◌, if◌then◌else◌, List, length, total, total-set, arith, set,
  get_or, ap, ◌∙◌,
}
use nabu_iris.Instance.{Inst}
use nabu_iris.Core.{Core}
use nabu_iris.Session.{no_inst, instance_at, update}
use nabu_iris.Power.{
  Voter, Costs, ScaleAnswers, freq_share, set_core, set_clocks, set_icc_bw, set_interconnects,
  unvoted, unvote_power,
}

-- What the clock is voted to.
abbrev pub rate : ℕ → ℕ → ℕ
rate lowest sum = if sum == 0 then lowest else sum

set_clocks_rate :
    (c : Core) (lowest : ℕ)
    → lowest ≢ 0
    → total freq_share c.instances < 2 ^ 64
    → (set_clocks c lowest 0).1.clk_freq ≡ rate lowest (total freq_share c.instances)
unfolding set_clocks
set_clocks_rate c lowest some_rate small = ground arith

set_interconnects-core :
    (p : Costs) (v : Voter) (answer : ℕ) → (set_interconnects p v answer).1.core ≡ v.core
unfolding set_interconnects set_icc_bw
set_interconnects-core p v answer = ground arith

unvoted_share : (inst : Inst) → freq_share (unvoted inst) ≡ 0
unvoted_share inst = ground arith

-- The shares without that of one session.
total-unvoted :
    (is : List Inst) (i : ℕ)
    → i < length is
    → total freq_share (set is i (unvoted (get_or is i no_inst))) + freq_share (get_or is i no_inst)
      ≡ total freq_share is
total-unvoted is i h = omega (
  arith,
  total-set freq_share is i (unvoted (get_or is i no_inst)) no_inst h,
  unvoted_share (get_or is i no_inst),
)

-- When a session withdraws its votes and the OPP framework accepts, the clock is at the sum of the
-- shares of the other active sessions, and at the lowest rate where that is 0.
pub unvote_power_rate :
    (p : Costs) (v : Voter) (i : ℕ) (a : ScaleAnswers)
    → i < length v.core.instances
    → a.lowest ≢ 0
    → a.set_rate ≡ 0
    → total freq_share v.core.instances < 2 ^ 64
    → (unvote_power p v i a).1.core.clk_freq
      ≡ rate a.lowest (total freq_share v.core.instances - freq_share (instance_at v.core i))
unfolding unvote_power
unvote_power_rate p v i a h some_rate ok small =
    let inst = instance_at v.core i in
    let left : Core = update v.core i (unvoted inst) in
    let others : total freq_share left.instances + freq_share inst
        ≡ total freq_share v.core.instances =
      total-unvoted v.core.instances i h in
    let sum : total freq_share left.instances
        ≡ total freq_share v.core.instances - freq_share inst =
      omega (arith, others) in
    let kept =
      set_interconnects-core p (set_core v (set_clocks left a.lowest a.set_rate).1) a.set_bw in
    ap (λ (c : Core). c.clk_freq) kept
    ∙ ap (λ (answer : ℕ). (set_clocks left a.lowest answer).1.clk_freq) ok
    ∙ set_clocks_rate left a.lowest some_rate (omega (arith, others))
    ∙ ap (λ (n : ℕ). rate a.lowest n) sum
