-- ===== src/Risk/Engine/Monotone.antt =====
-- More suspicion in the session never lowers the score.
use policy_guardrails_agent.Prelude.{
  sum_of-append, mem, ℕ, ◌+◌, ◌≤◌, min, String, ◌≡◌, refl, Bool, true, false, List, ◌++◌, arith,
}
use policy_guardrails_agent.Session.View.{SessionView}
use policy_guardrails_agent.Risk.Config.{band_rank}
use policy_guardrails_agent.Risk.Codes.{ReasonCode, tainted_session}
use policy_guardrails_agent.Risk.Numerics.{Numerics}
use policy_guardrails_agent.Risk.Engine.{
  Request, Signal, total, assess, signals_of, when, action_signals, context_signals, tool_signals,
  confidence_signals, holds_sensitive, session_signals, denial_signals, current_trust, is_tainted,
}
use policy_guardrails_agent.Risk.Engine.Bounds.{band_for_mono}

-- what may grow while a session goes on: its labels, and the denials of the session and the agent
abbrev pub grown : SessionView → List String → ℕ → ℕ → SessionView
grown v ls n m = record v { labels = ls; denials = n; agent_recent_denials = m }

abbrev pub seeing : Request → SessionView → Request
seeing r w = record r { view = w }

total-append : (xs ys : List Signal) → total (xs ++ ys) ≡ total xs + total ys
total-append xs ys = sum_of-append (λ s. s.points) xs ys

when_mono :
    (b c : Bool) (code : ReasonCode) (p : ℕ)
    → (b ≡ true → c ≡ true)
    → total (when b code p) ≤ total (when c code p)
when_mono true c code p h = rw (h refl) (omega arith)
when_mono false c code p h = omega arith

append_mono :
    (xs xs' ys ys' : List Signal)
    → total xs ≤ total xs'
    → total ys ≤ total ys'
    → total (xs ++ ys) ≤ total (xs' ++ ys')
append_mono xs xs' ys ys' h k = omega (arith, total-append xs ys, total-append xs' ys')

denials_mono :
    (r : Request) (ls : List String) (n m : ℕ)
    → r.view.denials ≤ n
    → r.view.agent_recent_denials ≤ m
    → total (denial_signals r) ≤ total (denial_signals (seeing r (grown r.view ls n m)))
denials_mono r ls n m h k = ground arith

module _ (num : Numerics) (r : Request) (ls : List String) (n m : ℕ)
    (labels : (l : String) → mem l r.view.labels ≡ true → mem l ls ≡ true)
    (denials : r.view.denials ≤ n) (agent_denials : r.view.agent_recent_denials ≤ m) where
  holds_sensitive_mono :
      holds_sensitive r ≡ true → holds_sensitive (seeing r (grown r.view ls n m)) ≡ true
  holds_sensitive_mono h = ground (arith, labels "holds:PII", labels "holds:CONFIDENTIAL")

  action_mono :
      total (action_signals num r) ≤ total (action_signals num (seeing r (grown r.view ls n m)))
  unfolding action_signals
  action_mono = grind (arith, total-append, when_mono, holds_sensitive_mono)

  context_mono :
      total (context_signals r) ≤ total (context_signals (seeing r (grown r.view ls n m)))
  unfolding context_signals
  context_mono =
      let q = seeing r (grown r.view ls n m) in
      append_mono _ _ _ _
        (when_mono (is_tainted r) (is_tainted q) tainted_session r.cfg.tainted_session
          (λ h. ground (arith, labels "untrusted_input")))
        (append_mono _ _ _ _ (omega arith) (
          append_mono (session_signals r) (session_signals q) _ _ (omega arith)
            (denials_mono r ls n m denials agent_denials)))

  signals_mono : total (signals_of num r) ≤ total (signals_of num (seeing r (grown r.view ls n m)))
  unfolding signals_of
  signals_mono =
      let q = seeing r (grown r.view ls n m) in
      append_mono _ _ _ _ action_mono (
        append_mono _ _ _ _ context_mono (
          append_mono (tool_signals r) (tool_signals q) (confidence_signals num r)
            (confidence_signals num q) (unfold tool_signals in omega arith)
            (unfold confidence_signals in omega arith)))

  -- More labels on the session, and more denials of the session or the agent, never lower the
  -- score, and never lower the band.
  pub assess_mono :
      ((assess num r).score ≤ (assess num (seeing r (grown r.view ls n m))).score)
      × (band_rank (assess num r).band
          ≤ band_rank (assess num (seeing r (grown r.view ls n m))).band)
  unfolding assess current_trust
  assess_mono =
      let q = seeing r (grown r.view ls n m) in
      let t = current_trust num r.base_trust r.view r.now in
      (
        omega (arith, signals_mono),
        band_for_mono (min 100 (r.inherent + total (signals_of num r)))
            (min 100 (r.inherent + total (signals_of num q))) t t (omega (arith, signals_mono))
            (omega arith),
      )
