-- ===== src/Advise/Caps.antt =====
-- How much the advisors can do.
use policy_guardrails_agent.Prelude.{
  if◌then◌else◌, Bool-cases, keep, sum_of, lookup, put, ℕ, ◌≤◌, min, max, String, ◌≡◌, refl, sym,
  ap, inl, inr, false, not, ◌&&◌, ◌||◌, List, [], ◌∷◌, arith,
}
use policy_guardrails_agent.Session.Keys.{string_eq}
use policy_guardrails_agent.Guardrails.Assignment.{is_shadow}
use policy_guardrails_agent.Advise.Panel.{
  AdvisorRecord, best, total, combine, counts, wants_verify, is_answered, or_zero,
}

abbrev pub enforced : List AdvisorRecord → List AdvisorRecord
enforced = keep (λ r. not (is_shadow r.mode))

best-enforced :
    (rs : List AdvisorRecord) (m : List (String × ℕ)) → best false (enforced rs) m ≡ best false rs m
unfolding best
best-enforced [] m = refl
best-enforced (r ∷ rs) m = elim (Bool-cases (is_shadow r.mode)) [
  | inl e ↦ rw e (best-enforced rs m)
  | inr e ↦
      rw (e, best, e)
        (best-enforced rs (
          if is_answered r.status
          then put r.advisor (max (or_zero (lookup r.advisor m)) r.points) m
          else m))
]

wants_verify-enforced :
    (rs : List AdvisorRecord) → wants_verify false (enforced rs) ≡ wants_verify false rs
wants_verify-enforced [] = refl
wants_verify-enforced (r ∷ rs) = elim (Bool-cases (is_shadow r.mode)) [
  | inl e ↦ rw e (wants_verify-enforced rs)
  | inr e ↦
      rw (e, counts, e)
        (ap (λ b. (is_answered r.status && r.verify) || b) (wants_verify-enforced rs))
]

-- What the panel adds to a decision is what the enforced records alone add: a shadow advisor's
-- answer neither adds points nor asks for verification. The points stay within the panel's cap.
pub combine_lem :
    (cap : ℕ) (rs : List AdvisorRecord)
    → ((combine cap rs).points ≡ (combine cap (enforced rs)).points)
      × ((combine cap rs).verify ≡ (combine cap (enforced rs)).verify)
      × ((combine cap rs).points ≤ cap)
unfolding combine total
combine_lem cap rs = (
  ap (λ m. min cap (sum_of (λ e. e.1) m)) (sym (best-enforced rs [])),
  sym (wants_verify-enforced rs),
  omega arith,
)
