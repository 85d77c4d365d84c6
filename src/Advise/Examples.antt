-- ===== src/Advise/Examples.antt =====
-- The advisors' panel at concrete answers.
use policy_guardrails_agent.Prelude.{lookup, put, ◌≤◌, ◌≡◌, refl, true, false, List, [], ◌∷◌}
use policy_guardrails_agent.Guardrails.Assignment.{Mode}
use policy_guardrails_agent.Advise.Panel.{AdvisorRecord, answered, combine}
use policy_guardrails_agent.Advise.Caps.{combine_lem, enforced}

abbrev first : AdvisorRecord
first = record {
  advisor = "local";
  mode = Mode.enforce;
  question = "intent";
  status = answered;
  points = 8;
  verify = false;
}

abbrev second : AdvisorRecord
second = record first { advisor = "model"; mode = Mode.shadow; points = 20; verify = true }

abbrev answers : List AdvisorRecord
answers = first ∷ second ∷ record first { question = "exfiltration"; points = 5 } ∷ []

adds_best : ((combine 20 answers).points ≡ 8) × ((combine 20 answers).verify ≡ false)
unfolding combine lookup put
adds_best = (refl, refl)

combine_lem_example :
    ((combine 20 answers).points ≡ (combine 20 (enforced answers)).points)
    × ((combine 20 answers).verify ≡ (combine 20 (enforced answers)).verify)
    × ((combine 20 answers).points ≤ 20)
combine_lem_example = combine_lem 20 answers
