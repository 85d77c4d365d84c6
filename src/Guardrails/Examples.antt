-- ===== src/Guardrails/Examples.antt =====
-- The guardrail pipeline and its registry at concrete requests.
use policy_guardrails_agent.Prelude.{
  if◌then◌else◌, All, mem, lookup, put, String, ◌≡◌, refl, sym, ◌∙◌, ◌≢◌, ◌⊎◌, true, false, Option,
  none, some, List, [], ◌∷◌, map,
}
use policy_guardrails_agent.Sdk.Json.{end}
use policy_guardrails_agent.Sdk.Models.{Stage, Decision, Payload, strongest, same_shape_as}
use policy_guardrails_agent.Session.Keys.{string_eq}
use policy_guardrails_agent.Guardrails.Assignment.{
  Scope, Mode, FailureMode, Assignment, Manifest, BoundGuardrail, Answer, answer, raised, is_closed,
  failure_mode,
}
use policy_guardrails_agent.Guardrails.Pipeline.{
  run, call, outcome_of, settled, missing, Error, StageOutcome, given,
}
use policy_guardrails_agent.Guardrails.Pipeline.Trusted.{call_lem, IsAccepted}
use policy_guardrails_agent.Guardrails.Pipeline.Decided.{run_decision, enforced_decisions}
use policy_guardrails_agent.Guardrails.Pipeline.Released.{run-IsSafe, IsSafe}
use policy_guardrails_agent.Guardrails.Pipeline.Shadows.{swap, effect, shadow_changes_nothing}
use policy_guardrails_agent.Guardrails.Escalation.{Review}
use policy_guardrails_agent.Guardrails.Registry.{
  PluginRegistry, SnapshotDoc, SnapshotHolder, resolve, apply, applies,
}
use policy_guardrails_agent.Guardrails.Registry.Compiled.{Serves, apply-Serves}
use policy_guardrails_agent.Guardrails.Registry.Narrowest.{Prevails, resolve_narrowest}
use policy_guardrails_agent.Guardrails.Pipeline.Obliged.{enforced_names, run-obligations}

abbrev pub everywhere : Assignment
everywhere = record {
  id = "a1";
  guardrail_id = "pii";
  guardrail_version = "1.0.0";
  scope_type = Scope.global;
  scope_id = none;
  stages = Stage.input ∷ [];
  order = 10;
  parallel_group = none;
  enabled = true;
  mode = Mode.enforce;
  failure_mode = none;
  timeout_ms = none;
  config = end;
}

abbrev pub manifest : Manifest
manifest = record {
  id = "pii";
  version = "1.0.0";
  stages = Stage.input ∷ [];
  failure_mode = FailureMode.fail_closed;
  decisions_emitted = Decision.allow ∷ Decision.modify ∷ [];
  parallel_safe = false;
  emits_modify = true;
  remote_timeout_ms = none;
  config_schema = end;
}

abbrev pub payload : Payload
payload = record {
  stage = Stage.input;
  text = some "mail ann@acme.com";
  messages = none;
  chunks = none;
  tool_call = none;
  extensions = end;
}

abbrev redacted : Payload
redacted = record payload { text = some "mail [EMAIL]" }

abbrev redact : Payload → Answer
redact p = answer (record {
  decision = Decision.modify;
  reason = "redacted";
  risk_score = 30;
  modified_payload = some redacted;
  findings = [];
})

abbrev crash : Payload → Answer
crash p = raised "ValueError"

abbrev redactor : BoundGuardrail
redactor = record { assignment = everywhere; manifest = manifest; evaluate = redact }

abbrev for_tenant : BoundGuardrail
for_tenant = record redactor {
  assignment = record everywhere {
    scope_type = Scope.tenant;
    scope_id = some "acme";
    enabled = false;
  };
}

abbrev crashing : BoundGuardrail
crashing = record redactor { evaluate = crash }

abbrev shadowed : BoundGuardrail
shadowed = record crashing { assignment = record everywhere { mode = Mode.shadow } }

abbrev pipeline : List BoundGuardrail
pipeline = shadowed ∷ redactor ∷ []

redacts : (run true pipeline payload ("pii" ∷ [])).decision ≡ Decision.modify
unfolding run same_shape_as
redacts = refl

no_missing : missing pipeline ("pii" ∷ []) ≡ []
no_missing = refl

run_decision_example :
    (run true pipeline payload ("pii" ∷ [])).decision
    ≡ settled true (strongest (enforced_decisions (run true pipeline payload ("pii" ∷ [])).results))
run_decision_example = run_decision true pipeline payload ("pii" ∷ []) no_missing

modify_ne_block : (run true pipeline payload ("pii" ∷ [])).decision ≢ Decision.block
modify_ne_block h = absurd (apart (sym redacts ∙ h))
  where
    apart : Decision.modify ≡ Decision.block → ⊥
    apart e = cc

modify_ne_escalate : (run true pipeline payload ("pii" ∷ [])).decision ≢ Decision.escalate
modify_ne_escalate h = absurd (apart (sym redacts ∙ h))
  where
    apart : Decision.modify ≡ Decision.escalate → ⊥
    apart e = cc

run-obligations_example :
    All
      (λ o. mem o (enforced_names (run true pipeline payload ("pii" ∷ [])).results) ≡ true)
      ("pii" ∷ [])
run-obligations_example =
    run-obligations true pipeline payload ("pii" ∷ []) modify_ne_block modify_ne_escalate

run-IsSafe_example : IsSafe payload (run true pipeline payload ("pii" ∷ []))
run-IsSafe_example = run-IsSafe true pipeline payload ("pii" ∷ [])

call_lem_example :
    (((outcome_of crashing payload).error ≡ none)
      × IsAccepted crashing payload (call crashing payload))
    ⊎ ((e : Error) × ((outcome_of crashing payload).error ≡ some e)
        × ((call crashing payload).decision
            ≡ (if is_closed (failure_mode crashing) then Decision.block else Decision.allow))
        × ((call crashing payload).risk_score
            ≡ (if is_closed (failure_mode crashing) then 100 else 0))
        × ((call crashing payload).modified_payload ≡ none))
call_lem_example = call_lem crashing payload

shadow_changes_nothing_example :
    effect (run true (map (swap (λ b. redact)) pipeline) payload ("pii" ∷ []))
    ≡ effect (run true pipeline payload ("pii" ∷ []))
shadow_changes_nothing_example =
    shadow_changes_nothing (λ b. redact) true pipeline payload ("pii" ∷ [])

abbrev escalated : StageOutcome
escalated = record {
  decision = Decision.escalate;
  reason = given "ask";
  risk_score = 60;
  payload = some payload;
  results = [];
}

abbrev unavailable : Review → Option String
unavailable r = none

tenant_applies : applies "acme" "bot" Stage.input for_tenant ≡ true
unfolding applies
tenant_applies = refl

resolve_narrowest_example : All (Prevails (applies "acme" "bot" Stage.input) for_tenant) (
    resolve
      (record { version = "v1"; environment = "dev"; bound = redactor ∷ for_tenant ∷ [] })
      "acme"
      "bot"
      Stage.input)
resolve_narrowest_example =
    resolve_narrowest "v1" "dev" "acme" "bot" Stage.input (redactor ∷ []) [] for_tenant
      tenant_applies

switched_off :
    resolve
      (record { version = "v1"; environment = "dev"; bound = redactor ∷ for_tenant ∷ [] })
      "acme"
      "bot"
      Stage.input
    ≡ []
unfolding resolve applies lookup put
switched_off = refl

abbrev pub installed : PluginRegistry
installed = record { manifests = ("pii@1.0.0", manifest) ∷ []; load = λ m a. some redact }

abbrev document : SnapshotDoc
document = record { version = "v1"; environment = "dev"; assignments = everywhere ∷ [] }

abbrev holder : SnapshotHolder
holder = record { environment = "dev"; current = none; last_error = none }

serves_document : (apply installed holder document).0 ≡ true
unfolding apply lookup
serves_document = refl

apply-Serves_example :
    Serves installed (apply installed holder document).1
    × (((apply installed holder document).0 ≡ true)
        ⊎ ((apply installed holder document).1.current ≡ holder.current))
apply-Serves_example = apply-Serves installed holder document tt
