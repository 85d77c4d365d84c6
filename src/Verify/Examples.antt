-- ===== src/Verify/Examples.antt =====
-- The verification engine at concrete requests.
use policy_guardrails_agent.Prelude.{
  str_eq, lookup, remove, ◌≡◌, refl, true, false, none, some, [], ◌∷◌, arith,
}
use policy_guardrails_agent.Context.Descriptors.{Verb, ActionDescriptor}
use policy_guardrails_agent.Risk.Codes.{risk_elevated, user_confirmation, user_rejected}
use policy_guardrails_agent.Risk.Decision.{Outcome}
use policy_guardrails_agent.Risk.Examples.{big_read}
use policy_guardrails_agent.Verify.Model.{Verification, Status, required, current, gap}
use policy_guardrails_agent.Verify.Planner.{plan, combinations}
use policy_guardrails_agent.Verify.DryRun.{SqlDryRun, applicable, dsn_for, run}
use policy_guardrails_agent.Verify.Store.{
  MemoryStore, memory, evidence, key, get_verification, take_evidence, at_time,
}
use policy_guardrails_agent.Verify.Engine.{
  VerifyContext, VerificationEngine, UserTokens, resolve, follow_up, resolution, plan_with,
}
use policy_guardrails_agent.Verify.Engine.Justified.{Justified, resolve-allow}
use policy_guardrails_agent.Verify.Confirm.{confirm, done, Answer}
use policy_guardrails_agent.Verify.Confirm.Refusal.{refusal_decides}
use policy_guardrails_agent.Verify.Confirm.Answers.{answers_race}

abbrev delete_row : ActionDescriptor
delete_row = record big_read { verb = Verb.delete; has_filter = some true }

abbrev context : VerifyContext
context = record {
  tenant_id = "acme";
  agent_id = "bot";
  user_id = some "ann";
  request_hash = "h1";
  descriptor = big_read;
  codes = risk_elevated ∷ [];
  production = false;
  bound_key = false;
  channels = "user_confirmation" ∷ [];
  tool_name = some "query";
  resource = none;
  sql = some "SELECT name FROM customers";
}

abbrev runner : SqlDryRun
runner = record { targets = ("query", "dsn") ∷ []; explain = λ dsn sql. some 12 }

abbrev tokens : UserTokens
tokens = record {
  enabled = true;
  require_nonce = true;
  accepts = λ token user nonce. str_eq token "good";
}

abbrev engine : VerificationEngine
engine = record { dry_run = some runner; user_tokens = some tokens; max_rows = 1000 }

abbrev fresh : MemoryStore
fresh = record { max_entries = 100; ver = []; pend = []; ev = [] }

-- a dry run with a small estimate closes the gap of a read
read_allowed : (resolve (memory 10) engine context 10 "v1" fresh).0.outcome ≡ Outcome.allow
unfolding resolve memory plan_with plan combinations evidence take_evidence lookup remove gap
    current required applicable dsn_for run
read_allowed = refl

resolve-allow_example :
    Justified (memory 10) engine context 10 "v1" (evidence 10 "acme" "h1" fresh)
    × (evidence 10 "acme" "h1" (resolve (memory 10) engine context 10 "v1" fresh).1 ≡ [])
resolve-allow_example = resolve-allow engine context 10 "v1" fresh read_allowed

abbrev opened : Verification
opened = record {
  id = "v1";
  tenant_id = "acme";
  request_hash = "h1";
  kind = user_confirmation;
  agent_id = "bot";
  user_id = some "ann";
  status = Status.pending;
  created_at = 10;
  expires_at = 610;
}

abbrev waiting : MemoryStore
waiting = record fresh { ver = (key "acme" "v1", opened) ∷ []; pend = (key "acme" "h1", "v1") ∷ [] }

abbrev rejected : Verification
rejected = record opened { status = Status.rejected }

found_open : get_verification 20 "acme" "v1" waiting ≡ some opened
unfolding get_verification lookup
found_open = refl

accepted_no :
    (confirm (some tokens) "acme" "v1" 20 "good" false none 21 (λ s. s) waiting).0 ≡ done rejected
unfolding confirm lookup
accepted_no = refl

abbrev after_no : MemoryStore
after_no = (confirm (some tokens) "acme" "v1" 20 "good" false none 21 (λ s. s) waiting).1

refusal_decides_example :
    ((resolve (memory 100) engine context 100 "v2" after_no).0
      ≡ resolution Outcome.deny (user_rejected ∷ []))
    × ((follow_up (memory 100) engine context 100 "v2" after_no).0
        ≡ some (resolution Outcome.deny (user_rejected ∷ [])))
refusal_decides_example =
    refusal_decides (some tokens) "v1" 20 "good" none 21 (λ s. s) waiting opened rejected engine
      context "v2" found_open refl (omega arith) 100 accepted_no (omega arith)

abbrev says_no : MemoryStore → MemoryStore
says_no s = (confirm (some tokens) "acme" "v1" 20 "good" false none 21 (λ r. r) s).1

abbrev yes_after_no : Answer × MemoryStore
yes_after_no = confirm (some tokens) "acme" "v1" 20 "good" true none 22 says_no waiting

answers_race_example :
    ((confirm (some tokens) "acme" "v1" 20 "good" false none 21 (λ s. s) waiting).0
      ≡ done (record opened { status = Status.rejected }))
    × ((yes_after_no.0 ≡ done (record opened { status = Status.confirmed }))
        × (get_verification 30 "acme" "v1" yes_after_no.1
            ≡ some (at_time 30 (record opened { status = Status.confirmed }))))
answers_race_example =
    answers_race tokens "acme" "v1" 20 22 21 30 "good" "good" true false none none waiting opened
      found_open refl (refl, refl) (refl, refl) (omega arith) refl refl
