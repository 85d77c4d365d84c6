-- ===== src/Gateway/Examples.antt =====
-- The gateway's decision path at concrete requests.
use policy_guardrails_agent.Prelude.{
  if◌then◌else◌, str_eq, lookup, String, ◌≡◌, refl, ◌⊎◌, inl, inr, true, false, Option, none, some,
  List, [], ◌∷◌, arith,
}
use policy_guardrails_agent.Sdk.Models.{Stage, Decision}
use policy_guardrails_agent.Session.View.{unavailable_view}
use policy_guardrails_agent.Risk.Codes.{risk_high, verified}
use policy_guardrails_agent.Risk.Config.{Band, default_config}
use policy_guardrails_agent.Risk.Engine.{Assessment, band_for}
use policy_guardrails_agent.Risk.Decision.{Outcome, TableResult, is_allowing}
use policy_guardrails_agent.Risk.Examples.{big_read}
use policy_guardrails_agent.Guardrails.Pipeline.{StageOutcome, all_allowed}
use policy_guardrails_agent.Guardrails.Examples.{payload}
use policy_guardrails_agent.Advise.Panel.{Advisory, silent}
use policy_guardrails_agent.Gateway.Contextual.{RiskMode, Recording, update_of, enforcing}
use policy_guardrails_agent.Gateway.Contextual.Recorded.{update_of_lem}
use policy_guardrails_agent.Gateway.Auth.{Principal, Authenticator, authenticate, restarted}
use policy_guardrails_agent.Gateway.Auth.Cached.{revoked_refused, Call, authenticate_all}
use policy_guardrails_agent.Gateway.Flow.{Verdict, conclude}
use policy_guardrails_agent.Gateway.Flow.Released.{conclude-allowing}

abbrev passed : StageOutcome
passed = record {
  decision = Decision.allow;
  reason = all_allowed;
  risk_score = 0;
  payload = some payload;
  results = [];
}

abbrev table : TableResult
table = record {
  outcome = Outcome.allow;
  reason_codes = risk_high ∷ verified ∷ [];
  obligations = [];
}

abbrev verdict : Verdict
verdict = record { table = some table; score = 60; verification = false }

abbrev no_table : Verdict
no_table = record verdict { table = none }

releases : (conclude none verdict passed 200).payload ≡ some payload
unfolding conclude
releases = refl

conclude-allowing_example : is_allowing table.outcome ≡ true
conclude-allowing_example = conclude-allowing none verdict table passed 200 payload refl releases

abbrev recording : Recording
recording = record {
  stage = Stage.tool;
  is_result = false;
  untrusted_tool = false;
  data_classification = "PII";
}

update_of_lem_example :
    let u =
      update_of default_config RiskMode.enforce 100 recording big_read unavailable_view
        Decision.block in
    ((u.allowed ≡ true)
      ⊎ ((u.labels ≡ []) × (u.target ≡ none) × (u.volume_key ≡ none) × (u.rows ≡ none)))
    × (((u.denied ≡ true) × (enforcing RiskMode.enforce ≡ true))
        ⊎ ((u.quarantine_seconds ≡ 0) × (u.agent_quarantine_seconds ≡ 0)))
    × ((u.denied ≡ false) ⊎ (u.allowed ≡ false))
update_of_lem_example =
    update_of_lem default_config RiskMode.enforce 100 recording big_read unavailable_view
      Decision.block

abbrev assessment : Assessment
assessment = record {
  score = 60;
  band = Band.elevated;
  trust = 60;
  confidence = 100;
  inherent = 60;
  signals = [];
}

abbrev advisory : Advisory
advisory = record silent { points = 15 }

elevated_60 : Band.elevated ≡ band_for 60 60
unfolding band_for
elevated_60 = refl

abbrev no_hash : String → String
no_hash s = s

abbrev ann : Principal
ann = record {
  key_id = "k1";
  tenant_id = "acme";
  scopes = "guard:invoke" ∷ [];
  rate_limit_per_minute = none;
  agent_id = some "bot";
}

abbrev nobody : String → Option Principal
nobody h = none

abbrev cached : Authenticator
cached = record {
  ttl = 30;
  neg_ttl = 5;
  cache = ("gk_1", record { until = 130; principal = some ann }) ∷ [];
}

still_accepted : (authenticate no_hash nobody 110 (some "gk_1") "guard:invoke" cached).0 ≡ some ann
unfolding authenticate lookup
still_accepted = refl

abbrev ann_only : String → Option Principal
ann_only h = if str_eq h "gk_1" then some ann else none

-- the key is used at 90 and at 100, and revoked at 100
abbrev earlier_calls : List Call
earlier_calls =
    record {
      store = ann_only;
      now = 90;
      raw_key = some "gk_1";
      scope = "guard:invoke";
      overlaps = false;
    }
    ∷ record {
      store = ann_only;
      now = 100;
      raw_key = some "gk_1";
      scope = "guard:invoke";
      overlaps = true;
    }
    ∷ record {
      store = nobody;
      now = 110;
      raw_key = some "gk_1";
      scope = "guard:invoke";
      overlaps = false;
    }
    ∷ []

revoked_refused_example :
    (authenticate no_hash nobody 130
      (some "gk_1")
      "guard:invoke"
      (authenticate_all no_hash earlier_calls (restarted 30 5))).0
    ≡ none
revoked_refused_example =
    revoked_refused no_hash nobody 30 5 100 130 "gk_1" "guard:invoke" earlier_calls
      (inl (omega arith), (inl (omega arith), (inr refl, tt))) (omega arith) refl
