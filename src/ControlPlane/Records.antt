-- ===== src/ControlPlane/Records.antt =====
-- services/guardrail-control-plane/app/domain/records.py: what the control plane stores. Times are
-- numbers of seconds, an environment is a text, and a stored JSON document is the document it was
-- dumped from: the program validates it back into the same model wherever it reads it. What
-- pydantic demands of single fields (a pattern, a range) is taken to hold of every record.
use policy_guardrails_agent.Prelude.{
  if◌then◌else◌, leb, str_eq, ℕ, String, Bool, true, false, Option, none, some, List, [], ◌∷◌,
}
use policy_guardrails_agent.Guardrails.Registry.{SnapshotDoc}
use policy_guardrails_agent.Guardrails.Assignment.{Manifest, Assignment}
use policy_guardrails_agent.Prelude.Int.{ℤ}

-- ENVIRONMENTS
abbrev pub environments : List String
environments = "dev" ∷ "staging" ∷ "production" ∷ []

pub record TenantRecord : Type 0 where
  pub id : String
  pub name : String
  pub suspended : Bool
  pub created_at : ℕ
  pub advisor_data_classes : List String

pub record ApiKeyRecord : Type 0 where
  pub id : String
  pub tenant_id : String
  pub name : String
  pub key_hash : String
  pub prefix : String
  pub scopes : List String
  pub environments : Option (List String)
  pub is_active : Bool
  pub expires_at : Option ℕ
  pub created_at : ℕ
  pub revoked_at : Option ℕ
  pub rate_limit_per_minute : Option ℕ
  pub agent_id : Option String

pub record AgentRecord : Type 0 where
  pub tenant_id : String
  pub agent_id : String
  pub base_trust_score : ℕ
  pub allowed_tools : List String
  pub owner : Option String
  pub updated_at : ℕ

pub record ActionRecord : Type 0 where
  pub id : String
  pub tenant_id : String
  pub action : String
  pub resource_pattern : String
  pub base_risk_score : ℕ

pub record ModifierRecord : Type 0 where
  pub id : String
  pub tenant_id : String
  pub kind : String
  pub value : String
  pub delta : ℤ

pub data VersionStatus : Type 0 where
  validated deprecated : VersionStatus

abbrev pub is_deprecated : VersionStatus → Bool
is_deprecated validated = false
is_deprecated deprecated = true

-- the manifest as `Manifest.model_validate` reads it back
pub record GuardrailVersionRecord : Type 0 where
  pub guardrail_id : String
  pub version : String
  pub manifest : Manifest
  pub status : VersionStatus
  pub source : String
  pub created_at : ℕ

pub record AssignmentRecord : Type 0 where
  pub environment : String
  pub assignment : Assignment
  pub updated_by : String
  pub updated_at : ℕ

-- SnapshotDoc of documents.py with the fields that a commit fills
pub record Document : Type 0 where
  pub doc : SnapshotDoc
  pub published_at : Option ℕ
  pub published_by : Option String
  pub approved_by : Option String

pub data Kind : Type 0 where
  publish rollback import_file : Kind

abbrev pub is_import : Kind → Bool
is_import publish = false
is_import rollback = false
is_import import_file = true

abbrev pub is_rollback : Kind → Bool
is_rollback publish = false
is_rollback rollback = true
is_rollback import_file = false

pub record SnapshotRecord : Type 0 where
  pub id : String
  pub environment : String
  pub version : String
  pub document : Document
  pub etag : String
  pub published_at : ℕ
  pub published_by : String
  pub approved_by : Option String
  pub kind : Kind
  pub rolled_back_from : Option String

-- CatalogApiKey, CatalogAgent, CatalogAction, CatalogModifier, CatalogTenant and CatalogDoc of
-- documents.py
pub record CatalogApiKey : Type 0 where
  pub id : String
  pub name : String
  pub key_hash : String
  pub scopes : List String
  pub environments : Option (List String)
  pub expires_at : Option ℕ
  pub rate_limit_per_minute : Option ℕ
  pub agent_id : Option String

pub record CatalogAgent : Type 0 where
  pub agent_id : String
  pub base_trust_score : ℕ
  pub allowed_tools : List String
  pub open_findings : List String

pub record CatalogAction : Type 0 where
  pub action : String
  pub resource_pattern : String
  pub base_risk_score : ℕ

pub record CatalogModifier : Type 0 where
  pub kind : String
  pub value : String
  pub delta : ℤ

pub record CatalogTenant : Type 0 where
  pub id : String
  pub name : String
  pub suspended : Bool
  pub api_keys : List CatalogApiKey
  pub agents : List CatalogAgent
  pub actions : List CatalogAction
  pub modifiers : List CatalogModifier
  pub advisor_data_classes : List String
  pub flagged_tools : List String

pub record CatalogDoc : Type 0 where
  pub version : String
  pub tenants : List CatalogTenant
  pub published_at : Option ℕ

pub record CatalogRecord : Type 0 where
  pub id : String
  pub version : String
  pub document : CatalogDoc
  pub etag : String
  pub content_hash : String
  pub published_at : ℕ

pub data RequestStatus : Type 0 where
  pending approved rejected expired stale : RequestStatus

abbrev pub is_open : RequestStatus → Bool
is_open pending = true
is_open approved = false
is_open rejected = false
is_open expired = false
is_open stale = false

abbrev pub request_status_text : RequestStatus → String
request_status_text RequestStatus.pending = "pending"
request_status_text RequestStatus.approved = "approved"
request_status_text RequestStatus.rejected = "rejected"
request_status_text RequestStatus.expired = "expired"
request_status_text RequestStatus.stale = "stale"

-- status is None or r.status == status
abbrev pub is_request_status : Option RequestStatus → RequestStatus → Bool
is_request_status none s = true
is_request_status (some x) s = str_eq (request_status_text s) (request_status_text x)

pub record PublishRequestRecord : Type 0 where
  pub id : String
  pub environment : String
  pub kind : Kind
  pub document : Document
  pub base_version : Option String
  pub rolled_back_from : Option String
  pub requested_by : String
  pub requested_by_key : String
  pub requested_at : ℕ
  pub note : String
  pub status : RequestStatus
  pub decided_by : Option String
  pub decided_at : Option ℕ
  pub decision_note : String
  pub published_version : Option String

pub data ReviewStatus : Type 0 where
  pending approved rejected expired : ReviewStatus

abbrev pub is_waiting : ReviewStatus → Bool
is_waiting ReviewStatus.pending = true
is_waiting ReviewStatus.approved = false
is_waiting ReviewStatus.rejected = false
is_waiting ReviewStatus.expired = false

abbrev pub status_text : ReviewStatus → String
status_text ReviewStatus.pending = "pending"
status_text ReviewStatus.approved = "approved"
status_text ReviewStatus.rejected = "rejected"
status_text ReviewStatus.expired = "expired"

abbrev pub same_status : ReviewStatus → ReviewStatus → Bool
same_status a b = str_eq (status_text a) (status_text b)

pub record ReviewRecord : Type 0 where
  pub id : String
  pub tenant_id : String
  pub environment : String
  pub request_id : String
  pub stage : String
  pub agent_id : String
  pub guardrail_id : String
  pub reason : String
  pub risk_score : ℕ
  pub preview : String
  pub payload_enc : String
  pub status : ReviewStatus
  pub reviewer : Option String
  pub decision_note : String
  pub raw_viewed_by : List String
  pub created_at : ℕ
  pub decided_at : Option ℕ
  pub expires_at : ℕ

-- ReviewRecord.effective_status
abbrev pub effective_at : ReviewStatus → ℕ → ℕ → ReviewStatus
effective_at ReviewStatus.pending expires_at now =
    if leb expires_at now then ReviewStatus.expired else ReviewStatus.pending
effective_at ReviewStatus.approved expires_at now = ReviewStatus.approved
effective_at ReviewStatus.rejected expires_at now = ReviewStatus.rejected
effective_at ReviewStatus.expired expires_at now = ReviewStatus.expired

abbrev pub effective_status : ReviewRecord → ℕ → ReviewStatus
effective_status r now = effective_at r.status r.expires_at now

pub record AdminKeyRecord : Type 0 where
  pub id : String
  pub name : String
  pub key_hash : String
  pub prefix : String
  pub roles : List String
  pub tenant_id : Option String
  pub is_active : Bool
  pub created_at : ℕ

pub record GatewayRecord : Type 0 where
  pub gateway_id : String
  pub environment : String
  pub snapshot_version : Option String
  pub catalog_version : Option String
  pub last_error : Option String
  pub installed : List String
  pub last_seen : ℕ
  pub capabilities : List String

pub record ChangeRecord : Type 0 where
  pub id : ℕ
  pub entity : String
  pub entity_id : String
  pub action : String
  pub actor : String
  pub at : ℕ
