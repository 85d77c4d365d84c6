-- ===== src/ControlPlane/Publishing/Log.antt =====
-- What a run of PublishService remembers beside the store: which admin key asked under which id, and
-- which key committed which request as which snapshot. The program keeps no such record; it says
-- whose calls they were.
use policy_guardrails_agent.Prelude.{All, String, List, [], ◌∷◌}
use policy_guardrails_agent.ControlPlane.Rbac.{Principal}
use policy_guardrails_agent.ControlPlane.Records.{PublishRequestRecord}

-- a call of `publish` or `rollback` by this key, whose request, if it makes one, gets this id
pub record Asking : Type 0 where
  pub asker : Principal
  pub request_id : String

-- a transaction of `approve` by this key, whose snapshot, if it makes one, gets this id
pub record Commitment : Type 0 where
  pub approver : Principal
  pub request : PublishRequestRecord
  pub snapshot_id : String

pub record Log : Type 0 where
  pub asks : List Asking
  pub commits : List Commitment

pub data In {ℓ} {A : Type ℓ} (a : A) : List A → Type ℓ where
  here : {rest : List A} → In a (a ∷ rest)
  there : {b : A} {rest : List A} → In a rest → In a (b ∷ rest)

-- all that is in one log is in the other
pub record Grows (l l' : Log) : Type 0 where
  pub asks : (a : Asking) → In a l.asks → In a l'.asks
  pub commits : (a : Commitment) → In a l.commits → In a l'.commits

abbrev pub with_ask : Asking → Log → Log
with_ask a l = record l { asks = a ∷ l.asks }

abbrev pub with_commit : Commitment → Log → Log
with_commit a l = record l { commits = a ∷ l.commits }

pub with_ask-Grows : (a : Asking) (l : Log) → Grows l (with_ask a l)
with_ask-Grows a l = record { asks = λ b i. there i; commits = λ b i. i }

pub with_commit-Grows : (a : Commitment) (l : Log) → Grows l (with_commit a l)
with_commit-Grows a l = record { asks = λ b i. i; commits = λ b i. there i }

pub All-weaken {ℓ κ μ} :
    {A : Type ℓ} {P : A → Type κ} {Q : A → Type μ} (xs : List A)
    → ((a : A) → P a → Q a)
    → All P xs
    → All Q xs
All-weaken [] f h = tt
All-weaken (x ∷ xs) f h = (f x h.0, All-weaken xs f h.1)
