-- ===== src/Advise/Panel.antt =====
-- services/guardrail-gateway/app/advise/panel.py and `points_for` of contract.py. An advisor is a
-- provider behind a protocol: `ask` is a parameter of its entry. A confidence is a floating-point
-- number: it is whatever `C` is, and `weighted cap label confidence` is the rounded product.
use policy_guardrails_agent.Prelude.{
  if◌then◌else◌, ◌==◌, any, all, sum_of, str_eq, mem, lookup, put, ℕ, min, max, String, Bool, true,
  false, not, ◌&&◌, ◌||◌, Option, none, some, List, [], ◌∷◌, ◌++◌, map,
}
use policy_guardrails_agent.Session.Keys.{string_eq}
use policy_guardrails_agent.Risk.Config.{Band, band_rank}
use policy_guardrails_agent.Guardrails.Assignment.{Mode, is_shadow}

pub data Label : Type 0 where
  benign suspicious malicious : Label

abbrev pub is_benign : Label → Bool
is_benign benign = true
is_benign suspicious = false
is_benign malicious = false

-- class Answer
pub record Answer (C : Type 0) : Type 0 where
  pub label : Label
  pub confidence : C
  pub verify : Bool

-- what asking comes to: a valid answer, something else, a timeout or an exception
pub data Reply (C : Type 0) : Type 0 where
  replied : Answer C → Reply C
  malformed late broken : Reply C

pub data Status : Type 0 where
  answered timeout error invalid skipped_policy : Status

abbrev pub is_answered : Status → Bool
is_answered answered = true
is_answered timeout = false
is_answered error = false
is_answered invalid = false
is_answered skipped_policy = false

-- class AdvisorSpec with its provider; a question is its kind
pub record AdvisorSpec (C : Type 0) : Type 0 where
  pub name : String
  pub mode : Mode
  pub questions : List String
  pub cap : ℕ
  pub allow_verify : Bool
  pub hosted : Bool
  pub ask : String → Reply C

-- class PanelConfig
pub record PanelConfig (C : Type 0) : Type 0 where
  pub advisors : List (AdvisorSpec C)
  pub total_cap : ℕ
  pub bands : List Band

-- class AdvisorRecord: what the caps read
pub record AdvisorRecord : Type 0 where
  pub advisor : String
  pub mode : Mode
  pub question : String
  pub status : Status
  pub points : ℕ
  pub verify : Bool

-- class Advisory
pub record Advisory : Type 0 where
  pub points : ℕ
  pub verify : Bool
  pub shadow_points : ℕ
  pub shadow_verify : Bool
  pub records : List AdvisorRecord

abbrev pub silent : Advisory
silent = record {
  points = 0;
  verify = false;
  shadow_points = 0;
  shadow_verify = false;
  records = [];
}

-- the features that decide who may be asked
pub record Features : Type 0 where
  pub data_classification : String
  pub session_labels : List String
  pub risk_band : Band

-- SENSITIVE_LABELS[x] for x in features.session_labels if x in SENSITIVE_LABELS
abbrev pub held_classes : List String → List String
held_classes [] = []
held_classes (x ∷ xs) =
    let rest = held_classes xs in
    if str_eq x "holds:PII"
    then "PII" ∷ rest
    else if str_eq x "holds:CONFIDENTIAL"
    then "CONFIDENTIAL" ∷ rest
    else rest

-- hosted_allowed
unfoldable pub hosted_allowed : Features → List String → Bool
hosted_allowed f allowed =
    all (λ c. mem c allowed) (f.data_classification ∷ held_classes f.session_labels)

abbrev pub is_empty {ℓ} : {A : Type ℓ} → List A → Bool
is_empty [] = true
is_empty (x ∷ xs) = false

-- AdvisorPanel.applies
abbrev pub applies : {C : Type 0} → PanelConfig C → Band → Bool
applies config band =
    not (is_empty config.advisors) && any (λ b. band_rank b == band_rank band) config.bands

-- r.mode == mode, for one of the two modes
abbrev pub in_mode : Bool → Mode → Bool
in_mode shadow m = if shadow then is_shadow m else not (is_shadow m)

abbrev pub or_zero : Option ℕ → ℕ
or_zero none = 0
or_zero (some n) = n

-- not (r.mode != mode or r.status != "answered")
abbrev pub counts : Bool → AdvisorRecord → Bool
counts shadow r = in_mode shadow r.mode && is_answered r.status

-- the dictionary `best` behind the loop of `total`
unfoldable pub best : Bool → List AdvisorRecord → List (String × ℕ) → List (String × ℕ)
best shadow [] m = m
best shadow (r ∷ rs) m =
    best shadow rs
      (if counts shadow r then put r.advisor (max (or_zero (lookup r.advisor m)) r.points) m else m)

abbrev pub wants_verify : Bool → List AdvisorRecord → Bool
wants_verify shadow = any (λ r. counts shadow r && r.verify)

-- total
unfoldable pub total : ℕ → Bool → List AdvisorRecord → ℕ
unfolding best
total cap shadow records = min cap (sum_of (λ e. e.1) (best shadow records []))

-- combine
unfoldable pub combine : ℕ → List AdvisorRecord → Advisory
unfolding total
combine cap records = record {
  points = total cap false records;
  verify = wants_verify false records;
  shadow_points = total cap true records;
  shadow_verify = wants_verify true records;
  records = records;
}

module _ {C : Type 0} (weighted : ℕ → Label → C → ℕ) where
  -- points_for; the lower clamp at 0 is idle on natural numbers
  unfoldable pub points_for : Answer C → ℕ → ℕ
  points_for a cap = min cap (weighted cap a.label a.confidence)

  abbrev pub entry : AdvisorSpec C → String → Status → AdvisorRecord
  entry spec q status = record {
    advisor = spec.name;
    mode = spec.mode;
    question = q;
    status = status;
    points = 0;
    verify = false;
  }

  abbrev pub recorded : AdvisorSpec C → String → Reply C → AdvisorRecord
  recorded spec q (replied a) = record (entry spec q answered) {
    points = points_for a spec.cap;
    verify = a.verify && (spec.allow_verify && not (is_benign a.label));
  }
  recorded spec q malformed = entry spec q invalid
  recorded spec q late = entry spec q timeout
  recorded spec q broken = entry spec q error

  -- AdvisorPanel._ask
  unfoldable pub ask_one : AdvisorSpec C → String → AdvisorRecord
  ask_one spec q = recorded spec q (spec.ask q)

  abbrev pub may_ask : Features → List String → AdvisorSpec C → Bool
  may_ask f hosted_classes spec = not spec.hosted || hosted_allowed f hosted_classes

  -- the records of the advisors that are asked, and of those that are not
  unfoldable pub asked : Features → List String → List (AdvisorSpec C) → List AdvisorRecord
  unfolding ask_one
  asked f hosted_classes [] = []
  asked f hosted_classes (s ∷ ss) =
      let rest = asked f hosted_classes ss in
      if may_ask f hosted_classes s then map (ask_one s) s.questions ++ rest else rest

  unfoldable pub skipped : Features → List String → List (AdvisorSpec C) → List AdvisorRecord
  skipped f hosted_classes [] = []
  skipped f hosted_classes (s ∷ ss) =
      let rest = skipped f hosted_classes ss in
      if may_ask f hosted_classes s
      then rest
      else map (λ q. entry s q skipped_policy) s.questions ++ rest

  -- AdvisorPanel.advise
  unfoldable pub advise : PanelConfig C → Features → List String → Advisory
  unfolding asked skipped combine
  advise config f hosted_classes =
      if applies config f.risk_band
      then combine config.total_cap
          (asked f hosted_classes config.advisors ++ skipped f hosted_classes config.advisors)
      else silent
