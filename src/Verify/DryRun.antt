-- ===== src/Verify/DryRun.antt =====
-- SqlDryRun of services/guardrail-gateway/app/verify/dryrun.py. The database's planner is a
-- parameter: `explain dsn sql` is its row estimate, or none where it raises or times out.
use policy_guardrails_agent.Prelude.{
  if◌then◌else◌, ◌==◌, is_some, str_eq, lookup, ℕ, String, Bool, true, false, ◌&&◌, Option, none,
  some, List, [], ◌∷◌,
}
use policy_guardrails_agent.Context.Descriptors.{
  Kind, Verb, ActionDescriptor, is_kind, is_verb, parsed,
}
use policy_guardrails_agent.Session.Keys.{string_eq}

pub record SqlDryRun : Type 0 where
  pub targets : List (String × String)
  pub explain : String → String → Option ℕ

pub record DryRunResult : Type 0 where
  pub succeeded : Bool
  pub estimated_rows : Option ℕ

-- if key and key in self.targets
abbrev pub target_for : List (String × String) → Option String → Option String
target_for targets none = none
target_for targets (some k) = if str_eq k "" then none else lookup k targets

abbrev pub or_else : Option String → Option String → Option String
or_else none b = b
or_else (some a) b = some a

-- SqlDryRun.dsn_for
unfoldable pub dsn_for : SqlDryRun → Option String → Option String → Option String
dsn_for r tool_name resource =
    or_else (target_for r.targets tool_name) (target_for r.targets resource)

abbrev pub is_empty_notes : List String → Bool
is_empty_notes [] = true
is_empty_notes (n ∷ ns) = false

-- SqlDryRun.applicable
unfoldable pub applicable : SqlDryRun → ActionDescriptor → Option String → Option String → Bool
applicable r d tool_name resource =
    is_kind d.kind Kind.sql
    && (is_verb d.verb Verb.read
        && (d.statements == 1
            && (parsed d && (is_empty_notes d.notes && is_some (dsn_for r tool_name resource)))))

abbrev pub explained : Option ℕ → DryRunResult
explained none = record { succeeded = false; estimated_rows = none }
explained (some rows) = record { succeeded = true; estimated_rows = some rows }

-- SqlDryRun.run
unfoldable pub run : SqlDryRun → String → Option String → Option String → DryRunResult
unfolding dsn_for
run r sql tool_name resource = elim (dsn_for r tool_name resource) [
  | none ↦ record { succeeded = false; estimated_rows = none }
  | some dsn ↦ explained (r.explain dsn sql)
]
