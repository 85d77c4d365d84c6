-- ===== src/Audit/Spool.antt =====
-- services/guardrail-gateway/app/audit/spool.py: the directory of files that wait for the database. A
-- file's name is its number of nanoseconds; the directory lists its files by name. Whether the disk
-- takes a file, the clock and the encoded size of events are arguments; a file is always removed or
-- moved aside where the program asks for it. A file that cannot be read is
-- moved aside and kept.
use policy_guardrails_agent.Prelude.{
  if◌then◌else◌, ltb, ℕ, ◌+◌, ◌-◌, max, String, Bool, true, false, List, [], ◌∷◌, ◌++◌,
}
use policy_guardrails_agent.Sdk.Json.{Fields}

pub record Event : Type 0 where
  pub id : String
  pub fields : Fields

pub record SpoolFile : Type 0 where
  pub name : ℕ
  pub events : List Event
  pub bytes : ℕ
  pub readable : Bool

pub record AuditSpool : Type 0 where
  pub max_bytes : ℕ
  pub last_ns : ℕ
  pub size : ℕ
  pub files : List SpoolFile
  pub aside : List SpoolFile

-- what an append meets: the clock, the length of the encoded events, and the disk's answer
pub record Disk : Type 0 where
  pub now_ns : ℕ
  pub encoded : List Event → ℕ
  pub accepts : Bool

abbrev pub next_name : Disk → AuditSpool → ℕ
next_name d s = max d.now_ns (s.last_ns + 1)

abbrev pub with_file : Disk → List Event → AuditSpool → AuditSpool
with_file d events s = record s {
  last_ns = next_name d s;
  size = s.size + d.encoded events;
  files =
      s.files
      ++ (record {
        name = next_name d s;
        events = events;
        bytes = d.encoded events;
        readable = true;
      })
        ∷ [];
}

-- AuditSpool.append
unfoldable pub append : Disk → List Event → AuditSpool → Bool × AuditSpool
append d [] s = (true, s)
append d (e ∷ es) s =
    if ltb s.max_bytes (s.size + d.encoded (e ∷ es))
    then (false, s)
    else if d.accepts
    then (true, with_file d (e ∷ es) s)
    else (false, record s { last_ns = next_name d s })

-- AuditSpool.remove, of the first file
unfoldable pub remove_first : AuditSpool → AuditSpool
remove_first s = elim s.files [ [] ↦ s | f ∷ fs ↦ record s { size = s.size - f.bytes; files = fs } ]

-- AuditSpool.quarantine, of the first file
unfoldable pub quarantine_first : AuditSpool → AuditSpool
quarantine_first s = elim s.files [
  | [] ↦ s
  | f ∷ fs ↦ record s { size = s.size - f.bytes; files = fs; aside = s.aside ++ f ∷ [] }
]
