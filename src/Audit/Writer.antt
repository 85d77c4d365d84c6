-- ===== src/Audit/Writer.antt =====
-- services/guardrail-gateway/app/audit/writer.py: AuditWriter. Its tasks take turns at their awaits: a
-- step is what one of them does in a turn. What the database does with a batch is an argument; the
-- counter of dropped events is the list of them. The outbox, the exported heads and the partitions
-- are left out.
pub mod Kept
pub mod Tasks
pub mod Runs
pub mod Replayed
pub mod Accounted
pub mod Drained
use policy_guardrails_agent.Prelude.{
  if◌then◌else◌, ltb, is_some, length, take, drop, any, str_eq, ℕ, zero, suc, ◌+◌, ◌-◌, min, String,
  Bool, true, false, not, ◌&&◌, Option, none, some, List, [], ◌∷◌, ◌++◌, is_empty,
}
use policy_guardrails_agent.Audit.Spool.{
  Event, append, AuditSpool, Disk, remove_first, quarantine_first, SpoolFile,
}

pub record Writer : Type 0 where
  pub queue_size : ℕ
  pub batch_size : ℕ
  pub overflow_max : ℕ
  pub queue : List Event
  pub inflight : List Event
  pub overflow : List Event
  pub spool : Option AuditSpool
  pub table : List Event
  pub dropped : List Event

-- what becomes of a batch: `unsure` is one that was committed although the call raised
pub data Attempt : Type 0 where
  stored refused unsure : Attempt

-- a row or an event with this id
abbrev pub has : String → List Event → Bool
has id = any (λ (e : Event). str_eq e.id id)

-- on_conflict_do_nothing
unfoldable pub insert_row : Event → List Event → List Event
insert_row e rows = if has e.id rows then rows else rows ++ e ∷ []

unfoldable pub insert_all : List Event → List Event → List Event
unfolding insert_row
insert_all [] rows = rows
insert_all (e ∷ es) rows = insert_all es (insert_row e rows)

-- AuditWriter._write: whether it returns, and the writer behind it
unfoldable pub write : Attempt → List Event → Writer → Bool × Writer
unfolding insert_all
write stored batch w = (true, record w { table = insert_all batch w.table })
write refused batch w = (false, w)
write unsure batch w = (false, record w { table = insert_all batch w.table })

abbrev pub drop_events : List Event → Writer → Writer
drop_events events w = record w { dropped = w.dropped ++ events }

abbrev pub spilled : List Event → Bool × AuditSpool → Writer → Writer
spilled events (true, s) w = record w { spool = some s }
spilled events (false, s) w = drop_events events (record w { spool = some s })

abbrev pub spill_to : Disk → List Event → Option AuditSpool → Writer → Writer
spill_to d events none w = drop_events events w
spill_to d events (some s) w = spilled events (append d events s) w

-- AuditWriter._spill
unfoldable pub spill : Disk → List Event → Writer → Writer
unfolding append
spill d events w = if is_empty events then w else spill_to d events w.spool w

-- AuditWriter.submit, behind the stamp of the chain
unfoldable pub submit_event : Event → Writer → Writer
submit_event e w =
    if ltb (length w.queue) w.queue_size
    then record w { queue = w.queue ++ e ∷ [] }
    else if is_some w.spool && ltb (length w.overflow) w.overflow_max
    then record w { overflow = w.overflow ++ e ∷ [] }
    else drop_events (e ∷ []) w

-- AuditWriter._flush_overflow, up to its wait for the disk: the batch, which only the task holds from
-- here on, and the writer behind it. The rest is `spill`, a turn of its own.
unfoldable pub take_overflow : Writer → List Event × Writer
take_overflow w = (w.overflow, record w { overflow = [] })

-- AuditWriter._take_batch, where n more events arrive in time
unfoldable pub take_batch : ℕ → Writer → Writer
take_batch n w =
    let k = min n (w.batch_size - length w.inflight) in
    record w { inflight = w.inflight ++ take k w.queue; queue = drop k w.queue }

-- the three attempts of `_run`, and the spool where they fail
unfoldable pub try_batch : Disk → List Attempt → List Event → Writer → Writer
unfolding write spill
try_batch d [] batch w = spill d batch w
try_batch d (a ∷ rest) batch w =
    let (fine, w') = write a batch w in
    let again = try_batch d rest batch w' in if fine then w' else again

-- a turn of `_run`, with what the database answers to each attempt
unfoldable pub run_batch : Disk → Attempt → Attempt → Attempt → Writer → Writer
unfolding try_batch
run_batch d a b c w = record (try_batch d (a ∷ b ∷ c ∷ []) w.inflight w) { inflight = [] }

-- AuditWriter._safe_write
unfoldable pub safe_write : Disk → Attempt → List Event → Writer → Writer
unfolding try_batch
safe_write d a = try_batch d (a ∷ [])

-- the slices of range(0, len(xs), n)
unfoldable pub slices : ℕ → ℕ → List Event → List (List Event)
slices zero n xs = []
slices (suc fuel) n [] = []
slices (suc fuel) n (x ∷ xs) = take n (x ∷ xs) ∷ slices fuel n (drop n (x ∷ xs))

unfoldable pub write_slices : Disk → (ℕ → Attempt) → ℕ → List (List Event) → Writer → Writer
unfolding safe_write
write_slices d answer i [] w = w
write_slices d answer i (b ∷ bs) w = write_slices d answer (i + 1) bs (safe_write d (answer i) b w)

abbrev pub pending : Writer → List Event
pending w = w.inflight ++ (w.overflow ++ w.queue)

-- AuditWriter._drain; `answer i` is the database's answer to the batch i
unfoldable pub drain : Disk → (ℕ → Attempt) → Writer → Writer
unfolding slices write_slices
drain d answer w =
    write_slices d answer 0 (slices (length (pending w)) w.batch_size (pending w))
      (record w { inflight = []; overflow = []; queue = [] })

-- the batches of one file, until one fails: whether all were written
unfoldable pub replay_file : (ℕ → Attempt) → ℕ → List (List Event) → Writer → Bool × Writer
unfolding write
replay_file answer i [] w = (true, w)
replay_file answer i (b ∷ bs) w =
    let (fine, w') = write (answer i) b w in
    let more = replay_file answer (i + 1) bs w' in if fine then more else (false, w')

abbrev pub on_spool : (AuditSpool → AuditSpool) → Writer → Writer
on_spool f w = record w { spool = elim w.spool [ none ↦ none | some s ↦ some (f s) ] }

-- a worker thread appends, and nobody waits for its answer any more
unfoldable pub append_unheard : Disk → List Event → Writer → Writer
unfolding append
append_unheard d events w = on_spool (λ s. (append d events s).1) w

-- the loop of AuditWriter.replay_spool over the files that are there when it starts
unfoldable pub replay_files : (ℕ → ℕ → Attempt) → ℕ → List SpoolFile → Writer → Writer
unfolding replay_file remove_first quarantine_first slices
replay_files answer i [] w = w
replay_files answer i (f ∷ fs) w =
    let set_aside = replay_files answer (i + 1) fs (on_spool quarantine_first w) in
    let (fine, w') = replay_file (answer i) 0 (slices (length f.events) w.batch_size f.events) w in
    let more = replay_files answer (i + 1) fs (on_spool remove_first w') in
    if not f.readable then set_aside else if fine then more else w'

abbrev pub spool_files : Option AuditSpool → List SpoolFile
spool_files none = []
spool_files (some s) = s.files

-- AuditWriter.replay_spool
unfoldable pub replay_spool : (ℕ → ℕ → Attempt) → Writer → Writer
unfolding replay_files
replay_spool answer w = replay_files answer 0 (spool_files w.spool) w
