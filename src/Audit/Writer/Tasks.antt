-- ===== src/Audit/Writer/Tasks.antt =====
-- The overflow task of AuditWriter beside the writer: its batch while a worker thread puts it on disk,
-- and the batches that were lost when `stop` cancelled the task in that wait.
use policy_guardrails_agent.Prelude.{Option, none, some, List, [], ◌∷◌}
use policy_guardrails_agent.Audit.Spool.{Event, Disk}
use policy_guardrails_agent.Audit.Writer.{Writer, spill, take_overflow}

pub record Tasks : Type 0 where
  pub writer : Writer
  pub flushing : Option (List Event)
  pub lost : List (List Event)

-- `_flush_overflow` up to its wait
unfoldable pub begin_flush : Tasks → Tasks
unfolding take_overflow
begin_flush t = record t {
  writer = (take_overflow t.writer).1;
  flushing = some (take_overflow t.writer).0;
}

-- the rest of `_flush_overflow`, which spools the batch or counts it as dropped
unfoldable pub end_flush : Disk → List Event → Tasks → Tasks
unfolding spill
end_flush d batch t = record t { writer = spill d batch t.writer; flushing = none }

-- the task is cancelled in its wait: nothing counts the batch
unfoldable pub cut_flush : List Event → Tasks → Tasks
cut_flush batch t = record t { flushing = none; lost = batch ∷ t.lost }

abbrev pub start_tasks : Writer → Tasks
start_tasks w = record { writer = w; flushing = none; lost = [] }
