-- ===== src/Audit/Turns.antt =====
-- The audit writer with a queue of one and a spool, at concrete events.
use policy_guardrails_agent.Prelude.{length, All, ◌≡◌, refl, true, ◌||◌, some, [], ◌∷◌, ◌++◌, arith}
use policy_guardrails_agent.Sdk.Json.{end}
use policy_guardrails_agent.Audit.Writer.Runs.{
  start, next, accounted, submit_step, begin_flush_step, cut_flush_step, unheard_step, of_flush,
  here, in_flush, at_writer, In,
}
use policy_guardrails_agent.Audit.Spool.{Disk, Event}
use policy_guardrails_agent.Audit.Writer.{
  Writer, drain, insert_all, submit_event, has, append_unheard, take_overflow,
}
use policy_guardrails_agent.Audit.Writer.Kept.{held, union}
use policy_guardrails_agent.Audit.Writer.Drained.{always, drain_all}
use policy_guardrails_agent.Audit.Writer.Tasks.{Tasks, cut_flush, begin_flush, start_tasks}

abbrev one : Event
one = record { id = "e1"; fields = end }

abbrev two : Event
two = record { id = "e2"; fields = end }

abbrev writer : Writer
writer = record {
  queue_size = 1;
  batch_size = 2;
  overflow_max = 1000;
  queue = [];
  inflight = [];
  overflow = [];
  spool = some (record { max_bytes = 1000; last_ns = 0; size = 0; files = []; aside = [] });
  table = [];
  dropped = [];
}

abbrev disk : Disk
disk = record { now_ns = 5; encoded = length; accepts = true }

-- two events, the second into the overflow; its flush is cancelled in the wait, and the thread then
-- writes it all the same
abbrev submitted : Tasks
submitted = at_writer (start_tasks writer) (submit_event two (submit_event one writer))

abbrev cancelled : Tasks
cancelled = cut_flush (two ∷ []) (begin_flush submitted)

abbrev busy : Tasks
busy = at_writer cancelled (append_unheard disk (two ∷ []) cancelled.writer)

accounted_example :
    All
      (λ e.
        (held e.id busy.writer || (in_flush e.id busy.flushing || has e.id (union busy.lost)))
        ≡ true)
      (two ∷ one ∷ [])
accounted_example = accounted (start_tasks writer) busy (two ∷ one ∷ []) (
    next
      (next
        (next
          (next (next start (submit_step one (start_tasks writer) []))
            (submit_step two (at_writer (start_tasks writer) (submit_event one writer)) (one ∷ [])))
          (begin_flush_step submitted (two ∷ one ∷ []) refl))
        (cut_flush_step (two ∷ []) (begin_flush submitted) (two ∷ one ∷ []) overflowed))
      (unheard_step disk (two ∷ []) cancelled (two ∷ one ∷ []) (of_flush (two ∷ []) (lost_now))))
  where
    overflowed : (begin_flush submitted).flushing ≡ some (two ∷ [])
    overflowed = unfold begin_flush take_overflow submit_event in refl

    lost_now : In (two ∷ []) cancelled.lost
    lost_now = unfold cut_flush in here

abbrev waiting : Writer
waiting = record writer { queue = one ∷ []; overflow = two ∷ [] }

drain_all_example : drain disk always waiting ≡ record waiting {
  inflight = [];
  overflow = [];
  queue = [];
  table = insert_all ([] ++ (two ∷ [] ++ one ∷ [])) [];
}
drain_all_example = drain_all disk waiting (omega arith)
