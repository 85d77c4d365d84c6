-- ===== src/Audit/Writer/Runs.antt =====
-- The turns of the audit writer's tasks, in any order. A turn whose wait can lose nothing is one step:
-- the batch of `_run` stays in flight until it is written or spooled, and a file of the spool stays
-- until it is replayed. An attempt of `_run` is also a step of its own, for the one that a shutdown
-- cuts short. The wait of the overflow task splits its turn in two.
use policy_guardrails_agent.Prelude.{
  All, str_eq, eq_iff, ℕ, ◌≤◌, String, ◌≡◌, refl, Bool, true, false, ◌||◌, Option, none, some, List,
  [], ◌∷◌, arith,
}
use policy_guardrails_agent.Audit.Writer.{
  Writer, Attempt, write, has, submit_event, take_overflow, append_unheard, spill, take_batch,
  run_batch, replay_spool, drain,
}
use policy_guardrails_agent.Audit.Spool.{Event, Disk}
use policy_guardrails_agent.Audit.Writer.Kept.{held, or_right, union, spill-Places, has-append}
use policy_guardrails_agent.Audit.Writer.Tasks.{Tasks, begin_flush, end_flush, cut_flush}
use policy_guardrails_agent.Audit.Writer.Accounted.{
  submit-held, overflow-held, unheard-held, take-held, attempt-held, run-held, drain-held,
}
use policy_guardrails_agent.Audit.Writer.Replayed.{replay-held}

pub data In (batch : List Event) : List (List Event) → Type 0 where
  here : {rest : List (List Event)} → In batch (batch ∷ rest)
  there : {other : List Event} {rest : List (List Event)} → In batch rest → In batch (other ∷ rest)

-- a batch that a cancelled task had given to a worker thread, which may still append it
pub data Unheard (t : Tasks) : List Event → Type 0 where
  of_flush : (batch : List Event) → In batch t.lost → Unheard t batch
  of_run : Unheard t t.writer.inflight

abbrev pub at_writer : Tasks → Writer → Tasks
at_writer t w = record t { writer = w }

-- the second argument of a state is what was submitted so far
pub data Step : Tasks → List Event → Tasks → List Event → Type 0 where
  submit_step :
      (e : Event) (t : Tasks) (sent : List Event)
      → Step t sent (at_writer t (submit_event e t.writer)) (e ∷ sent)
  begin_flush_step :
      (t : Tasks) (sent : List Event) → t.flushing ≡ none → Step t sent (begin_flush t) sent
  end_flush_step :
      (d : Disk) (batch : List Event) (t : Tasks) (sent : List Event)
      → t.flushing ≡ some batch
      → Step t sent (end_flush d batch t) sent
  cut_flush_step :
      (batch : List Event) (t : Tasks) (sent : List Event)
      → t.flushing ≡ some batch
      → Step t sent (cut_flush batch t) sent
  unheard_step :
      (d : Disk) (batch : List Event) (t : Tasks) (sent : List Event)
      → Unheard t batch
      → Step t sent (at_writer t (append_unheard d batch t.writer)) sent
  take_step :
      (n : ℕ) (t : Tasks) (sent : List Event)
      → Step t sent (at_writer t (take_batch n t.writer)) sent
  attempt_step :
      (a : Attempt) (t : Tasks) (sent : List Event)
      → Step t sent (at_writer t (write a t.writer.inflight t.writer).1) sent
  run_step :
      (d : Disk) (a b c : Attempt) (t : Tasks) (sent : List Event)
      → Step t sent (at_writer t (run_batch d a b c t.writer)) sent
  replay_step :
      (answer : ℕ → ℕ → Attempt) (t : Tasks) (sent : List Event)
      → 1 ≤ t.writer.batch_size
      → Step t sent (at_writer t (replay_spool answer t.writer)) sent
  drain_step :
      (d : Disk) (answer : ℕ → Attempt) (t : Tasks) (sent : List Event)
      → 1 ≤ t.writer.batch_size
      → t.flushing ≡ none
      → Step t sent (at_writer t (drain d answer t.writer)) sent

pub data Reach (t : Tasks) : Tasks → List Event → Type 0 where
  start : Reach t t []
  next :
      {u v : Tasks} {sent sent' : List Event}
      → Reach t u sent
      → Step u sent v sent'
      → Reach t v sent'

abbrev pub in_flush : String → Option (List Event) → Bool
in_flush id none = false
in_flush id (some batch) = has id batch

-- in the writer, in the batch that is being flushed, or in one that a cancelled flush lost
abbrev pub somewhere : String → Tasks → Bool
somewhere id t = held id t.writer || (in_flush id t.flushing || has id (union t.lost))

abbrev IsSomewhere : Tasks → Event → Type 0
IsSomewhere t e = somewhere e.id t ≡ true

every :
    (v w : Tasks) (xs : List Event)
    → ((e : Event) → IsSomewhere v e → IsSomewhere w e)
    → All (IsSomewhere v) xs
    → All (IsSomewhere w) xs
every v w [] f h = tt
every v w (x ∷ xs) f h = (f x h.0, every v w xs f h.1)

or_map : (a b r : Bool) → (a ≡ true → b ≡ true) → (a || r) ≡ true → (b || r) ≡ true
or_map a b r f h = ground arith

-- a turn that only changes the writer
writer-IsSomewhere :
    (t : Tasks) (w : Writer) (sent : List Event)
    → ((e : Event) → held e.id t.writer ≡ true → held e.id w ≡ true)
    → All (IsSomewhere t) sent
    → All (IsSomewhere (at_writer t w)) sent
writer-IsSomewhere t w sent f =
    every t (at_writer t w) sent (λ e. or_map (held e.id t.writer) (held e.id w) _ (f e))

or_left : {a : Bool} (b : Bool) → a ≡ true → (a || b) ≡ true
or_left {a} b h = ground arith

begun :
    (id : String) (t : Tasks)
    → t.flushing ≡ none
    → somewhere id t ≡ true
    → somewhere id (begin_flush t) ≡ true
unfolding begin_flush
begun id t idle h =
    begin_tests (held id t.writer) (has id (take_overflow t.writer).0)
      (held id (take_overflow t.writer).1) (has id (union t.lost)) (overflow-held id t.writer)
      (rw idle at h)
  where
    begin_tests :
        (h b h' r : Bool)
        → (h ≡ true → (b || h') ≡ true)
        → (h || (false || r)) ≡ true
        → (h' || (b || r)) ≡ true
    begin_tests h b h' r f p = ground arith

ended :
    (id : String) (d : Disk) (batch : List Event) (t : Tasks)
    → t.flushing ≡ some batch
    → somewhere id t ≡ true
    → somewhere id (end_flush d batch t) ≡ true
unfolding end_flush
ended id d batch t busy h =
    end_tests (held id t.writer) (has id batch) (held id (spill d batch t.writer))
      (has id (union t.lost)) (spill-Places id d batch t.writer) (rw busy at h)
  where
    end_tests :
        (h b h' r : Bool)
        → ((b || h) ≡ true → h' ≡ true)
        → (h || (b || r)) ≡ true
        → (h' || (false || r)) ≡ true
    end_tests h b h' r f p = ground arith

cut :
    (id : String) (batch : List Event) (t : Tasks)
    → t.flushing ≡ some batch
    → somewhere id t ≡ true
    → somewhere id (cut_flush batch t) ≡ true
unfolding cut_flush
cut id batch t busy h =
    cut_tests (held id t.writer) (has id batch) (has id (union t.lost)) _
      (has-append id batch (union t.lost)) (rw busy at h)
  where
    cut_tests :
        (h b r l : Bool) → l ≡ (b || r) → (h || (b || r)) ≡ true → (h || (false || l)) ≡ true
    cut_tests h b r l e p = ground arith

Step-IsSomewhere :
    {t u : Tasks} {sent sent' : List Event}
    → Step t sent u sent'
    → All (IsSomewhere t) sent
    → All (IsSomewhere u) sent'
Step-IsSomewhere (submit_step e t sent) h = (
  or_left _
      (submit-held e.id e t.writer (or_left (held e.id t.writer) ((eq_iff e.id e.id).1 refl))),
  writer-IsSomewhere t (submit_event e t.writer) sent
      (λ x k. submit-held x.id e t.writer (or_right (str_eq e.id x.id) k)) h,
)
Step-IsSomewhere (begin_flush_step t sent idle) h =
    every t (begin_flush t) sent (λ x. begun x.id t idle) h
Step-IsSomewhere (end_flush_step d batch t sent busy) h =
    every t (end_flush d batch t) sent (λ x. ended x.id d batch t busy) h
Step-IsSomewhere (cut_flush_step batch t sent busy) h =
    every t (cut_flush batch t) sent (λ x. cut x.id batch t busy) h
Step-IsSomewhere (unheard_step d batch t sent u) h =
    writer-IsSomewhere t (append_unheard d batch t.writer) sent
      (λ x. unheard-held x.id d batch t.writer) h
Step-IsSomewhere (take_step n t sent) h =
    writer-IsSomewhere t (take_batch n t.writer) sent (λ x. take-held x.id n t.writer) h
Step-IsSomewhere (attempt_step a t sent) h =
    writer-IsSomewhere t (write a t.writer.inflight t.writer).1 sent
      (λ x. attempt-held x.id a t.writer) h
Step-IsSomewhere (run_step d a b c t sent) h =
    writer-IsSomewhere t (run_batch d a b c t.writer) sent (λ x. run-held x.id d a b c t.writer) h
Step-IsSomewhere (replay_step answer t sent n) h =
    writer-IsSomewhere t (replay_spool answer t.writer) sent
      (λ x. replay-held x.id answer t.writer n) h
Step-IsSomewhere (drain_step d answer t sent n idle) h =
    writer-IsSomewhere t (drain d answer t.writer) sent (λ x. drain-held x.id d answer t.writer n) h

-- Whatever the queue, the disk and the database do, and in whatever order the tasks take turns: every
-- event that was submitted is in the queue, in flight, in the overflow, in a file of the spool, in
-- the table, among the losses that are counted, in the batch that the overflow task waits to see on
-- disk, or in a batch of which a shutdown cancelled that wait.
pub accounted :
    (t u : Tasks) (sent : List Event)
    → Reach t u sent
    → All
        (λ e. (held e.id u.writer || (in_flush e.id u.flushing || has e.id (union u.lost))) ≡ true)
        sent
accounted t u sent r = go r
  where
    go : {u : Tasks} {sent : List Event} → Reach t u sent → All (IsSomewhere u) sent
    go start = tt
    go (next r s) = Step-IsSomewhere s (go r)
