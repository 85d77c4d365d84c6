-- ===== src/Audit/Writer/Drained.antt =====
-- With a database that takes every batch, a drain and a replay put everything that waits into the
-- table, in order.
use policy_guardrails_agent.Audit.Writer.{
  stored, insert_all, Attempt, drain, write_slices, safe_write, Writer, insert_row, try_batch,
  write, slices, pending,
}
use policy_guardrails_agent.Prelude.{
  length, ℕ, ◌+◌, ◌≤◌, ◌≡◌, refl, sym, ap, ◌∙◌, List, [], ◌∷◌, ◌++◌, arith,
}
use policy_guardrails_agent.Audit.Spool.{Disk, Event}
use policy_guardrails_agent.Audit.Writer.Kept.{union, union-slices}

insert-append :
    (xs ys rows : List Event) → insert_all (xs ++ ys) rows ≡ insert_all ys (insert_all xs rows)
unfolding insert_all
insert-append [] ys rows = refl
insert-append (x ∷ xs) ys rows = insert-append xs ys (insert_row x rows)

-- the database takes every batch
abbrev pub always : ℕ → Attempt
always i = stored

write_slices-stored :
    (d : Disk) (i : ℕ) (bs : List (List Event)) (w : Writer)
    → write_slices d always i bs w ≡ record w { table = insert_all (union bs) w.table }
unfolding write_slices safe_write try_batch write insert_all
write_slices-stored d i [] w = refl
write_slices-stored d i (b ∷ bs) w =
    write_slices-stored d (i + 1) bs (record w { table = insert_all b w.table })
    ∙ ap (λ t. record w { table = t }) (sym (insert-append b (union bs) w.table))

-- A shutdown with a working database writes every event in flight, in the overflow and in the queue,
-- in that order, and leaves nothing waiting; the spool and the losses are as they were.
pub drain_all :
    (d : Disk) (w : Writer)
    → 1 ≤ w.batch_size
    → drain d always w ≡ record w {
      inflight = [];
      overflow = [];
      queue = [];
      table = insert_all (w.inflight ++ (w.overflow ++ w.queue)) w.table;
    }
unfolding drain
drain_all d w n =
    let cleared : Writer = record w { inflight = []; overflow = []; queue = [] } in
    write_slices-stored d 0 (slices (length (pending w)) w.batch_size (pending w)) cleared
    ∙ ap (λ xs. record cleared { table = insert_all xs w.table })
        (union-slices (length (pending w)) w.batch_size (pending w) n (omega arith))
