-- ===== src/Audit/Writer/Accounted.antt =====
-- Every event that is handed to the audit writer is accounted for in every state that it reaches.
use policy_guardrails_agent.Audit.Writer.{
  stored, refused, unsure, has, spill, try_batch, write, spilled, insert_all, spill_to, drain,
  write_slices, safe_write, slices, pending,
}
use policy_guardrails_agent.Prelude.{
  ltb, Bool-cases, is_some, length, take, drop, str_eq, ℕ, ◌+◌, ◌-◌, ◌≤◌, min, String, ◌≡◌, refl,
  sym, ap, ◌∙◌, subst, ◌⊎◌, inl, inr, Bool, true, false, ◌&&◌, ◌||◌, Option, none, some, List, [],
  ◌∷◌, ◌++◌, arith,
}
use policy_guardrails_agent.Audit.Writer.{
  Writer, take_overflow, append_unheard, submit_event, take_batch, run_batch, Attempt,
}
use policy_guardrails_agent.Audit.Spool.{Disk, Event, AuditSpool, append}
use policy_guardrails_agent.Audit.Writer.Kept.{
  held, try-Places, spooled, take-drop, has-append, drop-Places, union, union-slices,
  has-insert_all, append-spooled,
}

abbrev clear : Writer → Writer
clear w = record w { inflight = [] }

spill-free :
    (d : Disk) (batch : List Event) (w : Writer) → clear (spill d batch w) ≡ spill d batch (clear w)
unfolding spill
spill-free d [] w = refl
spill-free d (e ∷ es) w = by_spool w.spool
  where
    by_answer :
        (r : Bool × AuditSpool) → clear (spilled (e ∷ es) r w) ≡ spilled (e ∷ es) r (clear w)
    by_answer (true, s) = refl
    by_answer (false, s) = refl

    by_spool :
        (o : Option AuditSpool) → clear (spill_to d (e ∷ es) o w) ≡ spill_to d (e ∷ es) o (clear w)
    by_spool none = refl
    by_spool (some s) = by_answer (append d (e ∷ es) s)

-- the attempts do not look at the batch in flight
inflight-free :
    (d : Disk) (answers : List Attempt) (batch : List Event) (w : Writer)
    → clear (try_batch d answers batch w) ≡ try_batch d answers batch (clear w)
unfolding try_batch write
inflight-free d [] batch w = spill-free d batch w
inflight-free d (stored ∷ rest) batch w = refl
inflight-free d (refused ∷ rest) batch w = inflight-free d rest batch w
inflight-free d (unsure ∷ rest) batch w =
    inflight-free d rest batch (record w { table = insert_all batch w.table })

module _ (id : String) where
  queue_tests :
      (q i o s t d m q' : Bool)
      → q' ≡ (q || (m || false))
      → (m || (q || (i || (o || (s || (t || d)))))) ≡ true
      → (q' || (i || (o || (s || (t || d))))) ≡ true
  queue_tests q i o s t d m q' e h = ground arith

  overflow_tests :
      (q i o s t d m o' : Bool)
      → o' ≡ (o || (m || false))
      → (m || (q || (i || (o || (s || (t || d)))))) ≡ true
      → (q || (i || (o' || (s || (t || d))))) ≡ true
  overflow_tests q i o s t d m o' e h = ground arith

  out_of_overflow :
      (q i o r : Bool) → (q || (i || (o || r))) ≡ true → (o || (q || (i || (false || r)))) ≡ true
  out_of_overflow q i o r h = ground arith

  out_of_inflight : (q i r : Bool) → (q || (i || r)) ≡ true → (i || (q || (false || r))) ≡ true
  out_of_inflight q i r h = ground arith

  take_tests :
      (q i r q' i' t : Bool)
      → q ≡ (t || q')
      → i' ≡ (i || t)
      → (q || (i || r)) ≡ true
      → (q' || (i' || r)) ≡ true
  take_tests q i r q' i' t e f h = ground arith

  single : (m h : Bool) → (m || h) ≡ true → ((m || false) || h) ≡ true
  single m h p = ground arith

  pub submit-held :
      (e : Event) (w : Writer)
      → (str_eq e.id id || held id w) ≡ true
      → held id (submit_event e w) ≡ true
  unfolding submit_event
  submit-held e w h = elim (Bool-cases (ltb (length w.queue) w.queue_size)) [
    | inl q ↦ rw q (
        queue_tests (has id w.queue) (has id w.inflight) (has id w.overflow)
          (has id (spooled w.spool)) (has id w.table) (has id w.dropped) (str_eq e.id id) _
          (has-append id w.queue (e ∷ [])) h)
    | inr q ↦ elim (Bool-cases (is_some w.spool && ltb (length w.overflow) w.overflow_max)) [
      | inl r ↦
          rw (q, r)
            (overflow_tests (has id w.queue) (has id w.inflight) (has id w.overflow)
              (has id (spooled w.spool)) (has id w.table) (has id w.dropped) (str_eq e.id id) _
              (has-append id w.overflow (e ∷ [])) h)
      | inr r ↦ rw (q, r) (drop-Places id (e ∷ []) w (single (str_eq e.id id) (held id w) h))
    ]
  ]

  -- the batch that the overflow task takes is what leaves the writer
  pub overflow-held :
      (w : Writer)
      → held id w ≡ true
      → (has id (take_overflow w).0 || held id (take_overflow w).1) ≡ true
  unfolding take_overflow
  overflow-held w h = out_of_overflow (has id w.queue) (has id w.inflight) (has id w.overflow) _ h

  more_spooled :
      (q i o s t d s' : Bool)
      → (s ≡ true → s' ≡ true)
      → (q || (i || (o || (s || (t || d))))) ≡ true
      → (q || (i || (o || (s' || (t || d))))) ≡ true
  more_spooled q i o s t d s' e h = ground arith

  pub unheard-held :
      (d : Disk) (batch : List Event) (w : Writer)
      → held id w ≡ true
      → held id (append_unheard d batch w) ≡ true
  unfolding append_unheard
  unheard-held d batch w h =
      more_spooled (has id w.queue) (has id w.inflight) (has id w.overflow)
        (has id (spooled w.spool)) (has id w.table) (has id w.dropped) _ (on_disk w.spool) h
    where
      on_disk :
          (o : Option AuditSpool)
          → has id (spooled o) ≡ true
          → has id (spooled (elim o [ none ↦ none | some s ↦ some (append d batch s).1 ])) ≡ true
      on_disk none p = p
      on_disk (some s) p = ground (arith, append-spooled id d batch s)

  row_held :
      (w : Writer)
      → held id w ≡ true
      → held id (record w { table = insert_all w.inflight w.table }) ≡ true
  row_held w h = ground (arith, has-insert_all id w.inflight w.table)

  -- an attempt leaves its batch in flight
  pub attempt-held :
      (a : Attempt) (w : Writer) → held id w ≡ true → held id (write a w.inflight w).1 ≡ true
  unfolding write
  attempt-held stored w h = row_held w h
  attempt-held refused w h = h
  attempt-held unsure w h = row_held w h

  pub take-held : (n : ℕ) (w : Writer) → held id w ≡ true → held id (take_batch n w) ≡ true
  unfolding take_batch
  take-held n w h =
      let k = min n (w.batch_size - length w.inflight) in
      take_tests (has id w.queue) (has id w.inflight) _ (has id (drop k w.queue))
        (has id (w.inflight ++ take k w.queue)) (has id (take k w.queue))
        (ap (has id) (sym (take-drop k w.queue)) ∙ has-append id (take k w.queue) (drop k w.queue))
        (has-append id w.inflight (take k w.queue)) h

  pub run-held :
      (d : Disk) (a b c : Attempt) (w : Writer)
      → held id w ≡ true
      → held id (run_batch d a b c w) ≡ true
  unfolding run_batch
  run-held d a b c w h =
      subst (λ v. held id v ≡ true) (sym (inflight-free d (a ∷ b ∷ c ∷ []) w.inflight w))
        (try-Places id d (a ∷ b ∷ c ∷ []) w.inflight (record w { inflight = [] })
          (out_of_inflight (has id w.queue) (has id w.inflight) _ h))

  slice_tests :
      (b u h h' : Bool)
      → ((b || h) ≡ false) ⊎ (h' ≡ true)
      → ((b || u) || h) ≡ true
      → (u || h') ≡ true
  slice_tests b u h h' (inl p) q = ground arith
  slice_tests b u h h' (inr p) q = ground arith

  write_slices-held :
      (d : Disk) (answer : ℕ → Attempt) (i : ℕ) (bs : List (List Event)) (w : Writer)
      → (has id (union bs) || held id w) ≡ true
      → held id (write_slices d answer i bs w) ≡ true
  unfolding write_slices safe_write
  write_slices-held d answer i [] w h = h
  write_slices-held d answer i (b ∷ bs) w h =
      write_slices-held d answer (i + 1) bs (safe_write d (answer i) b w) (
        slice_tests (has id b) (has id (union bs)) (held id w) _
          (placed (Bool-cases (has id b || held id w)))
          (ap (λ t. t || held id w) (sym (has-append id b (union bs))) ∙ h))
    where
      placed :
          ((has id b || held id w) ≡ true) ⊎ ((has id b || held id w) ≡ false)
          → ((has id b || held id w) ≡ false) ⊎ (held id (safe_write d (answer i) b w) ≡ true)
      placed (inl p) = inr (try-Places id d (answer i ∷ []) b w p)
      placed (inr p) = inl p

  pending_tests :
      (q i o r p oq : Bool)
      → p ≡ (i || oq)
      → oq ≡ (o || q)
      → (q || (i || (o || r))) ≡ true
      → (p || (false || (false || (false || r)))) ≡ true
  pending_tests q i o r p oq e f h = ground arith

  pub drain-held :
      (d : Disk) (answer : ℕ → Attempt) (w : Writer)
      → 1 ≤ w.batch_size
      → held id w ≡ true
      → held id (drain d answer w) ≡ true
  unfolding drain
  drain-held d answer w n h =
      write_slices-held d answer 0 (slices (length (pending w)) w.batch_size (pending w))
        (record w { inflight = []; overflow = []; queue = [] })
        (subst
          (λ xs.
            (has id xs || held id (record w { inflight = []; overflow = []; queue = [] })) ≡ true)
          (sym (union-slices (length (pending w)) w.batch_size (pending w) n (omega arith)))
          (pending_tests (has id w.queue) (has id w.inflight) (has id w.overflow) _
            (has id (pending w)) (has id (w.overflow ++ w.queue))
            (has-append id w.inflight (w.overflow ++ w.queue)) (has-append id w.overflow w.queue)
            h))
