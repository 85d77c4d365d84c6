-- ===== src/Audit/Writer/Replayed.antt =====
-- The replay of the spool: a file leaves it only when the database has its events, or is set aside.
use policy_guardrails_agent.Audit.Writer.{
  stored, refused, unsure, replay_file, Writer, has, write, insert_all, Attempt, replay_files,
  on_spool, slices, replay_spool, spool_files,
}
use policy_guardrails_agent.Prelude.{
  if◌then◌else◌, Bool-cases, length, ℕ, ◌+◌, ◌-◌, ◌≤◌, String, ◌≡◌, refl, sym, ap, ◌∙◌, subst, ◌⊎◌,
  inl, inr, Bool, true, false, not, ◌||◌, Option, none, some, List, [], ◌∷◌, ◌++◌, arith, clash,
}
use policy_guardrails_agent.Audit.Spool.{
  Event, SpoolFile, AuditSpool, remove_first, quarantine_first,
}
use policy_guardrails_agent.Audit.Writer.Kept.{
  union, has-insert_all, or_right, has-append, spooled, events_of, held, events-append,
  union-slices,
}

-- a replayed file changes nothing but the table, which keeps its rows
record IsReplayed (id : String) (bs : List (List Event)) (w : Writer) (r : Bool × Writer)
    : Type 0 where
  table : List Event
  only : r.1 ≡ record w { table = table }
  keeps : has id w.table ≡ true → has id table ≡ true
  all_there : r.0 ≡ true → has id (union bs) ≡ true → has id table ≡ true

module _ (id : String) where
  or_cases :
      (a b c : Bool) → (a ≡ true → c ≡ true) → (b ≡ true → c ≡ true) → (a || b) ≡ true → c ≡ true
  or_cases true b c f g h = f refl
  or_cases false b c f g h = g h

  rows_in : (b rows : List Event) → has id b ≡ true → has id (insert_all b rows) ≡ true
  rows_in b rows h = has-insert_all id b rows ∙ rw h refl

  rows_kept : (b rows : List Event) → has id rows ≡ true → has id (insert_all b rows) ≡ true
  rows_kept b rows h = has-insert_all id b rows ∙ or_right (has id b) h

  replay_file-IsReplayed :
      (answer : ℕ → Attempt) (i : ℕ) (bs : List (List Event)) (w : Writer)
      → IsReplayed id bs w (replay_file answer i bs w)
  unfolding replay_file write
  replay_file-IsReplayed answer i [] w = record {
    table = w.table;
    only = refl;
    keeps = λ h. h;
    all_there = λ r h. absurd (clash h refl);
  }
  replay_file-IsReplayed answer i (b ∷ bs) w =
      by_answer (answer i)
        (replay_file-IsReplayed answer (i + 1) bs (record w { table = insert_all b w.table }))
    where
      by_answer :
          (a : Attempt)
          → IsReplayed id bs
              (record w { table = insert_all b w.table })
              (replay_file answer (i + 1) bs (record w { table = insert_all b w.table }))
          → IsReplayed id (b ∷ bs) w (
              if (write a b w).0
              then replay_file answer (i + 1) bs (write a b w).1
              else (false, (write a b w).1))
      by_answer refused more = record {
        table = w.table;
        only = refl;
        keeps = λ h. h;
        all_there = λ r. absurd (clash r refl);
      }
      by_answer unsure more = record {
        table = insert_all b w.table;
        only = refl;
        keeps = rows_kept b w.table;
        all_there = λ r. absurd (clash r refl);
      }
      by_answer stored more = record {
        table = more.table;
        only = more.only;
        keeps = λ h. more.keeps (rows_kept b w.table h);
        all_there = λ r h.
            or_cases (has id b) (has id (union bs)) (has id more.table)
              (λ p. more.keeps (rows_in b w.table p)) (λ p. more.all_there r p)
              (sym (has-append id b (union bs)) ∙ h);
      }

  -- a file at the front of the spool
  spooled_front :
      (f : SpoolFile) (s : AuditSpool) (fs : List SpoolFile)
      → s.files ≡ f ∷ fs
      → has id (spooled (some s))
        ≡ (has id f.events || (has id (events_of fs) || has id (events_of s.aside)))
  spooled_front f s fs e =
      ap (λ gs. has id (events_of gs ++ events_of s.aside)) e
      ∙ front_tests (has id f.events) (has id (events_of fs)) (has id (events_of s.aside))
          (has-append id (f.events ++ events_of fs) (events_of s.aside))
          (has-append id f.events (events_of fs))
    where
      front_tests : {x y : Bool} (a b c : Bool) → x ≡ (y || c) → y ≡ (a || b) → x ≡ (a || (b || c))
      front_tests {x} {y} a b c p q = ground arith

  -- the writer with these files in its spool
  abbrev at_files : Writer → AuditSpool → List SpoolFile → Writer
  at_files w s fs = record w { spool = some (record s { files = fs }) }

  implies : {a b : Bool} → (a ≡ true → b ≡ true) → (a ≡ false) ⊎ (b ≡ true)
  implies {a} {b} f = elim (Bool-cases a) [ inl e ↦ inr (f e) | inr e ↦ inl e ]

  removed_tests :
      (q i o s t d f r t' : Bool)
      → s ≡ (f || r)
      → (f ≡ false) ⊎ (t' ≡ true)
      → (t ≡ false) ⊎ (t' ≡ true)
      → (q || (i || (o || (s || (t || d))))) ≡ true
      → (q || (i || (o || (r || (t' || d))))) ≡ true
  removed_tests q i o s t d f r t' e (inr x) y h = ground arith
  removed_tests q i o s t d f r t' e (inl x) (inr y) h = ground arith
  removed_tests q i o s t d f r t' e (inl x) (inl y) h = ground arith

  kept_tests :
      (q i o s t d t' : Bool)
      → (t ≡ false) ⊎ (t' ≡ true)
      → (q || (i || (o || (s || (t || d))))) ≡ true
      → (q || (i || (o || (s || (t' || d))))) ≡ true
  kept_tests q i o s t d t' (inr y) h = ground arith
  kept_tests q i o s t d t' (inl y) h = ground arith

  aside_tests :
      (q i o s v f r a s' a' : Bool)
      → s ≡ (f || (r || a))
      → s' ≡ (r || a')
      → a' ≡ (a || (f || false))
      → (q || (i || (o || (s || v)))) ≡ true
      → (q || (i || (o || (s' || v)))) ≡ true
  aside_tests q i o s v f r a s' a' x y z h = ground arith

  aside-held :
      (f : SpoolFile) (fs : List SpoolFile) (w : Writer) (s : AuditSpool)
      → held id (at_files w s (f ∷ fs)) ≡ true
      → held id (on_spool quarantine_first (at_files w s (f ∷ fs))) ≡ true
  unfolding quarantine_first
  aside-held f fs w s h =
      let s' = record s { files = f ∷ fs } in
      aside_tests (has id w.queue) (has id w.inflight) (has id w.overflow) _ _ (has id f.events)
        (has id (events_of fs)) (has id (events_of s.aside)) _
        (has id (events_of (s.aside ++ f ∷ []))) (spooled_front f s' fs refl)
        (has-append id (events_of fs) (events_of (s.aside ++ f ∷ [])))
        (events-append id s.aside (f ∷ [])
          ∙ ap (λ x. has id (events_of s.aside) || x) (has-append id f.events []))
        h

  removed-held :
      (f : SpoolFile) (fs : List SpoolFile) (w : Writer) (s : AuditSpool) (t : List Event)
      → (has id f.events ≡ true → has id t ≡ true)
      → (has id w.table ≡ true → has id t ≡ true)
      → held id (at_files w s (f ∷ fs)) ≡ true
      → held id (on_spool remove_first (record (at_files w s (f ∷ fs)) { table = t })) ≡ true
  unfolding remove_first
  removed-held f fs w s t in_file in_table h =
      removed_tests (has id w.queue) (has id w.inflight) (has id w.overflow) _ (has id w.table)
        (has id w.dropped) (has id f.events) _ (has id t)
        (spooled_front f (record s { files = f ∷ fs }) fs refl
          ∙ ap (λ x. has id f.events || x) (sym (has-append id (events_of fs) (events_of s.aside))))
        (implies in_file) (implies in_table) h

  -- behind a file that was read
  file-held :
      (answer : ℕ → ℕ → Attempt) (i : ℕ) (f : SpoolFile) (fs : List SpoolFile) (w : Writer)
      (s : AuditSpool) (bs : List (List Event)) (r : Bool × Writer)
      → IsReplayed id bs (at_files w s (f ∷ fs)) r
      → union bs ≡ f.events
      → ((v : Writer) (z : AuditSpool)
          → v.batch_size ≡ w.batch_size
          → held id (at_files v z fs) ≡ true
          → held id (replay_files answer (i + 1) fs (at_files v z fs)) ≡ true)
      → held id (at_files w s (f ∷ fs)) ≡ true
      → held id (if r.0 then replay_files answer (i + 1) fs (on_spool remove_first r.1) else r.1)
        ≡ true
  unfolding remove_first
  file-held answer i f fs w s bs r d u rec h = elim (Bool-cases r.0) [
    | inr q ↦ rw q (
        subst (λ v. held id v ≡ true) (sym d.only)
          (kept_tests (has id w.queue) (has id w.inflight) (has id w.overflow) _ (has id w.table)
            (has id w.dropped) (has id d.table) (implies d.keeps) h))
    | inl q ↦ rw q (
        subst (λ v. held id (replay_files answer (i + 1) fs (on_spool remove_first v)) ≡ true)
          (sym d.only)
          (rec (record w { table = d.table }) (record s { size = s.size - f.bytes }) refl
            (removed-held f fs w s d.table (λ p. d.all_there q (ap (has id) u ∙ p)) d.keeps h)))
  ]

  choice-held :
      (b : Bool) (x y : Writer)
      → held id x ≡ true
      → held id y ≡ true
      → held id (if not b then x else y) ≡ true
  choice-held true x y h k = k
  choice-held false x y h k = h

  replay_files-held :
      (answer : ℕ → ℕ → Attempt) (i : ℕ) (fs : List SpoolFile) (w : Writer) (s : AuditSpool)
      → 1 ≤ w.batch_size
      → held id (at_files w s fs) ≡ true
      → held id (replay_files answer i fs (at_files w s fs)) ≡ true
  unfolding replay_files quarantine_first
  replay_files-held answer i [] w s n h = h
  replay_files-held answer i (f ∷ fs) w s n h =
      choice-held f.readable _ _
        (replay_files-held answer (i + 1) fs w
          (record s { size = s.size - f.bytes; aside = s.aside ++ f ∷ [] }) n
          (aside-held f fs w s h))
        (file-held answer i f fs w s (slices (length f.events) w.batch_size f.events)
          (replay_file (answer i) 0 (slices (length f.events) w.batch_size f.events)
            (at_files w s (f ∷ fs)))
          (replay_file-IsReplayed (answer i) 0 (slices (length f.events) w.batch_size f.events)
            (at_files w s (f ∷ fs)))
          (union-slices (length f.events) w.batch_size f.events n (omega arith))
          (λ v z e. replay_files-held answer (i + 1) fs v z (subst (λ b. 1 ≤ b) (sym e) n)) h)

  pub replay-held :
      (answer : ℕ → ℕ → Attempt) (w : Writer)
      → 1 ≤ w.batch_size
      → held id w ≡ true
      → held id (replay_spool answer w) ≡ true
  unfolding replay_spool
  replay-held answer w n h = by_spool w.spool refl
    where
      by_spool :
          (o : Option AuditSpool)
          → w.spool ≡ o
          → held id (replay_files answer 0 (spool_files o) w) ≡ true
      by_spool none e = h
      by_spool (some s) e =
          let same : record w { spool = some s } ≡ w = ap (λ x. record w { spool = x }) (sym e) in
          subst (λ v. held id (replay_files answer 0 s.files v) ≡ true) same
            (replay_files-held answer 0 s.files w s n (subst (λ v. held id v ≡ true) (sym same) h))
