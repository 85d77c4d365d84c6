-- ===== src/Audit/Writer/Kept.antt =====
-- Where the writer's events are, and that spooling and writing a batch leaves each of its events
-- somewhere.
use policy_guardrails_agent.Prelude.{
  ltb, Bool-cases, length, take, drop, length-drop, str_eq, eq_iff, ℕ, zero, suc, ◌+◌, ◌≤◌, String,
  ◌≡◌, refl, sym, ap, ◌∙◌, subst, ◌⊎◌, inl, inr, Bool, true, false, ◌&&◌, ◌||◌, Option, none, some,
  List, [], ◌∷◌, ◌++◌, arith, clash,
}
use policy_guardrails_agent.Audit.Spool.{AuditSpool, append, SpoolFile, Event, Disk, with_file}
use policy_guardrails_agent.Audit.Writer.{
  stored, refused, unsure, insert_all, insert_row, Writer, has, drop_events, spilled, spill,
  spill_to, write, slices, try_batch, Attempt,
}

abbrev pub events_of : List SpoolFile → List Event
events_of [] = []
events_of (f ∷ fs) = f.events ++ events_of fs

abbrev pub spooled : Option AuditSpool → List Event
spooled none = []
spooled (some s) = events_of s.files ++ events_of s.aside

-- where an event may be: waiting, on disk, in the database, or among the counted losses
abbrev pub held : String → Writer → Bool
held id w =
    has id w.queue
    || (has id w.inflight
        || (has id w.overflow
            || (has id (spooled w.spool) || (has id w.table || has id w.dropped))))

pub has-append : (id : String) (xs ys : List Event) → has id (xs ++ ys) ≡ (has id xs || has id ys)
has-append id [] ys = refl
has-append id (x ∷ xs) ys = ground (arith, has-append id xs ys)

pub or_right : (a : Bool) {b : Bool} → b ≡ true → (a || b) ≡ true
or_right a {b} h = ground arith

module _ (id : String) where
  has-insert_row :
      (e : Event) (rows : List Event) → has id (insert_row e rows) ≡ (str_eq e.id id || has id rows)
  unfolding insert_row
  has-insert_row e rows = elim (Bool-cases (has e.id rows)) [
    | inl q ↦ rw q (present (Bool-cases (str_eq e.id id)) q)
    | inr q ↦ rw q (ground (arith, has-append id rows (e ∷ [])))
  ]
    where
      present :
          (str_eq e.id id ≡ true) ⊎ (str_eq e.id id ≡ false)
          → has e.id rows ≡ true
          → has id rows ≡ (str_eq e.id id || has id rows)
      present (inl m) q = rw m (subst (λ i. has i rows ≡ true) ((eq_iff e.id id).0 m) q)
      present (inr m) q = rw m refl

  pub has-insert_all :
      (es rows : List Event) → has id (insert_all es rows) ≡ (has id es || has id rows)
  unfolding insert_all
  has-insert_all [] rows = refl
  has-insert_all (e ∷ es) rows =
      ground (arith, has-insert_all es (insert_row e rows), has-insert_row e rows)

  pub events-append :
      (fs gs : List SpoolFile)
      → has id (events_of (fs ++ gs)) ≡ (has id (events_of fs) || has id (events_of gs))
  events-append [] gs = refl
  events-append (f ∷ fs) gs = ground (
    arith,
    has-append id f.events (events_of fs),
    has-append id f.events (events_of (fs ++ gs)),
    events-append fs gs,
  )

  filed_tests :
      (a b c d e f : Bool) → a ≡ (b || c) → c ≡ (d || false) → (b || e) ≡ f → (a || e) ≡ (f || d)
  filed_tests a b c d e f p q r = ground arith

  pub append-spooled :
      (d : Disk) (events : List Event) (s : AuditSpool)
      → has id (spooled (some (append d events s).1))
        ≡ (has id (spooled (some s)) || ((append d events s).0 && has id events))
  unfolding append
  append-spooled d [] s = ground arith
  append-spooled d (e ∷ es) s = elim (Bool-cases (ltb s.max_bytes (s.size + d.encoded (e ∷ es)))) [
    | inl q ↦ rw q (ground arith)
    | inr q ↦ elim (Bool-cases d.accepts) [
      | inr r ↦ rw (q, r) (ground arith)
      | inl r ↦ rw (q, r) (filed (e ∷ es))
    ]
  ]
    where
      filed :
          (new : List Event)
          → has id (spooled (some (with_file d new s))) ≡ (has id (spooled (some s)) || has id new)
      filed new =
          has-append id (events_of (with_file d new s).files) (events_of s.aside)
          ∙ filed_tests _ (has id (events_of s.files)) _ (has id new) (has id (events_of s.aside)) _
              (events-append s.files _) (has-append id new [])
              (sym (has-append id (events_of s.files) (events_of s.aside)))

  -- an event of the batch, or one that is somewhere, is somewhere afterwards
  abbrev Places : (List Event → Writer → Writer) → Type 0
  Places op =
      (batch : List Event) (w : Writer)
      → (has id batch || held id w) ≡ true
      → held id (op batch w) ≡ true

  pub drop-Places : Places drop_events
  drop-Places batch w h =
      dropped_tests (has id w.queue) (has id w.inflight) (has id w.overflow)
        (has id (spooled w.spool)) (has id w.table) (has id w.dropped) (has id batch) _
        (has-append id w.dropped batch) h
    where
      dropped_tests :
          (q i o s t d b d' : Bool)
          → d' ≡ (d || b)
          → (b || (q || (i || (o || (s || (t || d)))))) ≡ true
          → (q || (i || (o || (s || (t || d'))))) ≡ true
      dropped_tests q i o s t d b d' e h = ground arith

  rows-Places : Places (λ batch w. record w { table = insert_all batch w.table })
  rows-Places batch w h =
      row_tests (has id w.queue) (has id w.inflight) (has id w.overflow) (has id (spooled w.spool))
        (has id w.table) (has id w.dropped) (has id batch) _ (has-insert_all batch w.table) h
    where
      row_tests :
          (q i o s t d b t' : Bool)
          → t' ≡ (b || t)
          → (b || (q || (i || (o || (s || (t || d)))))) ≡ true
          → (q || (i || (o || (s || (t' || d))))) ≡ true
      row_tests q i o s t d b t' e h = ground arith

  -- a spool that took the batch, or that did not change what it holds
  spool-Places :
      (d : Disk) (batch : List Event) (s : AuditSpool) (w : Writer)
      → w.spool ≡ some s
      → (has id batch || held id w) ≡ true
      → held id (spilled batch (append d batch s) w) ≡ true
  spool-Places d batch s w e h = cases (append d batch s) (append-spooled d batch s)
    where
      spool_tests :
          (q i o s t d b s' : Bool)
          → s' ≡ (s || (true && b))
          → (b || (q || (i || (o || (s || (t || d)))))) ≡ true
          → (q || (i || (o || (s' || (t || d))))) ≡ true
      spool_tests q i o s t d b s' e h = ground arith

      kept_tests :
          (q i o s t d b s' : Bool)
          → s' ≡ (s || (false && b))
          → (b || (q || (i || (o || (s || (t || d)))))) ≡ true
          → (b || (q || (i || (o || (s' || (t || d)))))) ≡ true
      kept_tests q i o s t d b s' e h = ground arith

      h' :
          (has id batch
            || (has id w.queue
                || (has id w.inflight
                    || (has id w.overflow
                        || (has id (spooled (some s)) || (has id w.table || has id w.dropped))))))
          ≡ true
      h' =
          subst
            (λ o.
              (has id batch
                || (has id w.queue
                    || (has id w.inflight
                        || (has id w.overflow
                            || (has id (spooled o) || (has id w.table || has id w.dropped))))))
              ≡ true)
            e h

      cases :
          (r : Bool × AuditSpool)
          → has id (spooled (some r.1)) ≡ (has id (spooled (some s)) || (r.0 && has id batch))
          → held id (spilled batch r w) ≡ true
      cases (true, s') q =
          spool_tests (has id w.queue) (has id w.inflight) (has id w.overflow)
            (has id (spooled (some s))) (has id w.table) (has id w.dropped) (has id batch) _ q h'
      cases (false, s') q =
          drop-Places batch (record w { spool = some s' })
            (kept_tests (has id w.queue) (has id w.inflight) (has id w.overflow)
              (has id (spooled (some s))) (has id w.table) (has id w.dropped) (has id batch) _ q h')

  pub spill-Places : (d : Disk) → Places (spill d)
  unfolding spill
  spill-Places d [] w h = h
  spill-Places d (e ∷ es) w h = go w.spool refl
    where
      go : (o : Option AuditSpool) → w.spool ≡ o → held id (spill_to d (e ∷ es) o w) ≡ true
      go none q = drop-Places (e ∷ es) w h
      go (some s) q = spool-Places d (e ∷ es) s w q h

  pub still :
      (a : Attempt) (batch : List Event) (w : Writer)
      → (has id batch || held id w) ≡ true
      → (has id batch || held id (write a batch w).1) ≡ true
  unfolding write
  still stored batch w h = or_right (has id batch) (rows-Places batch w h)
  still refused batch w h = h
  still unsure batch w h = or_right (has id batch) (rows-Places batch w h)

  written :
      (a : Attempt) (batch : List Event) (w : Writer)
      → (write a batch w).0 ≡ true
      → (has id batch || held id w) ≡ true
      → held id (write a batch w).1 ≡ true
  unfolding write
  written stored batch w r h = rows-Places batch w h
  written refused batch w r h = absurd (clash r refl)
  written unsure batch w r h = absurd (clash r refl)

  pub try-Places : (d : Disk) (answers : List Attempt) → Places (try_batch d answers)
  unfolding try_batch
  try-Places d [] batch w h = spill-Places d batch w h
  try-Places d (a ∷ rest) batch w h = elim (Bool-cases (write a batch w).0) [
    | inl r ↦ rw r (written a batch w r h)
    | inr r ↦ rw r (try-Places d rest batch (write a batch w).1 (still a batch w h))
  ]

abbrev pub union : List (List Event) → List Event
union [] = []
union (b ∷ bs) = b ++ union bs

pub take-drop : (n : ℕ) (xs : List Event) → (take n xs ++ drop n xs) ≡ xs
take-drop zero xs = refl
take-drop (suc n) [] = refl
take-drop (suc n) (x ∷ xs) = ap (λ t. x ∷ t) (take-drop n xs)

-- Cut into slices of at least one, with as much fuel as there are events, a list is all there.
pub union-slices :
    (fuel n : ℕ) (xs : List Event) → 1 ≤ n → length xs ≤ fuel → union (slices fuel n xs) ≡ xs
unfolding slices
union-slices zero n [] h l = refl
union-slices zero n (x ∷ xs) h l = absurd (omega arith)
union-slices (suc fuel) n [] h l = refl
union-slices (suc fuel) n (x ∷ xs) h l =
    ap (λ t. take n (x ∷ xs) ++ t)
      (union-slices fuel n (drop n (x ∷ xs)) h (omega (arith, length-drop n (x ∷ xs))))
    ∙ take-drop n (x ∷ xs)
