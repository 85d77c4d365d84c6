-- ===== src/Gateway/Auth/Cached.antt =====
-- How long a revoked key is still accepted. A call's time is the clock's reading before its lookup.
use policy_guardrails_agent.Prelude.{
  if◌then◌else◌, ltb, Bool-cases, length, keep, All, str_eq, eq_iff, lookup, put, ℕ, ◌+◌, ◌≤◌, max,
  String, ◌≡◌, refl, subst, ◌⊎◌, inl, inr, Bool, ◌||◌, Option, none, some, List, [], ◌∷◌, arith,
}
use policy_guardrails_agent.Session.Keys.{string_eq}
use policy_guardrails_agent.Gateway.Auth.{
  Principal, Entry, Authenticator, authenticate, ask_store, from_cache, with_key, usable, live,
  ttl_for, swept, restarted,
}

-- a call of `authenticate`, with the key store as it was then. One that overlaps with others found no
-- answer in the cache when it began, and remembers the store's when the others may have run.
pub record Call : Type 0 where
  pub store : String → Option Principal
  pub now : ℕ
  pub raw_key : Option String
  pub scope : String
  pub overlaps : Bool

abbrev remembered : (String → String) → Call → Option String → Authenticator → Authenticator
remembered hash c none a = a
remembered hash c (some k) a = (ask_store c.store c.now (hash k) a).1

-- the cache behind a call
abbrev behind : (String → String) → Call → Authenticator → Authenticator
behind hash c a =
    if c.overlaps
    then remembered hash c (usable c.raw_key) a
    else (authenticate hash c.store c.now c.raw_key c.scope a).1

-- the cache behind a sequence of calls
unfoldable pub authenticate_all : (String → String) → List Call → Authenticator → Authenticator
unfolding authenticate ask_store
authenticate_all hash [] a = a
authenticate_all hash (c ∷ cs) a = authenticate_all hash cs (behind hash c a)

All-put :
    (P : String × Entry → Type 0) (k : String) (e : Entry) (m : List (String × Entry))
    → All P m
    → P (k, e)
    → All P (put k e m)
unfolding put
All-put P k e [] a h = (h, tt)
All-put P k e ((j, d) ∷ m) a h = elim (Bool-cases (str_eq j k)) [
  | inl y ↦ rw y (h, a.1)
  | inr n ↦ rw n (a.0, All-put P k e m a.1 h)
]

All-keep :
    (P : String × Entry → Type 0) (f : String × Entry → Bool) (m : List (String × Entry))
    → All P m
    → All P (keep f m)
All-keep P f [] a = tt
All-keep P f (e ∷ m) a = elim (Bool-cases (f e)) [
  | inl y ↦ rw y (a.0, All-keep P f m a.1)
  | inr n ↦ rw n (All-keep P f m a.1)
]

All-swept :
    (P : String × Entry → Type 0) (now : ℕ) (m : List (String × Entry))
    → All P m
    → All P (swept now m)
All-swept P now m a = elim (Bool-cases (ltb 10000 (length m))) [
  | inl y ↦ rw y (All-keep P (λ e. ltb now e.1.until) m a)
  | inr n ↦ rw n a
]

ttl_for_le : (a : Authenticator) (p : Option Principal) → ttl_for a p ≤ max a.ttl a.neg_ttl
ttl_for_le a none = omega arith
ttl_for_le a (some p) = omega arith

-- the program's lookup of this hash: what it may find is no longer served after `limit`
abbrev Ends : String → ℕ → String × Entry → Type 0
Ends h limit e = e.0 ≡ h → (e.1.until ≤ limit) ⊎ (e.1.principal ≡ none)

record IsEnding (h : String) (limit ttl neg_ttl : ℕ) (a : Authenticator) : Type 0 where
  same_ttl : a.ttl ≡ ttl
  same_neg_ttl : a.neg_ttl ≡ neg_ttl
  cache : All (Ends h limit) a.cache

-- the call was made by `revoked`, or to a store that does not know the key
abbrev pub Precedes : String → ℕ → Call → Type 0
Precedes h revoked c = (c.now ≤ revoked) ⊎ (c.store h ≡ none)

module _ (hash : String → String) (h : String) (revoked ttl neg_ttl : ℕ) where
  abbrev Holds : Authenticator → Type 0
  Holds = IsEnding h (revoked + max ttl neg_ttl) ttl neg_ttl

  asked :
      (c : Call) (k : String) (a : Authenticator)
      → Precedes h revoked c
      → Holds a
      → Holds (ask_store c.store c.now k a).1
  unfolding ask_store
  asked c k a p i = record {
    same_ttl = i.same_ttl;
    same_neg_ttl = i.same_neg_ttl;
    cache =
        All-swept (Ends h (revoked + max ttl neg_ttl)) c.now _
          (All-put (Ends h (revoked + max ttl neg_ttl)) k _ a.cache i.cache (ends p));
  }
    where
      ends :
          Precedes h revoked c
          → k ≡ h
          → (c.now + ttl_for a (c.store k) ≤ revoked + max ttl neg_ttl) ⊎ (c.store k ≡ none)
      ends (inl early) e =
          inl (omega (arith, early, ttl_for_le a (c.store k), i.same_ttl, i.same_neg_ttl))
      ends (inr unknown) e = inr (rw e unknown)

  called :
      (c : Call) (a : Authenticator)
      → Precedes h revoked c
      → Holds a
      → Holds (authenticate hash c.store c.now c.raw_key c.scope a).1
  unfolding authenticate ask_store
  called c a p i = by_key (usable c.raw_key)
    where
      by_entry : (k : String) (o : Option Entry) → Holds (from_cache c.store c.now k a o).1
      by_entry k (some e) = i
      by_entry k none = asked c k a p i

      by_key : (o : Option String) → Holds (with_key hash c.store c.now c.scope a o).1
      by_key none = i
      by_key (some k) = by_entry (hash k) (live c.now (lookup (hash k) a.cache))

  called_behind :
      (c : Call) (a : Authenticator) → Precedes h revoked c → Holds a → Holds (behind hash c a)
  called_behind c a p i = elim (Bool-cases c.overlaps) [
    | inl y ↦ rw y (by_key (usable c.raw_key))
    | inr n ↦ rw n (called c a p i)
  ]
    where
      by_key : (o : Option String) → Holds (remembered hash c o a)
      by_key none = i
      by_key (some k) = asked c (hash k) a p i

  called_all :
      (cs : List Call) (a : Authenticator)
      → All (Precedes h revoked) cs
      → Holds a
      → Holds (authenticate_all hash cs a)
  unfolding authenticate_all
  called_all [] a p i = i
  called_all (c ∷ cs) a p i = called_all cs (behind hash c a) p.1 (called_behind c a p.0 i)

served :
    (now : ℕ) (o : Option Entry)
    → ((e : Entry) → o ≡ some e → (e.until ≤ now) ⊎ (e.principal ≡ none))
    → (live now o ≡ none) ⊎ ((e : Entry) × ((live now o ≡ some e) × (e.principal ≡ none)))
served now none h = inl refl
served now (some e) h = elim (Bool-cases (ltb now e.until)) [
  | inr n ↦ inl (rw n refl)
  | inl y ↦ elim (h e refl) [
    | inl late ↦ absurd (ground arith)
    | inr none_there ↦ inr (e, (rw y refl, none_there))
  ]
]

found_ends :
    (P : String × Entry → Type 0) (k : String) (m : List (String × Entry)) (e : Entry)
    → All P m
    → lookup k m ≡ some e
    → P (k, e)
unfolding lookup
found_ends P k [] e a h = cc
found_ends P k ((j, d) ∷ m) e a h = elim (Bool-cases (str_eq j k)) [
  | inl y ↦ subst (λ i. P (i, e)) ((eq_iff j k).0 y) (subst (λ x. P (j, x)) (same (rw y at h)) a.0)
  | inr n ↦ found_ends P k m e a.1 (rw n at h)
]
  where
    same : some d ≡ some e → d ≡ e
    same x = cc

-- A key that was revoked is turned away once the longer time to live has passed. From a start with
-- an empty cache, let any calls be made, with any keys, in any order and overlapping, each of them by
-- the moment `revoked` or to a store that does not know the key (any more). Then a call with that key at
-- `revoked` plus the longer time to live, or later, is refused.
pub revoked_refused :
    (hash : String → String) (store : String → Option Principal) (ttl neg_ttl revoked now : ℕ)
    (raw_key scope : String) (calls : List Call)
    → All (Precedes (hash raw_key) revoked) calls
    → revoked + max ttl neg_ttl ≤ now
    → store (hash raw_key) ≡ none
    → (authenticate hash store now
        (some raw_key)
        scope
        (authenticate_all hash calls (restarted ttl neg_ttl))).0
      ≡ none
unfolding authenticate ask_store
revoked_refused hash store ttl neg_ttl revoked now raw_key scope calls before late unknown =
    used (usable (some raw_key)) (usable_key raw_key)
  where
    a : Authenticator
    a = authenticate_all hash calls (restarted ttl neg_ttl)

    usable_key : (k : String) → (usable (some k) ≡ none) ⊎ (usable (some k) ≡ some k)
    usable_key k = elim (Bool-cases (str_eq k "" || ltb 256 (Prim.Native.String.len k))) [
      | inl y ↦ inl (rw y refl)
      | inr n ↦ inr (rw n refl)
    ]

    holds : Holds hash (hash raw_key) revoked ttl neg_ttl a
    holds =
        called_all hash (hash raw_key) revoked ttl neg_ttl calls (restarted ttl neg_ttl) before
          (record { same_ttl = refl; same_neg_ttl = refl; cache = tt })

    ends :
        (e : Entry)
        → lookup (hash raw_key) a.cache ≡ some e
        → (e.until ≤ now) ⊎ (e.principal ≡ none)
    ends e f =
        elim (found_ends (Ends (hash raw_key) (revoked + max ttl neg_ttl)) (hash raw_key) a.cache e
          holds.cache f refl) [ inl l ↦ inl (omega (arith, l, late)) | inr n ↦ inr n ]

    used :
        (o : Option String)
        → (o ≡ none) ⊎ (o ≡ some raw_key)
        → (with_key hash store now scope a o).0 ≡ none
    used o (inl e) = rw e refl
    used o (inr e) = elim (served now (lookup (hash raw_key) a.cache) ends) [
      | inl dead ↦ rw (e, dead, unknown) refl
      | inr (d, (alive, empty)) ↦ rw (e, alive, empty) refl
    ]
