-- ===== src/Guardrails/Registry/Narrowest.antt =====
-- The narrowest scope decides for each guardrail.
use mathlib.Core.List.{foldl}
use policy_guardrails_agent.Prelude.{
  if◌then◌else◌, ltb, Bool-cases, All, str_eq, eq_iff, lookup, put, lookup-put, ◌≤◌, String, ◌≡◌,
  refl, sym, ap, ◌∙◌, subst, ◌⊎◌, inl, inr, Bool, true, false, ◌&&◌, Option, none, some, List, [],
  ◌∷◌, ◌++◌, arith,
}
use policy_guardrails_agent.Sdk.Models.{Stage}
use policy_guardrails_agent.Session.Keys.{string_eq}
use policy_guardrails_agent.Guardrails.Assignment.{BoundGuardrail}
use policy_guardrails_agent.Guardrails.Registry.{
  choose, wins, priority, active, in_order, insert, resolve, applies, goes_after,
}

-- no key stands twice
abbrev Unique : List (String × BoundGuardrail) → Type 0
Unique [] = Unit
Unique ((k, b) ∷ m) = (lookup k m ≡ none) × Unique m

put-Unique :
    (k : String) (b : BoundGuardrail) (m : List (String × BoundGuardrail))
    → Unique m
    → Unique (put k b m)
unfolding put lookup
put-Unique k b [] u = (refl, tt)
put-Unique k b ((j, c) ∷ m) u = elim (Bool-cases (str_eq j k)) [
  | inl e ↦ rw e (rw (← (eq_iff j k).0 e) u.0, u.1)
  | inr e ↦ rw e ((lookup-put k j b m ∙ (rw (different e) u.0)), put-Unique k b m u.1)
]
  where
    different : str_eq j k ≡ false → str_eq k j ≡ false
    different e = ground (arith, eq_iff j k, eq_iff k j)

-- a key that stands before another entry is not that entry's
later_found :
    (j i : String) (c d : BoundGuardrail) (n : List (String × BoundGuardrail))
    → lookup j n ≡ none
    → lookup i n ≡ some d
    → lookup i ((j, c) ∷ n) ≡ some d
unfolding lookup
later_found j i c d n fresh f = elim (Bool-cases (str_eq j i)) [
  | inr e ↦ rw e f
  | inl e ↦ absurd (clash (subst (λ x. lookup x n ≡ some d) (sym ((eq_iff j i).0 e)) f))
]
  where
    clash : lookup j n ≡ some d → ⊥
    clash g = cc

first_found :
    (j : String) (c : BoundGuardrail) (n : List (String × BoundGuardrail))
    → lookup j ((j, c) ∷ n) ≡ some c
unfolding lookup
first_found j c n = rw ((eq_iff j j).1 refl) refl

-- an entry is the one that a lookup of its key finds
entries_found :
    (m : List (String × BoundGuardrail)) → Unique m → All (λ e. lookup e.0 m ≡ some e.1) m
entries_found m u = go m u (λ j c h. h)
  where
    go :
        (n : List (String × BoundGuardrail))
        → Unique n
        → ((j : String) (c : BoundGuardrail) → lookup j n ≡ some c → lookup j m ≡ some c)
        → All (λ e. lookup e.0 m ≡ some e.1) n
    go [] u h = tt
    go ((j, c) ∷ n) u h =
        (h j c (first_found j c n), go n u.1 (λ i d f. h i d (later_found j i c d n u.0 f)))

-- the entry for `c`'s guardrail is `c` or one of a scope at least as narrow
abbrev Beats : BoundGuardrail → List (String × BoundGuardrail) → Type 0
Beats c m =
    (x : BoundGuardrail) × (lookup c.assignment.guardrail_id m ≡ some x) × (priority c ≤ priority x)

module _ (ok : BoundGuardrail → Bool) where
  choose-Unique :
      (m : List (String × BoundGuardrail)) (d : BoundGuardrail) → Unique m → Unique (choose ok m d)
  unfolding choose
  choose-Unique m d u = elim (Bool-cases (ok d && wins d (lookup d.assignment.guardrail_id m))) [
    | inl e ↦ rw e (put-Unique d.assignment.guardrail_id d m u)
    | inr e ↦ rw e u
  ]

  choose-Beats :
      (c d : BoundGuardrail) (m : List (String × BoundGuardrail))
      → Beats c m
      → Beats c (choose ok m d)
  unfolding choose
  choose-Beats c d m (x, f, h) =
      elim (Bool-cases (ok d && wins d (lookup d.assignment.guardrail_id m))) [
        | inr e ↦ rw e (x, f, h)
        | inl e ↦ elim (Bool-cases (str_eq d.assignment.guardrail_id c.assignment.guardrail_id)) [
          | inr n ↦
              rw e (
                x,
                (lookup-put d.assignment.guardrail_id c.assignment.guardrail_id d m ∙ rw n f),
                h,
              )
          | inl y ↦ rw e (
            d,
            (lookup-put d.assignment.guardrail_id c.assignment.guardrail_id d m ∙ rw y refl),
            beaten (eq_of y) e,
          )
        ]
      ]
    where
      eq_of :
          str_eq d.assignment.guardrail_id c.assignment.guardrail_id ≡ true
          → lookup d.assignment.guardrail_id m ≡ some x
      eq_of y = rw ((eq_iff d.assignment.guardrail_id c.assignment.guardrail_id).0 y) f

      beaten :
          lookup d.assignment.guardrail_id m ≡ some x
          → (ok d && wins d (lookup d.assignment.guardrail_id m)) ≡ true
          → priority c ≤ priority d
      beaten g e = stronger (ok d) (rw g at e)
        where
          stronger : (b : Bool) → (b && wins d (some x)) ≡ true → priority c ≤ priority d
          stronger b k = ground arith

  chosen-Beats :
      (c : BoundGuardrail) (m : List (String × BoundGuardrail))
      → ok c ≡ true
      → Beats c (choose ok m c)
  unfolding choose
  chosen-Beats c m y = start (lookup c.assignment.guardrail_id m) refl
    where
      start :
          (o : Option BoundGuardrail)
          → lookup c.assignment.guardrail_id m ≡ o
          → Beats c (
              if ok c && wins c (lookup c.assignment.guardrail_id m)
              then put c.assignment.guardrail_id c m
              else m)
      start none f = rw (f, y) (c, found, omega arith)
        where
          found : lookup c.assignment.guardrail_id (put c.assignment.guardrail_id c m) ≡ some c
          found =
              lookup-put c.assignment.guardrail_id c.assignment.guardrail_id c m
              ∙ rw ((eq_iff c.assignment.guardrail_id c.assignment.guardrail_id).1 refl) refl
      start (some x) f = elim (Bool-cases (ltb (priority x) (priority c))) [
        | inl l ↦ rw (f, y, l) (c, found, omega arith)
        | inr l ↦ rw (f, y, l) (x, f, ground arith)
      ]
        where
          found : lookup c.assignment.guardrail_id (put c.assignment.guardrail_id c m) ≡ some c
          found =
              lookup-put c.assignment.guardrail_id c.assignment.guardrail_id c m
              ∙ rw ((eq_iff c.assignment.guardrail_id c.assignment.guardrail_id).1 refl) refl

  fold-Unique :
      (bs : List BoundGuardrail) (m : List (String × BoundGuardrail))
      → Unique m
      → Unique (foldl (choose ok) m bs)
  fold-Unique [] m u = u
  fold-Unique (b ∷ bs) m u = fold-Unique bs (choose ok m b) (choose-Unique m b u)

  fold-Beats :
      (c : BoundGuardrail) (bs : List BoundGuardrail) (m : List (String × BoundGuardrail))
      → Beats c m
      → Beats c (foldl (choose ok) m bs)
  fold-Beats c [] m h = h
  fold-Beats c (b ∷ bs) m h = fold-Beats c bs (choose ok m b) (choose-Beats c b m h)

  reaches-Beats :
      (c : BoundGuardrail) (xs ys : List BoundGuardrail) (m : List (String × BoundGuardrail))
      → ok c ≡ true
      → Beats c (foldl (choose ok) m (xs ++ c ∷ ys))
  reaches-Beats c [] ys m y = fold-Beats c ys (choose ok m c) (chosen-Beats c m y)
  reaches-Beats c (x ∷ xs) ys m y = reaches-Beats c xs ys (choose ok m x) y

  -- each entry has its own key and passed the tests
  abbrev IsKept : String × BoundGuardrail → Type 0
  IsKept e = (e.1.assignment.guardrail_id ≡ e.0) × (ok e.1 ≡ true)

  All-put :
      (k : String) (b : BoundGuardrail) (m : List (String × BoundGuardrail))
      → All IsKept m
      → IsKept (k, b)
      → All IsKept (put k b m)
  unfolding put
  All-put k b [] a h = (h, tt)
  All-put k b ((j, c) ∷ m) a h = elim (Bool-cases (str_eq j k)) [
    | inl e ↦ rw e (h, a.1)
    | inr e ↦ rw e (a.0, All-put k b m a.1 h)
  ]

  fold-IsKept :
      (bs : List BoundGuardrail) (m : List (String × BoundGuardrail))
      → All IsKept m
      → All IsKept (foldl (choose ok) m bs)
  fold-IsKept [] m a = a
  fold-IsKept (b ∷ bs) m a = fold-IsKept bs (choose ok m b) kept
    where
      and_left : (x y : Bool) → (x && y) ≡ true → x ≡ true
      and_left true y h = refl
      and_left false y h = h

      kept : All IsKept (choose ok m b)
      kept =
          unfold choose in
          elim (Bool-cases (ok b && wins b (lookup b.assignment.guardrail_id m))) [
            | inl e ↦ rw e (All-put b.assignment.guardrail_id b m a (refl, and_left (ok b) _ e))
            | inr e ↦ rw e a
          ]

-- what holds of every guardrail that runs, against one assignment `c`
abbrev pub Prevails : (BoundGuardrail → Bool) → BoundGuardrail → BoundGuardrail → Type 0
Prevails ok c b =
    (ok b ≡ true)
    × (b.assignment.enabled ≡ true)
    × ((str_eq b.assignment.guardrail_id c.assignment.guardrail_id ≡ false)
        ⊎ (priority c ≤ priority b))

module _ (ok : BoundGuardrail → Bool) (c : BoundGuardrail) where
  if_cons :
      (e : Bool) (b : BoundGuardrail) (rest : List BoundGuardrail)
      → (e ≡ true → Prevails ok c b)
      → All (Prevails ok c) rest
      → All (Prevails ok c) (if e then b ∷ rest else rest)
  if_cons true b rest h a = (h refl, a)
  if_cons false b rest h a = a

  active-Prevails :
      (n m : List (String × BoundGuardrail))
      → Beats c m
      → All (IsKept ok) n
      → All (λ e. lookup e.0 m ≡ some e.1) n
      → All (Prevails ok c) (active n)
  active-Prevails [] m h a f = tt
  active-Prevails ((k, b) ∷ n) m h a f =
      if_cons b.assignment.enabled b (active n) (λ e. (a.0.1, e, decided h))
        (active-Prevails n m h a.1 f.1)
    where
      same : {x y : BoundGuardrail} → some x ≡ some y → x ≡ y
      same e = cc

      beats :
          Beats c m
          → b.assignment.guardrail_id ≡ c.assignment.guardrail_id
          → priority c ≤ priority b
      beats (x, g, l) i =
          subst (λ y. priority c ≤ priority y)
            (same (sym g ∙ (ap (λ y. lookup y m) (sym i ∙ a.0.0) ∙ f.0))) l

      decided :
          Beats c m
          → (str_eq b.assignment.guardrail_id c.assignment.guardrail_id ≡ false)
            ⊎ (priority c ≤ priority b)
      decided x = elim (Bool-cases (str_eq b.assignment.guardrail_id c.assignment.guardrail_id)) [
        | inl e ↦ inr (beats x ((eq_iff b.assignment.guardrail_id c.assignment.guardrail_id).0 e))
        | inr e ↦ inl e
      ]

  insert-Prevails :
      (b : BoundGuardrail) (bs : List BoundGuardrail)
      → Prevails ok c b
      → All (Prevails ok c) bs
      → All (Prevails ok c) (insert b bs)
  unfolding insert
  insert-Prevails b [] h a = (h, tt)
  insert-Prevails b (d ∷ bs) h a = elim (Bool-cases (goes_after b d)) [
    | inl e ↦ rw e (a.0, insert-Prevails b bs h a.1)
    | inr e ↦ rw e (h, a)
  ]

  in_order-Prevails :
      (bs : List BoundGuardrail) → All (Prevails ok c) bs → All (Prevails ok c) (in_order bs)
  unfolding in_order
  in_order-Prevails [] a = tt
  in_order-Prevails (b ∷ bs) a = insert-Prevails b (in_order bs) a.0 (in_order-Prevails bs a.1)

-- Every guardrail that runs for a request applies to its tenant, agent and stage and is enabled,
-- and no applying assignment of the same guardrail, enabled or not, has a narrower scope.
pub resolve_narrowest :
    (version environment tenant agent : String) (stage : Stage) (xs ys : List BoundGuardrail)
    (c : BoundGuardrail)
    → applies tenant agent stage c ≡ true
    → All (Prevails (applies tenant agent stage) c) (
        resolve
          (record { version = version; environment = environment; bound = xs ++ c ∷ ys })
          tenant
          agent
          stage)
unfolding resolve
resolve_narrowest version environment tenant agent stage xs ys c y =
    let ok : BoundGuardrail → Bool = applies tenant agent stage in
    let m : List (String × BoundGuardrail) = foldl (choose ok) [] (xs ++ c ∷ ys) in
    in_order-Prevails ok c (active m) (
      active-Prevails ok c m m (reaches-Beats ok c xs ys [] y) (fold-IsKept ok (xs ++ c ∷ ys) [] tt)
        (entries_found m (fold-Unique ok (xs ++ c ∷ ys) [] tt)))
