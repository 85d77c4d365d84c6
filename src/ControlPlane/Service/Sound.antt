-- ===== src/ControlPlane/Service/Sound.antt =====
-- Reasoning on services: what holds of the store behind a method, whether it returns or raises, and
-- of the value that it returns.
use policy_guardrails_agent.Prelude.{
  if◌then◌else◌, Bool-cases, String, ◌≡◌, refl, subst, inl, inr, Bool, true, false, Option, none,
  some,
}
use policy_guardrails_agent.ControlPlane.Store.{MemoryStore}
use policy_guardrails_agent.ControlPlane.Service.{
  Error, get, Service, Result, raise_if, given_or, raise, ok, ◌>>=◌, raised, ◌>>◌, modify, pure,
  require,
}
use policy_guardrails_agent.ControlPlane.Rbac.{Principal, Permission, can}

abbrev pub Sound :
    {A : Type 0} → (MemoryStore → Type 0) → (A → Type 0) → Result A × MemoryStore → Type 0
Sound I Q (ok a, s) = I s × Q a
Sound I Q (raised e, s) = I s

-- a method that keeps the store's property
abbrev pub Keeps : {A : Type 0} → (MemoryStore → Type 0) → (A → Type 0) → Service A → Type 0
Keeps I Q m = (s : MemoryStore) → I s → Sound I Q (m s)

abbrev pub Any : {A : Type 0} → A → Type 0
Any a = Unit

module _ {A B : Type 0} (I : MemoryStore → Type 0) (Q : A → Type 0) (R : B → Type 0) where
  Sound-then :
      (r : Result A × MemoryStore) (f : A → Service B)
      → Sound I Q r
      → ((a : A) → Q a → Keeps I R (f a))
      → Sound I R (let (o, s) = r in elim o [ ok a ↦ f a s | raised e ↦ (raised e, s) ])
  Sound-then (ok a, s) f h k = k a h.1 s h.0
  Sound-then (raised e, s) f h k = h

  pub Keeps-bind :
      (m : Service A) (f : A → Service B)
      → Keeps I Q m
      → ((a : A) → Q a → Keeps I R (f a))
      → Keeps I R (m >>= f)
  unfolding ◌>>=◌
  Keeps-bind m f h k s i = Sound-then (m s) f (h s i) k

module _ {A : Type 0} (I : MemoryStore → Type 0) where
  pub Keeps-get : (f : MemoryStore → A) → Keeps I Any (get f)
  unfolding get
  Keeps-get f s i = (i, tt)

  pub Keeps-given_or : (o : Option A) (e : Error) → Keeps I Any (given_or o e)
  unfolding given_or
  Keeps-given_or none e s i = i
  Keeps-given_or (some a) e s i = (i, tt)

  pub Keeps-raise : (Q : A → Type 0) (e : Error) → Keeps I Q (raise e)
  unfolding raise
  Keeps-raise Q e s i = i

pub Keeps-raise_if :
    (I : MemoryStore → Type 0) (b : Bool) (e : Error) → Keeps I (λ _. b ≡ false) (raise_if b e)
unfolding raise_if
Keeps-raise_if I true e s i = i
Keeps-raise_if I false e s i = (i, refl)

module _ {A : Type 0} (I : MemoryStore → Type 0) (Q : A → Type 0) where
  pub Keeps-pure : (a : A) → Q a → Keeps I Q (pure a)
  unfolding pure
  Keeps-pure a q s i = (i, q)

  pub Keeps-if :
      (b : Bool) (m n : Service A)
      → (b ≡ true → Keeps I Q m)
      → (b ≡ false → Keeps I Q n)
      → Keeps I Q (if b then m else n)
  Keeps-if true m n h k = h refl
  Keeps-if false m n h k = k refl

  pub Keeps-after :
      {B : Type 0} (m : Service B) (n : Service A)
      → Keeps I Any m
      → Keeps I Q n
      → Keeps I Q (m >> n)
  Keeps-after m n h k = Keeps-bind I Any Q m (λ _. n) h (λ _ _. k)

pub Keeps-modify :
    (I : MemoryStore → Type 0) (f : MemoryStore → MemoryStore)
    → ((s : MemoryStore) → I s → I (f s))
    → Keeps I Any (modify f)
unfolding modify
Keeps-modify I f h s i = (h s i, tt)

abbrev pub OnSome : {A : Type 0} → (A → Type 0) → Option A → Type 0
OnSome P none = Unit
OnSome P (some a) = P a

module _ {A : Type 0} (I : MemoryStore → Type 0) where
  pub Keeps-read :
      (Q : A → Type 0) (f : MemoryStore → A)
      → ((s : MemoryStore) → I s → Q (f s))
      → Keeps I Q (get f)
  unfolding get
  Keeps-read Q f h s i = (i, h s i)

  pub Keeps-some :
      (P : A → Type 0) (o : Option A) (e : Error) → OnSome P o → Keeps I P (given_or o e)
  unfolding given_or
  Keeps-some P none e h s i = i
  Keeps-some P (some a) e h s i = (i, h)

pub Keeps-require :
    (I : MemoryStore → Type 0) (p : Principal) (permission : Permission) (tenant : Option String)
    → Keeps I (λ _. can p permission tenant ≡ true) (require p permission tenant)
unfolding require raise_if
Keeps-require I p permission tenant s i = elim (Bool-cases (can p permission tenant)) [
  | inl e ↦ rw e (i, refl)
  | inr e ↦ rw e i
]

-- a service that only reads
pub Sound-result :
    {A : Type 0} (I : MemoryStore → Type 0) (r : Result A) (s : MemoryStore)
    → I s
    → Sound I Any (r, s)
Sound-result I (ok a) s i = (i, tt)
Sound-result I (raised e) s i = i

pub ok_inj : {A : Type 0} {a b : A} → ok a ≡ ok b → a ≡ b
ok_inj h = cc

pub raised_ok : {A : Type 0} {e : Error} {a : A} → raised e ≡ ok a → ⊥
raised_ok h = cc

module _ {A : Type 0} (I : MemoryStore → Type 0) (Q R : A → Type 0) where
  Sound-weaken : (r : Result A × MemoryStore) → ((a : A) → Q a → R a) → Sound I Q r → Sound I R r
  Sound-weaken (ok a, s) f h = (h.0, f a h.1)
  Sound-weaken (raised e, s) f h = h

  pub Keeps-weaken : (m : Service A) → ((a : A) → Q a → R a) → Keeps I Q m → Keeps I R m
  Keeps-weaken m f k s i = Sound-weaken (m s) f (k s i)

-- the store behind a method that keeps a property
pub Keeps-store :
    {A : Type 0} (I : MemoryStore → Type 0) (Q : A → Type 0) (m : Service A) (s : MemoryStore)
    → Keeps I Q m
    → I s
    → I (m s).1
Keeps-store I Q m s k i = go (m s) (k s i)
  where
    go : (r : Result _ × MemoryStore) → Sound I Q r → I r.1
    go (ok a, s') h = h.0
    go (raised e, s') h = h

-- the value of a method that returns
pub Keeps-value :
    {A : Type 0} (I : MemoryStore → Type 0) (Q : A → Type 0) (m : Service A) (a : A)
    (s : MemoryStore)
    → (m s).0 ≡ ok a
    → Keeps I Q m
    → I s
    → Q a
Keeps-value I Q m a s e k i = go (m s) e (k s i)
  where
    go : (r : Result _ × MemoryStore) → r.0 ≡ ok a → Sound I Q r → Q a
    go (ok b, s') e h = subst Q (ok_inj e) h.1
    go (raised x, s') e h = absurd (raised_ok e)
