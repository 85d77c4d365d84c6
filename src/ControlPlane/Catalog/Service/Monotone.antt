-- ===== src/ControlPlane/Catalog/Service/Monotone.antt =====
-- Catalogs are published at strictly later times, and only where something changed.
use policy_guardrails_agent.Prelude.{
  Bool-cases, ℕ, ◌<◌, String, inl, inr, Option, none, some, List, [], ◌∷◌, ◌++◌, arith,
}
use policy_guardrails_agent.ControlPlane.Catalog.Service.{
  publish_catalog, later, CatalogCtx, is_same, contents,
}
use policy_guardrails_agent.ControlPlane.Records.{CatalogRecord}
use policy_guardrails_agent.ControlPlane.Store.{last_of, MemoryStore, current_catalog}
use policy_guardrails_agent.ControlPlane.Catalog.{build_catalog}

-- each catalog was published before the one behind it
abbrev pub IsOrdered : List CatalogRecord → Type 0
IsOrdered [] = Unit
IsOrdered (c ∷ []) = Unit
IsOrdered (c ∷ d ∷ cs) = (c.published_at < d.published_at) × IsOrdered (d ∷ cs)

-- the current catalog was published before
abbrev Before : Option CatalogRecord → ℕ → Type 0
Before none t = Unit
Before (some c) t = c.published_at < t

append-IsOrdered :
    (cs : List CatalogRecord) (new : CatalogRecord)
    → IsOrdered cs
    → Before (last_of cs) new.published_at
    → IsOrdered (cs ++ new ∷ [])
append-IsOrdered [] new h b = tt
append-IsOrdered (c ∷ []) new h b = (b, tt)
append-IsOrdered (c ∷ d ∷ cs) new h b = (h.0, append-IsOrdered (d ∷ cs) new h.1 b)

later-Before : (now : ℕ) (o : Option CatalogRecord) → Before o (later now o)
later-Before now none = tt
later-Before now (some c) = ground arith

-- Publishing keeps the catalogs in strictly increasing order of their times, whatever the clock
-- says.
pub publish-IsOrdered :
    (x : CatalogCtx) (now : ℕ) (id : String) (st : MemoryStore)
    → IsOrdered st.catalogs
    → IsOrdered (publish_catalog x now id st).catalogs
unfolding publish_catalog
publish-IsOrdered x now id st h =
    elim (Bool-cases
      (is_same (current_catalog st) (x.digest (build_catalog now (contents x st))))) [
        | inl e ↦ rw e h
        | inr e ↦ rw e (append-IsOrdered st.catalogs _ h (later-Before now (current_catalog st)))
      ]
