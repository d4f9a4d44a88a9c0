-- ===== src/Examples/LimiterRuns.antt =====
-- The limiter of services and methods, on a map as an association list.
use incubator_dubbo_go.Prelude.{
  ℕ, ◌≡◌, sym, ap, ◌∙◌, arith, [], ◌∷◌, List, Option, none, some, Text, codes, text_eq, text_eq_iff,
  lookup, insert, lookup-insert, text_key, Bool-cases, inl, inr,
}
use incubator_dubbo_go.Prelude.Int.{pos}
use incubator_dubbo_go.Url.{Url}
use incubator_dubbo_go.Tps.Limiter.{
  Strategy, fixed, limit_target, ConcurrentMap, IsMap, Limiter, is_allowable,
}
use incubator_dubbo_go.Tps.Limiter.Targets.{IsLimiter, Keeps, OnReturn, is_allowable-Keeps}
use incubator_dubbo_go.Examples.{plain_url, url_with, call}

abbrev pub or_store : Option ℕ → Text → ℕ → List (Text × ℕ) → ℕ × List (Text × ℕ)
or_store none k v s = (v, insert k v s)
or_store (some r) k v s = (r, s)

abbrev pub assoc_map : ConcurrentMap (List (Text × ℕ))
assoc_map = record { load = lookup; load_or_store = λ k v s. or_store (lookup k s) k v s }

pub assoc_map-IsMap : IsMap assoc_map
assoc_map-IsMap = record {
  loaded = λ k v r s h. ap (λ o. or_store o k v s) h;
  stored = λ k v s h. ap (λ o. (or_store o k v s).0) h;
  load-stored = λ k j v s h. ap (λ o. lookup j (or_store o k v s).1) h ∙ lookup-insert k j v s;
}

abbrev window : Strategy
window = fixed (record { rate = pos 2; interval = pos 1000; count = pos 0; timestamp = pos 0 })

-- A limiter that has a strategy for the sample service.
abbrev one_target : Limiter (List (Text × ℕ))
one_target = record {
  tps_state = (limit_target plain_url (codes "get"), 0) ∷ [];
  heap = (0, window) ∷ [];
  next = 1;
}

the_target :
    (k : Text) (r : ℕ)
    → assoc_map.load k one_target.tps_state ≡ some r
    → limit_target plain_url (codes "get") ≡ k
unfolding lookup
the_target k r h = elim (Bool-cases (text_eq (limit_target plain_url (codes "get")) k)) [
  | inl e ↦ (text_eq_iff (limit_target plain_url (codes "get")) k).0 e
  | inr e ↦ absurd (cc (rw (e, lookup) at h))
]

one_target-IsLimiter : IsLimiter assoc_map one_target
unfolding lookup
one_target-IsLimiter = record {
  used = λ k r h. ground (arith, h);
  apart = λ j k r hj hk. sym (the_target j r hj) ∙ the_target k r hk;
}

-- The same service with a limit of its own for one method.
abbrev limited_url : Url
limited_url = url_with ((codes "methods.get.tps.limit.rate", codes "5" ∷ []) ∷ [])

is_allowable-Keeps_example :
    OnReturn assoc_map
      (is_allowable assoc_map (pos 10) (pos 11) limited_url call one_target)
      (Keeps assoc_map (limit_target limited_url (codes "get")) one_target)
is_allowable-Keeps_example =
    is_allowable-Keeps assoc_map assoc_map-IsMap (pos 10) (pos 11) limited_url call one_target
      one_target-IsLimiter
