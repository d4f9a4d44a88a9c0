-- ===== src/Stateful/Leads.antt =====
-- What holds behind a call that may panic.
use incubator_dubbo_go.Prelude.{◌≡◌, refl, ◌∙◌, ◌⊎◌, inl, inr, Option, some, Option-cases}
use incubator_dubbo_go.Protocol.{done, panic}
use incubator_dubbo_go.Stateful.{Stateful, ◌>>=◌, lift}

module _ {S : Type 0} where
  -- From the state `s` the call panics, or it returns and `P` holds of what it returns and leaves.
  pub record Leads {A : Type 0} (m : Stateful S A) (s : S) (P : A → S → Type 0) : Type 0 where
    pub ends : (m s ≡ panic) ⊎ ((a : A) × (s' : S) × (m s ≡ done (a, s')) × P a s')

  module _ {A : Type 0} {P : A → S → Type 0} where
    pub Leads-done :
        (m : Stateful S A) (s : S) (a : A) (s' : S) → m s ≡ done (a, s') → P a s' → Leads m s P
    Leads-done m s a s' e h = record { ends = inr (a, s', e, h) }

    -- Only what the call does from this state counts.
    pub Leads-same : (m n : Stateful S A) (s : S) → m s ≡ n s → Leads n s P → Leads m s P
    Leads-same m n s e h = elim h.ends [
      | inl p ↦ record { ends = inl (e ∙ p) }
      | inr (a, s', p, q) ↦ record { ends = inr (a, s', e ∙ p, q) }
    ]

    pub Leads-lift : (o : Option A) (s : S) → ((a : A) → o ≡ some a → P a s) → Leads (lift o) s P
    Leads-lift o s h = elim (Option-cases o) [
      | inl e ↦ record { ends = inl (rw (e, lift) refl) }
      | inr (a, e) ↦ record { ends = inr (a, s, rw (e, lift) refl, h a e) }
    ]

  pub Leads-bind :
      {A B : Type 0} {Q : A → S → Type 0} {P : B → S → Type 0} (m : Stateful S A)
      (f : A → Stateful S B) (s : S)
      → Leads m s Q
      → ((a : A) (s' : S) → Q a s' → Leads (f a) s' P)
      → Leads (m >>= f) s P
  Leads-bind m f s h k = elim h.ends [
    | inl e ↦ record { ends = inl (rw (e, ◌>>=◌) refl) }
    | inr (a, s', e, q) ↦ elim (k a s' q).ends [
      | inl e' ↦ record { ends = inl (rw (e, e', ◌>>=◌) refl) }
      | inr (b, s'', e', p) ↦ record { ends = inr (b, s'', rw (e, e', ◌>>=◌) refl, p) }
    ]
  ]

  pub Leads-weaken :
      {A : Type 0} {P Q : A → S → Type 0} {m : Stateful S A} {s : S}
      → Leads m s P
      → ((a : A) (s' : S) → P a s' → Q a s')
      → Leads m s Q
  Leads-weaken h k = elim h.ends [
    | inl e ↦ record { ends = inl e }
    | inr (a, s', e, p) ↦ record { ends = inr (a, s', e, k a s' p) }
  ]
