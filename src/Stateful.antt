-- ===== src/Stateful.antt =====
-- Calls that read and change a state, and that return or panic.
pub mod Leads
use incubator_dubbo_go.Prelude.{Option, none, some}
use incubator_dubbo_go.Protocol.{Outcome, done, panic}

abbrev pub Stateful : Type 0 → Type 0 → Type 0
Stateful S A = S → Outcome (A × S)

module _ {S : Type 0} where
  infixl 5 ◌>>=◌ ◌>>◌
  abbrev pub ◌>>=◌ : {A B : Type 0} → Stateful S A → (A → Stateful S B) → Stateful S B
  ◌>>=◌ m f s = elim (m s) [ panic ↦ panic | done (a, s') ↦ f a s' ]

  abbrev pub ◌>>◌ : {A B : Type 0} → Stateful S A → Stateful S B → Stateful S B
  ◌>>◌ m k s = elim (m s) [ panic ↦ panic | done (_, s') ↦ k s' ]

  abbrev pub pure : {A : Type 0} → A → Stateful S A
  pure a s = done (a, s)

  abbrev pub fail : {A : Type 0} → Stateful S A
  fail s = panic

  -- A value that is missing is a panic.
  abbrev pub lift : {A : Type 0} → Option A → Stateful S A
  lift none s = panic
  lift (some a) s = done (a, s)

  abbrev pub gets : {A : Type 0} → (S → A) → Stateful S A
  gets f s = done (f s, s)

  abbrev pub modify : (S → S) → Stateful S (Unit {0})
  modify f s = done (tt, f s)
