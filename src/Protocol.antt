-- ===== src/Protocol.antt =====
-- The types of protocol/: invokers, invocations and results.
pub mod Status
pub mod Base
use incubator_dubbo_go.Prelude.{
  ℕ, ◌≡◌, refl, ◌⊎◌, inl, inr, Bool, true, false, Option, none, some, List, [], ◌∷◌, ◌++◌,
  if◌then◌else◌, ◌==◌, Text, codes, text_key, lookup, insert, ◌||◌,
}
use incubator_dubbo_go.Url.{Url}

-- An Invoker value: the object that the interface points to, and its URL.
pub record Invoker : Type 0 where
  pub ref : ℕ
  pub url : Url

-- `==` on Invoker values compares the objects.
abbrev pub same_invoker : Invoker → Invoker → Bool
same_invoker i j = i.ref == j.ref

-- An `interface{}` value: nil, a string, or some other value, of which only the object is known.
pub data Any : Type 0 where
  nil : Any
  str : Text → Any
  obj : ℕ → Any

pub record Invocation : Type 0 where
  pub method_name : Text
  pub arguments : List Any
  -- the attachments, with a nil map and an empty one not told apart: no reader does
  pub attachments : List (Text × Any)

pub data Error : Type 0 where
  no_provider : Text → Error
  destroyed : Error
  no_provider_available : Error
  retries_failed : Text → Error → Error
  no_registry_in_zone : Text → Error
  fork_timeout no_response : Error
  invalid_token number_error : Error
  remote : ℕ → Error

pub record RpcResult : Type 0 where
  pub attrs : List (Text × Any)
  pub err : Option Error
  pub rest : Any

abbrev pub empty_result : RpcResult
empty_result = record { attrs = []; err = none; rest = nil }

abbrev pub error_result : Error → RpcResult
error_result e = record { attrs = []; err = some e; rest = nil }

-- A call that returns, or that panics.
pub data Outcome {ℓ} (A : Type ℓ) : Type ℓ where
  done : A → Outcome A
  panic : Outcome A

pub Outcome-cases {ℓ} : {A : Type ℓ} (o : Outcome A) → (o ≡ panic) ⊎ ((a : A) × (o ≡ done a))
Outcome-cases panic = inl refl
Outcome-cases (done a) = inr (a, refl)

-- AttachmentsByKey: `value.(string)` panics on a value of another type.
unfoldable pub string_of : Option Any → Text → Outcome Text
string_of none d = done d
string_of (some (str s)) d = done s
string_of (some nil) d = panic
string_of (some (obj n)) d = panic

unfoldable pub attachments_by_key : Invocation → Text → Text → Outcome Text
unfolding lookup string_of
attachments_by_key inv key d = string_of (lookup key inv.attachments) d

unfoldable pub attachment : Invocation → Text → Any
unfolding lookup
attachment inv key = elim (lookup key inv.attachments) [ none ↦ nil | some v ↦ v ]

unfoldable pub set_attachments : Invocation → Text → Any → Invocation
unfolding insert
set_attachments inv key value = record inv { attachments = insert key value inv.attachments }
