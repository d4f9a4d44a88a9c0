-- ===== src/Protocol/Base.antt =====
-- protocol/protocol.go and protocol/invoker.go: the defaults of protocols, exporters and invokers.
use incubator_dubbo_go.Prelude.{
  ◌≡◌, refl, sym, ap, ◌∙◌, ◌||◌, ◌⊎◌, text_eq_iff, Bool, true, false, List, [], ◌∷◌, ◌++◌, Option,
  none, some, Text, codes, text_eq, text_key, same_refl, insert, erase, All, Bool-cases, inl, inr,
}
use mathlib.Core.List.{append-nil, append_assoc}
use incubator_dubbo_go.Url.{Url}
use incubator_dubbo_go.Protocol.{Invoker, Invocation, RpcResult, empty_result}

pub record BaseInvoker : Type 0 where
  pub url : Url
  pub available : Bool
  pub destroyed : Bool

unfoldable pub new_base_invoker : Url → BaseInvoker
new_base_invoker u = record { url = u; available = true; destroyed = false }

unfoldable pub base_invoke : BaseInvoker → Invocation → RpcResult
base_invoke i inv = empty_result

unfoldable pub destroy_base_invoker : BaseInvoker → BaseInvoker
destroy_base_invoker i = record i { available = false; destroyed = true }

pub record BaseExporter : Type 0 where
  pub key : Text
  pub invoker : Invoker

-- BaseProtocol, and the invokers that have been destroyed, in order, which the program does not
-- keep. An invoker or exporter may be nil.
pub record BaseProtocol : Type 0 where
  pub exporter_map : List (Text × Option BaseExporter)
  pub invokers : List (Option Invoker)
  pub destroyed : List Invoker

unfoldable pub new_base_protocol : BaseProtocol
new_base_protocol = record { exporter_map = []; invokers = []; destroyed = [] }

unfoldable pub set_exporter_map : Text → Option BaseExporter → BaseProtocol → BaseProtocol
unfolding insert
set_exporter_map k e p = record p { exporter_map = insert k e p.exporter_map }

unfoldable pub add_invoker : Option Invoker → BaseProtocol → BaseProtocol
add_invoker i p = record p { invokers = p.invokers ++ i ∷ [] }

-- Export, which does not store the exporter.
unfoldable pub base_export : Invoker → BaseExporter
base_export i = record { key = codes "base"; invoker = i }

-- Unexport
unfoldable pub unexport : BaseExporter → BaseProtocol → BaseProtocol
unfolding erase
unexport e p = record p {
  exporter_map = erase e.key p.exporter_map;
  destroyed = p.destroyed ++ e.invoker ∷ [];
}

unfoldable pub destroy_invokers : List (Option Invoker) → List Invoker
destroy_invokers [] = []
destroy_invokers (none ∷ is) = destroy_invokers is
destroy_invokers (some i ∷ is) = i ∷ destroy_invokers is

-- Range runs over the entries at its start.
unfoldable pub unexport_all : List (Text × Option BaseExporter) → BaseProtocol → BaseProtocol
unfolding unexport erase
unexport_all [] p = p
unexport_all ((k, some e) ∷ m) p = unexport_all m (unexport e p)
unexport_all ((k, none) ∷ m) p = unexport_all m (record p { exporter_map = erase k p.exporter_map })

unfoldable pub destroy_base_protocol : BaseProtocol → BaseProtocol
unfolding destroy_invokers unexport_all
destroy_base_protocol p =
    unexport_all p.exporter_map
      (record p { invokers = []; destroyed = p.destroyed ++ destroy_invokers p.invokers })

-- An exporter stands under its own key.
abbrev pub Own : Text × Option BaseExporter → Type 0
Own (k, none) = Unit
Own (k, some e) = e.key ≡ k

abbrev pub exported_invokers : List (Text × Option BaseExporter) → List Invoker
exported_invokers [] = []
exported_invokers ((k, none) ∷ m) = exported_invokers m
exported_invokers ((k, some e) ∷ m) = e.invoker ∷ exported_invokers m

-- The map without the keys of another.
abbrev erase_keys :
    List (Text × Option BaseExporter)
    → List (Text × Option BaseExporter)
    → List (Text × Option BaseExporter)
erase_keys [] m = m
erase_keys ((k, _) ∷ ks) m = erase_keys ks (erase k m)

unexport_all-erase_keys :
    (ks : List (Text × Option BaseExporter)) (p : BaseProtocol)
    → All Own ks
    → unexport_all ks p ≡ record p {
      exporter_map = erase_keys ks p.exporter_map;
      destroyed = p.destroyed ++ exported_invokers ks;
    }
unfolding unexport_all unexport
unexport_all-erase_keys [] p a = ap (λ d. record p { destroyed = d }) (sym (append-nil p.destroyed))
unexport_all-erase_keys ((k, none) ∷ ks) p a =
    unexport_all-erase_keys ks (record p { exporter_map = erase k p.exporter_map }) a.1
unexport_all-erase_keys ((k, some e) ∷ ks) p a = rw (sym a.0) (
    unexport_all-erase_keys ks (unexport e p) a.1
    ∙ ap
        (λ d. record p { exporter_map = erase_keys ks (erase e.key p.exporter_map); destroyed = d })
        (append_assoc p.destroyed (e.invoker ∷ []) (exported_invokers ks)))

abbrev has : Text → List (Text × Option BaseExporter) → Bool
has j [] = false
has j ((k, _) ∷ ks) = text_eq k j || has j ks

abbrev Within : List (Text × Option BaseExporter) → List (Text × Option BaseExporter) → Type 0
Within ks [] = Unit
Within ks ((j, _) ∷ m) = (has j ks ≡ true) × Within ks m

erase-Within :
    (k : Text) (e : Option BaseExporter) (ks m : List (Text × Option BaseExporter))
    → Within ((k, e) ∷ ks) m
    → Within ks (erase k m)
unfolding erase
erase-Within k e ks [] a = tt
erase-Within k e ks ((j, w) ∷ m) a = elim (Bool-cases (text_eq j k)) [
  | inl t ↦ rw t (erase-Within k e ks m a.1)
  | inr t ↦ rw t (in_rest t (Bool-cases (text_eq k j)), erase-Within k e ks m a.1)
]
  where
    in_rest : text_eq j k ≡ false → (text_eq k j ≡ true) ⊎ (text_eq k j ≡ false) → has j ks ≡ true
    in_rest t (inl s) =
        let p : k ≡ j = (text_eq_iff k j).0 s in
        let f : text_eq k k ≡ false = rw (sym p) at t in absurd (cc (sym f ∙ same_refl k))
    in_rest t (inr s) = rw s at a.0

erase_keys-nil : (ks m : List (Text × Option BaseExporter)) → Within ks m → erase_keys ks m ≡ []
erase_keys-nil [] [] a = refl
erase_keys-nil [] ((j, w) ∷ m) a = absurd (cc a.0)
erase_keys-nil ((k, e) ∷ ks) m a = erase_keys-nil ks (erase k m) (erase-Within k e ks m a)

Within-more :
    (k : Text) (e : Option BaseExporter) (ks m : List (Text × Option BaseExporter))
    → Within ks m
    → Within ((k, e) ∷ ks) m
Within-more k e ks [] a = tt
Within-more k e ks ((j, w) ∷ m) a = (rw a.0 (or_true (text_eq k j)), Within-more k e ks m a.1)
  where
    or_true : (b : Bool) → (b || true) ≡ true
    or_true true = refl
    or_true false = refl

Within-self : (m : List (Text × Option BaseExporter)) → Within m m
Within-self [] = tt
Within-self ((k, e) ∷ m) = (rw (same_refl k) refl, Within-more k e m m (Within-self m))

-- Destroy of a protocol whose exporters stand under their own keys leaves it without invokers and
-- exporters, and destroys all the invokers that it referred to, and then those that it exported.
pub destroy_base_protocol-nil :
    (p : BaseProtocol)
    → All Own p.exporter_map
    → destroy_base_protocol p ≡ record {
      exporter_map = [];
      invokers = [];
      destroyed = (p.destroyed ++ destroy_invokers p.invokers) ++ exported_invokers p.exporter_map;
    }
unfolding destroy_base_protocol
destroy_base_protocol-nil p a =
    let p0 : BaseProtocol = record p {
      invokers = [];
      destroyed = p.destroyed ++ destroy_invokers p.invokers;
    } in
    unexport_all-erase_keys p.exporter_map p0 a
    ∙ ap
        (λ m. record p0 {
          exporter_map = m;
          destroyed = p0.destroyed ++ exported_invokers p.exporter_map;
        })
        (erase_keys-nil p.exporter_map p.exporter_map (Within-self p.exporter_map))
