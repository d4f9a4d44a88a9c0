-- ===== src/Configurator/Rule/Kept.antt =====
-- What the text of an application's rule keeps from one service to the next.
use incubator_dubbo_go.Prelude.{
  Any, ◌⊎◌, inl, inr, ◌≡◌, refl, sym, ap, subst, ◌∙◌, List, [], ◌∷◌, ◌++◌, Option, none, some, Text,
  codes, All, All-append,
}
use mathlib.Core.List.{append_assoc}
use incubator_dubbo_go.Url.{Url}
use incubator_dubbo_go.Configurator.Rule.{
  ConfigItem, ConfiguratorConfig, Parsed, failed, parsed, bad_url, then_with, collect, or_single,
  get_service_string, service_string, get_param_string, override_prefix, app_suffix, read_url,
  app_services, app_item_to_urls,
}

module _ {ℓ κ} {B : Type ℓ} (P : B → Type κ) where
  abbrev Yields : Parsed (List B) → Type κ
  Yields (failed e) = Unit
  Yields (parsed us) = All P us

  Yields-then {μ} :
      {A : Type μ} (p : Parsed A) (f : A → Parsed (List B))
      → ((x : A) → p ≡ parsed x → Yields (f x))
      → Yields (then_with p f)
  unfolding then_with
  Yields-then (failed e) f h = tt
  Yields-then (parsed x) f h = h x refl

  Yields-append :
      (p q : Parsed (List B))
      → Yields p
      → Yields q
      → Yields (then_with p (λ us. then_with q (λ vs. parsed (us ++ vs))))
  unfolding then_with
  Yields-append (failed e) q hp hq = tt
  Yields-append (parsed us) (failed e) hp hq = tt
  Yields-append (parsed us) (parsed vs) hp hq = All-append P us vs hp hq

module _ {ℓ κ μ} {B : Type ℓ} (P : B → Type κ) (Q : B → Type μ) (w : (x : B) → P x → Q x) where
  All-weaken : (us : List B) → All P us → All Q us
  All-weaken [] h = tt
  All-weaken (u ∷ us) h = (w u h.0, All-weaken us h.1)

  Yields-weaken : (p : Parsed (List B)) → Yields P p → Yields Q p
  Yields-weaken (failed e) h = tt
  Yields-weaken (parsed us) h = All-weaken us h

-- What each round yields has the property that belongs to the round.
Yields-collect {ℓ} :
    {A : Type ℓ} {B : Type 0} (P : A → B → Type 0) (f : A → Parsed (List B)) (xs : List A)
    → ((x : A) → Yields (P x) (f x))
    → Yields (λ u. Any (λ x. P x u) xs) (collect f xs)
unfolding collect
Yields-collect P f [] h = tt
Yields-collect P f (x ∷ xs) h =
    Yields-append (λ u. P x u ⊎ Any (λ y. P y u) xs) (f x) (collect f xs)
      (Yields-weaken (P x) (λ u. P x u ⊎ Any (λ y. P y u) xs) (λ u q. inl q) (f x) (h x))
      (Yields-weaken (λ u. Any (λ y. P y u) xs) (λ u. P x u ⊎ Any (λ y. P y u) xs) (λ u q. inr q)
        (collect f xs) (Yields-collect P f xs h))

service_string_of : (s t : Text) → get_service_string s ≡ parsed t → service_string s ≡ t
unfolding get_service_string
service_string_of [] t p = cc p
service_string_of (c ∷ s) t p = cc p

abbrev pub first_of : List Text → Text → Text
first_of [] t = t
first_of (x ∷ xs) t = x

module _ (new_url : Text → Option Url) where
  -- The URL is read of a text that begins with this one.
  From : Text → Url → Type 0
  From t u = (rest : Text) × (new_url (t ++ rest) ≡ some u)

  read_From : (t n b : Text) → n ≡ t ++ b → Yields (From t) (read_url new_url n)
  unfolding From read_url
  read_From t n b q = as_read (new_url n) refl
    where
      as_read :
          (o : Option Url)
          → new_url n ≡ o
          → Yields (From t) (elim o [ none ↦ failed bad_url | some u ↦ parsed (u ∷ []) ])
      as_read none e = tt
      as_read (some u) e = ((b, ap new_url (sym q) ∙ e), tt)

  From-shorter : (t n b : Text) → n ≡ t ++ b → (u : Url) → From n u → From t u
  unfolding From
  From-shorter t n b q u h =
      (b ++ h.0, ap new_url (sym (append_assoc t b h.0) ∙ ap (λ m. m ++ h.0) (sym q)) ∙ h.1)

  module _ (item : ConfigItem) (config : ConfiguratorConfig) where
    round_From :
        (t n b : Text) (ss : List Text)
        → n ≡ t ++ b
        → Yields (From n) (app_services new_url item config n ss)
        → Yields (From t) (
            then_with
              (read_url new_url n)
              (λ us. then_with (app_services new_url item config n ss) (λ vs. parsed (us ++ vs))))
    round_From t n b ss q h =
        Yields-append (From t) (read_url new_url n) (app_services new_url item config n ss)
          (read_From t n b q)
          (Yields-weaken (From n) (From t) (From-shorter t n b q)
            (app_services new_url item config n ss) h)

    app_services-From :
        (ss : List Text) (t : Text) → Yields (From t) (app_services new_url item config t ss)
    unfolding app_services
    app_services-From [] t = tt
    app_services-From (s ∷ ss) t = Yields-then (From t) (get_service_string s) _ (λ service _.
        Yields-then (From t) (get_param_string item) _ (λ params _.
          round_From t (t ++ service ++ app_suffix item config params)
            (service ++ app_suffix item config params) ss
            (append_assoc t service (app_suffix item config params))
            (app_services-From ss (t ++ service ++ app_suffix item config params))))

    app_services-first :
        (s : Text) (ss : List Text) (t : Text)
        → Yields (From (t ++ service_string s)) (app_services new_url item config t (s ∷ ss))
    unfolding app_services
    app_services-first s ss t =
        Yields-then (From (t ++ service_string s)) (get_service_string s) _ (λ service p.
          Yields-then (From (t ++ service_string s)) (get_param_string item) _ (λ params _.
            round_From (t ++ service_string s) (t ++ service ++ app_suffix item config params)
              (app_suffix item config params) ss
              (ap (λ m. t ++ m ++ app_suffix item config params)
                (sym (service_string_of s service p)))
              (app_services-From ss (t ++ service ++ app_suffix item config params))))

    any_service-first :
        (ss : List Text) (d t : Text)
        → Yields
            (From (t ++ service_string (first_of ss d)))
            (app_services new_url item config t (or_single ss d))
    any_service-first [] d t = app_services-first d [] t
    any_service-first (s ∷ ss) d t = app_services-first s ss t

    -- The URL is read from a text that begins with the address and the first service.
    abbrev pub FromFirst : Text → Url → Type 0
    FromFirst address u =
        (rest : Text) × (new_url
            (override_prefix address ++ service_string (first_of item.services (codes "*")) ++ rest)
          ≡ some u)

    -- Every URL that an application's rule gives is read from a text that begins with one of the
    -- rule's addresses and its first service, whatever service the URL is for.
    pub app_item_to_urls-first :
        (us : List Url)
        → app_item_to_urls new_url item config ≡ parsed us
        → All
            (λ u. Any (λ address. FromFirst address u) (or_single item.addresses (codes "0.0.0.0")))
            us
    unfolding app_item_to_urls From
    app_item_to_urls-first us p =
        subst
          (Yields (λ u.
            Any (λ address. FromFirst address u) (or_single item.addresses (codes "0.0.0.0"))))
          p
          (Yields-collect FromFirst _ (or_single item.addresses (codes "0.0.0.0"))
            (λ address. any_service-first item.services (codes "*") (override_prefix address)))
