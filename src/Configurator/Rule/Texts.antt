-- ===== src/Configurator/Rule/Texts.antt =====
-- The texts that the override URLs of a rule are read from.
use incubator_dubbo_go.Prelude.{
  ◌≡◌, refl, sym, ap, ◌∙◌, Bool, true, false, List, [], ◌∷◌, ◌++◌, map, Option, if◌then◌else◌, Text,
  codes,
}
use mathlib.Core.List.{append-nil, append_assoc}
use incubator_dubbo_go.Url.{Url, is_empty}
use incubator_dubbo_go.Configurator.Rule.{
  ConfigItem, ConfiguratorConfig, Parsed, failed, parsed, null_service, no_parameter, then_with,
  collect, or_single, get_service_string, service_string, get_param_string, param_string,
  get_enabled_string, override_prefix, version_suffix, read_url, application_urls,
  service_item_to_urls,
}

unfoldable each {ℓ} : {A : Type ℓ} → (A → List Text) → List A → List Text
each g [] = []
each g (x ∷ xs) = g x ++ each g xs

application_texts : List Text → Text → List Text
application_texts [] t = t ∷ []
application_texts (a ∷ more) t = map (λ app. t ++ codes "&application" ++ app) (a ∷ more)

abbrev rule_text : ConfigItem → ConfiguratorConfig → Text → Text → Text → Text
rule_text item config address service params =
    override_prefix address
    ++ service
    ++ params
    ++ get_enabled_string item config
    ++ version_suffix (codes "dynamicconfigurators") config

-- The texts of a service's rule: one for each address and application.
unfoldable pub service_texts : ConfigItem → ConfiguratorConfig → List Text
unfolding each application_texts service_string param_string
service_texts item config =
    each
      (λ address.
        application_texts item.applications
          (rule_text item config address (service_string config.key) (param_string item)))
      (or_single item.addresses (codes "0.0.0.0"))

module _ {ℓ} {B : Type ℓ} where
  abbrev appended : Parsed (List B) → Parsed (List B) → Parsed (List B)
  unfolding then_with
  appended p q = then_with p (λ us. then_with q (λ vs. parsed (us ++ vs)))

  appended_nil : (p : Parsed (List B)) → p ≡ appended p (parsed [])
  unfolding then_with
  appended_nil (failed e) = refl
  appended_nil (parsed us) = ap parsed (sym (append-nil us))

  nil_appended : (p : Parsed (List B)) → p ≡ appended (parsed []) p
  unfolding then_with
  nil_appended (failed e) = refl
  nil_appended (parsed us) = refl

  appended_assoc : (p q r : Parsed (List B)) → appended p (appended q r) ≡ appended (appended p q) r
  unfolding then_with
  appended_assoc (failed e) q r = refl
  appended_assoc (parsed us) (failed e) r = refl
  appended_assoc (parsed us) (parsed vs) (failed e) = refl
  appended_assoc (parsed us) (parsed vs) (parsed ws) = ap parsed (sym (append_assoc us vs ws))

  collect-append {κ} :
      {A : Type κ} (f : A → Parsed (List B)) (xs ys : List A)
      → collect f (xs ++ ys) ≡ appended (collect f xs) (collect f ys)
  unfolding collect then_with
  collect-append f [] ys = nil_appended (collect f ys)
  collect-append f (x ∷ xs) ys =
      ap (appended (f x)) (collect-append f xs ys)
      ∙ appended_assoc (f x) (collect f xs) (collect f ys)

  collect-map {κ} :
      {A : Type κ} (f : Text → Parsed (List B)) (h : A → Text) (xs : List A)
      → collect (λ x. f (h x)) xs ≡ collect f (map h xs)
  unfolding collect then_with
  collect-map f h [] = refl
  collect-map f h (x ∷ xs) = ap (appended (f (h x))) (collect-map f h xs)

  collect-each {κ} :
      {A : Type κ} (f : Text → Parsed (List B)) (g : A → List Text) (xs : List A)
      → collect (λ x. collect f (g x)) xs ≡ collect f (each g xs)
  unfolding collect then_with each
  collect-each f g [] = refl
  collect-each f g (x ∷ xs) =
      ap (appended (collect f (g x))) (collect-each f g xs)
      ∙ sym (collect-append f (g x) (each g xs))

  -- Two tests that do not depend on the round, of which there is one at least.
  collect_gated :
      (b c : Bool) (s q : Text) (f : Text → Text → Text → Parsed (List B)) (xs : List Text)
      (t : Text)
      → collect
          (λ x. then_with (if b then failed null_service else parsed s) (λ service.
            then_with (if c then failed no_parameter else parsed q) (λ params. f x service params)))
          (or_single xs t)
        ≡ (if b
            then failed null_service
            else if c
            then failed no_parameter
            else collect (λ x. f x s q) (or_single xs t))
  unfolding collect then_with
  collect_gated true c s q f [] t = refl
  collect_gated true c s q f (x ∷ xs) t = refl
  collect_gated false true s q f [] t = refl
  collect_gated false true s q f (x ∷ xs) t = refl
  collect_gated false false s q f [] t = refl
  collect_gated false false s q f (x ∷ xs) t = refl

module _ (new_url : Text → Option Url) where
  application_urls_texts :
      (apps : List Text) (t : Text)
      → application_urls new_url apps t ≡ collect (read_url new_url) (application_texts apps t)
  unfolding application_urls application_texts collect then_with
  application_urls_texts [] t = appended_nil (read_url new_url t)
  application_urls_texts (a ∷ more) t =
      collect-map (read_url new_url) (λ app. t ++ codes "&application" ++ app) (a ∷ more)

  -- The URLs of a service's rule are those of the texts, of which there is one for each address and
  -- application, in this order and up to the first that is no URL. The rule is refused when its
  -- service is empty, and else when the item has no parameter.
  pub service_item_to_urls-texts :
      (item : ConfigItem) (config : ConfiguratorConfig)
      → service_item_to_urls new_url item config ≡ (
          if is_empty config.key
          then failed null_service
          else if is_empty item.parameters
          then failed no_parameter
          else collect (read_url new_url) (service_texts item config))
  unfolding service_item_to_urls service_texts get_service_string get_param_string
  service_item_to_urls-texts item config =
      let addresses = or_single item.addresses (codes "0.0.0.0") in
      let whole = λ (address : Text).
        rule_text item config address (service_string config.key) (param_string item) in
      collect_gated (is_empty config.key) (is_empty item.parameters) (service_string config.key)
        (param_string item)
        (λ address service params.
          application_urls new_url item.applications (rule_text item config address service params))
        item.addresses (codes "0.0.0.0")
      ∙ ap
          (λ p.
            if is_empty config.key
            then failed null_service
            else if is_empty item.parameters
            then failed no_parameter
            else p)
          (ap (λ f. collect f addresses)
              (λ i address. application_urls_texts item.applications (whole address) i)
            ∙ collect-each (read_url new_url)
                (λ address. application_texts item.applications (whole address)) addresses)
