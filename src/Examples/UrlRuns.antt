-- ===== src/Examples/UrlRuns.antt =====
-- Parameters of URLs and their merge.
use incubator_dubbo_go.Prelude.{Bool, true, some, ◌≡◌, refl, [], ◌∷◌, codes, text_eq}
use incubator_dubbo_go.Url.{Url, values_get, method_key, get_param, or_default}
use incubator_dubbo_go.Url.Merge.{merge_url, clone, range_params, set_all}
use incubator_dubbo_go.Url.Merge.Precedence.{is_key}
use incubator_dubbo_go.Url.Merge.Methods.{merge_url-method}
use incubator_dubbo_go.Examples.{url_with}

abbrev three_retries : Url
three_retries = url_with ((codes "retries", codes "3" ∷ []) ∷ [])

abbrev five_retries : Url
five_retries = url_with ((codes "retries", codes "5" ∷ []) ∷ [])

abbrev service_method : Url
service_method = url_with ((codes "methods.get.retries", codes "3" ∷ []) ∷ [])

abbrev reference_method : Url
reference_method = record (url_with ((codes "methods.get.retries", codes "5" ∷ []) ∷ [])) {
  own = record ((url_with ((codes "methods.get.retries", codes "5" ∷ []) ∷ [])).own) {
    methods = codes "get" ∷ [];
  };
}

abbrev exact_copy : Url → Url × Bool
exact_copy u = (u, true)

merge_url-method_example :
    (u : Url) × (merge_url exact_copy service_method reference_method ≡ some u)
    × (get_param u (method_key (codes "get") (codes "retries")) [] ≡ codes "3")
unfolding is_key get_param or_default values_get method_key text_eq clone range_params set_all
merge_url-method_example =
    merge_url-method exact_copy service_method reference_method service_method (codes "get")
      (codes "retries") b'3' [] refl refl refl
