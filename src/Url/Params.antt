-- ===== src/Url/Params.antt =====
-- The parameters of a URL: what GetParam reads behind each change.
use incubator_dubbo_go.Prelude.{
  ◌≡◌, refl, ap, ◌∙◌, Bool, true, false, Option, none, some, List, [], ◌∷◌, if◌then◌else◌, Text,
  text_eq, text_key, lookup, insert, erase, lookup-insert, lookup-erase,
}
use incubator_dubbo_go.Url.{
  Url, get_param, set_param, del_param, values_get, first_value, or_default, Values,
}

pub first_value_if :
    (b : Bool) (x y : Option (List Text))
    → first_value (if b then x else y) ≡ (if b then first_value x else first_value y)
first_value_if true x y = refl
first_value_if false x y = refl

pub values_get-insert :
    (k j v : Text) (ps : Values)
    → values_get (insert k (v ∷ []) ps) j ≡ (if text_eq k j then v else values_get ps j)
unfolding values_get
values_get-insert k j v ps =
    ap first_value (lookup-insert k j (v ∷ []) ps)
    ∙ first_value_if (text_eq k j) (some (v ∷ [])) (lookup j ps)
    ∙ unfold first_value in refl

values_get-erase :
    (k j : Text) (ps : Values)
    → values_get (erase k ps) j ≡ (if text_eq k j then [] else values_get ps j)
unfolding values_get
values_get-erase k j ps =
    ap first_value (lookup-erase k j ps)
    ∙ first_value_if (text_eq k j) none (lookup j ps)
    ∙ unfold first_value in refl

or_default_if :
    (b : Bool) (x y d : Text)
    → or_default (if b then x else y) d ≡ (if b then or_default x d else or_default y d)
or_default_if true x y d = refl
or_default_if false x y d = refl

-- GetParam behind SetParam: the new value of the key, or the default where it is empty, and the
-- old value of every other key.
pub get_param-set_param :
    (u : Url) (k v j d : Text)
    → get_param (set_param u k v) j d ≡ (if text_eq k j then or_default v d else get_param u j d)
unfolding get_param set_param
get_param-set_param u k v j d =
    ap (λ x. or_default x d) (values_get-insert k j v u.params)
    ∙ or_default_if (text_eq k j) v (values_get u.params j) d

-- GetParam behind DelParam: the default for the key, and the old value of every other key.
get_param-del_param :
    (u : Url) (k j d : Text)
    → get_param (del_param u k) j d ≡ (if text_eq k j then d else get_param u j d)
unfolding get_param del_param
get_param-del_param u k j d =
    ap (λ x. or_default x d) (values_get-erase k j u.params)
    ∙ or_default_if (text_eq k j) [] (values_get u.params j) d
    ∙ unfold or_default in refl
