-- ===== src/V3Router/Judger.antt =====
-- cluster/router/v3router/judger: the tests that a rule makes of a request, and the rule's own
-- types of config/uniform_router_config.go. A list of pointers is taken to hold no nil.
use incubator_dubbo_go.Prelude.{
  ℕ, zero, suc, Bool, true, false, not, ◌&&◌, ◌||◌, List, [], ◌∷◌, Option, none, some,
  if◌then◌else◌, length, get_elem?, Text, codes, text_eq, text_key, lookup,
}
use incubator_dubbo_go.Prelude.Int.{ℤ, pos, eqb_ℤ}
use incubator_dubbo_go.Strings.{has_prefix}
use incubator_dubbo_go.Url.{Url, get_param, is_empty}
use incubator_dubbo_go.Protocol.{Any, nil, str, obj, Invocation, Outcome, done, panic}

pub record StringMatch : Type 0 where
  pub exact : Text
  pub prefix : Text
  pub regex : Text
  pub noempty : Text
  pub empty : Text

pub record DubboAttachmentMatch : Type 0 where
  pub eagleeye_context : Option (List (Text × StringMatch))
  pub dubbo_context : Option (List (Text × StringMatch))

-- What the code asks of a float64.
pub record Floats (F : Type 0) : Type 0 where
  pub is_zero : F → Bool
  pub same : F → F → Bool
  pub at_least : F → F → Bool
  pub below : F → F → Bool

pub record DoubleRangeMatch (F : Type 0) : Type 0 where
  pub start : F
  pub stop : F

pub record DoubleMatch (F : Type 0) : Type 0 where
  pub exact : F
  pub range : Option (DoubleRangeMatch F)

pub record DubboMethodArg (F : Type 0) : Type 0 where
  pub index : ℕ  -- uint32
  pub type : Text
  pub str_value : Option (List StringMatch)
  pub num_value : Option (List (DoubleMatch F))
  pub bool_value : Option Bool

pub record DubboMethodMatch (F : Type 0) : Type 0 where
  pub name_match : Option StringMatch
  pub argc : ℤ
  pub args : Option (List (DubboMethodArg F))

-- A reflect.Value, as its type is named: only the types that the code names are told apart.
pub data Param : Type 0 where
  string_value : Text → Param
  bool_value : Bool → Param
  int_value : ℤ → Param
  float64_value : Param
  -- Of any other type, by the name that reflect has for it.
  other_value : Text → Param

unfoldable pub type_string : Param → Text
type_string (string_value s) = codes "string"
type_string (bool_value b) = codes "bool"
type_string (int_value n) = codes "int"
type_string float64_value = codes "float64"
type_string (other_value t) = t

module _ {F : Type 0} (floats : Floats F) where
  -- DoubleRangeMatchJudger.Judge and DoubleMatchJudger.Judge
  unfoldable pub judge_double_range : DoubleRangeMatch F → F → Bool
  judge_double_range r input = floats.at_least input r.start && floats.below input r.stop

  unfoldable pub judge_range : Option (DoubleRangeMatch F) → F → Bool
  unfolding judge_double_range
  judge_range none input = true
  judge_range (some r) input = judge_double_range r input

  unfoldable pub judge_double : DoubleMatch F → F → Bool
  unfolding judge_range
  judge_double m input =
      if not (floats.is_zero m.exact) then floats.same input m.exact else judge_range m.range input

  unfoldable pub judge_list_double : List (DoubleMatch F) → F → Bool
  unfolding judge_double
  judge_list_double [] input = false
  judge_list_double (v ∷ vs) input = judge_double v input || judge_list_double vs input

-- BoolMatchJudger.Judge
unfoldable pub judge_bool : Bool → Bool → Bool
judge_bool true input = input
judge_bool false input = not input

-- JudgeUrlLabel
unfoldable pub judge_url_label : Url → List (Text × Text) → Bool
unfolding get_param text_eq
judge_url_label u [] = true
judge_url_label u ((k, v) ∷ labels) = text_eq (get_param u k []) v && judge_url_label u labels

-- The parameter at an index that counts from 1.
unfoldable pub param_at : ℕ → List Param → Option Param
param_at zero ps = none
param_at (suc i) ps = get_elem? ps i

-- `regexp` is regexp.MatchString, with false where it fails.
module _ (regexp : Text → Text → Bool) where
  -- StringMatchJudger.Judge
  unfoldable pub judge_string : StringMatch → Text → Bool
  unfolding text_eq has_prefix
  judge_string m input =
      if not (is_empty m.exact)
      then text_eq input m.exact
      else if not (is_empty m.prefix)
      then has_prefix input m.prefix
      else if not (is_empty m.regex)
      then regexp m.regex input
      else if not (is_empty m.noempty)
      then not (is_empty input)
      else if not (is_empty m.empty)
      then is_empty input
      else true

  unfoldable pub judge_list_string : List StringMatch → Text → Bool
  unfolding judge_string
  judge_list_string [] input = false
  judge_list_string (v ∷ vs) input = judge_string v input || judge_list_string vs input

  -- One round of judge: an attachment that is not there passes only where it may be empty.
  unfoldable pub judge_attachment : StringMatch → Option Any → Bool
  unfolding judge_string
  judge_attachment m none = not (is_empty m.empty)
  judge_attachment m (some (str s)) = judge_string m s
  judge_attachment m (some nil) = false
  judge_attachment m (some (obj n)) = false

  unfoldable pub judge : List (Text × StringMatch) → List (Text × Any) → Bool
  unfolding judge_attachment lookup
  judge [] attachments = true
  judge ((k, v) ∷ condition) attachments =
      judge_attachment v (lookup k attachments) && judge condition attachments

  unfoldable pub judge_context : Option (List (Text × StringMatch)) → List (Text × Any) → Bool
  unfolding judge
  judge_context none attachments = true
  judge_context (some condition) attachments = judge condition attachments

  -- AttachmentMatchJudger.Judge
  unfoldable pub judge_attachments : DubboAttachmentMatch → Invocation → Bool
  unfolding judge_context
  judge_attachments m inv =
      judge_context m.eagleeye_context inv.attachments
      && judge_context m.dubbo_context inv.attachments

  unfoldable pub judge_name : Option StringMatch → Text → Bool
  unfolding judge_string
  judge_name none name = true
  judge_name (some m) name = judge_string m name

  module _ {F : Type 0} where
    -- The switch on the type, of a value that has it. An int always panics: of a nil list of
    -- numbers the first use, and else Value.Float.
    unfoldable pub judge_value : DubboMethodArg F → Param → Outcome Bool
    unfolding judge_list_string judge_bool
    judge_value a (string_value s) = elim a.str_value [
      | none ↦ panic
      | some ms ↦ done (judge_list_string ms s)
    ]
    judge_value a (bool_value b) = elim a.bool_value [
      | none ↦ panic
      | some m ↦ done (judge_bool m b)
    ]
    judge_value a (int_value n) = panic
    judge_value a float64_value = done true
    judge_value a (other_value t) = done true

    unfoldable pub judge_arg : DubboMethodArg F → Option Param → Outcome Bool
    unfolding judge_value type_string text_eq
    judge_arg a none = done false
    judge_arg a (some p) = if text_eq (type_string p) a.type then judge_value a p else done false

    unfoldable pub judge_args : List (DubboMethodArg F) → List Param → Outcome Bool
    unfolding judge_arg param_at
    judge_args [] ps = done true
    judge_args (a ∷ rest) ps = elim (judge_arg a (param_at a.index ps)) [
      | panic ↦ panic
      | done true ↦ judge_args rest ps
      | done false ↦ done false
    ]

    unfoldable pub judge_all_args : Option (List (DubboMethodArg F)) → List Param → Outcome Bool
    unfolding judge_args
    judge_all_args none ps = done true
    judge_all_args (some args) ps = judge_args args ps

    -- MethodMatchJudger.Judge
    unfoldable pub judge_method : DubboMethodMatch F → Invocation → List Param → Outcome Bool
    unfolding judge_name judge_all_args
    judge_method m inv ps =
        if not (judge_name m.name_match inv.method_name)
        then done false
        else if not (eqb_ℤ m.argc (pos 0)) && not (eqb_ℤ (pos (length ps)) m.argc)
        then done false
        else judge_all_args m.args ps
