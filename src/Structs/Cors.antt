-- ===== src/Structs/Cors.antt =====
-- structs.rs: the rules for requests from other origins (`CORSConfiguration::into_headers`), and the
-- headers of a project (`Object::project_get_headers`).
pub mod Headers
use data_proxy.Base.{
  ℕ, Bool, true, false, not, ◌&&◌, List, [], ◌∷◌, ◌++◌, map, Option, none, some, Text, codes,
  eq_text, ◌==◌, contains, nat_eq, any, split_once, if◌then◌else◌, length,
}
use data_proxy.Base.Int.{ℤ, pos, negsuc}
use data_proxy.Base.Map.{Map, get, insert}
use data_proxy.Structs.Object.{Object, ObjectType, KeyValue, type_eq}

pub record CorsRule : Type 0 where
  pub id : Option Text
  pub allowed_headers : Option (List Text)
  pub allowed_methods : List Text
  pub allowed_origins : List Text
  pub expose_headers : Option (List Text)
  pub max_age_seconds : ℤ

-- The library's rule, with an optional age.
pub record S3sCorsRule : Type 0 where
  pub id : Option Text
  pub allowed_headers : Option (List Text)
  pub allowed_methods : List Text
  pub allowed_origins : List Text
  pub expose_headers : Option (List Text)
  pub max_age_seconds : Option ℤ

-- `From<S3SCORSRule> for CORSRule`
unfoldable pub rule_of : S3sCorsRule → CorsRule
rule_of value = record {
  id = value.id;
  allowed_headers = value.allowed_headers;
  allowed_methods = value.allowed_methods;
  allowed_origins = value.allowed_origins;
  expose_headers = value.expose_headers;
  max_age_seconds = elim value.max_age_seconds [ none ↦ pos 0 | some age ↦ age ];
}

-- `From<CORSRule> for S3SCORSRule`
unfoldable pub s3s_rule_of : CorsRule → S3sCorsRule
s3s_rule_of val = record {
  id = val.id;
  allowed_headers = val.allowed_headers;
  allowed_methods = val.allowed_methods;
  allowed_origins = val.allowed_origins;
  expose_headers = val.expose_headers;
  max_age_seconds = some val.max_age_seconds;
}

-- `From<CORSConfiguration> for GetBucketCorsOutput`, by its rules.
unfoldable pub cors_output : List CorsRule → Option (List S3sCorsRule)
unfolding s3s_rule_of
cors_output [] = none
cors_output (rule ∷ rules) = some (map s3s_rule_of (rule ∷ rules))

-- `join(", ")`
abbrev pub comma_join : List Text → Text
comma_join [] = []
comma_join (s ∷ []) = s
comma_join (s ∷ t ∷ rest) = s ++ codes ", " ++ comma_join (t ∷ rest)

abbrev pub allow_origin : Text
allow_origin = codes "Access-Control-Allow-Origin"

abbrev pub allow_methods : Text
allow_methods = codes "Access-Control-Allow-Methods"

abbrev pub allow_headers : Text
allow_headers = codes "Access-Control-Allow-Headers"

abbrev pub expose : Text
expose = codes "Access-Control-Expose-Headers"

abbrev pub max_age : Text
max_age = codes "Access-Control-Max-Age"

abbrev pub Headers : Type 0
Headers = Map Text Text

-- A header for a list that is not empty, for an optional list, and for the age 0.
unfoldable pub with_list : Text → List Text → Headers → Headers
with_list name [] headers = headers
with_list name (x ∷ l) headers = insert headers name (comma_join (x ∷ l))

unfoldable pub with_option : Text → Option (List Text) → Headers → Headers
with_option name none headers = headers
with_option name (some head) headers = insert headers name (comma_join head)

unfoldable pub with_age : ℤ → Headers → Headers
with_age (pos age) headers = if nat_eq age 0 then insert headers max_age (codes "0") else headers
with_age (negsuc age) headers = headers

unfoldable pub rule_headers : CorsRule → Headers
unfolding with_list with_option with_age
rule_headers rule = with_age rule.max_age_seconds (
    with_option expose rule.expose_headers (
      with_option allow_headers rule.allowed_headers (
        with_list allow_methods rule.allowed_methods
          (with_list allow_origin rule.allowed_origins []))))

abbrev pub contains_key : Headers → Text → Bool
contains_key headers name = elim (get headers name) [ none ↦ false | some _ ↦ true ]

-- The loop over the requested headers.
unfoldable pub all_there : Headers → List Text → Bool
all_there headers [] = true
all_there headers (name ∷ expected) =
    let rest = all_there headers expected in if contains_key headers name then rest else false

unfoldable pub check_headers : Headers → Option (List Text) → Option Headers
unfolding all_there
check_headers headers none = some headers
check_headers headers (some expected) = if all_there headers expected then some headers else none

-- The first rule that allows the origin and the method decides.
unfoldable pub into_headers : List CorsRule → Text → Text → Option (List Text) → Option Headers
unfolding rule_headers check_headers
into_headers [] origin method header = none
into_headers (rule ∷ rules) origin method header =
    let rest = into_headers rules origin method header in
    if contains rule.allowed_origins origin && contains rule.allowed_methods method
    then check_headers (rule_headers rule) header
    else rest

abbrev pub comma : ℕ
comma = b','

-- `split(',')`: the parts of a text, by rounds of which its length and one suffice.
unfoldable pub split_commas : ℕ → Text → List Text
unfolding split_once
split_commas ℕ.zero text = text ∷ []
split_commas (ℕ.suc fuel) text = elim (split_once comma text) [
  | none ↦ text ∷ []
  | some (part, rest) ↦ part ∷ split_commas fuel rest
]

-- The first key value that holds a configuration; `from_json` reads one, `trim` is `str::trim`.
unfoldable pub first_config :
    (Text → Option (List CorsRule))
    → List KeyValue
    → Text
    → Text
    → Option (List Text)
    → Option Headers
unfolding into_headers
first_config from_json [] origin method header = none
first_config from_json (kv ∷ key_values) origin method header =
    let rest = first_config from_json key_values origin method header in
    if kv.key == codes "app.aruna-storage.org/cors"
    then elim (from_json kv.value) [
      | none ↦ rest
      | some config ↦ into_headers config origin method header
    ]
    else rest

unfoldable pub project_get_headers :
    (Text → Option (List CorsRule))
    → (Text → Text)
    → Object
    → Text
    → Option Text
    → Option Text
    → Option Headers
unfolding type_eq first_config split_commas
project_get_headers from_json trim object request_method origin request_headers =
    if not (type_eq object.object_type ObjectType.project) then none else elim origin [
      | none ↦ none
      | some request_origin ↦
          first_config from_json object.key_values request_origin request_method
            (elim request_headers [
              | none ↦ none
              | some text ↦ some (map trim (split_commas (length text) text))
            ])
    ]
