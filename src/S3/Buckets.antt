-- ===== src/S3/Buckets.antt =====
-- s3_frontend/s3service.rs: `create_bucket`, the configurations for other origins, `list_buckets` and
-- `list_objects_v2`.
use data_proxy.Base.{
  ℕ, ◌+◌, Bool, true, false, List, [], ◌∷◌, map, Option, none, some, Text, eq_text, ◌==◌, ltb,
  length, if◌then◌else◌, Result, ok, err, s3_error, not_signed_up, invalid_object_state,
  invalid_argument, invalid_token, invalid_access_key_id, no_such_bucket, no_such_key, ok_or,
}
use data_proxy.Base.Int.{ℤ, pos, negsuc, as_u64}
use data_proxy.Structs.Format.{DieselUlid}
use data_proxy.Structs.Object.{Object, Fresh, KeyValue, NaiveDateTime}
use data_proxy.Structs.Requests.{bucket_object}
use data_proxy.Structs.States.{require_project}
use data_proxy.Structs.Users.{
  CheckAccessResult, UserState, require_regular, impersonating_token, get_user_id,
}
use data_proxy.Structs.Cors.{CorsRule, S3sCorsRule, rule_of, cors_output}
use data_proxy.Cache.{get_path}
use data_proxy.Cache.Secrets.{get_personal_projects}
use data_proxy.Listing.{Contents, list_response}
use data_proxy.Client.{create_project, upsert, add_or_replace_key_value_project, cors_key}
use data_proxy.Client.Base.{Method, ◌>>=◌, ◌>>◌, lift, fail_with, skip}
use data_proxy.S3.{Env, internal}

-- The token of a user who must be able to act on the server.
unfoldable pub require_token : Env → UserState → Result Text
unfolding impersonating_token
require_token env state =
    ok_or (impersonating_token env.client.to_string env.sign state)
      (s3_error not_signed_up "Unauthorized: Impersonating error")

-- With a client, the project is created at the server first.
unfoldable pub created_bucket : Env → Option CheckAccessResult → Object → Method Object
unfolding require_token
created_bucket env data_of new_object =
    if env.has_client
    then (do
      access ← lift (ok_or data_of (internal "Internal Error"))
      token ← lift (require_token env access.user_state)
      fail_with (create_project env.client new_object token)
          (internal "[BACKEND] Unable to create project"))
    else lift (ok new_object)

unfoldable pub create_bucket : Env → Fresh → Option CheckAccessResult → Text → Method Text
unfolding bucket_object created_bucket
create_bucket env fresh data_of bucket = do
  new_object ← created_bucket env data_of (bucket_object fresh bucket)
  fail_with (upsert env.client new_object) (internal "Unable to cache new bucket")
  lift (ok new_object.name)

-- The key value of a project is replaced or, for `none`, removed.
unfoldable pub update_cors :
    Env → Result CheckAccessResult → Result (Option (Text × Text)) → Method (Unit {0})
unfolding require_regular require_project require_token
update_cors env context kv = do
  access ← lift context
  regular ← lift (require_regular access.objects_state)
  bucket_obj ← lift (require_project regular.0)
  token ← lift (require_token env access.user_state)
  value ← lift kv
  fail_with (add_or_replace_key_value_project env.client token bucket_obj value)
      (internal "Unable to update KeyValues")

-- `to_json` is `serde_json::to_string`.
unfoldable pub put_bucket_cors :
    Env
    → (List CorsRule → Option Text)
    → Option CheckAccessResult
    → List S3sCorsRule
    → Method (Unit {0})
unfolding rule_of update_cors
put_bucket_cors env to_json data_of cors_rules =
    if env.has_client
    then update_cors env
        (ok_or data_of (s3_error invalid_object_state "Missing CheckAccess extension"))
        (elim (to_json (map rule_of cors_rules)) [
          | none ↦ err (s3_error invalid_argument "Unable to serialize cors configuration")
          | some config ↦ ok (some (cors_key, config))
        ])
    else skip

unfoldable pub delete_bucket_cors : Env → Option CheckAccessResult → Method (Unit {0})
unfolding update_cors
delete_bucket_cors env data_of =
    if env.has_client
    then update_cors env (ok_or data_of (internal "Internal Error")) (ok none)
    else skip

abbrev pub first_value : List KeyValue → Option Text
first_value [] = none
first_value (kv ∷ key_values) =
    let later = first_value key_values in if kv.key == cors_key then some kv.value else later

-- `from_json` is `serde_json::from_str`.
unfoldable pub get_bucket_cors :
    (Text → Option (List CorsRule)) → Option CheckAccessResult → Method (Option (List S3sCorsRule))
unfolding require_regular require_project cors_output
get_bucket_cors from_json data_of = do
  access ← lift (ok_or data_of (s3_error invalid_object_state "Missing CheckAccess extension"))
  regular ← lift (require_regular access.objects_state)
  bucket_obj ← lift (require_project regular.0)
  lift (elim (first_value bucket_obj.key_values) [
    | none ↦ ok none
    | some cors ↦ elim (from_json cors) [
      | none ↦ err (s3_error invalid_object_state "Unable to deserialize cors from JSON")
      | some config ↦ ok (cors_output config)
    ]
  ])

abbrev pub bucket_entry : Object → Text × Option NaiveDateTime
bucket_entry o = (o.name, o.created_at)

-- The buckets of a user, `none` if there are none, and the owner.
unfoldable pub list_buckets :
    (DieselUlid → Text)
    → Option CheckAccessResult
    → Method (Option (List (Text × Option NaiveDateTime)) × Text)
unfolding get_user_id get_personal_projects
list_buckets to_string data_of = do
  access ← lift (ok_or data_of (s3_error invalid_object_state "Missing CheckAccess extension"))
  user_id ← lift (
      ok_or (get_user_id access.user_state)
        (s3_error invalid_access_key_id "Invalid access key / user"))
  projects ←
      fail_with (λ w. some (get_personal_projects w.keys w.cache.resources user_id, w))
        (internal "Unable to get personal projects")
  lift (
      ok (
        elim projects [ [] ↦ none | o ∷ rest ↦ some (bucket_entry o ∷ map bucket_entry rest) ],
        to_string user_id,
      ))

pub record ListObjectsV2Input : Type 0 where
  pub bucket : Text
  pub delimiter : Option Text
  pub list_prefix : Option Text
  pub continuation_token : Option Text
  pub start_after : Option Text
  pub max_keys : Option ℤ

pub record ListObjectsV2Output : Type 0 where
  pub common_prefixes : List Text
  pub contents : List Contents
  pub continuation_token : Option Text
  pub is_truncated : Bool
  pub key_count : ℕ
  pub max_keys : ℕ
  pub next_continuation_token : Option Text
  pub start_after : Text

-- An empty prefix is none.
unfoldable pub used_prefix : Option Text → Option Text
used_prefix none = none
used_prefix (some []) = none
used_prefix (some (c ∷ s)) = some (c ∷ s)

-- The token, decoded; `decode` reads the base 64 and the UTF-8.
unfoldable pub read_token : (Text → Option Text) → Option Text → Result (Option Text)
read_token decode none = ok none
read_token decode (some t) = elim (decode t) [
  | none ↦ err (s3_error invalid_token "Invalid continuation token")
  | some token ↦ ok (some token)
]

-- The token goes before `start_after`.
unfoldable pub start_of : Option Text → Option Text → Text
start_of start_after (some ct) = ct
start_of (some s) none = s
start_of none none = []

-- `k < 1000` and `k as usize`
unfoldable pub page_size : Option ℤ → ℕ
page_size none = 1000
page_size (some (pos k)) = if ltb k 1000 then as_u64 (pos k) else 1000
page_size (some (negsuc k)) = as_u64 (negsuc k)

unfoldable pub list_objects_v2 :
    (Text → Text)
    → (Text → Option Text)
    → Option CheckAccessResult
    → ListObjectsV2Input
    → Method ListObjectsV2Output
unfolding used_prefix read_token start_of page_size
list_objects_v2 encode decode data_of input w = elim data_of [
  | none ↦ lift (err (internal "No context found")) w
  | some access ↦ elim (get_path w.cache input.bucket) [
    | none ↦ lift (err (s3_error no_such_bucket "No bucket found")) w
    | some _ ↦ elim (read_token decode input.continuation_token) [
      | err e ↦ lift (err e) w
      | ok continuation_token ↦
          let start_after = start_of input.start_after continuation_token in
          let max_keys = page_size input.max_keys in
          elim (list_response encode w.cache input.delimiter (used_prefix input.list_prefix)
            input.bucket start_after max_keys) [
              | err e ↦ lift (err (s3_error no_such_key "Keys not found in ListObjectsV2")) w
              | ok listed ↦
                  if ltb max_keys 2147483648
                  then lift
                      (ok (record {
                        common_prefixes = listed.0.common_prefixes;
                        contents = listed.0.keys;
                        continuation_token = continuation_token;
                        is_truncated = elim listed.1 [ none ↦ false | some _ ↦ true ];
                        key_count = length listed.0.keys + length listed.0.common_prefixes;
                        max_keys = max_keys;
                        next_continuation_token = listed.1;
                        start_after = start_after;
                      }))
                      w
                  else lift (err (internal "[BACKEND] Conversion failure")) w
            ]
    ]
  ]
]
