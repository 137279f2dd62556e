-- ===== src/Auth/Requests.antt =====
-- auth/auth.rs: who may make a request on a bucket or an object (`handle_bucket`, the path of
-- `handle_object` for an object in a bucket).
pub mod Granted
use data_proxy.Base.{
  Bool, true, false, not, ◌&&◌, List, [], ◌∷◌, ◌++◌, Option, none, some, Text, slash, Result, ok,
  err, Error, s3_error, access_denied, no_such_bucket, malformed_acl_error, invalid_object_state,
  ◌>>=◌, ◌>>◌, guard, ok_or, if◌then◌else◌,
}
use data_proxy.Base.Map.{Map}
use data_proxy.Structs.Format.{DieselUlid, ObjectLocation}
use data_proxy.Structs.Permission.{Method, is_method_read, level_of_method}
use data_proxy.Structs.Object.{Object, is_public}
use data_proxy.Structs.States.{
  ResourceStates, AccessKeyPermissions, check_permissions, disallow_missing,
  states_fail_partial_sync, require_project, require_object, get_project, get_object,
}
use data_proxy.Structs.Users.{
  ObjectsState, regular, UserState, anonymous, user_state_of, CheckAccessResult,
}
use data_proxy.Auth.Path.{key_into_prefix}
use data_proxy.Auth.Resolve.{prefix_into_resource_states, is_none}

-- A user as `extract_access_key_perms` gives it: the key and the user's attributes.
abbrev pub Caller : Type 0
Caller = AccessKeyPermissions × Map Text Text

-- What a request is handled with: the cache's answers at the time of the request, the CORS headers of a
-- project, and the rule engine (`build` of the rule input, `evaluate_object`; `none` is an error).
pub record Env : Type 1 where
  pub Headers : Type 0
  pub Credentials : Type 0
  pub RuleInput : Type 0
  pub self_id : DieselUlid
  pub ulid_to_string : DieselUlid → Text
  pub get_full_resource_by_path : Text → Option Object
  pub get_location : DieselUlid → Option ObjectLocation
  pub extract_access_key_perms : Option Credentials → Option Caller
  pub project_get_headers : Object → Method → Headers → Option (Map Text Text)
  pub build : Method → Headers → ResourceStates → Option Caller → Option RuleInput
  pub evaluate_object : RuleInput → Option Bool

module _ (env : Env) where
  open env use {
    Headers, Credentials, self_id, ulid_to_string, get_full_resource_by_path, get_location,
    extract_access_key_perms, project_get_headers, build, evaluate_object,
  }

  -- The rule engine's part, which both handlers repeat.
  unfoldable pub obey_rules : Method → Headers → ResourceStates → Option Caller → Result (Unit {0})
  obey_rules method headers states caller = do
    input ←
        ok_or (build method headers states caller)
          (s3_error malformed_acl_error "Rule has wrong context")
    result ← ok_or (evaluate_object input) (s3_error access_denied "Forbidden by rule")
    guard result (s3_error invalid_object_state "Forbidden by rule")

  -- The headers of an existing bucket, or the refusals for one that does not exist.
  unfoldable pub bucket_headers :
      Method → Headers → ResourceStates → AccessKeyPermissions → Result (Option (Map Text Text))
  bucket_headers method headers states key = elim (get_project states) [
    | none ↦ elim method [
      | Method.get ↦ err (s3_error no_such_bucket "No such bucket")
      | _ ↦
          if key.is_service_account
          then err (s3_error access_denied "Service account not allowed to create buckets")
          else ok none
    ]
    | some _ ↦ do
      check_permissions states key (level_of_method method) (is_method_read method)
      project ← require_project states
      ok (project_get_headers project method headers)
  ]

  unfoldable pub handle_bucket :
      Text → Method → Option Credentials → Headers → Result CheckAccessResult
  unfolding obey_rules bucket_headers
  handle_bucket bucket_name method creds headers = do
    (key, attributes) ←
        ok_or (extract_access_key_perms creds) (s3_error access_denied "No such user")
    states ←
        prefix_into_resource_states get_full_resource_by_path ((bucket_name, bucket_name) ∷ []) true
    cors_headers ← bucket_headers method headers states key
    obey_rules method headers states (some (key, attributes))
    ok (record {
      objects_state = regular states none;
      user_state = user_state_of ulid_to_string (some key);
      headers = cors_headers;
    })

  -- The user of a request on an object: with a key its permissions are checked, without one the object
  -- must be public.
  unfoldable pub object_user : Method → ResourceStates → Option Caller → Result UserState
  unfolding require_object
  object_user method states (some (user, attributes)) = do
    check_permissions states user (level_of_method method) (is_method_read method)
    ok (user_state_of ulid_to_string (some user))
  object_user method states none = do
    object ← require_object states
    guard (is_public object.data_class) (s3_error access_denied "Missing access key")
    ok anonymous

  -- `handle_object` below the dispatch on the buckets "objects" and "bundles".
  unfoldable pub handle_object :
      Text → Text → Method → Option Credentials → Headers → Result CheckAccessResult
  unfolding obey_rules object_user
  handle_object bucket_name key_name method creds headers = do
    prefix ← key_into_prefix (bucket_name ++ slash ∷ key_name)
    states ← prefix_into_resource_states get_full_resource_by_path prefix false
    if is_method_read method then disallow_missing states else ok tt
    states_fail_partial_sync states self_id
    project ← require_project states
    user_state ← object_user method states (extract_access_key_perms creds)
    obey_rules method headers states (extract_access_key_perms creds)
    ok (record {
      objects_state =
          regular states (elim (get_object states) [ none ↦ none | some o ↦ get_location o.id ]);
      user_state = user_state;
      headers = project_get_headers project method headers;
    })
