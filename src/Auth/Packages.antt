-- ===== src/Auth/Packages.antt =====
-- auth/auth.rs: the requests on the root, on packages of objects (the bucket "objects"), on bundles (the
-- bucket "bundles"), and the dispatch of a request to its handler (`check_access`, `handle_object`).
pub mod Readable
use data_proxy.Base.{
  Bool, true, false, List, [], ◌∷◌, map, Option, none, some, Text, codes, eq_text, eq_nat, ◌==◌,
  slash, split_once, Result, ok, err, s3_error, access_denied, no_such_key, malformed_acl_error,
  invalid_object_state, method_not_allowed, ◌>>=◌, ◌>>◌, guard, ok_or, map_err, if◌then◌else◌,
}
use data_proxy.Base.Map.{Map}
use data_proxy.Structs.Format.{DieselUlid, ObjectLocation}
use data_proxy.Structs.Permission.{DbPermissionLevel, Method, is_method_read}
use data_proxy.Structs.Object.{Object, Bundle, TypedId, is_public}
use data_proxy.Structs.States.{AccessKeyPermissions, new}
use data_proxy.Structs.Users.{
  ObjectsState, regular, objects, bundle, UserState, anonymous, user_state_of, CheckAccessResult,
}
use data_proxy.Auth.Helpers.{check_permission_list}
use data_proxy.Auth.Requests.{Env, Caller, handle_bucket, handle_object}

-- What these handlers ask of the cache and of the rule engine beyond `Env`; `none` of a `build` or an
-- `evaluate` is an error.
pub record Packages (env : Env) : Type 1 where
  pub PackageInput : Type 0
  pub BundleInput : Type 0
  pub RootInput : Type 0
  pub from_str : Text → Result DieselUlid
  pub get_resource_cloned : DieselUlid → Bool → Result (Object × Option ObjectLocation)
  pub get_prefixes : TypedId → Bool → List (TypedId × Text)
  pub get_bundle : DieselUlid → Option Bundle
  pub build_package : env.Headers → Object → Option Caller → List Object → Option PackageInput
  pub evaluate_package : PackageInput → Option Bool
  pub build_bundle : env.Headers → Bundle → Option Caller → Option BundleInput
  pub evaluate_bundle : BundleInput → Option Bool
  pub build_root : Method → env.Headers → Caller → Option RootInput
  pub evaluate_root : RootInput → Option Bool

-- `S3Path`
pub data S3Path : Type 0 where
  root : S3Path
  bucket_path : Text → S3Path
  object_path : Text → Text → S3Path

-- The answer of a rule, which all handlers turn into the same errors.
unfoldable pub ruling : {Input : Type 0} → Option Input → (Input → Option Bool) → Result (Unit {0})
ruling input evaluate = do
  given ← ok_or input (s3_error malformed_acl_error "Rule has wrong context")
  result ← ok_or (evaluate given) (s3_error access_denied "Forbidden by rule")
  guard result (s3_error invalid_object_state "Forbidden by rule")

module _ (env : Env) (packages : Packages env) where
  open env use {Headers, Credentials, ulid_to_string, extract_access_key_perms}
  open packages use {
    from_str, get_resource_cloned, get_prefixes, get_bundle, build_package, evaluate_package,
    build_bundle, evaluate_bundle, build_root, evaluate_root,
  }

  -- `get_parents`
  unfoldable pub get_parents : DieselUlid → List TypedId
  get_parents id = map (λ (x : TypedId × Text). x.0) (get_prefixes (TypedId.unknown id) true)

  unfoldable pub get_parent_project_objects : List TypedId → Result (List Object)
  get_parent_project_objects [] = ok []
  get_parent_project_objects (TypedId.project id ∷ parents) = do
    (obj, location) ← map_err (get_resource_cloned id true) (s3_error no_such_key "No such object")
    rest ← get_parent_project_objects parents
    ok (obj ∷ rest)
  get_parent_project_objects (TypedId.collection id ∷ parents) = get_parent_project_objects parents
  get_parent_project_objects (TypedId.dataset id ∷ parents) = get_parent_project_objects parents
  get_parent_project_objects (TypedId.object id ∷ parents) = get_parent_project_objects parents
  get_parent_project_objects (TypedId.unknown id ∷ parents) = get_parent_project_objects parents

  abbrev key_of : Option Caller → Option AccessKeyPermissions
  key_of none = none
  key_of (some (key, attributes)) = some key

  -- The match on the caller: a key's permissions are checked for an object that is not public.
  unfoldable pub package_user : Bool → List TypedId → Option Caller → Result UserState
  unfolding check_permission_list
  package_user public parents (some (user, attributes)) = do
    if public then ok tt else check_permission_list parents user.permissions DbPermissionLevel.read
    ok (user_state_of ulid_to_string (some user))
  package_user public parents none = ok anonymous

  unfoldable pub handle_package_objects :
      Text → Option Credentials → Headers → Result CheckAccessResult
  unfolding get_parents get_parent_project_objects package_user ruling
  handle_package_objects key_name creds headers = do
    (object_name, path) ← ok_or (split_once slash key_name) (s3_error no_such_key "No such object")
    object_id ← map_err (from_str object_name) (s3_error no_such_key "No such object")
    (object, location) ←
        map_err (get_resource_cloned object_id true) (s3_error no_such_key "No such object")
    let parents = get_parents object_id
    user ← package_user (is_public object.data_class) parents (extract_access_key_perms creds)
    projects ← get_parent_project_objects parents
    ruling (build_package headers object (extract_access_key_perms creds) projects) evaluate_package
    ok (record { objects_state = objects object path; user_state = user; headers = none })

  unfoldable pub handle_bundles : Text → Option Credentials → Headers → Result CheckAccessResult
  unfolding ruling
  handle_bundles key_name creds headers = do
    (object_name, path) ← ok_or (split_once slash key_name) (s3_error no_such_key "No such object")
    bundle_id ← map_err (from_str object_name) (s3_error no_such_key "No such object")
    found ← ok_or (get_bundle bundle_id) (s3_error no_such_key "No such object")
    ruling (build_bundle headers found (extract_access_key_perms creds)) evaluate_bundle
    ok (record {
      objects_state = bundle found path;
      user_state = user_state_of ulid_to_string (key_of (extract_access_key_perms creds));
      headers = none;
    })

  unfoldable pub handle_root : Method → Option Credentials → Headers → Result CheckAccessResult
  unfolding ruling
  handle_root method creds headers = elim (extract_access_key_perms creds) [
    | none ↦ err (s3_error access_denied "Missing access key")
    | some (key, attributes) ↦ do
      ruling (build_root method headers (key, attributes)) evaluate_root
      ok (record {
        objects_state = regular new none;
        user_state = user_state_of ulid_to_string (some key);
        headers = none;
      })
  ]

  -- The beginning of `handle_object`: two names of buckets are reserved, and only read.
  unfoldable pub dispatch_object :
      Text → Text → Method → Option Credentials → Headers → Result CheckAccessResult
  unfolding handle_package_objects handle_bundles handle_object
  dispatch_object bucket_name key_name method creds headers =
      if bucket_name == codes "objects"
      then if is_method_read method
        then handle_package_objects key_name creds headers
        else err (s3_error method_not_allowed "Method not allowed")
      else if bucket_name == codes "bundles"
      then if is_method_read method
        then handle_bundles key_name creds headers
        else err (s3_error method_not_allowed "Method not allowed")
      else handle_object env bucket_name key_name method creds headers

  unfoldable pub check_access :
      Option Credentials → Method → S3Path → Headers → Result CheckAccessResult
  unfolding dispatch_object handle_root handle_bucket
  check_access creds method root headers = handle_root method creds headers
  check_access creds method (bucket_path bucket) headers =
      handle_bucket env bucket method creds headers
  check_access creds method (object_path bucket key) headers =
      dispatch_object bucket key method creds headers
