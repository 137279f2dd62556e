-- ===== src/Auth/Packages/Readable.antt =====
-- auth/auth.rs: who gets a package of objects or a bundle.
use data_proxy.Base.{
  ◌≢◌, subst, Bool, true, false, any, map, List, Option, none, some, Text, slash, split_once,
  Result, ok, err, Error, ok_or, map_err, >>=-eq-ok, ok_or-eq-ok, map_err-eq-ok, ◌≡◌, refl, sym, ap,
  ◌⊎◌, inl, inr, if◌then◌else◌, Bool-cases, codes, text_eq_iff, ◌==◌, eq_text, arith,
}
use data_proxy.Structs.Format.{DieselUlid, ObjectLocation}
use data_proxy.Structs.Permission.{DbPermissionLevel, Method, is_method_read}
use data_proxy.Structs.Object.{Object, TypedId, id_of, is_public}
use data_proxy.Structs.States.{AccessKeyPermissions, ResourceStates, holds}
use data_proxy.Structs.Users.{
  ObjectsState, objects, UserState, anonymous, personal, token, user_state_of, CheckAccessResult,
}
use data_proxy.Auth.Helpers.{check_permission_list, check_list-any}
use data_proxy.Auth.Requests.{Env, Caller, handle_object}
use data_proxy.Auth.Requests.Granted.{IsGranted, handle_object-IsGranted}
use data_proxy.Auth.Packages.{
  Packages, object_path, ruling, get_parents, get_parent_project_objects, package_user,
  handle_package_objects, handle_bundles, dispatch_object, check_access,
}

-- A caller with a key reads the object: it is public, or the key may read a parent of the object.
abbrev pub MayRead : Object → List TypedId → Option Caller → Type 0
MayRead object parents none = Unit
MayRead object parents (some (key, attributes)) =
    (is_public object.data_class ≡ true)
    ⊎ (any (holds key.permissions DbPermissionLevel.read) (map id_of parents) ≡ true)

check_permission_list-ok :
    (key : AccessKeyPermissions) (parents : List TypedId)
    → check_permission_list parents key.permissions DbPermissionLevel.read ≡ ok tt
    → any (holds key.permissions DbPermissionLevel.read) (map id_of parents) ≡ true
unfolding check_permission_list
check_permission_list-ok key parents h =
    elim (Bool-cases (any (holds key.permissions DbPermissionLevel.read) (map id_of parents))) [
      | inl e ↦ e
      | inr e ↦
          ground
            (arith, check_list-any key.permissions DbPermissionLevel.read (map id_of parents), e, h)
    ]

-- The user of a caller: personal if the access key is the written user's identifier, otherwise by a
-- token; anonymous without a key.
abbrev pub IsCaller : (DieselUlid → Text) → Option Caller → UserState → Type 0
IsCaller to_string none user = user ≡ anonymous
IsCaller to_string (some (key, attributes)) user =
    ((key.access_key ≡ to_string key.user_id) × (user ≡ personal key.user_id))
    ⊎ ((key.access_key ≢ to_string key.user_id) × (user ≡ token key.access_key key.user_id))

module _ (env : Env) (packages : Packages env) where
  open env use {Headers, Credentials, ulid_to_string, extract_access_key_perms}
  open packages use {from_str, get_resource_cloned, build_package, evaluate_package}

  package_user-MayRead :
      (object : Object) (parents : List TypedId) (caller : Option Caller) {u : UserState}
      → package_user env packages (is_public object.data_class) parents caller ≡ ok u
      → MayRead object parents caller
  unfolding package_user
  package_user-MayRead object parents none h = tt
  package_user-MayRead object parents (some (key, attributes)) h =
      let (_, checked, _) =
        >>=-eq-ok
          (if is_public object.data_class
            then ok tt
            else check_permission_list parents key.permissions DbPermissionLevel.read)
          _ h in
      either (is_public object.data_class) checked
    where
      either :
          (b : Bool)
          → (if b
              then ok tt
              else check_permission_list parents key.permissions DbPermissionLevel.read)
            ≡ ok tt
          → (b ≡ true)
            ⊎ (any (holds key.permissions DbPermissionLevel.read) (map id_of parents) ≡ true)
      either true c = inl refl
      either false c = inr (check_permission_list-ok key parents c)

  package_user-IsCaller :
      (public : Bool) (parents : List TypedId) (caller : Option Caller) {u : UserState}
      → package_user env packages public parents caller ≡ ok u
      → IsCaller ulid_to_string caller u
  unfolding package_user user_state_of
  package_user-IsCaller public parents none h = ground arith
  package_user-IsCaller public parents (some (key, attributes)) {u} h =
      let (_, _, same) =
        >>=-eq-ok
          (if public
            then ok tt
            else check_permission_list parents key.permissions DbPermissionLevel.read)
          _ h in
      elim (Bool-cases (key.access_key == ulid_to_string key.user_id)) [
        | inl e ↦
            inl ((text_eq_iff key.access_key (ulid_to_string key.user_id)).0 e, ground (arith, e))
        | inr e ↦ inr (
          (λ s. ground (arith, (text_eq_iff key.access_key (ulid_to_string key.user_id)).1 s, e)),
          ground (arith, e),
        )
      ]

  -- What a granted package rests on.
  pub record IsPackage (key_name : Text) (creds : Option Credentials) (headers : Headers)
      (result : CheckAccessResult) (id : DieselUlid) (object : Object) : Type 0 where
    pub named :
        (name path : Text) × (split_once slash key_name ≡ some (name, path))
        × (from_str name ≡ ok id)
        × (result.objects_state ≡ objects object path)
    pub cached :
        (location : Option ObjectLocation) × (get_resource_cloned id true ≡ ok (object, location))
    pub caller : MayRead object (get_parents env packages id) (extract_access_key_perms creds)
    pub user : IsCaller ulid_to_string (extract_access_key_perms creds) result.user_state

  abbrev state_of : Result CheckAccessResult → ObjectsState → ObjectsState
  state_of (ok x) other = x.objects_state
  state_of (err e) other = other

  abbrev user_of : Result CheckAccessResult → UserState
  user_of (ok x) = x.user_state
  user_of (err e) = anonymous

  -- A package is granted only if the first name of its key is the identifier of a resource of the
  -- cache, which is returned with the rest of the key; to a caller with a key only if the resource
  -- is public or the key may read one of its parents; and the user returned is anonymous without a
  -- key, and with one the key's user: personal if the key is the user's identifier, otherwise by a
  -- token of that name.
  pub handle_package_objects-IsPackage :
      (key_name : Text) (creds : Option Credentials) (headers : Headers)
      {result : CheckAccessResult}
      → handle_package_objects env packages key_name creds headers ≡ ok result
      → (id : DieselUlid) × (object : Object) × IsPackage key_name creds headers result id object
  unfolding handle_package_objects
  handle_package_objects-IsPackage key_name creds headers {result} h =
      let ((name, path), split, h₁) = >>=-eq-ok (ok_or (split_once slash key_name) _) _ h in
      let (id, numbered, h₂) = >>=-eq-ok (map_err (from_str name) _) _ h₁ in
      let ((object, location), found, h₃) =
        >>=-eq-ok (map_err (get_resource_cloned id true) _) _ h₂ in
      let parents = get_parents env packages id in
      let caller = extract_access_key_perms creds in
      let (user, allowed, h₄) =
        >>=-eq-ok (package_user env packages (is_public object.data_class) parents caller) _ h₃ in
      let (projects, _, h₅) = >>=-eq-ok (get_parent_project_objects env packages parents) _ h₄ in
      let (_, obeyed, same) =
        >>=-eq-ok (ruling (build_package headers object caller projects) evaluate_package) _ h₅ in
      (
        id,
        object,
        record {
          named = (
            name,
            path,
            ok_or-eq-ok (split_once slash key_name) _ split,
            map_err-eq-ok (from_str name) _ numbered,
            ap (λ r. state_of r (objects object path)) (sym same),
          );
          cached = (location, map_err-eq-ok (get_resource_cloned id true) _ found);
          caller = package_user-MayRead object parents caller allowed;
          user =
              subst (IsCaller ulid_to_string caller) (ap user_of same)
                (package_user-IsCaller (is_public object.data_class) parents caller allowed);
        },
      )

  -- Without a key, the package of any resource of the cache whose parent projects are found and
  -- that the rules let through is granted to the anonymous user, also of one that is not public.
  pub handle_package_objects-anonymous :
      (key_name : Text) (creds : Option Credentials) (headers : Headers) (name path : Text)
      (id : DieselUlid) (object : Object) (location : Option ObjectLocation)
      (projects : List Object) (input : packages.PackageInput)
      → split_once slash key_name ≡ some (name, path)
      → from_str name ≡ ok id
      → get_resource_cloned id true ≡ ok (object, location)
      → extract_access_key_perms creds ≡ none
      → get_parent_project_objects env packages (get_parents env packages id) ≡ ok projects
      → build_package headers object none projects ≡ some input
      → evaluate_package input ≡ some true
      → handle_package_objects env packages key_name creds headers
        ≡ ok
            (record { objects_state = objects object path; user_state = anonymous; headers = none })
  unfolding handle_package_objects package_user ruling
  handle_package_objects-anonymous key_name creds headers name path id object location projects
        input split numbered found no_key parents built obeyed =
      rw split (rw numbered (rw found (rw no_key (rw parents (rw built (rw obeyed))))))

  reserved-cases :
      (in_objects in_bundles read : Bool) (x y z : Result CheckAccessResult) (e : Error)
      {result : CheckAccessResult}
      → (if in_objects
          then if read then x else err e
          else if in_bundles
          then if read then y else err e
          else z)
        ≡ ok result
      → ((read ≡ true) × ((in_objects ≡ true) ⊎ (in_bundles ≡ true))) ⊎ (z ≡ ok result)
  reserved-cases in_objects in_bundles read x y z e h = ground arith

  -- A request on an object path is granted only if it reads and its bucket is one of the two
  -- reserved names, or if the names of its path resolve to states of the four levels, which are
  -- returned with the location of the object found; a reading method finds every name; the lowest
  -- object found is not partially synced here; the caller's key holds the method's level on some
  -- level of the path or a reading method meets a public object there, or without a key the object
  -- itself is found and public; and the rule engine answers true.
  pub check_access-IsGranted :
      (creds : Option Credentials) (method : Method) (bucket key : Text) (headers : Headers)
      {result : CheckAccessResult}
      → check_access env packages creds method (object_path bucket key) headers ≡ ok result
      → ((is_method_read method ≡ true) × ((bucket ≡ codes "objects") ⊎ (bucket ≡ codes "bundles")))
        ⊎ ((states : ResourceStates) × IsGranted env bucket key method creds headers result states)
  unfolding check_access dispatch_object
  check_access-IsGranted creds method bucket key headers {result} h =
      elim (reserved-cases (bucket == codes "objects") (bucket == codes "bundles")
        (is_method_read method) (handle_package_objects env packages key creds headers)
        (handle_bundles env packages key creds headers)
        (handle_object env bucket key method creds headers) _ h) [
          | inl (read, inl e) ↦ inl (read, inl ((text_eq_iff bucket (codes "objects")).0 e))
          | inl (read, inr e) ↦ inl (read, inr ((text_eq_iff bucket (codes "bundles")).0 e))
          | inr granted ↦ inr (handle_object-IsGranted env bucket key method creds headers granted)
        ]
