-- ===== src/Structs/States.antt =====
-- structs.rs: `ResourceState`, `ResourceStates` and its operations. The array of four states is a
-- record with its indices as fields: `objects[0]` is `project` and so on.
pub mod Missing
pub mod Access
use data_proxy.Base.{
  ℕ, zero, suc, Bool, true, false, ◌&&◌, ◌||◌, List, [], ◌∷◌, Option, none, some, Text, ◌≡◌, ◌==◌,
  eq_nat, if◌then◌else◌, Result, ok, err, anyhow, s3_error, no_such_key, access_denied, ok_or,
  to_option, ◌>>=◌, ◌>>◌,
}
use data_proxy.Base.Map.{Map, get}
use data_proxy.Structs.Permission.{DbPermissionLevel, grants}
use data_proxy.Structs.Format.{DieselUlid}
use data_proxy.Structs.Object.{
  Object, ObjectType, ResourceVariant, TypedRelation, Fresh, type_of_variant, initialize_now,
  is_public, fail_partial_sync,
}

pub data ResourceState : Type 0 where
  found : Object → ResourceState
  missing : Text → ResourceVariant → ResourceState
  absent : ResourceState

unfoldable pub is_missing : ResourceState → Bool
is_missing (missing _ _) = true
is_missing _ = false

-- `ResourceState::as_ref`
unfoldable pub as_ref : ResourceState → Option Object
as_ref (found object) = some object
as_ref _ = none

pub record ResourceStates : Type 0 where
  pub project : ResourceState
  pub collection : ResourceState
  pub dataset : ResourceState
  pub object : ResourceState

-- `ResourceStates::new`, `default`
abbrev pub new : ResourceStates
new = record { project = absent; collection = absent; dataset = absent; object = absent }

-- The accepted patterns of missing states: what is missing is a tail of the four.
abbrev pub tail_missing : Bool → Bool → Bool → Bool → Bool
tail_missing false true true true = true
tail_missing false false true true = true
tail_missing false false false true = true
tail_missing false false false false = true
tail_missing _ _ _ _ = false

unfoldable pub validate : ResourceStates → Bool → Result (Unit {0})
unfolding is_missing
validate s allow_create_project =
    let project =
      if allow_create_project && is_missing s.project then false else is_missing s.project in
    if tail_missing project (is_missing s.collection) (is_missing s.dataset) (is_missing s.object)
    then ok tt
    else err (anyhow "Invalid resource state")

unfoldable pub disallow_missing : ResourceStates → Result (Unit {0})
unfolding is_missing
disallow_missing s =
    if is_missing s.project
      || is_missing s.collection
      || is_missing s.dataset
      || is_missing s.object
    then err (s3_error no_such_key "Resource not found")
    else ok tt

-- `get_missing_collection`, `get_missing_dataset`, `get_missing_object` on their state.
unfoldable pub get_missing : Fresh → ResourceState → Option TypedRelation → Option Object
unfolding type_of_variant
get_missing fresh (missing name variant) parent = elim (type_of_variant variant) [
  | ok t ↦ some (initialize_now fresh name t parent)
  | err _ ↦ none
]
get_missing fresh (found _) parent = none
get_missing fresh absent parent = none

unfoldable pub set_project : ResourceStates → Object → ResourceStates
set_project s o = record s { project = found o }

unfoldable pub set_collection : ResourceStates → Object → ResourceStates
set_collection s o = record s { collection = found o }

unfoldable pub set_dataset : ResourceStates → Object → ResourceStates
set_dataset s o = record s { dataset = found o }

unfoldable pub set_object : ResourceStates → Object → ResourceStates
set_object s o = record s { object = found o }

unfoldable pub get_project : ResourceStates → Option Object
unfolding as_ref
get_project s = as_ref s.project

unfoldable pub get_object : ResourceStates → Option Object
unfolding as_ref
get_object s = as_ref s.object

-- `get_project_or_missing` and its three companions, on their state and type.
unfoldable pub or_missing : Fresh → ResourceState → ObjectType → Option Object
or_missing fresh (found o) t = some o
or_missing fresh (missing name _) t = some (initialize_now fresh name t none)
or_missing fresh absent t = none

-- The arms of `set_missing`, by index and length.
unfoldable pub set_missing : ResourceStates → ℕ → ℕ → Text → Result ResourceStates
set_missing s zero len name = ok (record s { project = missing name ResourceVariant.project })
set_missing s (suc idx) len name =
    if len == suc (suc idx) && (idx == 0 || idx == 1 || idx == 2)
    then ok (record s { object = missing name ResourceVariant.object })
    else if idx == 0 && len == 4
    then ok (record s { collection = missing name ResourceVariant.collection })
    else if (idx == 0 && len == 3) || (idx == 1 && len == 4)
    then ok (record s { dataset = missing name ResourceVariant.dataset })
    else err (anyhow "Invalid index")

unfoldable pub require_project : ResourceStates → Result Object
unfolding as_ref
require_project s = ok_or (as_ref s.project) (s3_error no_such_key "Project not found")

unfoldable pub require_collection : ResourceStates → Result Object
unfolding as_ref
require_collection s = ok_or (as_ref s.collection) (s3_error no_such_key "Collection not found")

unfoldable pub require_dataset : ResourceStates → Result Object
unfolding as_ref
require_dataset s = ok_or (as_ref s.dataset) (s3_error no_such_key "Dataset not found")

unfoldable pub require_object : ResourceStates → Result Object
unfolding as_ref
require_object s = ok_or (as_ref s.object) (s3_error no_such_key "Object not found")

-- `AccessKeyPermissions`
pub record AccessKeyPermissions : Type 0 where
  pub access_key : Text
  pub user_id : DieselUlid
  pub secret : Text
  pub is_service_account : Bool
  pub permissions : Map DieselUlid DbPermissionLevel

-- The states in the order of `objects.iter().rev()`: object, dataset, collection, project.
abbrev pub bottom_up : ResourceStates → List ResourceState
bottom_up s = s.object ∷ s.dataset ∷ s.collection ∷ s.project ∷ []

-- A held permission on the identifier that is at least the required one.
unfoldable pub holds : Map DieselUlid DbPermissionLevel → DbPermissionLevel → DieselUlid → Bool
unfolding get grants
holds permissions perm id = elim (get permissions id) [ none ↦ false | some q ↦ grants q perm ]

-- The loop body of `check_permissions`: does this state let the request pass?
unfoldable pub admits :
    Map DieselUlid DbPermissionLevel → DbPermissionLevel → Bool → ResourceState → Bool
unfolding holds
admits permissions perm allow_public (found o) =
    (allow_public && is_public o.data_class) || holds permissions perm o.id
admits permissions perm allow_public (missing _ _) = false
admits permissions perm allow_public absent = false

unfoldable pub check_states :
    Map DieselUlid DbPermissionLevel
    → DbPermissionLevel
    → Bool
    → List ResourceState
    → Result (Unit {0})
check_states permissions perm allow_public [] = err (s3_error access_denied "Access Denied")
check_states permissions perm allow_public (s ∷ rest) =
    if admits permissions perm allow_public s
    then ok tt
    else check_states permissions perm allow_public rest

-- `ResourceStates::check_permissions`
unfoldable pub check_permissions :
    ResourceStates → AccessKeyPermissions → DbPermissionLevel → Bool → Result (Unit {0})
unfolding check_states admits
check_permissions s key_info perm allow_public =
    check_states key_info.permissions perm allow_public (bottom_up s)

-- The loop of `fail_partial_sync`: only the first state found is asked.
unfoldable pub fail_first : DieselUlid → List ResourceState → Result (Unit {0})
unfolding fail_partial_sync
fail_first ep_id [] = ok tt
fail_first ep_id (found o ∷ rest) = fail_partial_sync o ep_id
fail_first ep_id (missing _ _ ∷ rest) = fail_first ep_id rest
fail_first ep_id (absent ∷ rest) = fail_first ep_id rest

-- `ResourceStates::fail_partial_sync`
unfoldable pub states_fail_partial_sync : ResourceStates → DieselUlid → Result (Unit {0})
unfolding fail_first
states_fail_partial_sync s ep_id = fail_first ep_id (bottom_up s)

abbrev pub tag : Object → DieselUlid × Text
tag o = (o.id, o.name)

-- The result of `as_slice`, and of `into_new_or_existing` beside the four objects.
pub record Tags : Type 0 where
  pub project : Option (DieselUlid × Text)
  pub collection : Option (DieselUlid × Text)
  pub dataset : Option (DieselUlid × Text)
  pub object : Option (DieselUlid × Text)

abbrev pub tag_of : Option Object → Option (DieselUlid × Text)
tag_of none = none
tag_of (some o) = some (tag o)

-- `ResourceStates::as_slice`
unfoldable pub as_slice : ResourceStates → Tags
unfolding as_ref
as_slice s = record {
  project = tag_of (as_ref s.project);
  collection = tag_of (as_ref s.collection);
  dataset = tag_of (as_ref s.dataset);
  object = tag_of (as_ref s.object);
}
