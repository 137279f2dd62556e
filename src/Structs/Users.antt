-- ===== src/Structs/Users.antt =====
-- structs.rs: `ObjectsState`, `UserState`, `CheckAccessResult`.
use data_proxy.Base.{
  Option, none, some, Text, Result, ok, err, s3_error, invalid_request, ◌>>=◌, ◌==◌, eq_text,
  if◌then◌else◌, to_option,
}
use data_proxy.Base.Map.{Map}
use data_proxy.Structs.Format.{DieselUlid, ObjectLocation}
use data_proxy.Structs.Object.{Object, Bundle}
use data_proxy.Structs.States.{ResourceStates, Tags, as_slice, require_object, AccessKeyPermissions}

pub data ObjectsState : Type 0 where
  regular : ResourceStates → Option ObjectLocation → ObjectsState
  objects : Object → Text → ObjectsState
  bundle : Bundle → Text → ObjectsState

unfoldable pub extract_object : ObjectsState → Result (Object × Option ObjectLocation)
unfolding require_object
extract_object (regular states location) = do object ← require_object states; ok (object, location)
extract_object (objects _ _) = err (s3_error invalid_request "Object not found")
extract_object (bundle _ _) = err (s3_error invalid_request "Object not found")

unfoldable pub try_slice : ObjectsState → Result Tags
unfolding as_slice
try_slice (regular states _) = ok (as_slice states)
try_slice (objects _ _) = err (s3_error invalid_request "Object not found")
try_slice (bundle _ _) = err (s3_error invalid_request "Object not found")

unfoldable pub require_regular : ObjectsState → Result (ResourceStates × Option ObjectLocation)
require_regular (regular states location) = ok (states, location)
require_regular (objects _ _) = err (s3_error invalid_request "Object not found")
require_regular (bundle _ _) = err (s3_error invalid_request "Object not found")

pub data UserState : Type 0 where
  anonymous : UserState
  personal : DieselUlid → UserState
  token : Text → DieselUlid → UserState

module _ (ulid_to_string : DieselUlid → Text) where
  unfoldable pub get_access_key : UserState → Option Text
  get_access_key anonymous = none
  get_access_key (personal user_id) = some (ulid_to_string user_id)
  get_access_key (token access_key user_id) = some access_key

  -- `Into<UserState> for Option<AccessKeyPermissions>`
  unfoldable pub user_state_of : Option AccessKeyPermissions → UserState
  user_state_of none = anonymous
  user_state_of (some perm) =
      if perm.access_key == ulid_to_string perm.user_id
      then personal perm.user_id
      else token perm.access_key perm.user_id

unfoldable pub get_user_id : UserState → Option DieselUlid
get_user_id anonymous = none
get_user_id (personal user_id) = some user_id
get_user_id (token access_key user_id) = some user_id

-- `UserState::sign_impersonating_token`; the handler is given by its method of the name.
unfoldable pub impersonating_token :
    (DieselUlid → Text) → Option (Text → Option Text → Result Text) → UserState → Option Text
impersonating_token ulid_to_string none state = none
impersonating_token ulid_to_string (some sign) anonymous = none
impersonating_token ulid_to_string (some sign) (personal user_id) =
    to_option (sign (ulid_to_string user_id) none)
impersonating_token ulid_to_string (some sign) (token access_key user_id) =
    to_option (sign (ulid_to_string user_id) (some access_key))

pub record CheckAccessResult : Type 0 where
  pub objects_state : ObjectsState
  pub user_state : UserState
  pub headers : Option (Map Text Text)
