-- ===== src/Cache/Accounts.antt =====
-- structs.rs: `perm_convert` and `TryFrom<GrpcUser> for User`; caching/transforms.rs. The parameter is
-- `DieselUlid::from_str`.
pub mod Personal
use data_proxy.Base.{
  Bool, false, List, [], ◌∷◌, ◌++◌, Option, none, some, Text, Result, ok, err, anyhow, ok_or, ◌>>=◌,
  eq_nat, eq_text,
}
use data_proxy.Base.Map.{Map, insert}
use data_proxy.Structs.Format.{DieselUlid}
use data_proxy.Structs.Permission.{PermissionLevel, level_of_grpc}
use data_proxy.Cache.Users.{User, Permissions}

-- The gRPC messages, by what the program reads of them.
pub data ResourceId : Type 0 where
  project_id collection_id dataset_id object_id : Text → ResourceId

pub record Permission : Type 0 where
  pub resource_id : Option ResourceId
  pub permission_level : PermissionLevel

pub record Token : Type 0 where
  pub id : Text
  pub permission : Option Permission

pub record UserAttributes : Type 0 where
  pub personal_permissions : List Permission
  pub tokens : List Token
  pub data_proxy_attributes : List (Text × Text)
  pub custom_attributes : List (Text × Text)
  pub service_account : Bool

pub record GrpcUser : Type 0 where
  pub id : Text
  pub attributes : Option UserAttributes

unfoldable pub text_of_id : ResourceId → Text
text_of_id (ResourceId.project_id a) = a
text_of_id (ResourceId.collection_id a) = a
text_of_id (ResourceId.dataset_id a) = a
text_of_id (ResourceId.object_id a) = a

unfoldable pub insert_all : List (Text × Text) → Map Text Text → Map Text Text
insert_all [] m = m
insert_all ((k, v) ∷ rest) m = insert_all rest (insert m k v)

-- The attributes: the custom ones after those of the proxy.
unfoldable pub attributes_of : Option UserAttributes → Map Text Text
unfolding insert_all
attributes_of none = []
attributes_of (some a) = insert_all a.custom_attributes (insert_all a.data_proxy_attributes [])

unfoldable pub is_service : Option UserAttributes → Bool
is_service none = false
is_service (some a) = a.service_account

module _ (from_str : Text → Result DieselUlid) where
  -- `GetId for ResourceId`
  unfoldable pub get_id : ResourceId → Result DieselUlid
  unfolding text_of_id
  get_id r = from_str (text_of_id r)

  -- What cannot be read is left out.
  unfoldable pub perm_convert : List Permission → Permissions → Permissions
  unfolding text_of_id level_of_grpc
  perm_convert [] m = m
  perm_convert (p ∷ perms) m = elim p.resource_id [
    | none ↦ perm_convert perms m
    | some r ↦ elim (from_str (text_of_id r)) [
      | err e ↦ perm_convert perms m
      | ok id ↦ perm_convert perms (insert m id (level_of_grpc p.permission_level))
    ]
  ]

  unfoldable pub personal_of : Option UserAttributes → Permissions
  unfolding perm_convert
  personal_of none = []
  personal_of (some a) = perm_convert a.personal_permissions []

  -- The permissions of a token of the message.
  unfoldable pub token_permissions : Option Permission → Result Permissions
  unfolding text_of_id level_of_grpc
  token_permissions none = err (anyhow "No permission found")
  token_permissions (some perm) = elim perm.resource_id [
    | none ↦ err (anyhow "Invalid resource id")
    | some r ↦ from_str (text_of_id r) >>= λ id. ok ((id, level_of_grpc perm.permission_level) ∷ [])
  ]

  unfoldable pub tokens_of :
      List Token → Map DieselUlid Permissions → Result (Map DieselUlid Permissions)
  unfolding token_permissions
  tokens_of [] m = ok m
  tokens_of (t ∷ tokens) m = do
    id ← from_str t.id
    permissions ← token_permissions t.permission
    tokens_of tokens (insert m id permissions)

  -- `TryFrom<GrpcUser> for User`
  unfoldable pub user_of : GrpcUser → Result User
  unfolding personal_of tokens_of attributes_of is_service
  user_of value = do
    user_id ← from_str value.id
    attributes ← ok_or value.attributes (anyhow "No tokens found")
    tokens ← tokens_of attributes.tokens []
    ok (record {
      user_id = user_id;
      personal_permissions = personal_of value.attributes;
      tokens = tokens;
      is_service_account = is_service value.attributes;
      attributes = attributes_of value.attributes;
    })

  -- `IntoHashMap for Permission`
  unfoldable pub into_hash_map : Permission → Result Permissions
  unfolding get_id level_of_grpc
  into_hash_map p = do
    r ← ok_or p.resource_id (anyhow "Unknown resource")
    id ← get_id r
    ok ((id, level_of_grpc p.permission_level) ∷ [])

  -- The personal permissions of `extract_access_key_permissions`.
  unfoldable pub collect_personal : List Permission → Permissions → Result Permissions
  unfolding get_id level_of_grpc
  collect_personal [] m = ok m
  collect_personal (p ∷ rest) m = do
    r ← ok_or p.resource_id (anyhow "Unknown resource")
    id ← get_id r
    collect_personal rest (insert m id (level_of_grpc p.permission_level))

  unfoldable pub key_permissions_of : Permissions → List Token → Result (List (Text × Permissions))
  unfolding into_hash_map
  key_permissions_of personal [] = ok []
  key_permissions_of personal (t ∷ tokens) = elim t.permission [
    | some p ↦ into_hash_map p >>= λ own.
        key_permissions_of personal tokens >>= λ rest. ok ((t.id, own) ∷ rest)
    | none ↦ key_permissions_of personal tokens >>= λ rest. ok ((t.id, personal) ∷ rest)
  ]

  unfoldable pub extract_access_key_permissions : GrpcUser → Result (List (Text × Permissions))
  unfolding collect_personal key_permissions_of
  extract_access_key_permissions value = do
    attributes ← ok_or value.attributes (anyhow "Unknown attributes")
    personal ← collect_personal attributes.personal_permissions []
    rest ← key_permissions_of personal attributes.tokens
    ok ((value.id, personal) ∷ rest)
