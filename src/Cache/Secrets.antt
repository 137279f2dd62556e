-- ===== src/Cache/Secrets.antt =====
-- caching/cache.rs: secrets of access keys, the attributes and projects of users, public keys.
pub mod Created
use data_proxy.Base.{
  ℕ, Bool, true, false, List, [], ◌∷◌, ◌++◌, Option, none, some, Text, codes, eq_nat, eq_text, ◌==◌,
  Eq, nat_eq, nat_eq_iff, ◌↔◌, ◌≡◌, arith, is_empty, if◌then◌else◌, Result, ok, err, anyhow, ok_or,
  ◌>>=◌,
}
use data_proxy.Base.Int.{ℤ, pos, negsuc}
use data_proxy.Base.Map.{Map, get, insert, remove}
use data_proxy.Structs.Format.{DieselUlid}
use data_proxy.Structs.Permission.{DbPermissionLevel}
use data_proxy.Structs.Object.{Object, ObjectType, type_eq}
use data_proxy.Structs.States.{AccessKeyPermissions}
use data_proxy.Cache.Users.{User, Permissions, Keys, Write, upsert_key}
use data_proxy.Cache.Graph.{Resources}
use data_proxy.Auth.Tokens.{PubKey}

unfoldable pub get_secret : Keys → Text → Result Text
get_secret keys access_key = elim (get keys.access_keys access_key) [
  | none ↦ err (anyhow "User not found")
  | some key ↦ if is_empty key.secret then err (anyhow "Secret is empty") else ok key.secret
]

unfoldable pub get_user_attributes : Keys → DieselUlid → Option (Map Text Text)
get_user_attributes keys resource_id = elim (get keys.users resource_id) [
  | none ↦ none
  | some entry ↦ some entry.0.attributes
]

unfoldable pub projects_among : Resources → Permissions → List Object
unfolding type_eq
projects_among resources [] = []
projects_among resources ((id, level) ∷ permissions) =
    let rest = projects_among resources permissions in
    elim (get resources id) [
      | none ↦ rest
      | some entry ↦ if type_eq entry.0.object_type ObjectType.project then entry.0 ∷ rest else rest
    ]

unfoldable pub get_personal_projects : Keys → Resources → DieselUlid → Result (List Object)
unfolding projects_among
get_personal_projects keys resources user_id = elim (get keys.users user_id) [
  | none ↦ err (anyhow "User not found")
  | some entry ↦ ok (projects_among resources entry.0.personal_permissions)
]

module _ (to_string : DieselUlid → Text) (from_str : Text → Result DieselUlid)
    (persist : Write → Result (Unit {0})) where
  -- The permissions that the key gets: the user's own, or those of the user's token of this number.
  unfoldable pub key_permissions : Text → DieselUlid → User → Result Permissions
  key_permissions access_key user_id user =
      if to_string user_id == access_key
      then ok user.personal_permissions
      else (from_str access_key >>= λ id.
          ok_or (get user.tokens id) (anyhow "Access key not found"))

  -- The key is registered at the user before it is stored; `new_secret` is the random text.
  unfoldable pub store_secret :
      Text → DieselUlid → Text → User × List Text → Permissions → Keys → Result (Text × Text) × Keys
  store_secret access_key user_id new_secret (user, registered) permissions keys =
      let new_access_key : AccessKeyPermissions = record {
        access_key = access_key;
        user_id = user_id;
        secret = new_secret;
        is_service_account = user.is_service_account;
        permissions = permissions;
      } in
      let noted = record keys {
        users = insert keys.users user_id (user, registered ++ access_key ∷ []);
      } in
      elim (persist (upsert_key new_access_key)) [
        | err e ↦ (err e, noted)
        | ok _ ↦ (
          ok (access_key, new_secret),
          record noted { access_keys = insert keys.access_keys access_key new_access_key },
        )
      ]

  unfoldable pub create_or_update_secret :
      Text → DieselUlid → Text → Keys → Result (Text × Text) × Keys
  unfolding key_permissions store_secret
  create_or_update_secret access_key user_id new_secret keys = elim (get keys.users user_id) [
    | none ↦ (err (anyhow "User not found"), keys)
    | some entry ↦ elim (key_permissions access_key user_id entry.0) [
      | err e ↦ (err e, keys)
      | ok permissions ↦ store_secret access_key user_id new_secret entry permissions keys
    ]
  ]

abbrev kid_eq : ℤ → ℤ → Bool
kid_eq (pos n) (pos m) = nat_eq n m
kid_eq (negsuc n) (negsuc m) = nat_eq n m
kid_eq _ _ = false

pub kid_eq_iff : (x y : ℤ) → (kid_eq x y ≡ true) ↔ (x ≡ y)
kid_eq_iff x y = ground arith

instance abbrev pub eq_kid : Eq ℤ
eq_kid = record { same = kid_eq; same_iff = kid_eq_iff }

-- `pubkeys`; the reading of a key's text (`from_ed_pem`) and the writes are parameters.
module _ {Key : Type 0} (from_ed_pem : Text → Result Key)
    (upsert : PubKey → Result (Unit {0})) where
  abbrev pub pem : PubKey → Text
  pem pk = codes "-----BEGIN PUBLIC KEY-----" ++ (pk.key ++ codes "-----END PUBLIC KEY-----")

  -- Keys are entered up to the first that cannot be read.
  unfoldable pub sync_pubkeys :
      List PubKey → Map ℤ (PubKey × Key) → Result (Unit {0}) × Map ℤ (PubKey × Key)
  sync_pubkeys [] pubkeys = (ok tt, pubkeys)
  sync_pubkeys (pk ∷ pks) pubkeys = elim (from_ed_pem (pem pk)) [
    | err e ↦ (err e, pubkeys)
    | ok dec_key ↦ sync_pubkeys pks (insert pubkeys pk.id (pk, dec_key))
  ]

  unfoldable pub upsert_all : List PubKey → Result (Unit {0})
  upsert_all [] = ok tt
  upsert_all (pk ∷ pks) = upsert pk >>= λ done. upsert_all pks

  unfoldable pub set_pubkeys :
      Result (Unit {0})
      → List PubKey
      → Map ℤ (PubKey × Key)
      → Result (Unit {0}) × Map ℤ (PubKey × Key)
  unfolding sync_pubkeys upsert_all
  set_pubkeys delete_all pks pubkeys = elim (delete_all >>= λ done. upsert_all pks) [
    | err e ↦ (err e, pubkeys)
    | ok _ ↦ sync_pubkeys pks []
  ]

  unfoldable pub add_pubkey :
      PubKey → Map ℤ (PubKey × Key) → Result (Unit {0}) × Map ℤ (PubKey × Key)
  add_pubkey pk pubkeys = elim (upsert pk >>= λ done. from_ed_pem (pem pk)) [
    | err e ↦ (err e, pubkeys)
    | ok dec_key ↦ (ok tt, insert pubkeys pk.id (pk, dec_key))
  ]

unfoldable pub get_pubkey : {Key : Type 0} → ℤ → Map ℤ (PubKey × Key) → Result (PubKey × Key)
get_pubkey kid pubkeys = ok_or (get pubkeys kid) (anyhow "Pubkey not found")
