-- ===== src/Cache/Users.antt =====
-- structs.rs: `User` and `compare_permissions`; caching/cache.rs: users and their access keys. What is
-- written to the database may fail; the function `persist` says which writes do.
pub mod Revoked
use data_proxy.Base.{
  ℕ, Bool, true, false, not, ◌&&◌, List, [], ◌∷◌, ◌++◌, Option, none, some, Text, nat_eq, length,
  eq_nat, eq_text, ◌==◌, contains, if◌then◌else◌, Result, ok, err, Error, anyhow,
}
use data_proxy.Base.Map.{Map, get, insert, remove}
use data_proxy.Structs.Format.{DieselUlid}
use data_proxy.Structs.Permission.{DbPermissionLevel, rank}
use data_proxy.Structs.States.{AccessKeyPermissions}

abbrev pub Permissions : Type 0
Permissions = Map DieselUlid DbPermissionLevel

pub record User : Type 0 where
  pub user_id : DieselUlid
  pub personal_permissions : Permissions
  pub tokens : Map DieselUlid Permissions
  pub is_service_account : Bool
  pub attributes : Map Text Text

-- `==` of levels, of an optional level with a level, and of `HashMap`s: as many entries, and each
-- entry of the one is in the other.
unfoldable pub holds_level : Option DbPermissionLevel → DbPermissionLevel → Bool
holds_level none l = false
holds_level (some k) l = nat_eq (rank k) (rank l)

unfoldable pub within : Permissions → Permissions → Bool
unfolding holds_level
within [] n = true
within ((k, v) ∷ m) n = holds_level (get n k) v && within m n

unfoldable pub permissions_same : Permissions → Permissions → Bool
unfolding within
permissions_same m n = nat_eq (length m) (length n) && within m n

-- `filter` on a list.
abbrev pub filter_out : List Text → List Text → List Text
filter_out gone [] = []
filter_out gone (k ∷ ks) = if contains gone k then filter_out gone ks else k ∷ filter_out gone ks

pub record Keys : Type 0 where
  pub users : Map DieselUlid (User × List Text)
  pub access_keys : Map Text AccessKeyPermissions

-- The writes to the database.
pub data Write : Type 0 where
  delete_key : Text → Write
  upsert_key : AccessKeyPermissions → Write
  upsert_user_row delete_user_row : User → Write

module _ (to_string : DieselUlid → Text) where
  -- The three loops of `compare_permissions`.
  unfoldable pub personal_updates : User → Permissions → Permissions → List (Text × Permissions)
  unfolding holds_level
  personal_updates new [] old = []
  personal_updates new ((k, v) ∷ rest) old =
      let later = personal_updates new rest old in
      if holds_level (get old k) v
      then later
      else (to_string new.user_id, new.personal_permissions) ∷ later

  unfoldable pub token_updates :
      Map DieselUlid Permissions → Map DieselUlid Permissions → List (Text × Permissions)
  unfolding permissions_same
  token_updates [] old = []
  token_updates ((k, v) ∷ rest) old =
      let later = token_updates rest old in
      elim (get old k) [
        | none ↦ later
        | some ov ↦ if permissions_same v ov then later else (to_string k, v) ∷ later
      ]

  unfoldable pub token_deletions :
      Map DieselUlid Permissions → Map DieselUlid Permissions → List Text
  token_deletions new [] = []
  token_deletions new ((k, v) ∷ rest) =
      let later = token_deletions new rest in
      elim (get new k) [ none ↦ to_string k ∷ later | some _ ↦ later ]

  unfoldable pub compare_permissions : User → User → List (Text × Permissions) × List Text
  unfolding personal_updates token_updates token_deletions
  compare_permissions new old = (
    personal_updates new new.personal_permissions old.personal_permissions
        ++ token_updates new.tokens old.tokens,
    token_deletions new.tokens old.tokens,
  )

module _ (persist : Write → Result (Unit {0})) where
  -- The writes after a change of the maps: the change stays where the write fails.
  abbrev pub write : Write → (Keys → Result (Unit {0}) × Keys) → Keys → Result (Unit {0}) × Keys
  write w next keys = elim (persist w) [ err e ↦ (err e, keys) | ok _ ↦ next keys ]

  unfoldable pub delete_keys :
      List Text → (Keys → Result (Unit {0}) × Keys) → Keys → Result (Unit {0}) × Keys
  delete_keys [] next keys = next keys
  delete_keys (key ∷ rest) next keys =
      write (delete_key key) (delete_keys rest next)
        (record keys { access_keys = remove keys.access_keys key })

  -- The update of a key by what the map has for it.
  unfoldable pub update_key :
      Text
      → Permissions
      → (Keys → Result (Unit {0}) × Keys)
      → Option AccessKeyPermissions
      → Keys
      → Result (Unit {0}) × Keys
  update_key key permissions next none keys = (err (anyhow "Access key not found"), keys)
  update_key key permissions next (some k) keys =
      let access_key = record k { permissions = permissions } in
      write (upsert_key access_key) next
        (record keys { access_keys = insert keys.access_keys key access_key })

  unfoldable pub update_keys :
      List (Text × Permissions)
      → (Keys → Result (Unit {0}) × Keys)
      → Keys
      → Result (Unit {0}) × Keys
  unfolding update_key
  update_keys [] next keys = next keys
  update_keys ((key, permissions) ∷ rest) next keys =
      update_key key permissions (update_keys rest next) (get keys.access_keys key) keys

  unfoldable pub remove_user : DieselUlid → Keys → Result (Unit {0}) × Keys
  unfolding delete_keys
  remove_user user_id keys = elim (get keys.users user_id) [
    | none ↦ (ok tt, keys)
    | some (u, registered) ↦
        delete_keys registered (write (delete_user_row u) (λ k. (ok tt, k)))
          (record keys { users = remove keys.users user_id })
  ]

  -- `upsert_user`, below the conversion of the message.
  unfoldable pub upsert_user : (DieselUlid → Text) → User → Keys → Result (Unit {0}) × Keys
  unfolding compare_permissions delete_keys update_keys
  upsert_user to_string proxy_user keys = elim (get keys.users proxy_user.user_id) [
    | some (old, registered) ↦
        let comparison = compare_permissions to_string proxy_user old in
        delete_keys comparison.1
          (update_keys comparison.0 (write (upsert_user_row proxy_user) (λ k. (ok tt, k))))
          (record keys {
            users =
                insert keys.users proxy_user.user_id
                  (proxy_user, filter_out comparison.1 registered);
          })
    | none ↦
        write (upsert_user_row proxy_user) (λ k. (ok tt, k))
          (record keys { users = insert keys.users proxy_user.user_id (proxy_user, []) })
  ]

unfoldable pub get_key_perms : Keys → Text → Option AccessKeyPermissions
get_key_perms keys access_key = get keys.access_keys access_key

unfoldable pub revoke_secret : Keys → Text → Keys
revoke_secret keys access_key = record keys { access_keys = remove keys.access_keys access_key }
