-- ===== src/Cache/Secrets/Created.antt =====
-- caching/cache.rs: what a created secret gives access to.
use data_proxy.Base.{
  true, false, List, [], ◌∷◌, ◌++◌, some, Text, eq_nat, eq_text, text_eq_iff, ◌≡◌, refl, arith,
  is_empty, contains, Result, ok,
}
use data_proxy.Base.Map.{get, get-insert_same}
use data_proxy.Structs.Format.{DieselUlid}
use data_proxy.Structs.States.{AccessKeyPermissions}
use data_proxy.Cache.Users.{User, Permissions, Keys, Write, upsert_key, get_key_perms}
use data_proxy.Cache.Secrets.{get_secret, key_permissions, store_secret, create_or_update_secret}

contains-last : (l : List Text) (k : Text) → contains (l ++ k ∷ []) k ≡ true
contains-last [] k = rw ((text_eq_iff k k).1 refl) refl
contains-last (x ∷ l) k = ground (arith, contains-last l k)

module _ (to_string : DieselUlid → Text) (from_str : Text → Result DieselUlid)
    (persist : Write → Result (Unit {0})) where
  -- For a known user, a key whose permissions are found and a secret that is not empty, and if the
  -- database takes the key, create_or_update_secret returns the key and the secret; the secret is
  -- then the key's; the key has the user and these permissions; and it is registered at the user,
  -- who is otherwise unchanged.
  pub create_or_update_secret_lem :
      (access_key : Text) (user_id : DieselUlid) (new_secret : Text) (keys : Keys) (user : User)
      (registered : List Text) (permissions : Permissions)
      → get keys.users user_id ≡ some (user, registered)
      → key_permissions to_string from_str persist access_key user_id user ≡ ok permissions
      → ((key : AccessKeyPermissions) → persist (upsert_key key) ≡ ok tt)
      → is_empty new_secret ≡ false
      → let (r, after) =
          create_or_update_secret to_string from_str persist access_key user_id new_secret keys in
        (r ≡ ok (access_key, new_secret))
        × (get_secret after access_key ≡ ok new_secret)
        × ((key : AccessKeyPermissions) × (get_key_perms after access_key ≡ some key)
            × (key.user_id ≡ user_id)
            × (key.permissions ≡ permissions))
        × ((l : List Text) × (get after.users user_id ≡ some (user, l))
            × (contains l access_key ≡ true))
  unfolding create_or_update_secret store_secret get_secret get_key_perms
  create_or_update_secret_lem access_key user_id new_secret keys user registered permissions h p
        stored s =
      let key : AccessKeyPermissions = record {
        access_key = access_key;
        user_id = user_id;
        secret = new_secret;
        is_service_account = user.is_service_account;
        permissions = permissions;
      } in
      let found = get-insert_same keys.access_keys access_key key in
      rw (create_or_update_secret, h, p, store_secret, stored)
        (
          refl,
          rw (get_secret, found) (rw s refl),
          (key, found, refl, refl),
          (
            registered ++ access_key ∷ [],
            get-insert_same keys.users user_id (user, registered ++ access_key ∷ []),
            contains-last registered access_key,
          ),
        )
