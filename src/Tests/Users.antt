-- ===== src/Tests/Users.antt =====
-- The theorems of Cache/Users at concrete inputs.
use data_proxy.Base.{◌≡◌, refl, true, false, none, some, ok, Result, [], ◌∷◌, Text, eq_nat, eq_text}
use data_proxy.Base.Map.{get}
use data_proxy.Structs.Format.{DieselUlid}
use data_proxy.Structs.Permission.{DbPermissionLevel, rank}
use data_proxy.Cache.Users.{
  User, Keys, Write, within, holds_level, permissions_same, token_updates, token_deletions,
  delete_keys, update_keys, upsert_user, remove_user, personal_updates, compare_permissions,
  get_key_perms,
}
use data_proxy.Cache.Users.Revoked.{remove_user-keys, upsert_user-deleted_tokens}
use data_proxy.Tests.{writer}

abbrev written : Write → Result (Unit {0})
written w = ok tt

abbrev write_id : DieselUlid → Text
write_id id = id ∷ []

-- User 77 has the personal permissions Write on 1 and Read on 2, and the token 8.
abbrev old_user : User
old_user = record {
  user_id = 77;
  personal_permissions = (1, DbPermissionLevel.write) ∷ (2, DbPermissionLevel.read) ∷ [];
  tokens = (8, []) ∷ [];
  is_service_account = false;
  attributes = [];
}

abbrev without_token : User
without_token = record old_user { tokens = [] }

-- The permission on 1 is lost, the token stays.
abbrev demoted : User
demoted = record old_user { personal_permissions = (2, DbPermissionLevel.read) ∷ [] }

abbrev keys : Keys
keys = record {
  users = (77, (old_user, write_id 8 ∷ [])) ∷ [];
  access_keys = (write_id 8, writer) ∷ [];
}

user_known : get keys.users 77 ≡ some (old_user, write_id 8 ∷ [])
unfolding get
user_known = refl

removed : (remove_user written 77 keys).0 ≡ ok tt
unfolding remove_user delete_keys get
removed = refl

remove_user-keys_example : get_key_perms (remove_user written 77 keys).1 (write_id 8) ≡ none
remove_user-keys_example =
    remove_user-keys written 77 keys {u = old_user} {registered = write_id 8 ∷ []} (write_id 8)
      user_known refl removed

token_there : get old_user.tokens 8 ≡ some []
unfolding get
token_there = refl

upserted : (upsert_user written write_id without_token keys).0 ≡ ok tt
unfolding upsert_user compare_permissions personal_updates token_updates token_deletions delete_keys
    update_keys get holds_level rank
upserted = refl

upsert_user-deleted_tokens_example :
    get_key_perms (upsert_user written write_id without_token keys).1 (write_id 8) ≡ none
unfolding get
upsert_user-deleted_tokens_example =
    upsert_user-deleted_tokens written write_id without_token keys {old = old_user}
      {registered = write_id 8 ∷ []} 8 user_known token_there refl upserted

still_within : within demoted.personal_permissions old_user.personal_permissions ≡ true
unfolding within holds_level get rank
still_within = refl

no_updates : token_updates write_id demoted.tokens old_user.tokens ≡ []
unfolding token_updates permissions_same within get
no_updates = refl

no_deletions : token_deletions write_id demoted.tokens old_user.tokens ≡ []
unfolding token_deletions get
no_deletions = refl
