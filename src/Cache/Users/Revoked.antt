-- ===== src/Cache/Users/Revoked.antt =====
-- caching/cache.rs: which access keys are withdrawn when a user changes or is removed.
use data_proxy.Base.{
  nat_eq, nat_eq_iff, Option-cases, true, List, [], ◌∷◌, ◌++◌, Option, none, some, Text, ◌≡◌, refl,
  sym, ap, ap₂, ◌∙◌, inl, inr, arith, eq_nat, eq_text, contains, Result, ok, Bool-cases, text_eq,
  text_eq_iff,
}
use data_proxy.Base.Map.{Map, get, insert, remove, get-insert, get-remove}
use data_proxy.Structs.Format.{DieselUlid}
use data_proxy.Structs.States.{AccessKeyPermissions}
use data_proxy.Cache.Users.{
  Permissions, User, Keys, Write, delete_key, upsert_key, upsert_user_row, delete_user_row, within,
  personal_updates, token_updates, token_deletions, compare_permissions, delete_keys, update_keys,
  update_key, upsert_user, remove_user, write, get_key_perms, filter_out,
}

-- Where each new permission is an old one, the loop over the personal permissions has no updates.
personal_updates_none :
    (to_string : DieselUlid → Text) (new : User) (m old : Permissions)
    → within m old ≡ true
    → personal_updates to_string new m old ≡ []
unfolding within personal_updates
personal_updates_none to_string new [] old h = refl
personal_updates_none to_string new ((k, v) ∷ m) old h =
    ground (arith, personal_updates_none to_string new m old)

module _ (persist : Write → Result (Unit {0})) where
  -- A continuation that, where it succeeds, leaves a missing key missing.
  abbrev pub Withholds : (Keys → Result (Unit {0}) × Keys) → Text → Type 0
  Withholds next key =
      (k : Keys)
      → get k.access_keys key ≡ none
      → (next k).0 ≡ ok tt
      → get (next k).1.access_keys key ≡ none

  gone-write :
      (w : Write) (next : Keys → Result (Unit {0}) × Keys) (key : Text) (k : Keys)
      → ((next k).0 ≡ ok tt → get (next k).1.access_keys key ≡ none)
      → (write persist w next k).0 ≡ ok tt
      → get (write persist w next k).1.access_keys key ≡ none
  gone-write w next key k h done = ground arith

  Withholds-delete_keys :
      (l : List Text) (next : Keys → Result (Unit {0}) × Keys) (key : Text)
      → Withholds next key
      → Withholds (delete_keys persist l next) key
  unfolding delete_keys
  Withholds-delete_keys [] next key h k gone done = h k gone done
  Withholds-delete_keys (j ∷ l) next key h k gone done =
      let k' = record k { access_keys = remove k.access_keys j } in
      gone-write (delete_key j) (delete_keys persist l next) key k'
        (Withholds-delete_keys l next key h k' (ground (arith, get-remove k.access_keys j key)))
        done

  Withholds-update_key :
      (j : Text) (permissions : Permissions) (next : Keys → Result (Unit {0}) × Keys) (key : Text)
      (o : Option AccessKeyPermissions) (k : Keys)
      → get k.access_keys j ≡ o
      → Withholds next key
      → get k.access_keys key ≡ none
      → (update_key persist j permissions next o k).0 ≡ ok tt
      → get (update_key persist j permissions next o k).1.access_keys key ≡ none
  unfolding update_key
  Withholds-update_key j permissions next key none k e h gone done = ground arith
  Withholds-update_key j permissions next key (some a) k e h gone done =
      let a' = record a { permissions = permissions } in
      let k' = record k { access_keys = insert k.access_keys j a' } in
      gone-write (upsert_key a') next key k'
        (h k' (ground (arith, get-insert k.access_keys j key a', text_eq_iff j key))) done

  Withholds-update_keys :
      (l : List (Text × Permissions)) (next : Keys → Result (Unit {0}) × Keys) (key : Text)
      → Withholds next key
      → Withholds (update_keys persist l next) key
  unfolding update_keys
  Withholds-update_keys [] next key h k gone done = h k gone done
  Withholds-update_keys ((j, permissions) ∷ l) next key h k gone done =
      Withholds-update_key j permissions (update_keys persist l next) key (get k.access_keys j) k
        refl (Withholds-update_keys l next key h) gone done

  -- A key that is to be deleted is missing afterwards.
  gone-delete_keys :
      (l : List Text) (next : Keys → Result (Unit {0}) × Keys) (key : Text) (k : Keys)
      → contains l key ≡ true
      → Withholds next key
      → (delete_keys persist l next k).0 ≡ ok tt
      → get (delete_keys persist l next k).1.access_keys key ≡ none
  unfolding delete_keys
  gone-delete_keys [] next key k c h done = ground arith
  gone-delete_keys (j ∷ l) next key k c h done =
      let k' = record k { access_keys = remove k.access_keys j } in
      elim (Bool-cases (text_eq j key)) [
        | inl same ↦
            gone-write (delete_key j) (delete_keys persist l next) key k'
              (Withholds-delete_keys l next key h k'
                (ground (arith, get-remove k.access_keys j key)))
              done
        | inr apart ↦
            gone-write (delete_key j) (delete_keys persist l next) key k'
              (gone-delete_keys l next key k' (ground arith) h) done
      ]

  last-Withholds : (w : Write) (key : Text) → Withholds (write persist w (λ k. (ok tt, k))) key
  last-Withholds w key k gone done = gone-write w (λ k. (ok tt, k)) key k (λ h. gone) done

  remove_user-known :
      (user_id : DieselUlid) (keys : Keys) {u : User} {registered : List Text}
      → get keys.users user_id ≡ some (u, registered)
      → remove_user persist user_id keys
        ≡ delete_keys persist registered
            (write persist (delete_user_row u) (λ k. (ok tt, k)))
            (record keys { users = remove keys.users user_id })
  unfolding remove_user
  remove_user-known user_id keys known = rw (known, remove_user) refl

  -- When a known user is removed without error, none of the access keys registered for the user
  -- has an entry in the cache.
  pub remove_user-keys :
      (user_id : DieselUlid) (keys : Keys) {u : User} {registered : List Text} (key : Text)
      → get keys.users user_id ≡ some (u, registered)
      → contains registered key ≡ true
      → (remove_user persist user_id keys).0 ≡ ok tt
      → get_key_perms (remove_user persist user_id keys).1 key ≡ none
  unfolding remove_user get_key_perms
  remove_user-keys user_id keys {u} {registered} key known mine done =
      let e = remove_user-known user_id keys {u = u} {registered = registered} known in
      ap (λ (r : Result (Unit {0}) × Keys). get r.1.access_keys key) e
      ∙ gone-delete_keys registered (write persist (delete_user_row u) (λ k. (ok tt, k))) key
          (record keys { users = remove keys.users user_id }) mine
          (last-Withholds (delete_user_row u) key)
          (ap (λ (r : Result (Unit {0}) × Keys). r.0) (sym e) ∙ done)

  abbrev with_user : User → List Text → Keys → Keys
  with_user new registered keys = record keys {
    users = insert keys.users new.user_id (new, registered);
  }

  upsert_user-known :
      (to_string : DieselUlid → Text) (new : User) (keys : Keys) {old : User}
      {registered : List Text}
      → get keys.users new.user_id ≡ some (old, registered)
      → let comparison = compare_permissions to_string new old in
        upsert_user persist to_string new keys
        ≡ delete_keys persist comparison.1
            (update_keys persist comparison.0
              (write persist (upsert_user_row new) (λ k. (ok tt, k))))
            (with_user new (filter_out comparison.1 registered) keys)
  unfolding upsert_user
  upsert_user-known to_string new keys known = rw (known, upsert_user) refl

  lost_tokens :
      (to_string : DieselUlid → Text) (new old : Map DieselUlid Permissions) (id : DieselUlid)
      {permissions : Permissions}
      → get old id ≡ some permissions
      → get new id ≡ none
      → contains (token_deletions to_string new old) (to_string id) ≡ true
  unfolding token_deletions get
  lost_tokens to_string new [] id there gone = cc
  lost_tokens to_string new ((k, v) ∷ rest) id there gone = elim (Bool-cases (nat_eq k id)) [
    | inl e ↦
        let none_new : get new k ≡ none = ap (get new) ((nat_eq_iff k id).0 e) ∙ gone in
        let same : to_string k ≡ to_string id = ap to_string ((nat_eq_iff k id).0 e) in
        rw (none_new, token_deletions, contains)
          (rw ((text_eq_iff (to_string k) (to_string id)).1 same) refl)
    | inr e ↦
        let later : contains (token_deletions to_string new rest) (to_string id) ≡ true =
          lost_tokens to_string new rest id (rw e at there) gone in
        elim (Option-cases (get new k)) [
          | inl f ↦ rw (f, token_deletions, contains) (ground (arith, later))
          | inr (p, f) ↦ rw (f, token_deletions, contains) later
        ]
  ]

  -- When a known user is replaced without error, each token whose identifier the old user has and
  -- the new one has not is withdrawn: the access key named by the identifier has no entry in the
  -- cache, whatever keys are updated afterwards.
  pub upsert_user-deleted_tokens :
      (to_string : DieselUlid → Text) (new : User) (keys : Keys) {old : User}
      {registered : List Text} (id : DieselUlid) {permissions : Permissions}
      → get keys.users new.user_id ≡ some (old, registered)
      → get old.tokens id ≡ some permissions
      → get new.tokens id ≡ none
      → (upsert_user persist to_string new keys).0 ≡ ok tt
      → get_key_perms (upsert_user persist to_string new keys).1 (to_string id) ≡ none
  unfolding upsert_user compare_permissions get_key_perms
  upsert_user-deleted_tokens to_string new keys {old} {registered} id known there gone done =
      let key = to_string id in
      let lost = lost_tokens to_string new.tokens old.tokens id there gone in
      let comparison = compare_permissions to_string new old in
      let last = write persist (upsert_user_row new) (λ k. (ok tt, k)) in
      let e = upsert_user-known to_string new keys {old = old} {registered = registered} known in
      ap (λ (r : Result (Unit {0}) × Keys). get r.1.access_keys key) e
      ∙ gone-delete_keys comparison.1 (update_keys persist comparison.0 last) key
          (with_user new (filter_out comparison.1 registered) keys) lost
          (Withholds-update_keys comparison.0 last key (last-Withholds (upsert_user_row new) key))
          (ap (λ (r : Result (Unit {0}) × Keys). r.0) (sym e) ∙ done)

  write_accepted :
      (w : Write) (k : Keys) → persist w ≡ ok tt → write persist w (λ j. (ok tt, j)) k ≡ (ok tt, k)
  write_accepted w k h = ground arith

  abbrev pair : {A B : Type 0} → A → B → A × B
  pair a b = (a, b)

  -- When a known user is replaced by one whose personal permissions are all among the old ones,
  -- with no token changed or lost and the row stored, the replacement succeeds and every access
  -- key keeps its permissions, also those on the resources that the user has lost.
  pub upsert_user-lost_permissions :
      (to_string : DieselUlid → Text) (new : User) (keys : Keys) {old : User}
      {registered : List Text}
      → get keys.users new.user_id ≡ some (old, registered)
      → within new.personal_permissions old.personal_permissions ≡ true
      → token_updates to_string new.tokens old.tokens ≡ []
      → token_deletions to_string new.tokens old.tokens ≡ []
      → persist (upsert_user_row new) ≡ ok tt
      → let r = upsert_user persist to_string new keys in
        (r.0 ≡ ok tt) × ((key : Text) → get_key_perms r.1 key ≡ get_key_perms keys key)
  unfolding get_key_perms compare_permissions delete_keys update_keys
  upsert_user-lost_permissions to_string new keys {old} {registered} known less updates deletions
        stored =
      let e = upsert_user-known to_string new keys {old = old} {registered = registered} known in
      let p =
        personal_updates_none to_string new new.personal_permissions old.personal_permissions
          less in
      let quiet = ap₂ pair (ap₂ ◌++◌ p updates) deletions in
      let q =
        e
        ∙ (ap
              (λ (c : List (Text × Permissions) × List Text).
                delete_keys persist c.1
                  (update_keys persist c.0 (write persist (upsert_user_row new) (λ k. (ok tt, k))))
                  (with_user new (filter_out c.1 registered) keys))
              quiet
            ∙ write_accepted (upsert_user_row new) (with_user new (filter_out [] registered) keys)
                stored) in
      (
        ap (λ (r : Result (Unit {0}) × Keys). r.0) q,
        λ key. ap (λ (r : Result (Unit {0}) × Keys). get r.1.access_keys key) q,
      )
