-- ===== src/Auth/Helpers.antt =====
-- auth/auth_helpers.rs: the permission checks outside of resource states, and the token of a gRPC
-- request; auth/auth.rs: `check_permission_list`.
use data_proxy.Base.{
  ℕ, zero, suc, false, not, List, [], ◌∷◌, ◌++◌, Option, none, some, Text, codes, split_once,
  split_once-append, split_once_none, split_once-cases, join, join-cons, ap, sym, ◌∙◌, ◌<◌, Lacks,
  is_empty, map, any, length, ◌≡◌, refl, ◌==◌, eq_nat, eq_text, if◌then◌else◌, Result, ok, err,
  anyhow, s3_error, access_denied, ◌>>◌, guard, arith, text_eq_iff, inl, inr,
}
use data_proxy.Base.Map.{Map, get}
use data_proxy.Structs.Format.{DieselUlid}
use data_proxy.Structs.Permission.{DbPermissionLevel, grants}
use data_proxy.Structs.Object.{Object, TypedId, id_of}
use data_proxy.Structs.States.{AccessKeyPermissions, holds}

unfoldable pub check_permissions :
    AccessKeyPermissions → DieselUlid → DbPermissionLevel → Result (Unit {0})
unfolding get grants
check_permissions key_info resource_id perm = elim (get key_info.permissions resource_id) [
  | none ↦ err (s3_error access_denied "Access Denied")
  | some held ↦
      if not (grants held perm) then err (s3_error access_denied "Access Denied") else ok tt
]

-- The loops of `check_multi_permissions` and `check_permission_list`, over identifiers.
unfoldable pub check_list :
    Map DieselUlid DbPermissionLevel → DbPermissionLevel → List DieselUlid → Result (Unit {0})
unfolding holds
check_list permissions perm [] = err (s3_error access_denied "Access Denied")
check_list permissions perm (id ∷ rest) =
    if holds permissions perm id then ok tt else check_list permissions perm rest

unfoldable pub check_multi_permissions :
    AccessKeyPermissions → List Object → DbPermissionLevel → Result (Unit {0})
unfolding check_list
check_multi_permissions key_info resources perm =
    check_list key_info.permissions perm (map (λ (o : Object). o.id) resources)

unfoldable pub check_permission_list :
    List TypedId → Map DieselUlid DbPermissionLevel → DbPermissionLevel → Result (Unit {0})
unfolding check_list id_of
check_permission_list objects permissions expected_level =
    check_list permissions expected_level (map id_of objects)

-- A single resource is checked as a list of one.
pub check_permissions-list :
    (key : AccessKeyPermissions) (id : DieselUlid) (perm : DbPermissionLevel)
    → check_permissions key id perm ≡ check_list key.permissions perm (id ∷ [])
unfolding check_permissions check_list
check_permissions-list key id perm = ground arith

pub check_list-any :
    (m : Map DieselUlid DbPermissionLevel) (perm : DbPermissionLevel) (ids : List DieselUlid)
    → check_list m perm ids
      ≡ (if any (holds m perm) ids then ok tt else err (s3_error access_denied "Access Denied"))
unfolding check_list
check_list-any m perm [] = refl
check_list-any m perm (id ∷ ids) = ground (arith, check_list-any m perm ids)

-- `str::split` at a blank.
abbrev pub blank : ℕ
blank = b' '

-- What `get_token_from_md` does with the header's text: it is split at blanks into exactly two parts,
-- the word Bearer and a token that is not empty.
unfoldable pub split_at_blanks : ℕ → Text → List Text
split_at_blanks zero s = s ∷ []
split_at_blanks (suc fuel) s = elim (split_once blank s) [
  | none ↦ s ∷ []
  | some (a, b) ↦ a ∷ split_at_blanks fuel b
]

abbrev pub token_of_parts : List Text → Result Text
token_of_parts (word ∷ token ∷ []) = do
  guard (word == codes "Bearer") (anyhow "Authorization flow error")
  guard (not (is_empty token)) (anyhow "Authorization flow error")
  ok token
token_of_parts _ = err (anyhow "Authorization flow error")

-- The header as `to_str` gives it, if the metadata holds it; a text has no more parts than characters
-- and one.
unfoldable pub get_token_from_md : Option Text → Result Text
unfolding split_at_blanks
get_token_from_md none = err (anyhow "Metadata token not found")
get_token_from_md (some token_string) =
    token_of_parts (split_at_blanks (length token_string) token_string)

-- From a header of the word Bearer, one blank and a token that is not empty and has no blank,
-- get_token_from_md returns the token.
pub get_token_bearer :
    (token : Text)
    → Lacks blank token
    → is_empty token ≡ false
    → get_token_from_md (some (codes "Bearer " ++ token)) ≡ ok token
unfolding get_token_from_md
get_token_bearer token l n =
    rw (split_once-append blank (codes "Bearer") token (omega arith), split_at_blanks)
      (rw (split_once_none blank token l, split_at_blanks) (rw n))

token_of_parts-ok :
    (l : List Text) {t : Text}
    → token_of_parts l ≡ ok t
    → (l ≡ codes "Bearer" ∷ t ∷ []) × (is_empty t ≡ false)
token_of_parts-ok [] h = cc
token_of_parts-ok (a ∷ []) h = cc
token_of_parts-ok (a ∷ b ∷ []) {t} h = ground (arith, text_eq_iff a (codes "Bearer"))
token_of_parts-ok (a ∷ b ∷ c ∷ l) h = cc

split_at_blanks-ne_nil : (n : ℕ) (s : Text) → 0 < length (split_at_blanks n s)
unfolding split_at_blanks
split_at_blanks-ne_nil zero s = omega arith
split_at_blanks-ne_nil (suc n) s = elim (split_once-cases blank s) [
  | inl (e, l) ↦ rw (e, split_at_blanks) (omega arith)
  | inr (a, b, e, j, l) ↦ rw (e, split_at_blanks) (omega arith)
]

join-split_at_blanks : (n : ℕ) (s : Text) → join blank (split_at_blanks n s) ≡ s
unfolding split_at_blanks
join-split_at_blanks zero s = refl
join-split_at_blanks (suc n) s = elim (split_once-cases blank s) [
  | inl (e, l) ↦ rw (e, split_at_blanks)
  | inr (a, b, e, j, l) ↦
      rw (e, split_at_blanks)
        (join-cons blank a (split_at_blanks n b) (split_at_blanks-ne_nil n b)
          ∙ (ap (λ r. a ++ blank ∷ r) (join-split_at_blanks n b) ∙ j))
]

-- A token that get_token_from_md returns stands in a header of the word Bearer, one blank and the
-- token, which is not empty.
pub get_token_sound :
    (header : Option Text) (token : Text)
    → get_token_from_md header ≡ ok token
    → (header ≡ some (codes "Bearer " ++ token)) × (is_empty token ≡ false)
unfolding get_token_from_md
get_token_sound none token h = cc
get_token_sound (some s) token h =
    let (parts, filled) = token_of_parts-ok (split_at_blanks (length s) s) h in
    (ap some (sym (join-split_at_blanks (length s) s) ∙ ap (join blank) parts), filled)

-- auth/auth.rs: `extract_access_key_perms`, by what the cache has for an access key and for a user.
unfoldable pub extract_access_key_perms :
    (Text → Option AccessKeyPermissions)
    → (DieselUlid → Option (Map Text Text))
    → Option Text
    → Option (AccessKeyPermissions × Map Text Text)
extract_access_key_perms get_key_perms get_user_attributes none = none
extract_access_key_perms get_key_perms get_user_attributes (some access_key) =
    elim (get_key_perms access_key) [
      | none ↦ none
      | some key ↦ elim (get_user_attributes key.user_id) [
        | none ↦ none
        | some user ↦ some (key, user)
      ]
    ]
