-- ===== src/Cache/Accounts/Personal.antt =====
-- structs.rs and caching/transforms.rs: tokens without permissions of their own.
use data_proxy.Base.{
  List, [], ◌∷◌, Option, none, some, Text, Result, ok, anyhow, ok_or, ◌>>=◌, after_ok, ok-eq, ◌≡◌,
  ◌≢◌, refl, ap₂, Error, subst, eq_nat, inl, inr, ok_or-eq-ok,
}
use data_proxy.Base.Map.{Map, insert}
use data_proxy.Base.Sorting.{In}
use data_proxy.Structs.Format.{DieselUlid}
use data_proxy.Cache.Users.{User, Permissions}
use data_proxy.Cache.Accounts.{
  Permission, Token, UserAttributes, GrpcUser, token_permissions, tokens_of, user_of,
  collect_personal, into_hash_map, key_permissions_of, extract_access_key_permissions,
}

module _ (from_str : Text → Result DieselUlid) (t : Token) (bare : t.permission ≡ none) where
  tokens_of-refused :
      (tokens : List Token) (m : Map DieselUlid Permissions) {l : Map DieselUlid Permissions}
      → In t tokens
      → tokens_of from_str tokens m ≢ ok l
  unfolding tokens_of token_permissions
  tokens_of-refused [] m i e = absurd i
  tokens_of-refused (s ∷ tokens) m i e = after_ok (from_str s.id) _ e λ id _ k.
      after_ok (token_permissions from_str s.permission) _ k λ permissions own k1. elim i [
        | inl same ↦ absurd (cc (own, bare, same))
        | inr deeper ↦ tokens_of-refused tokens (insert m id permissions) deeper k1
      ]

  key_permissions_of-personal :
      (personal : Permissions) (tokens : List Token) {l : List (Text × Permissions)}
      → In t tokens
      → key_permissions_of from_str personal tokens ≡ ok l
      → In (t.id, personal) l
  unfolding key_permissions_of
  key_permissions_of-personal personal [] i e = absurd i
  key_permissions_of-personal personal (s ∷ tokens) {l} i e =
      split s.permission refl
        (λ rest j k. key_permissions_of-personal personal tokens {l = rest} j k) e
    where
      enter :
          (own : Permissions) (rest : List (Text × Permissions))
          → ((t ≡ s) → personal ≡ own)
          → (In t tokens → In (t.id, personal) rest)
          → (s.id, own) ∷ rest ≡ l
          → In (t.id, personal) l
      enter own rest mine deeper is = subst (In (t.id, personal)) is (elim i [
        | inl same ↦ inl (ap₂ (λ (x : Token) (y : Permissions). (x.id, y)) same (mine same))
        | inr j ↦ inr (deeper j)
      ])

      split :
          (q : Option Permission)
          → s.permission ≡ q
          → ((rest : List (Text × Permissions))
              → In t tokens
              → key_permissions_of from_str personal tokens ≡ ok rest
              → In (t.id, personal) rest)
          → elim q [
            | some p ↦ into_hash_map from_str p >>= λ own.
                key_permissions_of from_str personal tokens >>= λ rest. ok ((s.id, own) ∷ rest)
            | none ↦
                key_permissions_of from_str personal tokens >>= λ rest. ok ((s.id, personal) ∷ rest)
          ]
            ≡ ok l
          → In (t.id, personal) l
      split none h ih k =
          after_ok (key_permissions_of from_str personal tokens) _ k
            λ rest r k1. enter personal rest (λ _. refl) (λ j. ih rest j r) (ok-eq k1)
      split (some p) h ih k = after_ok (into_hash_map from_str p) _ k λ own _ k1.
          after_ok (key_permissions_of from_str personal tokens) _ k1 λ rest r k2.
            enter own rest (λ same. absurd (cc (same, bare, h))) (λ j. ih rest j r) (ok-eq k2)

  -- For a user with a token without permissions of its own, if the permissions of the user's keys
  -- can be extracted: the conversion of the user fails, while the extraction gives the token the
  -- same permissions as the user's own key.
  pub user_of-personal :
      (value : GrpcUser) (a : UserAttributes) (u : User) {keys : List (Text × Permissions)}
      → value.attributes ≡ some a
      → In t a.tokens
      → extract_access_key_permissions from_str value ≡ ok keys
      → (user_of from_str value ≢ ok u)
        × ((personal : Permissions) × In (value.id, personal) keys × In (t.id, personal) keys)
  unfolding user_of extract_access_key_permissions
  user_of-personal value a u {keys} there i e = (
    λ is. after_ok (from_str value.id) _ is λ id _ k.
        after_ok (ok_or value.attributes (anyhow "No tokens found")) _ k λ b found k1.
          after_ok (tokens_of from_str b.tokens []) _ k1 λ tokens converted k2.
            tokens_of-refused b.tokens [] (subst (λ x. In t x.tokens) (same b _ found) i) converted,
    after_ok (ok_or value.attributes (anyhow "Unknown attributes")) _ e λ b found k.
        after_ok (collect_personal from_str b.personal_permissions []) _ k λ personal _ k1.
          after_ok (key_permissions_of from_str personal b.tokens) _ k1 λ rest given k2. (
            personal,
            subst (In (value.id, personal)) (ok-eq k2) (inl refl),
            subst (In (t.id, personal)) (ok-eq k2) (
                inr (
                  key_permissions_of-personal personal b.tokens
                    (subst (λ x. In t x.tokens) (same b _ found) i) given)),
          ),
  )
    where
      same : (b : UserAttributes) (f : Error) → ok_or value.attributes f ≡ ok b → a ≡ b
      same b f found = cc (there, ok_or-eq-ok value.attributes f found)
