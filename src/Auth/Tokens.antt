-- ===== src/Auth/Tokens.antt =====
-- auth/auth.rs: the intents of tokens, the check of a token and the tokens that a proxy signs. The
-- library jsonwebtoken, the parsers of numbers and identifiers and the clock are parameters.
pub mod Accepted
use data_proxy.Base.{
  ℕ, Bool, ◌+◌, ◌*◌, List, [], ◌∷◌, ◌++◌, Option, none, some, Text, codes, nat_eq, split_once,
  Result, ok, err, Error, anyhow, ◌>>=◌, ok_or, if◌then◌else◌,
}
use data_proxy.Base.Int.{ℤ}
use data_proxy.Structs.Format.{DieselUlid}

pub data Action : Type 0 where
  all create_secrets impersonate fetch_info dp_exchange : Action

-- `action as u8`
unfoldable pub as_u8 : Action → ℕ
as_u8 Action.all = 0
as_u8 create_secrets = 1
as_u8 impersonate = 2
as_u8 fetch_info = 3
as_u8 dp_exchange = 4

-- `From<u8> for Action`: `none` is a panic.
unfoldable pub from_u8 : ℕ → Option Action
from_u8 n =
    if nat_eq n 0
    then some Action.all
    else if nat_eq n 1
    then some create_secrets
    else if nat_eq n 2
    then some impersonate
    else if nat_eq n 3
    then some fetch_info
    else if nat_eq n 4
    then some dp_exchange
    else none

pub record Intent : Type 0 where
  pub target : DieselUlid
  pub action : Action

abbrev pub underscore : ℕ
underscore = b'_'

-- `{:?}` of a number below ten.
abbrev pub digit : ℕ → Text
digit n = (b'0' + n) ∷ []

-- `Serialize for Intent`: the text of the target, an underscore and the number of the action.
unfoldable pub serialize : (DieselUlid → Text) → Intent → Text
unfolding as_u8
serialize ulid_to_string intent =
    ulid_to_string intent.target ++ underscore ∷ digit (as_u8 intent.action)

-- `split[1]` of the rest after the first underscore, which ends at the next one.
unfoldable pub second_part : Text → Text
unfolding split_once
second_part text = elim (split_once underscore text) [ none ↦ text | some (a, b) ↦ a ]

-- `Deserialize for Intent`: `none` is a panic, where there is no underscore or no such action.
unfoldable pub deserialize :
    (Text → Result DieselUlid) → (Text → Result ℕ) → Text → Option (Result Intent)
unfolding second_part from_u8
deserialize from_str u8_from_str text = elim (split_once underscore text) [
  | none ↦ elim (from_str text) [ err e ↦ some (err (anyhow "Invalid UUID")) | ok target ↦ none ]
  | some (a, b) ↦ elim (from_str a) [
    | err e ↦ some (err (anyhow "Invalid UUID"))
    | ok target ↦ elim (u8_from_str (second_part b)) [
      | err e ↦ some (err (anyhow "Invalid Action"))
      | ok n ↦ elim (from_u8 n) [
        | none ↦ none
        | some action ↦ some (ok (record { target = target; action = action }))
      ]
    ]
  ]
]

pub record ArunaTokenClaims : Type 0 where
  pub iss : Text
  pub sub : Text
  pub exp : ℕ
  pub aud : Text
  pub tid : Option Text
  pub it : Option Intent

pub record PubKey : Type 0 where
  pub id : ℤ
  pub key : Text
  pub is_proxy : Bool

-- The library's functions, the cache's keys and the proxy itself. `decode` is given the audience that
-- it validates.
pub record Proxy : Type 1 where
  pub DecodingKey : Type 0
  pub self_id : DieselUlid
  pub encoding_serial : ℤ
  pub ulid_to_string : DieselUlid → Text
  pub i32_to_string : ℤ → Text
  pub from_str : Text → Result DieselUlid
  pub i32_from_str : Text → Result ℤ
  pub decode_header : Text → Result (Option Text)
  pub decode : Text → DecodingKey → Text → Result ArunaTokenClaims
  pub encode : Text → ArunaTokenClaims → Result Text
  pub get_pubkey : ℤ → Result (PubKey × DecodingKey)
  pub now : Result ℕ

module _ (proxy : Proxy) where
  open proxy use {
    DecodingKey, self_id, encoding_serial, ulid_to_string, i32_to_string, from_str, i32_from_str,
    decode_header, decode, encode, get_pubkey, now,
  }

  unfoldable pub extract_claims : Text → DecodingKey → Result ArunaTokenClaims
  extract_claims token dec_key = decode token dec_key (codes "proxy")

  -- The user, and the token unless it is one between proxies.
  abbrev pub give : Option Text → Text → PubKey → Result (DieselUlid × Option Text × PubKey)
  give tid sub pk = from_str sub >>= λ id. ok (id, tid, pk)

  -- The arms for an action, of a token with this target.
  unfoldable pub accept_action :
      Action → DieselUlid → Option Text → Text → PubKey → Result (DieselUlid × Option Text × PubKey)
  accept_action Action.all target tid sub pk = give tid sub pk
  accept_action create_secrets target tid sub pk =
      if nat_eq target self_id
      then give tid sub pk
      else err (anyhow "Token is not valid for this Dataproxy")
  accept_action dp_exchange target tid sub pk =
      if nat_eq target self_id
      then give none sub pk
      else err (anyhow "Token is not valid for this Dataproxy")
  accept_action impersonate target tid sub pk = err (anyhow "Action not allowed for Dataproxy")
  accept_action fetch_info target tid sub pk = err (anyhow "Action not allowed for Dataproxy")

  -- The answer for the claims, by their intent.
  unfoldable pub accept_intent :
      Option Intent → Option Text → Text → PubKey → Result (DieselUlid × Option Text × PubKey)
  unfolding accept_action
  accept_intent none tid sub pk = give tid sub pk
  accept_intent (some it) tid sub pk = accept_action it.action it.target tid sub pk

  unfoldable pub check_token : Text → Result (DieselUlid × Option Text × PubKey)
  unfolding accept_intent extract_claims
  check_token token = do
    header ← decode_header token
    kid ← ok_or header (anyhow "Unspecified kid")
    serial ← i32_from_str kid
    (pk, dec_key) ← get_pubkey serial
    claims ← extract_claims token dec_key
    accept_intent claims.it claims.tid claims.sub pk

  unfoldable pub sign_token : ArunaTokenClaims → Result Text
  sign_token claims = encode (i32_to_string encoding_serial) claims

  unfoldable pub sign_impersonating_token : Text → Option Text → Result Text
  unfolding sign_token
  sign_impersonating_token user_id tid = do
    time ← now
    sign_token (record {
      iss = ulid_to_string self_id;
      sub = user_id;
      exp = time + 15 * 60;
      aud = codes "aruna";
      tid = tid;
      it = some (record { target = self_id; action = impersonate });
    })

  unfoldable pub sign_notification_token : Result Text
  unfolding sign_token
  sign_notification_token = do
    time ← now
    sign_token (record {
      iss = ulid_to_string self_id;
      sub = ulid_to_string self_id;
      exp = time + 60 * 60 * 24 * 365 * 10;
      aud = codes "aruna";
      tid = none;
      it = some (record { target = self_id; action = fetch_info });
    })

  abbrev pub dataproxy_claims : DieselUlid → ℕ → ArunaTokenClaims
  dataproxy_claims target_endpoint time = record {
    iss = ulid_to_string self_id;
    sub = ulid_to_string self_id;
    exp = time + 15 * 60;
    aud = codes "proxy";
    tid = none;
    it = some (record { target = target_endpoint; action = dp_exchange });
  }

  unfoldable pub sign_dataproxy_token : DieselUlid → Result Text
  unfolding sign_token
  sign_dataproxy_token target_endpoint = do
    time ← now
    sign_token (dataproxy_claims target_endpoint time)
