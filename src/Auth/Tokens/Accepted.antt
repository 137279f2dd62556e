-- ===== src/Auth/Tokens/Accepted.antt =====
-- auth/auth.rs: which tokens are accepted, and the texts of intents.
use data_proxy.Base.{
  ℕ, ◌≤◌, Option, none, some, Text, codes, Lacks, nat_eq, nat_eq_iff, split_once, split_once-append,
  Result, ok, ok_or, >>=-eq-ok, ok_or-eq-ok, ◌≡◌, refl, sym, ◌∙◌, ap, ◌⊎◌, inl, inr, Bool-cases,
  arith,
}
use data_proxy.Base.Int.{ℤ}
use data_proxy.Structs.Format.{DieselUlid}
use data_proxy.Auth.Tokens.{
  Action, create_secrets, impersonate, fetch_info, dp_exchange, as_u8, from_u8, Intent, underscore,
  digit, serialize, second_part, deserialize, ArunaTokenClaims, PubKey, Proxy, extract_claims, give,
  accept_action, accept_intent, check_token, sign_token, dataproxy_claims, sign_dataproxy_token,
}

from_u8-as_u8 : (a : Action) → from_u8 (as_u8 a) ≡ some a
unfolding from_u8 as_u8
from_u8-as_u8 Action.all = refl
from_u8-as_u8 create_secrets = refl
from_u8-as_u8 impersonate = refl
from_u8-as_u8 fetch_info = refl
from_u8-as_u8 dp_exchange = refl

as_u8_small : (a : Action) → as_u8 a ≤ 4
unfolding as_u8
as_u8_small Action.all = omega arith
as_u8_small create_secrets = omega arith
as_u8_small impersonate = omega arith
as_u8_small fetch_info = omega arith
as_u8_small dp_exchange = omega arith

second_part-digit : (n : ℕ) → n ≤ 4 → second_part (digit n) ≡ digit n
unfolding second_part split_once
second_part-digit n h = ground arith

-- An intent that is written is read back, if identifiers and digits are read as they were written
-- and identifiers have no underscore.
pub deserialize-serialize :
    (ulid_to_string : DieselUlid → Text) (from_str : Text → Result DieselUlid)
    (u8_from_str : Text → Result ℕ) (intent : Intent)
    → ((id : DieselUlid) → from_str (ulid_to_string id) ≡ ok id)
    → ((id : DieselUlid) → Lacks underscore (ulid_to_string id))
    → ((n : ℕ) → n ≤ 4 → u8_from_str (digit n) ≡ ok n)
    → deserialize from_str u8_from_str (serialize ulid_to_string intent) ≡ some (ok intent)
unfolding deserialize serialize
deserialize-serialize ulid_to_string from_str u8_from_str intent parsed lacks digits =
    rw
      (
        deserialize,
        serialize,
        split_once-append underscore (ulid_to_string intent.target) (digit (as_u8 intent.action))
            (lacks intent.target),
      )
      (rw (parsed intent.target) (
        rw (second_part-digit (as_u8 intent.action) (as_u8_small intent.action)) (
          rw (digits (as_u8 intent.action) (as_u8_small intent.action))
            (rw (from_u8-as_u8 intent.action) refl))))

-- The intents that a proxy accepts, with the token that it then gives for the one of the claims.
abbrev pub Accepts : DieselUlid → Option Intent → Option Text → Option Text → Type 0
Accepts self_id none claimed tid = tid ≡ claimed
Accepts self_id (some it) claimed tid =
    ((it.action ≡ Action.all) × (tid ≡ claimed))
    ⊎ ((it.action ≡ create_secrets) × (it.target ≡ self_id) × (tid ≡ claimed))
    ⊎ ((it.action ≡ dp_exchange) × (it.target ≡ self_id) × (tid ≡ none))

module _ (proxy : Proxy) where
  open proxy use {
    DecodingKey, self_id, encoding_serial, ulid_to_string, i32_to_string, from_str, i32_from_str,
    decode_header, decode, encode, get_pubkey, now,
  }

  give-ok :
      (given : Option Text) (sub : Text) (pk : PubKey) (id : DieselUlid) (tid : Option Text)
      (key : PubKey)
      → give proxy given sub pk ≡ ok (id, tid, key)
      → (tid ≡ given) × (from_str sub ≡ ok id) × (key ≡ pk)
  give-ok given sub pk id tid key h =
      let (user, parsed, same) = >>=-eq-ok (from_str sub) _ h in ground arith

  accept_action-Accepts :
      (action : Action) (target : DieselUlid) (claimed : Option Text) (sub : Text) (pk : PubKey)
      (id : DieselUlid) (tid : Option Text) (key : PubKey)
      → accept_action proxy action target claimed sub pk ≡ ok (id, tid, key)
      → Accepts self_id (some (record { target = target; action = action })) claimed tid
        × (from_str sub ≡ ok id)
        × (key ≡ pk)
  unfolding accept_action
  accept_action-Accepts Action.all target claimed sub pk id tid key h =
      let (t, s, k) = give-ok claimed sub pk id tid key h in (inl (refl, t), s, k)
  accept_action-Accepts create_secrets target claimed sub pk id tid key h =
      elim (Bool-cases (nat_eq target self_id)) [
        | inl e ↦
            (let (t, s, k) = give-ok claimed sub pk id tid key (rw e at h) in
              (inr (inl (refl, (nat_eq_iff target self_id).0 e, t)), s, k))
        | inr e ↦ ground (arith, e, h)
      ]
  accept_action-Accepts dp_exchange target claimed sub pk id tid key h =
      elim (Bool-cases (nat_eq target self_id)) [
        | inl e ↦
            (let (t, s, k) = give-ok none sub pk id tid key (rw e at h) in
              (inr (inr (refl, (nat_eq_iff target self_id).0 e, t)), s, k))
        | inr e ↦ ground (arith, e, h)
      ]
  accept_action-Accepts impersonate target claimed sub pk id tid key h = cc
  accept_action-Accepts fetch_info target claimed sub pk id tid key h = cc

  accept_intent-Accepts :
      (it : Option Intent) (claimed : Option Text) (sub : Text) (pk : PubKey) (id : DieselUlid)
      (tid : Option Text) (key : PubKey)
      → accept_intent proxy it claimed sub pk ≡ ok (id, tid, key)
      → Accepts self_id it claimed tid × (from_str sub ≡ ok id) × (key ≡ pk)
  unfolding accept_intent
  accept_intent-Accepts none claimed sub pk id tid key h = give-ok claimed sub pk id tid key h
  accept_intent-Accepts (some it) claimed sub pk id tid key h =
      accept_action-Accepts it.action it.target claimed sub pk id tid key h

  -- A token is accepted only if it decodes, for the audience of proxies, with the key that the
  -- cache has under the number in its header; its subject is the user returned; and it has no
  -- intent, the intent of all actions, or is meant for this proxy and the making of secrets or the
  -- exchange between proxies; the token's number is returned, but for an exchange.
  pub check_token-Accepts :
      (token : Text) (id : DieselUlid) (tid : Option Text) (pk : PubKey)
      → check_token proxy token ≡ ok (id, tid, pk)
      → (kid : Text) × (serial : ℤ) × (dec_key : DecodingKey) × (claims : ArunaTokenClaims)
        × (decode_header token ≡ ok (some kid))
        × (i32_from_str kid ≡ ok serial)
        × (get_pubkey serial ≡ ok (pk, dec_key))
        × (decode token dec_key (codes "proxy") ≡ ok claims)
        × (from_str claims.sub ≡ ok id)
        × Accepts self_id claims.it claims.tid tid
  unfolding check_token extract_claims
  check_token-Accepts token id tid pk h =
      let (header, headed, h₁) = >>=-eq-ok (decode_header token) _ h in
      let (kid, given, h₂) = >>=-eq-ok (ok_or header _) _ h₁ in
      let (serial, numbered, h₃) = >>=-eq-ok (i32_from_str kid) _ h₂ in
      let ((key, dec_key), known, h₄) = >>=-eq-ok (get_pubkey serial) _ h₃ in
      let (claims, decoded, h₅) = >>=-eq-ok (extract_claims proxy token dec_key) _ h₄ in
      let (accepted, sub, same) =
        accept_intent-Accepts claims.it claims.tid claims.sub key id tid pk h₅ in
      (
        kid,
        serial,
        dec_key,
        claims,
        headed ∙ ap ok (ok_or-eq-ok header _ given),
        numbered,
        known ∙ ap (λ k. ok (k, dec_key)) (sym same),
        decoded,
        sub,
        accepted,
      )

-- A token that one proxy signs for another is accepted there as this proxy's, if the library gives
-- back the header and the claims that it encoded, the numbers and identifiers are read as they
-- were written, and the receiver's cache has the sender's key.
pub check_token-sign_dataproxy_token :
    (sender receiver : Proxy) (token : Text) (pk : PubKey) (dec_key : receiver.DecodingKey)
    → sign_dataproxy_token sender receiver.self_id ≡ ok token
    → ((time : ℕ)
        → sender.encode
            (sender.i32_to_string sender.encoding_serial)
            (dataproxy_claims sender receiver.self_id time)
          ≡ ok token
        → (receiver.decode_header token ≡ ok (some (sender.i32_to_string sender.encoding_serial)))
          × (receiver.decode token dec_key (codes "proxy")
              ≡ ok (dataproxy_claims sender receiver.self_id time)))
    → receiver.i32_from_str (sender.i32_to_string sender.encoding_serial)
      ≡ ok sender.encoding_serial
    → receiver.get_pubkey sender.encoding_serial ≡ ok (pk, dec_key)
    → receiver.from_str (sender.ulid_to_string sender.self_id) ≡ ok sender.self_id
    → check_token receiver token ≡ ok (sender.self_id, none, pk)
unfolding check_token sign_dataproxy_token sign_token extract_claims accept_intent accept_action
check_token-sign_dataproxy_token sender receiver token pk dec_key signed verified serial known
      named =
    let (time, clock, encoded) = >>=-eq-ok sender.now _ signed in
    let (headed, decoded) = verified time encoded in
    rw headed (
      rw serial (
        rw known (
          rw decoded (rw ((nat_eq_iff receiver.self_id receiver.self_id).1 refl) (rw named refl)))))
