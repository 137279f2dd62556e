-- ===== src/Client/Base.antt =====
-- The state that the client and the services of the proxy share, and the methods on it: what a method
-- did stays after an error. `none` is a method that does not end: a walk through the hierarchy out of
-- rounds, or a panic.
use data_proxy.Base.{ℕ, List, Option, none, some, Text, Result, ok, err, Error}
use data_proxy.Base.Int.{ℤ}
use data_proxy.Base.Map.{Map}
use data_proxy.Structs.Format.{DieselUlid, ObjectLocation}
use data_proxy.Structs.Object.{KeyValue}
use data_proxy.Structs.Messages.{ReplicationStatus}
use data_proxy.Structs.Requests.{CreateRequest, UpdateObjectRequest}
use data_proxy.Cache.{Cache}
use data_proxy.Cache.Users.{Keys}
use data_proxy.Cache.Parts.{Parts}
use data_proxy.Auth.Tokens.{PubKey}
use data_proxy.Replication.Queue.{ReplicationMessage}

-- The requests of the proxy to the server. `create_project` has the preferred endpoint, and
-- `finish_object` the object, the length and the hashes.
pub data Call : Type 0 where
  create_project : Text → CreateRequest → Call
  create_collection create_dataset create_object : CreateRequest → Call
  update_object : UpdateObjectRequest → Call
  finish_object : Text → ℤ → List (ℕ × Text) → Call
  get_project get_collection get_dataset get_object get_user : Text → Call
  get_pubkeys : Call
  update_key_values : Text → List KeyValue → List KeyValue → Call
  set_hashes : Text → List (ℕ × Text) → Call
  update_status : Text → Text → ReplicationStatus → Call
  acknowledge : Text → Call

-- `calls` are the requests so far, the latest last; `messages` what was sent to the replication;
-- `finalizing` the uploads whose data a task of their own moves to its place. A key of
-- `pubkeys` is kept by its bytes.
pub record World : Type 0 where
  pub cache : Cache
  pub keys : Keys
  pub parts : Parts
  pub pubkeys : Map ℤ (PubKey × Text)
  pub calls : List Call
  pub messages : List ReplicationMessage
  pub finalizing : List (DieselUlid × ObjectLocation)

abbrev pub Method : Type 0 → Type 0
Method A = World → Option (Result A × World)

module _ {A : Type 0} where
  abbrev pub lift : Result A → Method A
  lift r w = some (r, w)

  abbrev pub gets : (World → A) → Method A
  gets f w = some (ok (f w), w)

  -- The rest of a method after a part that ended.
  abbrev pub continue :
      {B : Type 0} → (A → Method B) → Option (Result A × World) → Option (Result B × World)
  continue next none = none
  continue next (some (err e, w)) = some (err e, w)
  continue next (some (ok a, w)) = next a w

infixl 5 ◌>>=◌ ◌>>◌
abbrev pub ◌>>=◌ : {A B : Type 0} → Method A → (A → Method B) → Method B
◌>>=◌ m next w = continue next (m w)

abbrev pub ◌>>◌ : {A B : Type 0} → Method A → Method B → Method B
m >> k = m >>= λ _. k

-- `map_err(|_| e)`
abbrev pub fail_with : {A : Type 0} → Method A → Error → Method A
fail_with m e w = elim (m w) [
  | none ↦ none
  | some (ok a, w') ↦ some (ok a, w')
  | some (err _, w') ↦ some (err e, w')
]

abbrev pub skip : Method (Unit {0})
skip w = some (ok tt, w)

-- An operation on the cache that may run out of rounds, and one that does not.
abbrev pub on_cache : (Cache → Option (Result (Unit {0}) × Cache)) → Method (Unit {0})
on_cache f w = elim (f w.cache) [
  | none ↦ none
  | some (r, cache) ↦ some (r, record w { cache = cache })
]

abbrev pub on_cache_total : (Cache → Result (Unit {0}) × Cache) → Method (Unit {0})
on_cache_total f w = some ((f w.cache).0, record w { cache = (f w.cache).1 })
