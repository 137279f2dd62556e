-- ===== src/Client.antt =====
-- caching/grpc_query_handler.rs: the client of the Aruna server. A request gets an answer by all the
-- requests so far, this one included; every method is one on the state of Client/Base.
pub mod Base
pub mod Calls
pub mod Events
pub mod FullSync
pub mod Synced
pub mod Pulls
pub mod Refreshed
use data_proxy.Base.{
  ℕ, Bool, true, false, List, [], ◌∷◌, ◌++◌, Option, none, some, Text, codes, eq_text, ◌==◌,
  if◌then◌else◌, String, Result, ok, err, anyhow, ok_or,
}
use data_proxy.Base.Int.{ℤ}
use data_proxy.Structs.Format.{DieselUlid, ObjectLocation}
use data_proxy.Structs.Object.{Object, KeyValue, get_hashes, NaiveDateTime}
use data_proxy.Structs.Messages.{
  GrpcResource, ReplicationStatus, object_from_project, object_from_collection, object_from_dataset,
  object_from_object,
}
use data_proxy.Structs.Requests.{
  CreateRequest, UpdateObjectRequest, create_project_request, create_collection_request,
  create_dataset_request, create_object_request, update_object_request,
}
use data_proxy.Cache.{Cache}
use data_proxy.Cache.Users.{Write}
use data_proxy.Cache.Accounts.{GrpcUser}
use data_proxy.Cache.Objects.{upsert_object}
use data_proxy.Auth.Tokens.{PubKey}
use data_proxy.Replication.Queue.{ReplicationMessage}
use data_proxy.Client.Base.{Call, World, Method, ◌>>=◌, ◌>>◌, continue, lift, skip, on_cache}

-- The message `Pubkey`: its number as the i16 it is read as, its text and its location.
pub record GrpcPubkey : Type 0 where
  pub id : ℤ
  pub value : Text
  pub location : Text

-- What the client is connected with. The server answers; the library reads and prints identifiers and
-- times, and accepts a token as a header or not; the database takes writes; the replication may have
-- stopped receiving.
pub record Env : Type 0 where
  pub endpoint_id : Text
  pub long_lived_token : Text
  pub to_string : DieselUlid → Text
  pub from_str : Text → Result DieselUlid
  pub from_timestamp : ℤ → ℕ → Option NaiveDateTime
  pub header : Text → Result (Unit {0})
  pub resource : List Call → Result (Option GrpcResource)
  pub user : List Call → Result (Option GrpcUser)
  pub public_keys : List Call → Result (List GrpcPubkey)
  pub finished : List Call → Result (Unit {0})
  pub transaction : Object → Result (Unit {0})
  pub rounds : ℕ
  pub deletion : DieselUlid → Result (Unit {0})
  pub delete_data : ObjectLocation → Result (Unit {0})
  pub persist : Write → Result (Unit {0})
  pub delete_pubkeys : Result (Unit {0})
  pub upsert_pubkey : PubKey → Result (Unit {0})
  pub from_ed_pem : Text → Result Text
  pub queued : List ReplicationMessage → Result (Unit {0})

-- A request with a token, which is refused before it is sent if it is no header.
unfoldable pub send : {A : Type 0} → Env → Text → Call → (List Call → Result A) → Method A
send env token call answer w = elim (env.header token) [
  | err e ↦ some (err e, w)
  | ok _ ↦ some (answer (w.calls ++ call ∷ []), record w { calls = w.calls ++ call ∷ [] })
]

-- The request of a resource, whose answer may have none.
unfoldable pub request : Env → Text → Call → String → Method GrpcResource
unfolding send
request env token call missing = do
  answer ← send env token call env.resource
  lift (ok_or answer (anyhow missing))

-- `Cache::upsert_object`
unfoldable pub upsert : Env → Object → Method (Unit {0})
upsert env object = on_cache (upsert_object env.transaction env.rounds object)

-- The answer is converted and stored.
unfoldable pub store : Env → Result Object → Method Object
unfolding upsert
store env converted = do object ← lift converted; upsert env object; lift (ok object)

unfoldable pub create_project : Env → Object → Text → Method Object
unfolding request store
create_project env object token = do
  project ←
      request env token
        (Call.create_project env.endpoint_id (create_project_request env.to_string object))
        "unknown project"
  store env (object_from_project env.from_str env.from_timestamp project)

unfoldable pub create_collection : Env → Object → Text → Method Object
unfolding request store
create_collection env object token = do
  collection ←
      request env token (Call.create_collection (create_collection_request env.to_string object))
        "unknown collection"
  store env (object_from_collection env.from_str env.from_timestamp collection)

unfoldable pub create_dataset : Env → Object → Text → Method Object
unfolding request store
create_dataset env object token = do
  dataset ←
      request env token (Call.create_dataset (create_dataset_request env.to_string object))
        "unknown dataset"
  store env (object_from_dataset env.from_str env.from_timestamp dataset)

unfoldable pub create_object : Env → Object → Text → Method Object
unfolding request store
create_object env object token = do
  answer ←
      request env token (Call.create_object (create_object_request env.to_string object))
        "unknown object"
  store env (object_from_object env.from_str env.from_timestamp answer)

-- The requests by which an event's resource is fetched, with the proxy's own token.
unfoldable pub get_project : Env → DieselUlid → Method GrpcResource
unfolding request
get_project env id =
    request env env.long_lived_token (Call.get_project (env.to_string id)) "unknown project"

unfoldable pub get_collection : Env → DieselUlid → Method GrpcResource
unfolding request
get_collection env id =
    request env env.long_lived_token (Call.get_collection (env.to_string id)) "unknown collection"

unfoldable pub get_dataset : Env → DieselUlid → Method GrpcResource
unfolding request
get_dataset env id =
    request env env.long_lived_token (Call.get_dataset (env.to_string id)) "unknown dataset"

unfoldable pub get_object : Env → DieselUlid → Method GrpcResource
unfolding request
get_object env id =
    request env env.long_lived_token (Call.get_object (env.to_string id)) "unknown object"

unfoldable pub get_user : Env → DieselUlid → Method GrpcUser
unfolding send
get_user env id = do
  answer ← send env env.long_lived_token (Call.get_user (env.to_string id)) env.user
  lift (ok_or answer (anyhow "Unknown user"))

unfoldable pub get_pubkeys : Env → Method (List GrpcPubkey)
unfolding send
get_pubkeys env = send env env.long_lived_token Call.get_pubkeys env.public_keys

abbrev pub cors_key : Text
cors_key = codes "app.aruna-storage.org/cors"

abbrev pub cors_values : List KeyValue → List KeyValue
cors_values [] = []
cors_values (e ∷ key_values) =
    let rest = cors_values key_values in if e.key == cors_key then e ∷ rest else rest

-- `none` adds nothing: the values are removed.
unfoldable pub add_or_replace_key_value_project :
    Env → Text → Object → Option (Text × Text) → Method (Unit {0})
unfolding send
add_or_replace_key_value_project env token obj kv =
    send env token
      (Call.update_key_values (env.to_string obj.id)
        (elim kv [ none ↦ [] | some (k, v) ↦ record { key = k; value = v } ∷ [] ])
        (cors_values obj.key_values))
      env.finished

unfoldable pub init_object_update : Env → Object → Text → Bool → Method Object
unfolding request store
init_object_update env object token force_update = do
  answer ←
      request env token
        (Call.update_object
          (record (update_object_request env.to_string object) { force_revision = force_update }))
        "response does not contain object"
  store env (object_from_object env.from_str env.from_timestamp answer)

unfoldable pub finish_object : Env → DieselUlid → ℤ → List (ℕ × Text) → Text → Method Object
unfolding request store
finish_object env object_id content_len hashes token = do
  answer ←
      request env token (Call.finish_object (env.to_string object_id) content_len hashes)
        "unknown object"
  store env (object_from_object env.from_str env.from_timestamp answer)

unfoldable pub create_and_finish : Env → Object → ℤ → Text → Method Object
unfolding request store get_hashes
create_and_finish env proxy_object content_len token = do
  created ←
      request env token (Call.create_object (create_object_request env.to_string proxy_object))
        "Object missing in CreateObjectResponse"
  server_object ← lift (object_from_object env.from_str env.from_timestamp created)
  answer ←
      request env token
        (Call.finish_object (env.to_string server_object.id) content_len (get_hashes proxy_object))
        "Object missing in FinishObjectResponse"
  store env (object_from_object env.from_str env.from_timestamp answer)

unfoldable pub update_replication_status : Env → Text → Text → ReplicationStatus → Method (Unit {0})
unfolding send
update_replication_status env object_id endpoint status =
    send env env.long_lived_token (Call.update_status object_id endpoint status) env.finished

unfoldable pub set_object_hashes : Env → DieselUlid → List (ℕ × Text) → Text → Method (Unit {0})
unfolding send
set_object_hashes env id hashes token =
    send env token (Call.set_hashes (env.to_string id) hashes) env.finished
