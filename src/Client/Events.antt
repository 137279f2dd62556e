-- ===== src/Client/Events.antt =====
-- caching/grpc_query_handler.rs: the messages of the server's notifications, what each does.
use data_proxy.Base.{
  Bool, true, false, List, [], ◌∷◌, ◌++◌, map, Option, none, some, Text, codes, eq_text, ◌==◌,
  if◌then◌else◌, Result, ok, err, anyhow, ok_or, strip_prefix,
}
use data_proxy.Base.Int.{as_i16}
use data_proxy.Structs.Object.{ResourceVariant, Status, full_sync}
use data_proxy.Structs.Messages.{
  GrpcResource, ReplicationStatus, DataEndpoint, object_from_project, object_from_collection,
  object_from_dataset, object_from_object,
}
use data_proxy.Cache.Users.{Keys, remove_user, upsert_user}
use data_proxy.Cache.Accounts.{GrpcUser, user_of}
use data_proxy.Cache.Objects.{delete_object}
use data_proxy.Cache.Secrets.{set_pubkeys, add_pubkey, eq_kid}
use data_proxy.Auth.Tokens.{PubKey}
use data_proxy.Replication.Queue.{ReplicationMessage, pull}
use data_proxy.Client.{
  Env, GrpcPubkey, get_project, get_collection, get_dataset, get_object, get_user, get_pubkeys,
  update_replication_status, store, send,
}
use data_proxy.Client.Base.{Call, Method, ◌>>=◌, ◌>>◌, lift, skip, on_cache}

pub data EventVariant : Type 0 where
  unspecified created available updated deleted : EventVariant

pub record ResourceRef : Type 0 where
  pub resource_id : Text
  pub resource_variant : ResourceVariant

pub record ResourceEvent : Type 0 where
  pub event_variant : EventVariant
  pub resource : Option ResourceRef
  pub reply : Option Text

pub record UserEvent : Type 0 where
  pub event_variant : EventVariant
  pub user_id : Text
  pub reply : Option Text

pub data Announcement : Type 0 where
  new_pubkey remove_pubkey new_data_proxy_id remove_data_proxy_id : Announcement
  update_data_proxy_id downtime version : Announcement

pub record AnnouncementEvent : Type 0 where
  pub event_variant : Option Announcement
  pub reply : Option Text

pub data MessageVariant : Type 0 where
  resource_event : ResourceEvent → MessageVariant
  user_event : UserEvent → MessageVariant
  announcement_event : AnnouncementEvent → MessageVariant

-- `str::contains`
unfoldable pub has_part : Text → Text → Bool
unfolding strip_prefix
has_part [] p = elim (strip_prefix p []) [ none ↦ false | some _ ↦ true ]
has_part (c ∷ s) p =
    let later = has_part s p in elim (strip_prefix p (c ∷ s)) [ none ↦ later | some _ ↦ true ]

-- `From<Pubkey> for PubKey`
unfoldable pub pubkey_of : GrpcPubkey → PubKey
unfolding has_part
pubkey_of value = record {
  id = as_i16 value.id;
  key = value.value;
  is_proxy = has_part value.location (codes "proxy");
}

-- What the events do to the public keys and to the users.
unfoldable pub replace_pubkeys : Env → List PubKey → Method (Unit {0})
unfolding set_pubkeys
replace_pubkeys env pks w =
    let (r, pubkeys) =
      set_pubkeys env.from_ed_pem env.upsert_pubkey env.delete_pubkeys pks w.pubkeys in
    some (r, record w { pubkeys = pubkeys })

unfoldable pub enter_pubkey : Env → PubKey → Method (Unit {0})
unfolding add_pubkey
enter_pubkey env pk w =
    let (r, pubkeys) = add_pubkey env.from_ed_pem env.upsert_pubkey pk w.pubkeys in
    some (r, record w { pubkeys = pubkeys })

unfoldable pub on_keys : (Keys → Result (Unit {0}) × Keys) → Method (Unit {0})
on_keys f w = some ((f w.keys).0, record w { keys = (f w.keys).1 })

-- `Cache::upsert_user` with the conversion of the message.
unfoldable pub enter_user : Env → GrpcUser → Method (Unit {0})
unfolding user_of upsert_user on_keys
enter_user env user = do
  proxy_user ← lift (user_of env.from_str user)
  on_keys (upsert_user env.persist env.to_string proxy_user)

unfoldable pub process_announcements_event : Env → AnnouncementEvent → Method (Option Text)
unfolding replace_pubkeys get_pubkeys pubkey_of
process_announcements_event env message = do
  variant ← lift (ok_or message.event_variant (anyhow "No event variant"))
  elim variant [
    | downtime ↦ skip
    | version ↦ skip
    | _ ↦ get_pubkeys env >>= λ pks. replace_pubkeys env (map pubkey_of pks)
  ]
  lift (ok message.reply)

-- The user of the event is asked for and stored, or removed.
unfoldable pub refresh_user : Env → Text → Method (Unit {0})
unfolding get_user enter_user
refresh_user env user_id = do
  uid ← lift (env.from_str user_id)
  user ← get_user env uid
  enter_user env user

unfoldable pub drop_user : Env → Text → Method (Unit {0})
unfolding remove_user on_keys
drop_user env user_id = do uid ← lift (env.from_str user_id); on_keys (remove_user env.persist uid)

unfoldable pub process_user_event : Env → UserEvent → Method (Option Text)
unfolding refresh_user drop_user
process_user_event env message = do
  elim message.event_variant [
    | created ↦ refresh_user env message.user_id
    | available ↦ refresh_user env message.user_id
    | updated ↦ refresh_user env message.user_id
    | deleted ↦ drop_user env message.user_id
    | unspecified ↦ skip
  ]
  lift (ok message.reply)

-- The first endpoint that has finished a full sync.
unfoldable pub full_sync_proxy : List DataEndpoint → Option Text
full_sync_proxy [] = none
full_sync_proxy (ep ∷ endpoints) =
    let later = full_sync_proxy endpoints in
    elim ep.variant [
      | some full_sync ↦ elim ep.status [ ReplicationStatus.finished ↦ some ep.id | _ ↦ later ]
      | _ ↦ later
    ]

-- `cache.sender.send(..)`
unfoldable pub queue : Env → ReplicationMessage → Method (Unit {0})
queue env message w = elim (env.queued (w.messages ++ message ∷ [])) [
  | err e ↦ some (err e, w)
  | ok _ ↦ some (ok tt, record w { messages = w.messages ++ message ∷ [] })
]

-- The arms for a full and for a partial sync do the same: a pull is asked for, or the lack of an
-- endpoint is reported.
unfoldable pub request_pull : Env → GrpcResource → Method (Unit {0})
unfolding full_sync_proxy queue update_replication_status
request_pull env object = elim (full_sync_proxy object.endpoints) [
  | some ep_id ↦ do
    object_id ← lift (env.from_str object.id)
    endpoint_id ← lift (env.from_str ep_id)
    queue env (record { direction = pull object_id; endpoint_id = endpoint_id })
  | none ↦ update_replication_status env object.id env.endpoint_id ReplicationStatus.error
]

-- An endpoint that waits for this proxy, with a variant.
unfoldable pub is_mine : Env → DataEndpoint → Bool
is_mine env ep = elim ep.status [
  | ReplicationStatus.waiting ↦ elim ep.variant [ none ↦ false | some _ ↦ ep.id == env.endpoint_id ]
  | _ ↦ false
]

unfoldable pub visit_endpoints : Env → GrpcResource → List DataEndpoint → Method (Unit {0})
unfolding is_mine request_pull
visit_endpoints env object [] = skip
visit_endpoints env object (ep ∷ endpoints) = do
  if is_mine env ep then request_pull env object else skip
  visit_endpoints env object endpoints

unfoldable pub is_available : Status → Bool
is_available Status.available = true
is_available _ = false

unfoldable pub handle_replication : Env → GrpcResource → Method (Unit {0})
unfolding is_available visit_endpoints
handle_replication env object =
    if is_available object.status then visit_endpoints env object object.endpoints else skip

-- A created or updated resource is fetched by its type, stored, and asked for if it is an object.
unfoldable pub refresh_resource : Env → ResourceRef → Method (Unit {0})
unfolding get_project get_collection get_dataset get_object store handle_replication
refresh_resource env r = elim r.resource_variant [
  | ResourceVariant.project ↦ do
    id ← lift (env.from_str r.resource_id)
    object ← get_project env id
    stored ← store env (object_from_project env.from_str env.from_timestamp object)
    skip
  | ResourceVariant.collection ↦ do
    id ← lift (env.from_str r.resource_id)
    object ← get_collection env id
    stored ← store env (object_from_collection env.from_str env.from_timestamp object)
    skip
  | ResourceVariant.dataset ↦ do
    id ← lift (env.from_str r.resource_id)
    object ← get_dataset env id
    stored ← store env (object_from_dataset env.from_str env.from_timestamp object)
    skip
  | ResourceVariant.object ↦ do
    id ← lift (env.from_str r.resource_id)
    object ← get_object env id
    stored ← store env (object_from_object env.from_str env.from_timestamp object)
    handle_replication env object
  | ResourceVariant.unspecified ↦ skip
]

unfoldable pub drop_resource : Env → ResourceRef → Method (Unit {0})
unfolding delete_object
drop_resource env r = do
  id ← lift (env.from_str r.resource_id)
  on_cache (delete_object env.deletion env.delete_data env.rounds id)

abbrev pub for_resource : (ResourceRef → Method (Unit {0})) → Option ResourceRef → Method (Unit {0})
for_resource act none = skip
for_resource act (some r) = act r

unfoldable pub process_resource_event : Env → ResourceEvent → Method (Option Text)
unfolding refresh_resource drop_resource
process_resource_event env event = do
  elim event.event_variant [
    | created ↦ for_resource (refresh_resource env) event.resource
    | updated ↦ for_resource (refresh_resource env) event.resource
    | deleted ↦ for_resource (drop_resource env) event.resource
    | available ↦ skip
    | unspecified ↦ skip
  ]
  lift (ok event.reply)

-- A message without a variant panics.
unfoldable pub process_message : Env → Option MessageVariant → Method (Option Text)
unfolding process_resource_event process_user_event process_announcements_event
process_message env none w = none
process_message env (some (resource_event r_event)) w = process_resource_event env r_event w
process_message env (some (user_event u_event)) w = process_user_event env u_event w
process_message env (some (announcement_event a_event)) w =
    process_announcements_event env a_event w

-- A turn of the loop over the notifications: `none` is a ping. An error of a message is dropped, and
-- its reply is not acknowledged.
unfoldable pub notified : Env → Option (Option MessageVariant) → Method (Unit {0})
unfolding process_message send
notified env none w = skip w
notified env (some message) w = elim (process_message env message w) [
  | none ↦ none
  | some (ok (some reply), w') ↦
      send env env.long_lived_token (Call.acknowledge reply) env.finished w'
  | some (ok none, w') ↦ some (ok tt, w')
  | some (err e, w') ↦ some (ok tt, w')
]

-- The loop ends with an error: of an acknowledgement, or as the stream was closed.
unfoldable pub notifications : Env → List (Option (Option MessageVariant)) → Method (Unit {0})
unfolding notified
notifications env [] = lift (err (anyhow "Stream was closed by sender"))
notifications env (m ∷ stream) = notified env m >> notifications env stream
