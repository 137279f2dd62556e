-- ===== src/Client/Refreshed.antt =====
-- caching/grpc_query_handler.rs: what an event of a created or updated resource leaves in the cache.
use data_proxy.Base.{
  List, [], ◌∷◌, ◌++◌, Option, some, Text, String, ok, ◌≡◌, ◌≢◌, ◌⊎◌, refl, arith, ap, sym, ◌∙◌,
  nat_eq_iff, eq_nat, Bool-cases, inl, inr, Option-cases,
}
use data_proxy.Base.Map.{get}
use data_proxy.Structs.Format.{DieselUlid}
use data_proxy.Structs.Object.{Object, ResourceVariant}
use data_proxy.Structs.Messages.{
  GrpcResource, Resource, DataEndpoint, ReplicationStatus, object_from_resource,
}
use data_proxy.Cache.{Cache}
use data_proxy.Cache.Locations.{get_location}
use data_proxy.Replication.Queue.{ReplicationMessage, pull}
use data_proxy.Client.{
  Env, store, request, get_project, get_collection, get_dataset, get_object,
  update_replication_status,
}
use data_proxy.Client.Base.{Call, World, Method, ◌>>=◌, lift, skip}
use data_proxy.Client.Calls.{
  after_part, after_value, request-ends, send-ends, store-ends, lift-value,
}
use data_proxy.Client.Synced.{fetch_of, store-get}
use data_proxy.Client.Events.{
  EventVariant, ResourceRef, ResourceEvent, full_sync_proxy, queue, request_pull, is_mine,
  visit_endpoints, is_available, handle_replication, refresh_resource, for_resource,
  process_resource_event,
}

-- The replication does not touch the cache.
queue-cache :
    (env : Env) (m : ReplicationMessage) (w : World) {u : Unit {0}} {w' : World}
    → queue env m w ≡ some (ok u, w')
    → w'.cache ≡ w.cache
unfolding queue
queue-cache env m w h = ground arith

request_pull-cache :
    (env : Env) (object : GrpcResource) (w : World) {u : Unit {0}} {w' : World}
    → request_pull env object w ≡ some (ok u, w')
    → w'.cache ≡ w.cache
unfolding request_pull update_replication_status
request_pull-cache env object w h = elim (Option-cases (full_sync_proxy object.endpoints)) [
  | inl e ↦
      let call = Call.update_status object.id env.endpoint_id ReplicationStatus.error in
      ap (λ (x : World). x.cache)
        (send-ends env env.long_lived_token call w env.finished (rw (e, request_pull) at h)).1
  | inr (ep, e) ↦ after_value (env.from_str object.id) _ w (rw (e, request_pull) at h) λ oid _ k.
      after_value (env.from_str ep) _ w k
        λ eid _ k1. queue-cache env (record { direction = pull oid; endpoint_id = eid }) w k1
]

visit_endpoints-cache :
    (env : Env) (object : GrpcResource) (l : List DataEndpoint) (w : World) {u : Unit {0}}
    {w' : World}
    → visit_endpoints env object l w ≡ some (ok u, w')
    → w'.cache ≡ w.cache
unfolding visit_endpoints
visit_endpoints-cache env object [] w h = ground arith
visit_endpoints-cache env object (ep ∷ l) w h = elim (Bool-cases (is_mine env ep)) [
  | inl e ↦
      after_part (request_pull env object) _ w (rw e at h) λ u v asked k.
        visit_endpoints-cache env object l v k ∙ request_pull-cache env object w asked
  | inr e ↦ visit_endpoints-cache env object l w (rw e at h)
]

handle_replication-cache :
    (env : Env) (object : GrpcResource) (w : World) {u : Unit {0}} {w' : World}
    → handle_replication env object w ≡ some (ok u, w')
    → w'.cache ≡ w.cache
unfolding handle_replication
handle_replication-cache env object w h = elim (Bool-cases (is_available object.status)) [
  | inl e ↦ visit_endpoints-cache env object object.endpoints w (rw e at h)
  | inr e ↦ ap (λ (x : World). x.cache) (sym (lift-value tt w (rw e at h)).1)
]

-- The server's answer to a request is what the cache has, with the location that it had.
abbrev pub Latest : Env → World → World → Resource → Type 0
Latest env w w' res =
    (o : Object) × (object_from_resource env.from_str env.from_timestamp res ≡ ok o)
    × (get w'.cache.resources o.id ≡ some (o, get_location w.cache o.id))

-- A fetch, a store, and something that leaves the cache.
fetched :
    (env : Env) (call : Call) (missing : String) (res : GrpcResource → Resource)
    (rest : GrpcResource → Method (Unit {0})) (w : World) {w' : World}
    → ((request env env.long_lived_token call missing) >>= λ answer.
          (store env (object_from_resource env.from_str env.from_timestamp (res answer)) >>= λ _.
          rest answer))
        w
      ≡ some (ok tt, w')
    → ((answer : GrpcResource) (v : World) → rest answer v ≡ some (ok tt, w') → w'.cache ≡ v.cache)
    → (answer : GrpcResource) × (env.resource (w.calls ++ call ∷ []) ≡ ok (some answer))
      × Latest env w w' (res answer)
fetched env call missing res rest w {w'} h leaves =
    after_part (request env env.long_lived_token call missing) _ w h λ answer v asked k.
      after_part (store env (object_from_resource env.from_str env.from_timestamp (res answer))) _ v
        k
        λ o v' stored k1.
          let (got, same) = request-ends env env.long_lived_token call w missing asked in
          let converted =
            (store-ends env (object_from_resource env.from_str env.from_timestamp (res answer)) v
              stored).0 in
          let there : get v'.cache.resources o.id ≡ some (o, get_location v.cache o.id) = ground (
            arith,
            store-get env (object_from_resource env.from_str env.from_timestamp (res answer)) v
                stored o.id,
            nat_eq_iff o.id o.id,
          ) in
          (
            answer,
            got,
            (
              o,
              converted,
              ap (λ (c : Cache). get c.resources o.id) (leaves answer v' k1)
                  ∙ (there ∙ ap (λ (x : World). some (o, get_location x.cache o.id)) same),
            ),
          )

-- What a reference of a type names is fetched by its request, and the answer is in the cache.
abbrev pub Fetched : Env → World → World → Text → ResourceVariant → Type 0
Fetched env w w' resource_id variant =
    (fetch : (Text → Call) × (GrpcResource → Resource)) × (id : DieselUlid)
    × (answer : GrpcResource) × (fetch_of variant ≡ some fetch)
    × (env.from_str resource_id ≡ ok id)
    × (env.resource (w.calls ++ fetch.0 (env.to_string id) ∷ []) ≡ ok (some answer))
    × Latest env w w' (fetch.1 answer)

skip-cache :
    (answer : GrpcResource) (v : World) {w' : World}
    → skip v ≡ some (ok tt, w')
    → w'.cache ≡ v.cache
skip-cache answer v h = ap (λ (x : World). x.cache) (sym (lift-value tt v h).1)

refresh_resource-Fetched :
    (env : Env) (resource_id : Text) (variant : ResourceVariant) (w : World) {w' : World}
    → variant ≢ ResourceVariant.unspecified
    → refresh_resource env (record { resource_id = resource_id; resource_variant = variant }) w
      ≡ some (ok tt, w')
    → Fetched env w w' resource_id variant
unfolding refresh_resource get_project get_collection get_dataset get_object object_from_resource
refresh_resource-Fetched env resource_id ResourceVariant.project w named h =
    after_value (env.from_str resource_id) _ w h λ id is k.
      let (answer, got, latest) =
        fetched env (Call.get_project (env.to_string id)) "unknown project" Resource.project
          (λ _. skip) w k (λ a v. skip-cache a v) in
      ((Call.get_project, Resource.project), id, answer, refl, is, got, latest)
refresh_resource-Fetched env resource_id ResourceVariant.collection w named h =
    after_value (env.from_str resource_id) _ w h λ id is k.
      let (answer, got, latest) =
        fetched env (Call.get_collection (env.to_string id)) "unknown collection"
          Resource.collection (λ _. skip) w k (λ a v. skip-cache a v) in
      ((Call.get_collection, Resource.collection), id, answer, refl, is, got, latest)
refresh_resource-Fetched env resource_id ResourceVariant.dataset w named h =
    after_value (env.from_str resource_id) _ w h λ id is k.
      let (answer, got, latest) =
        fetched env (Call.get_dataset (env.to_string id)) "unknown dataset" Resource.dataset
          (λ _. skip) w k (λ a v. skip-cache a v) in
      ((Call.get_dataset, Resource.dataset), id, answer, refl, is, got, latest)
refresh_resource-Fetched env resource_id ResourceVariant.object w named h =
    after_value (env.from_str resource_id) _ w h λ id is k.
      let (answer, got, latest) =
        fetched env (Call.get_object (env.to_string id)) "unknown object" Resource.object
          (handle_replication env) w k (λ o v. handle_replication-cache env o v) in
      ((Call.get_object, Resource.object), id, answer, refl, is, got, latest)
refresh_resource-Fetched env resource_id ResourceVariant.unspecified w named h = absurd (named refl)

-- When the event of a created or updated resource, with a reference of one of the four types, is
-- processed without error, its reply is the event's, the server was asked for the reference's
-- identifier by the request of its type, and the cache has the answer, converted, under the
-- answer's identifier, with the location that it had there before.
pub process_resource_event-Fetched :
    (env : Env) (event : ResourceEvent) (r : ResourceRef) (w : World) {reply : Option Text}
    {w' : World}
    → (event.event_variant ≡ EventVariant.created) ⊎ (event.event_variant ≡ EventVariant.updated)
    → event.resource ≡ some r
    → r.resource_variant ≢ ResourceVariant.unspecified
    → process_resource_event env event w ≡ some (ok reply, w')
    → (reply ≡ event.reply) × Fetched env w w' r.resource_id r.resource_variant
unfolding process_resource_event
process_resource_event-Fetched env event r w {reply} {w'} kind there named h = elim kind [
  | inl e ↦ refreshed (rw (there, for_resource) at (rw (e, process_resource_event) at h))
  | inr e ↦ refreshed (rw (there, for_resource) at (rw (e, process_resource_event) at h))
]
  where
    refreshed :
        (refresh_resource env r >>= λ _. lift (ok event.reply)) w ≡ some (ok reply, w')
        → (reply ≡ event.reply) × Fetched env w w' r.resource_id r.resource_variant
    refreshed k = after_part (refresh_resource env r) _ w k λ u v ended k1. (
      (lift-value event.reply v k1).0,
      refresh_resource-Fetched env r.resource_id r.resource_variant w named
          (ended ∙ ap (λ (x : World). some (ok tt, x)) (lift-value event.reply v k1).1),
    )
