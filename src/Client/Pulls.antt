-- ===== src/Client/Pulls.antt =====
-- caching/grpc_query_handler.rs: which pulls `handle_replication` asks for.
use data_proxy.Base.{
  ◌⊎◌, eq_text, true, List, [], ◌∷◌, ◌++◌, none, some, Text, ok, ◌≡◌, if◌then◌else◌, Bool-cases,
  inl, inr, append_assoc, append-nil, ap, ◌∙◌,
}
use data_proxy.Structs.Format.{DieselUlid}
use data_proxy.Structs.Messages.{GrpcResource, DataEndpoint, ReplicationStatus}
use data_proxy.Structs.Object.{SyncVariant}
use data_proxy.Replication.Queue.{ReplicationMessage, pull}
use data_proxy.Client.{Env, update_replication_status, send}
use data_proxy.Client.Base.{Call, World}
use data_proxy.Client.Events.{
  full_sync_proxy, request_pull, is_mine, visit_endpoints, is_available, handle_replication,
}

-- An endpoint entry that waits for this proxy: its status is waiting, it has a variant, and it names
-- the proxy.
abbrev pub Waiting : Env → DataEndpoint → Type 0
Waiting env ep =
    (ep.status ≡ ReplicationStatus.waiting)
    × ((variant : SyncVariant) × (ep.variant ≡ some variant))
    × (ep.id ≡ env.endpoint_id)

-- The list has one of something for each endpoint that waits for this proxy, and no more.
abbrev pub OneEach : {A : Type 0} → Env → A → List DataEndpoint → List A → Type 0
OneEach env a [] l = l ≡ []
OneEach {A} env a (ep ∷ endpoints) l =
    (Waiting env ep × ((rest : List A) × (l ≡ a ∷ rest) × OneEach env a endpoints rest))
    ⊎ ((Waiting env ep → ⊥) × OneEach env a endpoints l)

-- One of something for each endpoint that waits for this proxy.
abbrev pub for_mine : {A : Type 0} → Env → A → List DataEndpoint → List A
for_mine env a [] = []
for_mine env a (ep ∷ endpoints) =
    if is_mine env ep then a ∷ for_mine env a endpoints else for_mine env a endpoints

module _ (env : Env) (object : GrpcResource) where
  module _ (ep_id : Text) (object_id endpoint_id : DieselUlid)
      (found : full_sync_proxy object.endpoints ≡ some ep_id)
      (object_read : env.from_str object.id ≡ ok object_id)
      (endpoint_read : env.from_str ep_id ≡ ok endpoint_id)
      (open_queue : (l : List ReplicationMessage) → env.queued l ≡ ok tt) where
    abbrev pub asked : ReplicationMessage
    asked = record { direction = pull object_id; endpoint_id = endpoint_id }

  module _ (found : full_sync_proxy object.endpoints ≡ none)
      (is_header : env.header env.long_lived_token ≡ ok tt)
      (answered : (l : List Call) → env.finished l ≡ ok tt) where
    -- The report that no endpoint has the data.
    abbrev pub report : Call
    report = Call.update_status object.id env.endpoint_id ReplicationStatus.error

    request_pull-reports :
        (w : World)
        → request_pull env object w ≡ some (ok tt, record w { calls = w.calls ++ report ∷ [] })
    unfolding request_pull update_replication_status send
    request_pull-reports w =
        rw (found, request_pull) (rw (is_header, send) (rw (answered (w.calls ++ report ∷ []))))

    visit_endpoints-reports :
        (endpoints : List DataEndpoint) (w : World)
        → visit_endpoints env object endpoints w
          ≡ some (ok tt, record w { calls = w.calls ++ for_mine env report endpoints })
    unfolding visit_endpoints
    visit_endpoints-reports [] w = rw (append-nil w.calls)
    visit_endpoints-reports (ep ∷ endpoints) w = elim (Bool-cases (is_mine env ep)) [
      | inl mine ↦ rw mine (
          rw (request_pull-reports w) (
            visit_endpoints-reports endpoints (record w { calls = w.calls ++ report ∷ [] })
            ∙ ap (λ (l : List Call). some (ok tt, record w { calls = l }))
                (append_assoc w.calls (report ∷ []) (for_mine env report endpoints))))
      | inr other ↦ rw other (visit_endpoints-reports endpoints w)
    ]

    -- For an object that is available, if no endpoint has finished a full sync, the proxy's token
    -- is a header and the server answers: handle_replication ends without error, and has reported
    -- an error of the object at this proxy once for each endpoint entry that waits for it; nothing
    -- else has changed.
    pub handle_replication-reports :
        (w : World)
        → is_available object.status ≡ true
        → handle_replication env object w
          ≡ some (ok tt, record w { calls = w.calls ++ for_mine env report object.endpoints })
    unfolding handle_replication
    handle_replication-reports w there = rw there (visit_endpoints-reports object.endpoints w)
