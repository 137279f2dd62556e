-- ===== src/S3/Written.antt =====
-- s3_frontend/s3service.rs: what a `put_object` leaves in the cache and which requests it makes.
use data_proxy.Base.{
  ℕ, List, Option, none, some, Text, ok, ◌≡◌, ◌≢◌, refl, sym, ap, ◌∙◌, arith, Bool, false, eq_nat,
  Option-cases, inl, inr,
}
use data_proxy.Base.Int.{ℤ, as_i64}
use data_proxy.Base.Map.{get, get-insert_same}
use data_proxy.Structs.Format.{DieselUlid, ObjectLocation}
use data_proxy.Structs.Object.{Object}
use data_proxy.Structs.States.{ResourceStates}
use data_proxy.Structs.Creation.{
  NewOrExistingObject, new, existing, nothing, Hierarchy, into_new_or_existing,
}
use data_proxy.Structs.Users.{CheckAccessResult, impersonating_token, regular, require_regular}
use data_proxy.Cache.Locations.{add_location_with_binding}
use data_proxy.Client.Base.{World, on_cache_total}
use data_proxy.Client.Calls.{lift-value}
use data_proxy.S3.{
  Env, Digests, writable, with_client, missing_collection, missing_dataset, below_created, below,
}
use data_proxy.S3.Uploads.{
  PutObjectInput, PutObjectOutput, named_hashes, numbered_hashes, finish, put_object, transfer,
}
use data_proxy.S3.Steps.{Settled, Put, put_object-Put}

-- A binding that succeeded has an entry, whose location is set.
bound :
    (env : Env) (id : DieselUlid) (location : ObjectLocation) (w : World) {w' : World}
    → on_cache_total (add_location_with_binding env.locations id location) w ≡ some (ok tt, w')
    → (o : Object) × (old : Option ObjectLocation) × (get w.cache.resources id ≡ some (o, old))
      × (get w'.cache.resources id ≡ some (o, some location))
unfolding add_location_with_binding
bound env id location w {w'} h = elim (Option-cases (get w.cache.resources id)) [
  | inl e ↦ absurd (ground arith)
  | inr (entry, e) ↦ (
    entry.0,
    entry.1,
    e,
    ground (arith, get-insert_same w.cache.resources id (entry.0, some location)),
  )
]

-- Without a client, no object is created.
finish-without :
    (env : Env) (token : Option Text) (was_init : Bool) (o : Object) (len : ℤ)
    (hashes : List (ℕ × Text)) (w : World)
    → env.has_client ≡ false
    → finish env token was_init o len hashes w ≡ some (ok o, w)
unfolding finish with_client
finish-without env none was_init o len hashes w off = refl
finish-without env (some t) was_init o len hashes w off = rw off

collection-without :
    (env : Env) (token : Option Text) (c : NewOrExistingObject) (w : World)
    → env.has_client ≡ false
    → missing_collection env token c w ≡ some (ok none, w)
unfolding missing_collection with_client
collection-without env none (new c) w off = refl
collection-without env (some t) (new c) w off = rw off
collection-without env token (existing c) w off = refl
collection-without env token nothing w off = refl

dataset-without :
    (env : Env) (token : Option Text) (above : Option DieselUlid) (c : NewOrExistingObject)
    (w : World)
    → env.has_client ≡ false
    → missing_dataset env token above c w ≡ some (ok none, w)
unfolding missing_dataset with_client
dataset-without env none above (new c) w off = refl
dataset-without env (some t) above (new c) w off = rw off
dataset-without env token above (existing c) w off = refl
dataset-without env token above nothing w off = refl

-- The path that a request's state resolves to is the one that was written.
pub same_path :
    (env : Env) (access : CheckAccessResult) (input : PutObjectInput) (out : PutObjectOutput)
    (w w' : World) (states : ResourceStates) (old : Option ObjectLocation) (path : Hierarchy)
    → access.objects_state ≡ regular states old
    → into_new_or_existing env.fresh_collection env.fresh_dataset env.fresh_object states ≡ ok path
    → (p : Put env access input out w w') → p.path ≡ path
unfolding require_regular
same_path env access input out w w' states old path e_states e_path p =
    let fits : p.states ≡ states = cc (p.regular_path) in cc (p.resolved)

below_created-id : (cid did : Option DieselUlid) (o : Object) → (below_created cid did o).id ≡ o.id
unfolding below_created below
below_created-id none none o = refl
below_created-id (some c) none o = refl
below_created-id cid (some d) o = refl

-- With no client, a new object is entered under the identifier that was generated for it.
offline-after :
    (env : Env) (token : Option Text) (path : Hierarchy) (o : Object) {target : Object × Bool}
    {location : ObjectLocation} {digests : Digests} {out : PutObjectOutput}
    {cid did : Option DieselUlid} {w w1 w2 w3 w' : World}
    → env.has_client ≡ false
    → path.object ≡ new o
    → writable env token path.object w ≡ some (ok target, w1)
    → missing_collection env token path.collection w1 ≡ some (ok cid, w2)
    → missing_dataset env token cid path.dataset w2 ≡ some (ok did, w3)
    → (s : Settled env token target.1 (below_created cid did target.0) location digests out w3 w')
    → (s.finished.id ≡ o.id) × (s.after ≡ w)
unfolding writable below_created below
offline-after env token path o {target} {cid = cid} {did} {w} {w1} {w2} {w3} off e_new h1 h2 h3 s =
    let written = lift-value (o, false) w (rw e_new at h1) in
    let made =
      lift-value none w1 (sym (collection-without env token path.collection w1 off) ∙ h2) in
    let set = lift-value none w2 (sym (dataset-without env token cid path.dataset w2 off) ∙ h3) in
    let ended = lift-value _ w3 (
      sym (
        finish-without env token target.1
          (record (below_created cid did target.0) { hashes = named_hashes s.md s.sha })
          (as_i64 s.initial_size) (numbered_hashes s.md s.sha) w3 off)
      ∙ s.finish_ends) in
    (
      ap (λ (x : Object). x.id) ended.0
          ∙ (below_created-id cid did target.0 ∙ ap (λ (x : Object × Bool). x.0.id) written.0),
      sym ended.1 ∙ (sym set.1 ∙ (sym made.1 ∙ sym written.1)),
    )

-- What is claimed of the cache after a put: under the answer's version there is a location, which the
-- backend chose and the body went to, with the length and the hash that the probes reported.
abbrev pub Stored : Env → PutObjectInput → PutObjectOutput → World → Type 0
Stored env input out w' =
    (id : DieselUlid) × (o target : Object) × (path : Hierarchy) × (chosen : ObjectLocation)
    × (digests : Digests) × (v : World) × (size disk_size : ℕ) × (digests.initial_size ≡ some size)
    × (env.initialize_location target input.content_length path.tags false ≡ ok chosen)
    × (transfer env target chosen input v ≡ some (ok digests, v))
    × (out.version_id ≡ some (env.client.to_string id))
    × (get w'.cache.resources id
        ≡ some (
          o,
          some (record chosen {
            raw_content_len = as_i64 size;
            disk_content_len = as_i64 disk_size;
            disk_hash = digests.sha_final;
          }),
        ))

module _ (env : Env) (access : CheckAccessResult) (input : PutObjectInput) (w : World)
    (out : PutObjectOutput) (w' : World) where
  -- When put_object ends without error, the version that it answers with is the identifier of a
  -- resource of the cache, whose location is one that the backend chose for an object and a path
  -- of the request's length and that a body was passed to, with the length that the first probe
  -- reported and the hash that the last one reported.
  pub put_object-Stored :
      put_object env (some access) input w ≡ some (ok out, w') → Stored env input out w'
  put_object-Stored h =
      let p = put_object-Put env access input w h in
      let s = p.settled in
      let (o, old, before, after) = bound env s.finished.id _ s.after s.entered in
      (
        s.finished.id,
        o,
        p.target,
        p.path,
        p.location,
        p.digests,
        p.w1,
        s.initial_size,
        s.final_size,
        s.measured,
        p.chosen,
        p.moved,
        s.version,
        rw s.hashed after,
      )

  -- Without a client, put_object of an object that is not there, whose generated identifier the
  -- cache does not have, never ends without error.
  pub put_object-offline :
      (states : ResourceStates) (old : Option ObjectLocation) (path : Hierarchy) (o : Object)
      → access.objects_state ≡ regular states old
      → into_new_or_existing env.fresh_collection env.fresh_dataset env.fresh_object states
        ≡ ok path
      → path.object ≡ new o
      → env.has_client ≡ false
      → get w.cache.resources o.id ≡ none
      → put_object env (some access) input w ≢ some (ok out, w')
  put_object-offline states old path o e_states e_path e_new off gone h =
      let p = put_object-Put env access input w h in
      let s = p.settled in
      let token = impersonating_token env.client.to_string env.sign access.user_state in
      let is = same_path env access input out w w' states old path e_states e_path p in
      let (same_id, same_world) =
        offline-after env token p.path o off (ap (λ (x : Hierarchy). x.object) is ∙ e_new) p.written
          p.collection_made p.dataset_made s in
      let (_, _, before, _) = bound env s.finished.id _ s.after s.entered in cc
