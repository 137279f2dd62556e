-- ===== src/S3/Overwritten.antt =====
-- s3_frontend/s3service.rs: the requests of a `put_object` on an object that exists.
use data_proxy.Base.{
  ℕ, List, [], ◌∷◌, ◌++◌, Option, none, some, Text, ok, ◌≡◌, refl, sym, ap, ◌∙◌, arith, Bool, true,
  false, eq_nat,
}
use data_proxy.Base.Int.{ℤ, as_i64}
use data_proxy.Structs.Format.{DieselUlid, ObjectLocation}
use data_proxy.Structs.Object.{Object, get_hashes}
use data_proxy.Structs.States.{ResourceStates}
use data_proxy.Structs.Messages.{GrpcResource, object_from_object}
use data_proxy.Structs.Requests.{CreateRequest, update_object_request, create_object_request}
use data_proxy.Structs.Creation.{
  NewOrExistingObject, new, existing, nothing, Hierarchy, into_new_or_existing,
}
use data_proxy.Structs.Users.{CheckAccessResult, impersonating_token, regular}
use data_proxy.Cache.Locations.{add_location_with_binding}
use data_proxy.Client.{init_object_update, create_and_finish}
use data_proxy.Client.Base.{Call, World}
use data_proxy.Client.Calls.{
  after_fallible, lift-value, init_object_update-calls, create_and_finish-calls,
  on_cache_total-calls,
}
use data_proxy.S3.{
  Env, Digests, internal, is_initializing, writable, revision, with_client, missing_collection,
  missing_dataset, below_created,
}
use data_proxy.S3.Uploads.{
  PutObjectInput, PutObjectOutput, named_hashes, numbered_hashes, finish, put_object,
}
use data_proxy.S3.Steps.{Settled, put_object-Put}
use data_proxy.S3.Written.{same_path}

abbrev pub is_new : NewOrExistingObject → Bool
is_new (new o) = true
is_new (existing o) = false
is_new nothing = false

collection-there :
    (env : Env) (token : Option Text) (c : NewOrExistingObject) (w : World)
    → is_new c ≡ false
    → missing_collection env token c w ≡ some (ok none, w)
unfolding missing_collection
collection-there env token (new c) w h = cc
collection-there env token (existing c) w h = refl
collection-there env token nothing w h = refl

dataset-there :
    (env : Env) (token : Option Text) (above : Option DieselUlid) (c : NewOrExistingObject)
    (w : World)
    → is_new c ≡ false
    → missing_dataset env token above c w ≡ some (ok none, w)
unfolding missing_dataset
dataset-there env token above (new c) w h = cc
dataset-there env token above (existing c) w h = refl
dataset-there env token above nothing w h = refl

-- The request that makes a revision.
abbrev pub forced : Env → Object → Call
forced env ob =
    Call.update_object
      (record (update_object_request env.client.to_string ob) { force_revision = true })

-- A finished object is not initialized before: a revision is requested.
written-revision :
    (env : Env) (t : Text) (ob : Object) (w : World) {target : Object × Bool} {w' : World}
    → env.has_client ≡ true
    → is_initializing ob.object_status ≡ false
    → writable env (some t) (existing ob) w ≡ some (ok target, w')
    → (target.1 ≡ false) × (w'.calls ≡ w.calls ++ forced env ob ∷ [])
unfolding writable
written-revision env t ob w {target} {w'} there done h =
    after_fallible (init_object_update env.client ob t true) (internal "Object update failed") _ w
      (rw there at (rw done at h))
      λ made v asked k.
        let (is, same) = lift-value (revision made, false) v k in
        (
          ap (λ (x : Object × Bool). x.1) is,
          ap (λ (x : World). x.calls) (sym same)
              ∙ init_object_update-calls env.client ob t true w asked,
        )

-- What was not initialized is created and finished.
finished-anew :
    (env : Env) (t : Text) (o : Object) (len : ℤ) (hashes : List (ℕ × Text)) (w : World)
    {r : Object} {w' : World}
    → env.has_client ≡ true
    → finish env (some t) false o len hashes w ≡ some (ok r, w')
    → create_and_finish env.client o len t w ≡ some (ok r, w')
unfolding finish with_client
finished-anew env t o len hashes w there h = ground arith

-- What is claimed of the calls of a put on a finished object.
abbrev pub Overwrites : Env → Object → World → World → Type 0
Overwrites env ob w w' =
    (q : CreateRequest) × (len : ℤ) × (hashes : List (ℕ × Text)) × (created : GrpcResource)
    × (server : Object) × (env.client.resource
          ((w.calls ++ forced env ob ∷ []) ++ Call.create_object q ∷ [])
        ≡ ok (some created))
    × (object_from_object env.client.from_str env.client.from_timestamp created ≡ ok server)
    × (w'.calls
        ≡ ((w.calls ++ forced env ob ∷ []) ++ Call.create_object q ∷ [])
          ++ Call.finish_object (env.client.to_string server.id) len hashes ∷ [])

after-Overwrites :
    (env : Env) (token : Option Text) (path : Hierarchy) (ob : Object) (t : Text) {target : Object}
    {was_init : Bool} {location : ObjectLocation} {digests : Digests} {out : PutObjectOutput}
    {cid did : Option DieselUlid} (w w1 w2 w3 w' : World)
    → token ≡ some t
    → path.object ≡ existing ob
    → is_initializing ob.object_status ≡ false
    → is_new path.collection ≡ false
    → is_new path.dataset ≡ false
    → env.has_client ≡ true
    → writable env token path.object w ≡ some (ok (target, was_init), w1)
    → missing_collection env token path.collection w1 ≡ some (ok cid, w2)
    → missing_dataset env token cid path.dataset w2 ≡ some (ok did, w3)
    → Settled env token was_init (below_created cid did target) location digests out w3 w'
    → Overwrites env ob w w'
after-Overwrites env token path ob t {target} {was_init} {location} {cid = cid} {did} w w1 w2 w3 w'
      e_t e_old done no_c no_d there h1 h2 h3 s =
    let (fresh, revised) = written-revision env t ob w there done (rw e_t at (rw e_old at h1)) in
    let made = lift-value none w1 (sym (collection-there env token path.collection w1 no_c) ∙ h2) in
    let set = lift-value none w2 (sym (dataset-there env token cid path.dataset w2 no_d) ∙ h3) in
    let o : Object = record (below_created cid did target) { hashes = named_hashes s.md s.sha } in
    let creation = Call.create_object (create_object_request env.client.to_string o) in
    let ended =
      finished-anew env t o (as_i64 s.initial_size) (numbered_hashes s.md s.sha) w3 there
        (rw e_t at (rw fresh at s.finish_ends)) in
    let (created, server, got, is, calls) =
      create_and_finish-calls env.client o (as_i64 s.initial_size) t w3 ended in
    let before : w3.calls ≡ w.calls ++ forced env ob ∷ [] =
      ap (λ (x : World). x.calls) (sym set.1 ∙ sym made.1) ∙ revised in
    (
      create_object_request env.client.to_string o,
      as_i64 s.initial_size,
      get_hashes o,
      created,
      server,
      ap (λ (c : List Call). env.client.resource (c ++ creation ∷ [])) (sym before) ∙ got,
      is,
      on_cache_total-calls
            (add_location_with_binding env.locations s.finished.id (record location {
              raw_content_len = as_i64 s.initial_size;
              disk_content_len = as_i64 s.final_size;
              disk_hash = some s.sha_final;
            }))
            s.after s.entered
          ∙ (calls
              ∙ ap
                  (λ (c : List Call).
                    (c ++ creation ∷ [])
                    ++ Call.finish_object (env.client.to_string server.id) (as_i64 s.initial_size)
                        (get_hashes o)
                      ∷ [])
                  before),
    )

module _ (env : Env) (access : CheckAccessResult) (input : PutObjectInput) (w : World)
    (out : PutObjectOutput) (w' : World) where
  -- When put_object ends without error for an object that exists and is not initializing, on a
  -- path without missing parents, with the client there and a token: its requests are a forced
  -- revision of the object, the creation of an object, and the end of the created object, whose
  -- identifier is in the server's answer to the creation.
  pub put_object-Overwrites :
      (states : ResourceStates) (old : Option ObjectLocation) (path : Hierarchy) (ob : Object)
      (t : Text)
      → access.objects_state ≡ regular states old
      → into_new_or_existing env.fresh_collection env.fresh_dataset env.fresh_object states
        ≡ ok path
      → path.object ≡ existing ob
      → is_initializing ob.object_status ≡ false
      → is_new path.collection ≡ false
      → is_new path.dataset ≡ false
      → env.has_client ≡ true
      → impersonating_token env.client.to_string env.sign access.user_state ≡ some t
      → put_object env (some access) input w ≡ some (ok out, w')
      → Overwrites env ob w w'
  put_object-Overwrites states old path ob t e_states e_path e_old done no_c no_d there e_t h =
      let p = put_object-Put env access input w h in
      let is = same_path env access input out w w' states old path e_states e_path p in
      after-Overwrites env (impersonating_token env.client.to_string env.sign access.user_state)
        p.path ob t w p.w1 p.w2 p.w3 w' e_t (ap (λ (x : Hierarchy). x.object) is ∙ e_old) done
        (ap (λ (x : Hierarchy). is_new x.collection) is ∙ no_c)
        (ap (λ (x : Hierarchy). is_new x.dataset) is ∙ no_d) there p.written p.collection_made
        p.dataset_made p.settled
