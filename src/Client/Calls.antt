-- ===== src/Client/Calls.antt =====
-- caching/grpc_query_handler.rs: the calls that the client's methods make when they end without error.
use data_proxy.Base.{
  List, [], ◌∷◌, ◌++◌, Option, none, some, Text, Result, ok, err, Error, anyhow, ok_or, ◌≡◌, refl,
  arith, ok_or-eq-ok, String, ap, ◌∙◌, Bool, true, false, if◌then◌else◌,
}
use data_proxy.Base.Int.{ℤ}
use data_proxy.Structs.Object.{Object, get_hashes}
use data_proxy.Structs.Requests.{update_object_request, create_object_request}
use data_proxy.Structs.Messages.{GrpcResource, object_from_object}
use data_proxy.Cache.{Cache}
use data_proxy.Cache.Objects.{upsert_object}
use data_proxy.Client.{Env, send, request, upsert, store, init_object_update, create_and_finish}
use data_proxy.Client.Base.{
  Call, World, Method, ◌>>=◌, continue, lift, fail_with, on_cache, on_cache_total,
}

-- What ended without error after a part did so after the part.
pub >>=-ends :
    {A B : Type 0} (m : Method A) (next : A → Method B) (w : World) {b : B} {w' : World}
    → (m >>= next) w ≡ some (ok b, w')
    → (a : A) × (v : World) × (m w ≡ some (ok a, v)) × (next a v ≡ some (ok b, w'))
>>=-ends {A} {B} m next w {b} {w'} h = part (m w) refl h
  where
    part :
        (r : Option (Result A × World))
        → m w ≡ r
        → continue next (m w) ≡ some (ok b, w')
        → (a : A) × (v : World) × (m w ≡ some (ok a, v)) × (next a v ≡ some (ok b, w'))
    part none e k = ground arith
    part (some (err x, v)) e k = ground arith
    part (some (ok a, v)) e k = (a, v, e, (rw e at k))

-- The same in a form for chains: the rest of a proof is given what the part gave. The second is for a
-- part that only computes, the third for one whose error is replaced.
module _ {A B C : Type 0} {b : B} {w' : World} where
  pub after_part :
      (m : Method A) (next : A → Method B) (w : World)
      → (m >>= next) w ≡ some (ok b, w')
      → ((a : A) (v : World) → m w ≡ some (ok a, v) → next a v ≡ some (ok b, w') → C)
      → C
  after_part m next w h rest = let (a, v, e, k) = >>=-ends m next w h in rest a v e k

  pub after_value :
      (r : Result A) (next : A → Method B) (w : World)
      → (lift r >>= next) w ≡ some (ok b, w')
      → ((a : A) → r ≡ ok a → next a w ≡ some (ok b, w') → C)
      → C
  after_value (ok a) next w h rest = rest a refl h
  after_value (err e) next w h rest = absurd (cc)

  pub after_fallible_value :
      (r : Result A) (e : Error) (next : A → Method B) (w : World)
      → (fail_with (lift r) e >>= next) w ≡ some (ok b, w')
      → ((a : A) → r ≡ ok a → next a w ≡ some (ok b, w') → C)
      → C
  after_fallible_value (ok a) e next w h rest = rest a refl h
  after_fallible_value (err f) e next w h rest = absurd (cc)

  pub after_fallible :
      (m : Method A) (e : Error) (next : A → Method B) (w : World)
      → (fail_with m e >>= next) w ≡ some (ok b, w')
      → ((a : A) (v : World) → m w ≡ some (ok a, v) → next a v ≡ some (ok b, w') → C)
      → C
  after_fallible m e next w h rest =
      let (a, v, p, k) = >>=-ends (fail_with m e) next w h in rest a v (ground arith) k

pub lift-ends :
    {A : Type 0} (r : Result A) (w : World) {a : A} {w' : World}
    → lift r w ≡ some (ok a, w')
    → (r ≡ ok a) × (w' ≡ w)
lift-ends r w h = ground arith

pub lift-value :
    {A : Type 0} (a : A) (w : World) {b : A} {w' : World}
    → lift (ok a) w ≡ some (ok b, w')
    → (b ≡ a) × (w ≡ w')
lift-value a w h = ground arith

pub fail_with-ends :
    {A : Type 0} (m : Method A) (e : Error) (w : World) {a : A} {w' : World}
    → fail_with m e w ≡ some (ok a, w')
    → m w ≡ some (ok a, w')
fail_with-ends m e w h = ground arith

pub on_cache-ends :
    (f : Cache → Option (Result (Unit {0}) × Cache)) (w : World) {u : Unit {0}} {w' : World}
    → on_cache f w ≡ some (ok u, w')
    → (f w.cache ≡ some (ok u, w'.cache)) × (w' ≡ record w { cache = w'.cache })
on_cache-ends f w h = ground arith

pub on_cache_total-calls :
    (f : Cache → Result (Unit {0}) × Cache) (w : World) {u : Unit {0}} {w' : World}
    → on_cache_total f w ≡ some (ok u, w')
    → w'.calls ≡ w.calls
on_cache_total-calls f w h = ground arith

-- What a request leaves and gives.
module _ (env : Env) (token : Text) (call : Call) (w : World) where
  abbrev pub called : World
  called = record w { calls = w.calls ++ call ∷ [] }

  pub send-ends :
      {A : Type 0} (answer : List Call → Result A) {a : A} {w' : World}
      → send env token call answer w ≡ some (ok a, w')
      → (answer (w.calls ++ call ∷ []) ≡ ok a) × (w' ≡ called)
  unfolding send
  send-ends answer h = ground arith

  pub request-ends :
      (missing : String) {r : GrpcResource} {w' : World}
      → request env token call missing w ≡ some (ok r, w')
      → (env.resource (w.calls ++ call ∷ []) ≡ ok (some r)) × (w' ≡ called)
  unfolding request
  request-ends missing {r} {w'} h =
      let (answer, v, e, k) =
        >>=-ends (send env token call env.resource) (λ a. lift (ok_or a (anyhow missing))) w h in
      let (got, same) = send-ends env.resource e in
      let (there, still) = lift-ends (ok_or answer (anyhow missing)) v k in
      (
        got ∙ ap (λ (x : Option GrpcResource). ok x) (ok_or-eq-ok answer (anyhow missing) there),
        still ∙ same,
      )

pub upsert-ends :
    (env : Env) (o : Object) (w : World) {u : Unit {0}} {w' : World}
    → upsert env o w ≡ some (ok u, w')
    → (upsert_object env.transaction env.rounds o w.cache ≡ some (ok u, w'.cache))
      × (w' ≡ record w { cache = w'.cache })
unfolding upsert
upsert-ends env o w h = on_cache-ends (upsert_object env.transaction env.rounds o) w h

-- A converted answer is stored in the cache, and nothing else changes.
pub store-ends :
    (env : Env) (converted : Result Object) (w : World) {o : Object} {w' : World}
    → store env converted w ≡ some (ok o, w')
    → (converted ≡ ok o)
      × (upsert_object env.transaction env.rounds o w.cache ≡ some (ok tt, w'.cache))
      × (w' ≡ record w { cache = w'.cache })
unfolding store
store-ends env converted w {o} {w'} h =
    let (a, v, e, k) = >>=-ends (lift converted) (λ x. upsert env x >>= λ _. lift (ok x)) w h in
    let (fine, same) = lift-ends converted w e in
    let (u, v', e', k') = >>=-ends (upsert env a) (λ _. lift (ok a)) v k in
    let (is, still) = lift-ends (ok a) v' k' in
    let (up, only) = upsert-ends env a v e' in ground arith

-- What ended without error passed its guard.
pub unless-ends :
    {A : Type 0} (b : Bool) (e : Error) (m : Method A) (w : World) {a : A} {w' : World}
    → (if b then lift (err e) else m) w ≡ some (ok a, w')
    → m w ≡ some (ok a, w')
unless-ends true e m w h = cc
unless-ends false e m w h = h

-- The revision of an object is one request.
pub init_object_update-calls :
    (env : Env) (o : Object) (token : Text) (force_update : Bool) (w : World) {r : Object}
    {w' : World}
    → init_object_update env o token force_update w ≡ some (ok r, w')
    → w'.calls
      ≡ w.calls
        ++ Call.update_object
            (record (update_object_request env.to_string o) { force_revision = force_update })
          ∷ []
unfolding init_object_update
init_object_update-calls env o token force_update w h =
    let call =
      Call.update_object
        (record (update_object_request env.to_string o) { force_revision = force_update }) in
    after_part (request env token call "response does not contain object") _ w h λ answer v asked k.
      let (_, same) = request-ends env token call w "response does not contain object" asked in
      let (_, _, kept) =
        store-ends env (object_from_object env.from_str env.from_timestamp answer) v k in
      ap (λ (x : World). x.calls) kept ∙ ap (λ (x : World). x.calls) same

-- A creation with its end: the object that the server created is finished.
pub create_and_finish-calls :
    (env : Env) (o : Object) (len : ℤ) (token : Text) (w : World) {r : Object} {w' : World}
    → create_and_finish env o len token w ≡ some (ok r, w')
    → let creation = Call.create_object (create_object_request env.to_string o) in
      (created : GrpcResource) × (server : Object) × (env.resource (w.calls ++ creation ∷ [])
        ≡ ok (some created))
      × (object_from_object env.from_str env.from_timestamp created ≡ ok server)
      × (w'.calls
          ≡ (w.calls ++ creation ∷ [])
            ++ Call.finish_object (env.to_string server.id) len (get_hashes o) ∷ [])
unfolding create_and_finish
create_and_finish-calls env o len token w h =
    let creation = Call.create_object (create_object_request env.to_string o) in
    after_part (request env token creation "Object missing in CreateObjectResponse") _ w h
      λ created v asked k.
        after_value (object_from_object env.from_str env.from_timestamp created) _ v k
          λ server is k1.
            let end = Call.finish_object (env.to_string server.id) len (get_hashes o) in
            after_part (request env token end "Object missing in FinishObjectResponse") _ v k1
              λ answer v' finished k2.
                let (got, same) =
                  request-ends env token creation w "Object missing in CreateObjectResponse"
                    asked in
                let (_, same') =
                  request-ends env token end v "Object missing in FinishObjectResponse" finished in
                let (_, _, kept) =
                  store-ends env (object_from_object env.from_str env.from_timestamp answer) v'
                    k2 in
                (
                  created,
                  server,
                  got,
                  is,
                  ap (λ (x : World). x.calls) kept
                      ∙ (ap (λ (x : World). x.calls) same'
                          ∙ ap (λ (x : World). x.calls ++ end ∷ []) same),
                )
