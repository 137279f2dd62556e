-- ===== src/S3/Steps.antt =====
-- s3_frontend/s3service.rs: the parts that a `put_object` without error has gone through.
use data_proxy.Base.{
  ℕ, Option, some, Text, ok, s3_error, missing_content_length, ok_or, ok_or-eq-ok, ◌≡◌, sym, ap,
  ◌∙◌, arith, Bool, false,
}
use data_proxy.Base.Int.{as_i64}
use data_proxy.Structs.Format.{DieselUlid, ObjectLocation}
use data_proxy.Structs.Object.{Object}
use data_proxy.Structs.States.{ResourceStates}
use data_proxy.Structs.Creation.{Hierarchy, into_new_or_existing}
use data_proxy.Structs.Users.{CheckAccessResult, require_regular, impersonating_token}
use data_proxy.Cache.Locations.{add_location_with_binding}
use data_proxy.Client.Base.{World, on_cache_total}
use data_proxy.Client.Calls.{
  after_part, after_value, after_fallible, after_fallible_value, unless-ends, lift-value,
}
use data_proxy.S3.{
  Env, Digests, internal, writable, missing_collection, missing_dataset, below_created,
}
use data_proxy.S3.Uploads.{
  is_missing_length, encrypted, as_pithos, PutObjectInput, PutObjectOutput, transfer, finish,
  settle, put_object, named_hashes, numbered_hashes,
}

-- The end of a `put_object`: the object is finished, and its location entered.
pub record Settled (env : Env) (token : Option Text) (was_init : Bool) (o : Object)
    (location : ObjectLocation) (digests : Digests) (out : PutObjectOutput) (w w' : World)
    : Type 0 where
  pub md : Text
  pub sha : Text
  pub sha_final : Text
  pub initial_size : ℕ
  pub final_size : ℕ
  pub finished : Object
  pub after : World
  pub hashed : digests.sha_final ≡ some sha_final
  pub measured : digests.initial_size ≡ some initial_size
  pub finish_ends :
      finish env token was_init
        (record o { hashes = named_hashes md sha })
        (as_i64 initial_size)
        (numbered_hashes md sha)
        w
      ≡ some (ok finished, after)
  pub entered :
      on_cache_total
        (add_location_with_binding env.locations finished.id (record location {
          raw_content_len = as_i64 initial_size;
          disk_content_len = as_i64 final_size;
          disk_hash = some sha_final;
        }))
        after
      ≡ some (ok tt, w')
  pub version : out.version_id ≡ some (env.client.to_string finished.id)

pub settle-Settled :
    (env : Env) (token : Option Text) (was_init : Bool) (o : Object) (location : ObjectLocation)
    (digests : Digests) (w : World) {out : PutObjectOutput} {w' : World}
    → settle env token was_init o location digests w ≡ some (ok out, w')
    → Settled env token was_init o location digests out w w'
unfolding settle
settle-Settled env token was_init o location digests w {out} {w'} h =
    after_value (ok_or digests.md5_initial _) _ w h λ md _ h1.
      after_value (ok_or digests.sha_initial _) _ w h1 λ sha _ h2.
        after_value (ok_or digests.sha_final _) _ w h2 λ sha_final hashed h3.
          after_value (ok_or digests.initial_size _) _ w h3 λ initial_size measured h4.
            after_value (ok_or digests.final_size _) _ w h4 λ final_size _ h5.
              after_part
                (finish env token was_init (record o { hashes = named_hashes md sha })
                  (as_i64 initial_size) (numbered_hashes md sha))
                _ w h5
                λ finished after finish_ends h6.
                  after_fallible
                    (on_cache_total (
                      add_location_with_binding env.locations finished.id (record location {
                        raw_content_len = as_i64 initial_size;
                        disk_content_len = as_i64 final_size;
                        disk_hash = some sha_final;
                      })))
                    (internal "Unable to add location with binding") _ after h6
                    λ done v entered h7. record {
                      md = md;
                      sha = sha;
                      sha_final = sha_final;
                      initial_size = initial_size;
                      final_size = final_size;
                      finished = finished;
                      after = after;
                      hashed =
                          ok_or-eq-ok digests.sha_final (internal "Unable to sha hash final data")
                            hashed;
                      measured =
                          ok_or-eq-ok digests.initial_size (internal "Unable to get size") measured;
                      finish_ends = finish_ends;
                      entered = entered ∙ ap (λ (x : World). some (ok tt, x)) (lift-value _ v h7).1;
                      version = ap (λ (r : PutObjectOutput). r.version_id) (lift-value _ v h7).0;
                    }

-- A `put_object`, by what each of its parts gave.
pub record Put (env : Env) (access : CheckAccessResult) (input : PutObjectInput)
    (out : PutObjectOutput) (w w' : World) : Type 0 where
  pub states : ResourceStates
  pub old : Option ObjectLocation
  pub path : Hierarchy
  pub target : Object
  pub was_init : Bool
  pub location : ObjectLocation
  pub digests : Digests
  pub collection_id : Option DieselUlid
  pub dataset_id : Option DieselUlid
  pub w1 : World
  pub w2 : World
  pub w3 : World
  pub regular_path : require_regular access.objects_state ≡ ok (states, old)
  pub resolved :
      into_new_or_existing env.fresh_collection env.fresh_dataset env.fresh_object states ≡ ok path
  pub chosen : env.initialize_location target input.content_length path.tags false ≡ ok location
  pub moved : transfer env target location input w1 ≡ some (ok digests, w1)
  pub written :
      writable env
        (impersonating_token env.client.to_string env.sign access.user_state)
        path.object
        w
      ≡ some (ok (target, was_init), w1)
  pub collection_made :
      missing_collection env
        (impersonating_token env.client.to_string env.sign access.user_state)
        path.collection
        w1
      ≡ some (ok collection_id, w2)
  pub dataset_made :
      missing_dataset env
        (impersonating_token env.client.to_string env.sign access.user_state)
        collection_id
        path.dataset
        w2
      ≡ some (ok dataset_id, w3)
  pub settled :
      Settled env
        (impersonating_token env.client.to_string env.sign access.user_state)
        was_init
        (below_created collection_id dataset_id target)
        location
        digests
        out
        w3
        w'

-- A body passes without a change of the state.
transfer-world :
    (env : Env) (o : Object) (location : ObjectLocation) (input : PutObjectInput) (w : World)
    {digests : Digests} {w' : World}
    → transfer env o location input w ≡ some (ok digests, w')
    → w ≡ w'
unfolding transfer
transfer-world env o location input w h = after_value (ok_or input.body _) _ w h λ body _ h1.
    after_value (encrypted env location) _ w h1 λ encryption _ h2.
      after_value (as_pithos env o location input.content_length) _ w h2 λ format _ h3. ground arith

pub put_object-Put :
    (env : Env) (access : CheckAccessResult) (input : PutObjectInput) (w : World)
    {out : PutObjectOutput} {w' : World}
    → put_object env (some access) input w ≡ some (ok out, w')
    → Put env access input out w w'
unfolding put_object
put_object-Put env access input w {out} {w'} h =
    let token = impersonating_token env.client.to_string env.sign access.user_state in
    after_value (require_regular access.objects_state) _ w
      (unless-ends (is_missing_length input.content_length)
        (s3_error missing_content_length "Missing or invalid (0) content-length") _ w h)
      λ regular regular_path h1.
        after_value
          (into_new_or_existing env.fresh_collection env.fresh_dataset env.fresh_object regular.0) _
          w h1
          λ path resolved h2.
            after_part (writable env token path.object) _ w h2 λ target w1 written h3.
              after_fallible_value
                (env.initialize_location target.0 input.content_length path.tags false)
                (internal "Unable to create object_location") _ w1 h3
                λ location chosen h4.
                  after_part (transfer env target.0 location input) _ w1 h4 λ digests v moved h5.
                    after_part (missing_collection env token path.collection) _ v h5
                      λ collection_id w2 collection_made h6.
                        after_part (missing_dataset env token collection_id path.dataset) _ w2 h6
                          λ dataset_id w3 dataset_made h7. record {
                            states = regular.0;
                            old = regular.1;
                            path = path;
                            target = target.0;
                            was_init = target.1;
                            location = location;
                            digests = digests;
                            collection_id = collection_id;
                            dataset_id = dataset_id;
                            w1 = w1;
                            w2 = w2;
                            w3 = w3;
                            regular_path = regular_path;
                            chosen = chosen;
                            moved =
                                moved
                                ∙ ap (λ (x : World). some (ok digests, x))
                                    (sym (transfer-world env target.0 location input w1 moved));
                            resolved = resolved;
                            written = written;
                            collection_made =
                                ap (λ (x : World). missing_collection env token path.collection x)
                                  (transfer-world env target.0 location input w1 moved)
                                ∙ collection_made;
                            dataset_made = dataset_made;
                            settled =
                                settle-Settled env token target.1
                                  (below_created collection_id dataset_id target.0) location digests
                                  w3 h7;
                          }
