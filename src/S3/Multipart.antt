-- ===== src/S3/Multipart.antt =====
-- s3_frontend/s3service.rs: `create_multipart_upload`, `upload_part` and
-- `complete_multipart_upload`.
use data_proxy.Base.{
  ℕ, Bool, true, false, List, [], ◌∷◌, ◌++◌, Option, none, some, Text, codes, eq_nat, eq_text, ltb,
  if◌then◌else◌, Result, ok, err, s3_error, invalid_part, invalid_request, invalid_argument,
  missing_content_length, entity_too_large, no_such_key, ok_or,
}
use data_proxy.Base.Int.{ℤ, pos, as_u64, as_i64}
use data_proxy.Structs.Format.{DieselUlid, ObjectLocation, location_encryption_key}
use data_proxy.Structs.Object.{Object}
use data_proxy.Structs.States.{require_object}
use data_proxy.Structs.Creation.{NewOrExistingObject, new, existing, nothing, into_new_or_existing}
use data_proxy.Structs.Users.{
  CheckAccessResult, ObjectsState, require_regular, extract_object, try_slice, impersonating_token,
}
use data_proxy.Cache.Locations.{add_location_with_binding, update_location}
use data_proxy.Cache.Parts.{Parts, Sums, complete_parts, create_multipart_upload}
use data_proxy.Client.{create_object, finish_object, upsert}
use data_proxy.Client.Base.{Method, ◌>>=◌, ◌>>◌, lift, fail_with, skip, on_cache_total}
use data_proxy.S3.{
  Env, Transformer, size_probe, chacha20_enc, internal, writable, with_client, missing_collection,
  missing_dataset, below_created,
}
use data_proxy.S3.Uploads.{data_context, is_missing_length}

-- The object of an upload that begins: a missing one is created, any other is stored.
unfoldable pub enter_upload : Env → Option Text → NewOrExistingObject → Object → Method DieselUlid
unfolding with_client
enter_upload env token (new _) o = with_client env token o.id λ t. do
  server_object ← fail_with (create_object env.client o t) (internal "Unable to create object")
  lift (ok server_object.id)
enter_upload env token (existing _) o =
    fail_with (upsert env.client o) (internal "Unable to cache new object") >> lift (ok o.id)
enter_upload env token nothing o =
    fail_with (upsert env.client o) (internal "Unable to cache new object") >> lift (ok o.id)

-- `create_multipart_upload`, which answers with the number of the upload.
unfoldable pub start_multipart_upload : Env → Option CheckAccessResult → Method Text
unfolding require_regular impersonating_token into_new_or_existing writable missing_collection
    missing_dataset below_created enter_upload
start_multipart_upload env data_of = do
  access ← lift (data_context data_of)
  let token = impersonating_token env.client.to_string env.sign access.user_state
  regular ← lift (require_regular access.objects_state)
  path ←
      lift (into_new_or_existing env.fresh_collection env.fresh_dataset env.fresh_object regular.0)
  target ← writable env token path.object
  location ←
      fail_with (lift (env.initialize_location target.0 none path.tags true))
        (internal "Unable to create object_location")
  upload_id ←
      fail_with (lift (env.init_multipart_upload location))
        (s3_error invalid_argument "Unable to initialize multi-part")
  collection_id ← missing_collection env token path.collection
  dataset_id ← missing_dataset env token collection_id path.dataset
  object_id ← enter_upload env token path.object (below_created collection_id dataset_id target.0)
  fail_with
      (on_cache_total (
        add_location_with_binding env.locations object_id
          (record location { upload_id = some upload_id })))
      (internal "Unable to cache new object")
  lift (ok upload_id)

pub record UploadPartInput : Type 0 where
  pub content_length : Option ℤ
  pub part_number : ℤ
  pub body : Option Text

-- More than 5 GiB.
unfoldable pub is_too_large : Option ℤ → Bool
is_too_large (some (pos bytes)) = ltb 5368709120 bytes
is_too_large _ = false

unfoldable pub on_parts : (Parts → Result (Unit {0}) × Parts) → Method (Unit {0})
on_parts f w = some ((f w.parts).0, record w { parts = (f w.parts).1 })

-- The transformers of a part: its format is not compressed.
unfoldable pub encrypted_part : Env → ObjectLocation → Result (List Transformer)
unfolding location_encryption_key
encrypted_part env location = elim (location_encryption_key location) [
  | none ↦ ok []
  | some enc_key ↦ elim (env.chacha20 enc_key) [
    | err e ↦ err (internal "Internal data transformer encryption error")
    | ok _ ↦ ok (chacha20_enc enc_key ∷ [])
  ]
]

-- The data of a part, up to the tag that the backend gave it.
unfoldable pub stream_part : Env → Object → ObjectLocation → ℤ → Text → Method Text
unfolding encrypted_part on_parts create_multipart_upload
stream_part env o location part_number body = do
  encryption ← lift (encrypted_part env location)
  digests ←
      fail_with (lift (env.process location (size_probe ∷ encryption ++ size_probe ∷ []) body))
        (internal "Internal data transformer processing error")
  before_size ← lift (ok_or digests.initial_size (internal "Unable to get size"))
  after_size ← lift (ok_or digests.final_size (internal "Unable to get size"))
  upload_id ← lift (ok_or location.upload_id (internal "Unable to get upload_id"))
  fail_with
      (on_parts (
        create_multipart_upload env.upsert_part env.busy (record {
          id = env.part_id;
          object_id = o.id;
          upload_id = upload_id;
          part_number = as_u64 part_number;
          raw_size = before_size;
          size = after_size;
        })))
      (internal "Unable to create multipart upload")
  lift (ok_or digests.etag (internal "Unable to query etag"))

unfoldable pub upload_part : Env → Option CheckAccessResult → UploadPartInput → Method Text
unfolding is_missing_length is_too_large require_regular require_object stream_part
upload_part env data_of input =
    if is_missing_length input.content_length
    then lift (err (s3_error missing_content_length "Missing or invalid (0) content-length"))
    else if is_too_large input.content_length
    then lift (err (s3_error entity_too_large "Content-Length larger than 5Gib"))
    else (do
      access ← lift (data_context data_of)
      regular ← lift (require_regular access.objects_state)
      o ← lift (require_object regular.0)
      location ← lift (ok_or regular.1 (s3_error no_such_key "Object not found"))
      body ← lift (ok_or input.body (s3_error invalid_request "Empty body is not allowed"))
      etag ← stream_part env o location input.part_number body
      lift (ok (codes "-" ++ etag)))

-- A completed part of the request; the list and its wrapper may be missing.
pub record CompletedPart : Type 0 where
  pub part_number : Option ℤ
  pub e_tag : Option Text

unfoldable pub etag_parts : List CompletedPart → Result (List (ℤ × Text))
etag_parts [] = ok []
etag_parts (a ∷ parts) = elim a.part_number [
  | none ↦ err (s3_error invalid_part "part_number must be specified")
  | some number ↦ elim a.e_tag [
    | none ↦ err (s3_error invalid_part "etag must be specified")
    | some etag ↦ elim (etag_parts parts) [ err e ↦ err e | ok rest ↦ ok ((number, etag) ∷ rest) ]
  ]
]

abbrev pub numbers : List (ℤ × Text) → List ℕ
numbers [] = []
numbers ((number, etag) ∷ rest) = as_u64 number ∷ numbers rest

unfoldable pub count : Env → Text → List (ℤ × Text) → Method Sums
unfolding complete_parts
count env upload_id tags w =
    let (r, parts) = complete_parts env.delete_part upload_id (numbers tags) w.parts in
    some (r, record w { parts = parts })

abbrev pub finalize_later : DieselUlid → ObjectLocation → Method (Unit {0})
finalize_later id location w =
    some (ok tt, record w { finalizing = w.finalizing ++ (id, location) ∷ [] })

-- The end of `complete_multipart_upload`, from the counting of the parts on.
unfoldable pub finish_upload :
    Env
    → Option Text
    → ObjectsState
    → Object
    → ObjectLocation
    → List (ℤ × Text)
    → Text
    → Method Text
unfolding count with_client try_slice
finish_upload env token objects_state o old_location tags upload_id = do
  sums ← count env upload_id tags
  fail_with (lift (env.finish_multipart_upload old_location tags upload_id))
      (internal "Unable to finish upload")
  let location = record old_location {
    disk_content_len = as_i64 sums.disk_size;
    raw_content_len = as_i64 sums.cumulative_size;
  }
  fail_with (on_cache_total (update_location env.locations o.id location))
      (internal "Unable to update location")
  with_client env token tt λ t.
      fail_with (finish_object env.client o.id (as_i64 sums.cumulative_size) [] t)
        (internal "Unable to create object")
      >>= λ finished. skip
  levels ← lift (try_slice objects_state)
  finalize_later o.id location
  lift (ok (env.client.to_string o.id))

unfoldable pub complete_multipart_upload :
    Env → Option CheckAccessResult → Option (Option (List CompletedPart)) → Method Text
unfolding impersonating_token extract_object etag_parts finish_upload
complete_multipart_upload env data_of multipart_upload = do
  access ← lift (data_context data_of)
  let token = impersonating_token env.client.to_string env.sign access.user_state
  found ← lift (extract_object access.objects_state)
  old_location ← lift (ok_or found.1 (internal "Unable to extract object location"))
  given ← lift (ok_or multipart_upload (s3_error invalid_part "Parts must be specified"))
  parts ← lift (ok_or given (s3_error invalid_part "Parts must be specified"))
  tags ← lift (etag_parts parts)
  upload_id ←
      lift (ok_or old_location.upload_id (s3_error invalid_part "Upload id must be specified"))
  finish_upload env token access.objects_state found.0 old_location tags upload_id
