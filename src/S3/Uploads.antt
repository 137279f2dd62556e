-- ===== src/S3/Uploads.antt =====
-- s3_frontend/s3service.rs: `put_object`.
use data_proxy.Base.{
  ℕ, Bool, true, false, not, ◌&&◌, List, [], ◌∷◌, ◌++◌, Option, none, some, Text, codes, eq_nat,
  eq_text, if◌then◌else◌, Result, ok, err, Error, anyhow, s3_error, unexpected_content,
  invalid_request, invalid_object_state, missing_content_length, ok_or,
}
use data_proxy.Base.Int.{ℤ, pos, as_i64}
use data_proxy.Structs.Format.{
  ObjectLocation, is_pithos, location_is_compressed, location_encryption_key,
}
use data_proxy.Structs.Object.{Object}
use data_proxy.Structs.Creation.{into_new_or_existing}
use data_proxy.Structs.Users.{CheckAccessResult, require_regular, impersonating_token}
use data_proxy.Cache.Locations.{add_location_with_binding}
use data_proxy.Client.{finish_object, create_and_finish}
use data_proxy.Client.Base.{Method, ◌>>=◌, ◌>>◌, lift, fail_with, on_cache_total}
use data_proxy.S3.{
  Env, Transformer, sha256, md5, size_probe, zstd_enc, footer_generator, chacha20_enc, pithos,
  Digests, internal, writable, with_client, missing_collection, missing_dataset, below_created,
  get_file_context,
}

-- The extension of the request that the access check left, or the error that there is none.
abbrev pub data_context : Option CheckAccessResult → Result CheckAccessResult
data_context data_of = ok_or data_of (s3_error unexpected_content "Missing data context")

-- A content length that is missing or zero.
unfoldable pub is_missing_length : Option ℤ → Bool
is_missing_length none = true
is_missing_length (some (pos ℕ.zero)) = true
is_missing_length (some _) = false

-- The requests, by what the operations read of them.
pub record PutObjectInput : Type 0 where
  pub content_length : Option ℤ
  pub body : Option Text

pub record PutObjectOutput : Type 0 where
  pub e_tag : Option Text
  pub checksum_sha256 : Option Text
  pub version_id : Option Text

-- The transformers of a body: probes, compression and encryption outside Pithos, Pithos, probes.
unfoldable pub encrypted : Env → ObjectLocation → Result (List Transformer)
unfolding is_pithos location_encryption_key
encrypted env location = elim (location_encryption_key location) [
  | none ↦ ok []
  | some enc_key ↦ if is_pithos location then ok [] else elim (env.chacha20 enc_key) [
    | err e ↦ err (internal "Internal data transformer encryption error")
    | ok _ ↦ ok (chacha20_enc enc_key ∷ [])
  ]
]

unfoldable pub as_pithos : Env → Object → ObjectLocation → Option ℤ → Result (List Transformer)
unfolding is_pithos get_file_context
as_pithos env o location content_length =
    if is_pithos location
    then elim (get_file_context env o location content_length) [
      | err e ↦ err (internal "Unable to get file context")
      | ok ctx ↦ ok (pithos ctx ∷ footer_generator ∷ [])
    ]
    else ok []

unfoldable pub transfer : Env → Object → ObjectLocation → PutObjectInput → Method Digests
unfolding location_is_compressed is_pithos encrypted as_pithos
transfer env o location input = do
  body ← lift (ok_or input.body (s3_error invalid_request "Empty body is not allowed"))
  encryption ← lift (encrypted env location)
  format ← lift (as_pithos env o location input.content_length)
  let compression =
      if location_is_compressed location && not (is_pithos location) then zstd_enc ∷ [] else []
  fail_with
      (lift (
        env.process location
          ((sha256 ∷ md5 ∷ size_probe ∷ [])
            ++ compression
            ++ encryption
            ++ format
            ++ (sha256 ∷ size_probe ∷ []))
          body))
      (internal "Internal data transformer processing error")

-- The hashes that the object gets, and the request's: SHA256 is number 1 and MD5 number 2.
abbrev pub named_hashes : Text → Text → List (Text × Text)
named_hashes md sha = (codes "MD5", md) ∷ (codes "SHA256", sha) ∷ []

abbrev pub numbered_hashes : Text → Text → List (ℕ × Text)
numbered_hashes md sha = (1, sha) ∷ (2, md) ∷ []

-- `s3_error!(InvalidObjectState, "{}", e.to_string())`
abbrev pub state_error : Error → Error
state_error (anyhow message) = s3_error invalid_object_state message
state_error (s3_error code message) = s3_error invalid_object_state message

abbrev pub restate : {A : Type 0} → Method A → Method A
restate m w = elim (m w) [
  | none ↦ none
  | some (ok a, w') ↦ some (ok a, w')
  | some (err e, w') ↦ some (err (state_error e), w')
]

-- An object that was initialized is finished; any other is created and finished.
unfoldable pub finish : Env → Option Text → Bool → Object → ℤ → List (ℕ × Text) → Method Object
unfolding with_client
finish env token was_init o content_len hashes = with_client env token o λ t.
    if was_init
    then fail_with (finish_object env.client o.id content_len hashes t)
        (internal "Unable to finish object")
    else restate (create_and_finish env.client o content_len t)

-- The end of `put_object`, from the probes on.
unfoldable pub settle :
    Env → Option Text → Bool → Object → ObjectLocation → Digests → Method PutObjectOutput
unfolding finish
settle env token was_init o location digests = do
  md ← lift (ok_or digests.md5_initial (internal "Unable to md5 hash initial data"))
  sha ← lift (ok_or digests.sha_initial (internal "Unable to sha hash initial data"))
  sha_final ← lift (ok_or digests.sha_final (internal "Unable to sha hash final data"))
  initial_size ← lift (ok_or digests.initial_size (internal "Unable to get size"))
  final_size ← lift (ok_or digests.final_size (internal "Unable to get size"))
  finished ←
      finish env token was_init (record o { hashes = named_hashes md sha }) (as_i64 initial_size)
        (numbered_hashes md sha)
  fail_with
      (on_cache_total (
        add_location_with_binding env.locations finished.id (record location {
          raw_content_len = as_i64 initial_size;
          disk_content_len = as_i64 final_size;
          disk_hash = some sha_final;
        })))
      (internal "Unable to add location with binding")
  lift (
      ok (record {
        e_tag = some md;
        checksum_sha256 = some sha;
        version_id = some (env.client.to_string finished.id);
      }))

unfoldable pub put_object : Env → Option CheckAccessResult → PutObjectInput → Method PutObjectOutput
unfolding is_missing_length require_regular impersonating_token into_new_or_existing writable
    transfer missing_collection missing_dataset below_created settle
put_object env data_of input =
    if is_missing_length input.content_length
    then lift (err (s3_error missing_content_length "Missing or invalid (0) content-length"))
    else (do
      access ← lift (data_context data_of)
      let token = impersonating_token env.client.to_string env.sign access.user_state
      regular ← lift (require_regular access.objects_state)
      path ←
          lift
            (into_new_or_existing env.fresh_collection env.fresh_dataset env.fresh_object regular.0)
      target ← writable env token path.object
      location ←
          fail_with (lift (env.initialize_location target.0 input.content_length path.tags false))
            (internal "Unable to create object_location")
      digests ← transfer env target.0 location input
      collection_id ← missing_collection env token path.collection
      dataset_id ← missing_dataset env token collection_id path.dataset
      settle env token target.1 (below_created collection_id dataset_id target.0) location digests)
