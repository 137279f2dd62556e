-- ===== src/S3.antt =====
-- s3_frontend/s3service.rs: what the operations on objects have in common, and the operations that put
-- data: `put_object`, `upload_part`, and the three steps of an upload in parts are in the children.
pub mod Uploads
pub mod Multipart
pub mod Buckets
pub mod Reads
pub mod Steps
pub mod Written
pub mod Overwritten
pub mod Answers
pub mod Completed
use data_proxy.Base.{
  ℕ, Bool, true, false, List, [], ◌∷◌, Option, none, some, Text, String, if◌then◌else◌, Result, ok,
  err, s3_error, internal_error, invalid_object_state, ok_or, Error, anyhow,
}
use data_proxy.Base.Int.{ℤ, as_u64}
use data_proxy.Structs.Format.{
  DieselUlid, ObjectLocation, Key, location_is_compressed, location_encryption_key,
}
use data_proxy.Structs.Object.{Object, TypedRelation, Fresh, Status}
use data_proxy.Structs.States.{Tags}
use data_proxy.Structs.Creation.{NewOrExistingObject, new, existing, nothing}
use data_proxy.Cache.Parts.{UploadPart}
use data_proxy.Cache.Locations.{Write}
use data_proxy.Client
use data_proxy.Client.{create_collection, create_dataset, init_object_update}
use data_proxy.Client.Base.{Method, ◌>>=◌, continue, lift, fail_with}

-- `FileContext` of pithos_lib, by the fields that the program sets.
pub record FileContext : Type 0 where
  pub file_path : Text
  pub compressed_size : ℕ
  pub decompressed_size : ℕ
  pub compression : Bool
  pub encryption_key : Option Key
  pub recipient : Text

-- The transformers of pithos_lib that the data passes, in order.
pub data Transformer : Type 0 where
  sha256 md5 size_probe zstd_enc footer_generator : Transformer
  chacha20_enc : Key → Transformer
  pithos : FileContext → Transformer

-- What the probes of a stream report when it has passed.
pub record Digests : Type 0 where
  pub md5_initial : Option Text
  pub sha_initial : Option Text
  pub sha_final : Option Text
  pub initial_size : Option ℕ
  pub final_size : Option ℕ
  pub etag : Option Text

-- What the service is connected with. Of the backend, the location that it chooses, the beginning and
-- the end of uploads in parts, and the passing of a body through transformers; the client may be away.
-- The keys of an encryption and of the configuration, and generated identifiers come from outside.
pub record Env : Type 0 where
  pub has_client : Bool
  pub client : Client.Env
  pub sign : Option (Text → Option Text → Result Text)
  pub initialize_location : Object → Option ℤ → Tags → Bool → Result ObjectLocation
  pub init_multipart_upload : ObjectLocation → Result Text
  pub finish_multipart_upload : ObjectLocation → List (ℤ × Text) → Text → Result (Unit {0})
  pub process : ObjectLocation → List Transformer → Text → Result Digests
  pub chacha20 : Key → Result (Unit {0})
  pub public_key : Result Text
  pub locations : Write → Result (Unit {0})
  pub upsert_part : UploadPart → Result (Unit {0})
  pub delete_part : DieselUlid → Result (Unit {0})
  pub busy : ℕ
  pub part_id : DieselUlid
  pub fresh_collection : Fresh
  pub fresh_dataset : Fresh
  pub fresh_object : Fresh

abbrev pub internal : String → Error
internal message = s3_error internal_error message

unfoldable pub is_initializing : Status → Bool
is_initializing Status.initializing = true
is_initializing _ = false

-- What is taken over of a revision that the server made.
unfoldable pub revision : Object → Object
revision o = record o { hashes = []; synced = false; children = none; dynamic = false }

-- The object that is written, and whether it was initialized before: a finished one gets a revision.
unfoldable pub writable : Env → Option Text → NewOrExistingObject → Method (Object × Bool)
unfolding is_initializing revision
writable env token (existing ob) =
    if is_initializing ob.object_status
    then lift (ok (ob, true))
    else if env.has_client
    then elim token [
      | none ↦ lift (err (internal "Token creation failed"))
      | some t ↦ do
        new_revision ←
            fail_with (init_object_update env.client ob t true) (internal "Object update failed")
        lift (ok (revision new_revision, false))
    ]
    else lift (err (internal "ArunaServer client not available"))
writable env token (new object) = lift (ok (object, false))
writable env token nothing =
    lift (err (s3_error invalid_object_state "Object in invalid state: None"))

-- What is done for a user with a client there.
unfoldable pub with_client : {A : Type 0} → Env → Option Text → A → (Text → Method A) → Method A
with_client env none otherwise act = lift (ok otherwise)
with_client env (some token) otherwise act =
    if env.has_client then act token else lift (ok otherwise)

-- The collection of the path, if it is missing.
unfoldable pub missing_collection :
    Env → Option Text → NewOrExistingObject → Method (Option DieselUlid)
unfolding with_client
missing_collection env token (new collection) = with_client env token none λ t. do
  col ←
      fail_with (create_collection env.client collection t) (internal "Unable to create collection")
  lift (ok (some col.id))
missing_collection env token (existing _) = lift (ok none)
missing_collection env token nothing = lift (ok none)

unfoldable pub below : Option DieselUlid → Object → Object
below none o = o
below (some collection_id) o = record o {
  parents = some (TypedRelation.collection collection_id ∷ []);
}

unfoldable pub missing_dataset :
    Env → Option Text → Option DieselUlid → NewOrExistingObject → Method (Option DieselUlid)
unfolding with_client below
missing_dataset env token collection_id (new dataset) = with_client env token none λ t. do
  created ←
      fail_with (create_dataset env.client (below collection_id dataset) t)
        (internal "Unable to create dataset")
  lift (ok (some created.id))
missing_dataset env token collection_id (existing _) = lift (ok none)
missing_dataset env token collection_id nothing = lift (ok none)

-- The parents of the object below what was created.
unfoldable pub below_created : Option DieselUlid → Option DieselUlid → Object → Object
unfolding below
below_created collection_id none o = below collection_id o
below_created collection_id (some dataset_id) o = record o {
  parents = some (TypedRelation.dataset dataset_id ∷ []);
}

-- `Object::get_file_context`
unfoldable pub get_file_context : Env → Object → ObjectLocation → Option ℤ → Result FileContext
unfolding location_is_compressed location_encryption_key
get_file_context env o location expected_size = elim env.public_key [
  | err e ↦ err e
  | ok recipient ↦ ok (record {
    file_path = o.name;
    compressed_size =
        as_u64 (elim expected_size [ none ↦ location.raw_content_len | some size ↦ size ]);
    decompressed_size = as_u64 location.raw_content_len;
    compression = location_is_compressed location;
    encryption_key = location_encryption_key location;
    recipient = recipient;
  })
]
