-- ===== src/Tests/Storage.antt =====
-- The theorems of S3 at concrete inputs.
use data_proxy.Base.{
  zero, suc, [], ◌∷◌, Bool, true, false, none, some, codes, Result, ok, err, anyhow, s3_error,
  no_such_key, ◌≡◌, ◌≢◌, refl, arith, eq_nat, ◌⊎◌,
}
use data_proxy.Base.Int.{pos, negsuc}
use data_proxy.Base.Map.{get, insert}
use data_proxy.Structs.Format.{ObjectLocation, raw}
use data_proxy.Structs.Object.{Object, ObjectType, DataClass, initialize_now, id_of, into_option}
use data_proxy.Structs.States.{ResourceState, found, missing, absent, ResourceStates}
use data_proxy.Structs.Object.{ResourceVariant}
use data_proxy.Structs.Creation.{Hierarchy, into_new_or_existing, new, existing, nothing}
use data_proxy.Structs.Users.{CheckAccessResult, personal, regular}
use data_proxy.Structs.Messages.{object_from_object}
use data_proxy.Cache.Objects.{upsert_object}
use data_proxy.Cache.Graph.{get_parents}
use data_proxy.Cache.Locations.{add_location_with_binding}
use data_proxy.Client.{init_object_update, create_and_finish}
use data_proxy.Client.Base.{World}
use data_proxy.S3.{Env}
use data_proxy.S3.Uploads.{PutObjectInput, PutObjectOutput, put_object}
use data_proxy.S3.Written.{Stored, put_object-offline, put_object-Stored}
use data_proxy.S3.Overwritten.{Overwrites, put_object-Overwrites}
use data_proxy.S3.{internal}
use data_proxy.S3.Completed.{Finished, Named, complete_multipart_upload-Finished}
use data_proxy.S3.Multipart.{CompletedPart, complete_multipart_upload}
use data_proxy.Base.{List, Text}
use data_proxy.Base.Int.{ℤ}
use data_proxy.Structs.Messages.{endpoint_of}
use data_proxy.Structs.Users.{extract_object}
use data_proxy.Cache.Parts.{UploadPart}
use data_proxy.Cache.Locations.{update_location}
use data_proxy.Client.{finish_object}
use data_proxy.S3.Buckets.{ListObjectsV2Input, list_objects_v2}
use data_proxy.S3.Reads.{GetObjectOutput, read_object}
use data_proxy.S3.Answers.{list_objects_v2-negative, read_object-content_range}
use data_proxy.Cache.{get_path}
use data_proxy.Ranges.{int}
use data_proxy.Structs.Format.{is_pithos}
use data_proxy.Tests.{sample, project_p, location_of}
use data_proxy.Tests.Client.{client, message, print, world, world_of}

-- A service whose backend accepts everything, with a server or without.
abbrev service : Bool → Env
service online = record {
  has_client = online;
  client = client (λ n. elim n [
    | zero ↦ message (print 5) (codes "o") []
    | suc zero ↦ message (print 5) (codes "o") []
    | other ↦ message (print 6) (codes "o") []
  ]);
  sign = some (λ user key. ok user);
  initialize_location = λ o len tags temporary. ok (location_of raw);
  init_multipart_upload = λ location. ok (codes "u");
  finish_multipart_upload = λ location tags upload_id. ok tt;
  process = λ location transformers body. ok (record {
    md5_initial = some (codes "m");
    sha_initial = some (codes "s");
    sha_final = some (codes "f");
    initial_size = some 3;
    final_size = some 3;
    etag = some (codes "e");
  });
  chacha20 = λ key. ok tt;
  public_key = ok [];
  locations = λ write. ok tt;
  upsert_part = λ part. ok tt;
  delete_part = λ id. ok tt;
  busy = 0;
  part_id = 30;
  fresh_collection = record { id = 11; now = 0 };
  fresh_dataset = record { id = 12; now = 0 };
  fresh_object = record { id = 13; now = 0 };
}

abbrev written : Object
written = sample 4 (codes "o") ObjectType.object DataClass.private

abbrev home : World
home = world (record {
  resources = (1, (project_p, none)) ∷ (4, (written, none)) ∷ [];
  bundles = [];
  paths = (codes "p", 1) ∷ (codes "p/o", 4) ∷ [];
})

abbrev on_object : ResourceState → ResourceStates
on_object object = record {
  project = found project_p;
  collection = absent;
  dataset = absent;
  object = object;
}

abbrev access_to : ResourceState → CheckAccessResult
access_to object = record {
  objects_state = regular (on_object object) none;
  user_state = personal 2;
  headers = none;
}

abbrev body : PutObjectInput
body = record { content_length = some (pos 3); body = some (codes "abc") }

abbrev path_to : ResourceState → Hierarchy
path_to object =
    elim (into_new_or_existing (service true).fresh_collection (service true).fresh_dataset
      (service true).fresh_object (on_object object)) [
        | ok path ↦ path
        | err e ↦ record {
          project = nothing;
          collection = nothing;
          dataset = nothing;
          object = nothing;
          tags = record { project = none; collection = none; dataset = none; object = none };
        }
      ]

abbrev answer : PutObjectOutput
answer = record {
  e_tag = some (codes "m");
  checksum_sha256 = some (codes "s");
  version_id = some (print 6);
}

put_object-Overwrites_example :
    Overwrites
      (service true)
      written
      home
      (world_of (put_object (service true) (some (access_to (found written))) body home))
unfolding put_object init_object_update object_from_object upsert_object get_parents get insert
    id_of into_option create_and_finish add_location_with_binding
put_object-Overwrites_example =
    put_object-Overwrites (service true) (access_to (found written)) body home answer
      (world_of (put_object (service true) (some (access_to (found written))) body home))
      (on_object (found written)) none (path_to (found written)) written (print 2) refl refl refl
      refl refl refl refl refl refl

put_object-Stored_example :
    Stored
      (service true)
      body
      answer
      (world_of (put_object (service true) (some (access_to (found written))) body home))
unfolding put_object init_object_update object_from_object upsert_object get_parents get insert
    id_of into_option create_and_finish add_location_with_binding
put_object-Stored_example =
    put_object-Stored (service true) (access_to (found written)) body home answer
      (world_of (put_object (service true) (some (access_to (found written))) body home)) refl

abbrev unknown : ResourceState
unknown = missing (codes "n") ResourceVariant.object

abbrev named_n : Object
named_n = elim (path_to unknown).object [ new o ↦ o | existing o ↦ o | nothing ↦ written ]

put_object-offline_example :
    put_object (service false) (some (access_to unknown)) body home ≢ some (ok answer, home)
unfolding into_new_or_existing get initialize_now
put_object-offline_example =
    put_object-offline (service false) (access_to unknown) body home answer home (on_object unknown)
      none (path_to unknown) named_n refl refl refl refl refl

abbrev fewer_than_none : ListObjectsV2Input
fewer_than_none = record {
  bucket = codes "p";
  delimiter = none;
  list_prefix = none;
  continuation_token = none;
  start_after = none;
  max_keys = some (negsuc 0);
}

list_objects_v2-negative_example :
    (list_objects_v2 (λ t. t) (λ t. some t) (some (access_to (found written))) fewer_than_none home
      ≡ some (err (internal "[BACKEND] Conversion failure"), home))
    ⊎ (list_objects_v2
          (λ t. t)
          (λ t. some t)
          (some (access_to (found written)))
          fewer_than_none
          home
        ≡ some (err (s3_error no_such_key "Keys not found in ListObjectsV2"), home))
unfolding list_objects_v2 get_path get
list_objects_v2-negative_example =
    list_objects_v2-negative (λ t. t) (λ t. some t) (access_to (found written)) fewer_than_none 0
      home 1 none (omega arith) refl refl refl

abbrev stored_raw : ObjectLocation
stored_raw = location_of raw

abbrev read_part : Result GetObjectOutput
read_part =
    read_object {F = Unit {0}} (λ f r. (r, [])) (λ location. err (anyhow "none")) (λ k. true)
      (λ v. true) print [] none (on_object (found written)) (some stored_raw)
      (some (int 10 (some 19)))

abbrev output_of : Result GetObjectOutput → GetObjectOutput
output_of (ok out) = out
output_of (err e) = record {
  body = record {
    location = stored_raw;
    query_ranges = none;
    decryption = none;
    decompression = false;
    edit_list = none;
  };
  content_range = none;
  content_length = pos 0;
  e_tag = [];
  headers = [];
}

read_object-content_range_example :
    ((output_of read_part).content_length ≡ pos 10)
    × ((output_of read_part).content_range
        ≡ some (record { first = 10; last = 20; complete_length = pos 10 }))
unfolding read_object is_pithos
read_object-content_range_example =
    read_object-content_range {F = Unit {0}} (λ f r. (r, [])) (λ location. err (anyhow "none"))
      (λ k. true) (λ v. true) print [] none (on_object (found written)) stored_raw 10 19 200000
      {out = output_of read_part} refl (omega arith) (omega arith) (omega arith) refl refl

-- An upload of one part of 3 bytes, which are 31 bytes on the disk.
abbrev uploading : ObjectLocation
uploading = record (location_of raw) { upload_id = some (codes "u") }

abbrev one_part : UploadPart
one_part = record {
  id = 20;
  object_id = 4;
  upload_id = codes "u";
  part_number = 1;
  raw_size = 3;
  size = 31;
}

abbrev during : World
during = record home {
  cache = record home.cache {
    resources = (1, (project_p, none)) ∷ (4, (written, some uploading)) ∷ [];
  };
  parts = (codes "u", one_part ∷ []) ∷ [];
}

abbrev completing : CheckAccessResult
completing = record {
  objects_state = regular (on_object (found written)) (some uploading);
  user_state = personal 2;
  headers = none;
}

abbrev first_part : List CompletedPart
first_part = record { part_number = some (pos 1); e_tag = some (codes "e") } ∷ []

complete_multipart_upload-Finished_example :
    (o : Object) × (old : ObjectLocation) × (tags : List (ℤ × Text)) × (upload_id : Text)
    × (extract_object completing.objects_state ≡ ok (o, some old))
    × (old.upload_id ≡ some upload_id)
    × Named first_part tags
    × Finished
        (service true)
        o
        old
        tags
        upload_id
        during
        (world_of (
          complete_multipart_upload
            (service true)
            (some completing)
            (some (some first_part))
            during))
        (print 4)
unfolding complete_multipart_upload finish_object object_from_object endpoint_of upsert_object
    get_parents get insert id_of into_option update_location
complete_multipart_upload-Finished_example =
    complete_multipart_upload-Finished (service true) completing first_part during (print 4)
      (world_of (
        complete_multipart_upload (service true) (some completing) (some (some first_part)) during))
      refl
