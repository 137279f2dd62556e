-- ===== src/Structs/Requests.antt =====
-- structs.rs: the gRPC requests that create or update the resource of an object. The parameter is
-- `DieselUlid::to_string`.
pub mod Created
use data_proxy.Base.{
  Bool, false, List, [], ◌∷◌, Option, none, some, Text, Result, ok, err, anyhow, to_option,
}
use data_proxy.Structs.Format.{DieselUlid}
use data_proxy.Structs.Object.{
  Object, ObjectType, TypedRelation, HashSet, KeyValue, DataClass, Status, Fresh,
  all_rights_reserved,
}

-- The `Parent` messages of the three requests, which differ in what they admit.
pub data Parent : Type 0 where
  project_id collection_id dataset_id : Text → Parent

-- `CreateProjectRequest`, `CreateCollectionRequest`, `CreateDatasetRequest`, `CreateObjectRequest`:
-- the fields that are not left empty.
pub record CreateRequest : Type 0 where
  pub name : Text
  pub title : Text
  pub data_class : DataClass
  pub parent : Option Parent
  pub metadata_license_tag : Text
  pub data_license_tag : Text

-- `UpdateObjectRequest`, likewise.
pub record UpdateObjectRequest : Type 0 where
  pub object_id : Text
  pub data_class : DataClass
  pub force_revision : Bool
  pub metadata_license_tag : Text
  pub data_license_tag : Text

module _ (to_string : DieselUlid → Text) where
  -- `TryInto<create_collection_request::Parent> for TypedRelation`
  unfoldable pub collection_parent : TypedRelation → Result Parent
  collection_parent (TypedRelation.project i) = ok (project_id (to_string i))
  collection_parent _ = err (anyhow "Invalid")

  -- `TryInto<create_dataset_request::Parent> for TypedRelation`
  unfoldable pub dataset_parent : TypedRelation → Result Parent
  dataset_parent (TypedRelation.project i) = ok (project_id (to_string i))
  dataset_parent (TypedRelation.collection i) = ok (collection_id (to_string i))
  dataset_parent _ = err (anyhow "Invalid")

  -- `TryInto<create_object_request::Parent> for TypedRelation`
  unfoldable pub object_parent : TypedRelation → Result Parent
  object_parent (TypedRelation.project i) = ok (project_id (to_string i))
  object_parent (TypedRelation.collection i) = ok (collection_id (to_string i))
  object_parent (TypedRelation.dataset i) = ok (dataset_id (to_string i))
  object_parent (TypedRelation.object i) = err (anyhow "Invalid ")

  -- The first member of the set of parents, converted.
  unfoldable pub first_parent :
      (TypedRelation → Result Parent) → Option (HashSet TypedRelation) → Option Parent
  first_parent try_into none = none
  first_parent try_into (some []) = none
  first_parent try_into (some (x ∷ rest)) = to_option (try_into x)

  unfoldable pub create_project_request : Object → CreateRequest
  create_project_request value = record {
    name = value.name;
    title = [];
    data_class = value.data_class;
    parent = none;
    metadata_license_tag = value.metadata_license;
    data_license_tag = value.data_license;
  }

  -- What the three requests below a project have in common.
  unfoldable pub request_below : (TypedRelation → Result Parent) → Object → CreateRequest
  unfolding first_parent
  request_below try_into value = record {
    name = value.name;
    title = value.title;
    data_class = value.data_class;
    parent = first_parent try_into value.parents;
    metadata_license_tag = value.metadata_license;
    data_license_tag = value.data_license;
  }

  unfoldable pub create_collection_request : Object → CreateRequest
  unfolding request_below
  create_collection_request value = request_below collection_parent value

  unfoldable pub create_dataset_request : Object → CreateRequest
  unfolding request_below
  create_dataset_request value = request_below dataset_parent value

  unfoldable pub create_object_request : Object → CreateRequest
  unfolding request_below
  create_object_request value = request_below object_parent value

  unfoldable pub update_object_request : Object → UpdateObjectRequest
  update_object_request value = record {
    object_id = to_string value.id;
    data_class = value.data_class;
    force_revision = false;
    metadata_license_tag = value.metadata_license;
    data_license_tag = value.data_license;
  }

-- `From<CreateBucketInput> for Object`, given the bucket's name; the other fields are the defaults.
unfoldable pub bucket_object : Fresh → Text → Object
bucket_object fresh bucket = record {
  id = fresh.id;
  name = bucket;
  title = [];
  key_values = [];
  object_status = Status.available;
  data_class = DataClass.private;
  object_type = ObjectType.project;
  hashes = [];
  metadata_license = all_rights_reserved;
  data_license = all_rights_reserved;
  dynamic = false;
  children = none;
  parents = none;
  versions = none;
  synced = false;
  endpoints = [];
  created_at = some fresh.now;
  created_by = none;
}
