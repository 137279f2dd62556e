-- ===== src/Tests/Messages.antt =====
-- The theorems of Structs/Messages and Structs/Requests at concrete inputs.
use data_proxy.Base.{
  ℕ, ◌≡◌, refl, ◌↔◌, true, false, none, some, Option, ok, err, anyhow, Result, [], ◌∷◌, Text, codes,
}
use data_proxy.Base.Int.{ℤ}
use data_proxy.Structs.Format.{DieselUlid}
use data_proxy.Structs.Object.{
  Object, ObjectType, ResourceVariant, TypedRelation, VersionVariant, DataClass, Status,
  NaiveDateTime, into_option, type_of_variant,
}
use data_proxy.Structs.Messages.{
  GrpcResource, external, internal, InternalRelation, belongs_to, version, inbound, outbound,
  eq_relation, eq_version, typed_relation, add_internal, add_relation, add_relations, endpoints_of,
  from_prost_time, object_from,
}
use data_proxy.Structs.Messages.Relations.{Holds, HasBelonging}
use data_proxy.Structs.Messages.Converted.{HasVersion, object_from-relations}
use data_proxy.Structs.States.{found, missing, absent, ResourceStates, require_project, as_ref}
use data_proxy.Structs.Creation.{Hierarchy, into_new_or_existing, object_of}
use data_proxy.Structs.Creation.Parents.{nearest, IsTyped}
use data_proxy.Structs.Requests.{
  project_id, create_collection_request, create_dataset_request, create_object_request,
}
use data_proxy.Structs.Requests.Created.{Requested, parent_message, created_requests}
use data_proxy.Tests.{project_p, fresh_id}

-- Identifiers of one character.
abbrev read_id : Text → Result DieselUlid
read_id [] = err (anyhow "invalid length")
read_id (c ∷ rest) = ok c

abbrev write_id : DieselUlid → Text
write_id id = id ∷ []

abbrev read_time : ℤ → ℕ → Option NaiveDateTime
read_time seconds nanos = none

abbrev related : ResourceVariant → InternalRelation
related v = record {
  resource_id = 7 ∷ [];
  resource_variant = v;
  defined_variant = belongs_to;
  direction = inbound;
}

-- A dataset below collection 7, with object 7 below it, that is a version of dataset 7.
abbrev dataset_message : GrpcResource
dataset_message = record {
  id = 3 ∷ [];
  name = codes "d";
  title = [];
  key_values = [];
  status = Status.available;
  data_class = DataClass.private;
  relations =
      some (internal (related ResourceVariant.collection))
      ∷ some external
      ∷ some (internal (record (related ResourceVariant.object) { direction = outbound }))
      ∷ some (
          internal (record (related ResourceVariant.dataset) {
            defined_variant = version;
            direction = outbound;
          }))
      ∷ [];
  metadata_license_tag = [];
  data_license_tag = [];
  dynamic = true;
  endpoints = [];
  created_at = none;
  created_by = 9 ∷ [];
}

abbrev dataset_d : Object
dataset_d = record {
  id = 3;
  name = codes "d";
  title = [];
  key_values = [];
  object_status = Status.available;
  data_class = DataClass.private;
  object_type = ObjectType.dataset;
  hashes = [];
  metadata_license = [];
  data_license = [];
  dynamic = true;
  children = some (TypedRelation.object 7 ∷ []);
  parents = some (TypedRelation.collection 7 ∷ []);
  versions = some (VersionVariant.is_version 7 ∷ []);
  synced = false;
  endpoints = [];
  created_at = none;
  created_by = some 9;
}

converted : object_from read_id read_time ObjectType.dataset dataset_message ≡ ok dataset_d
unfolding object_from add_relations add_relation add_internal typed_relation endpoints_of
    from_prost_time into_option
converted = refl

object_from-relations_example :
    (dataset_d.object_type ≡ ObjectType.dataset)
    × (read_id dataset_message.id ≡ ok dataset_d.id)
    × ((r : TypedRelation)
        → Holds dataset_d.parents r
          ↔ HasBelonging read_id read_time inbound dataset_message.relations r)
    × ((r : TypedRelation)
        → Holds dataset_d.children r
          ↔ HasBelonging read_id read_time outbound dataset_message.relations r)
    × ((x : VersionVariant)
        → Holds dataset_d.versions x ↔ HasVersion read_id read_time dataset_message.relations x)
object_from-relations_example =
    object_from-relations read_id read_time ObjectType.dataset dataset_message {o = dataset_d}
      converted

-- The path p/d/o, of which only the project is there.
abbrev to_create : ResourceStates
to_create = record {
  project = found project_p;
  collection = absent;
  dataset = missing (codes "d") ResourceVariant.dataset;
  object = missing (codes "o") ResourceVariant.object;
}

project_there : require_project to_create ≡ ok project_p
unfolding require_project as_ref
project_there = refl

to_create-IsTyped : IsTyped to_create
unfolding type_of_variant
to_create-IsTyped = record { collection = tt; dataset = refl; object = refl }

created_requests_example :
    (h : Hierarchy) × (into_new_or_existing (fresh_id 20) (fresh_id 21) (fresh_id 22) to_create
      ≡ ok h)
    × Requested
        (create_collection_request write_id)
        absent
        (some (project_id (1 ∷ [])))
        h.collection
    × Requested
        (create_dataset_request write_id)
        (missing (codes "d") ResourceVariant.dataset)
        (parent_message write_id (nearest project_p (object_of h.collection) none))
        h.dataset
    × Requested
        (create_object_request write_id)
        (missing (codes "o") ResourceVariant.object)
        (parent_message write_id (nearest project_p (object_of h.collection) (object_of h.dataset)))
        h.object
created_requests_example =
    created_requests write_id (fresh_id 20) (fresh_id 21) (fresh_id 22) to_create project_p
      project_there to_create-IsTyped
