-- ===== src/Structs/Messages.antt =====
-- structs.rs: the conversions of the gRPC resources and their relations. The parameters are
-- `DieselUlid::from_str` and `DateTime::from_timestamp` with `naive_utc`.
pub mod Relations
pub mod Converted
use data_proxy.Base.{
  ℕ, Bool, true, false, ◌&&◌, List, [], ◌∷◌, Option, none, some, Text, nat_eq, Eq, ◌≡◌, ◌↔◌, arith,
  nat_eq_iff, if◌then◌else◌, Result, ok, err, anyhow, ok_or, ◌>>=◌,
}
use data_proxy.Base.Int.{ℤ, as_u32}
use data_proxy.Structs.Format.{DieselUlid}
use data_proxy.Structs.Object.{
  Object, ObjectType, ResourceVariant, TypedRelation, VersionVariant, HashSet, insert_set,
  into_option, KeyValue, DataClass, Status, Endpoint, SyncVariant, full_sync, partial_sync,
  SyncStatus, NaiveDateTime,
}

-- The gRPC enums; `other` stands for the values that the program does not name.
pub data InternalRelationVariant : Type 0 where
  belongs_to version other : InternalRelationVariant

pub data RelationDirection : Type 0 where
  unspecified inbound outbound : RelationDirection

pub record InternalRelation : Type 0 where
  pub resource_id : Text
  pub resource_variant : ResourceVariant
  pub defined_variant : InternalRelationVariant
  pub direction : RelationDirection

pub data Relation : Type 0 where
  external : Relation
  internal : InternalRelation → Relation

pub data ReplicationStatus : Type 0 where
  unspecified waiting running finished error : ReplicationStatus

pub record DataEndpoint : Type 0 where
  pub id : Text
  pub variant : Option SyncVariant
  pub status : ReplicationStatus

pub record Timestamp : Type 0 where
  pub seconds : ℤ
  pub nanos : ℤ

-- What the program reads of the messages `Project`, `Collection`, `Dataset` and `Object`.
pub record GrpcResource : Type 0 where
  pub id : Text
  pub name : Text
  pub title : Text
  pub key_values : List KeyValue
  pub status : Status
  pub data_class : DataClass
  pub relations : List (Option Relation)
  pub metadata_license_tag : Text
  pub data_license_tag : Text
  pub dynamic : Bool
  pub endpoints : List DataEndpoint
  pub created_at : Option Timestamp
  pub created_by : Text

pub data Resource : Type 0 where
  project collection dataset object : GrpcResource → Resource

abbrev relation_same : TypedRelation → TypedRelation → Bool
relation_same (TypedRelation.project i) (TypedRelation.project j) = nat_eq i j
relation_same (TypedRelation.collection i) (TypedRelation.collection j) = nat_eq i j
relation_same (TypedRelation.dataset i) (TypedRelation.dataset j) = nat_eq i j
relation_same (TypedRelation.object i) (TypedRelation.object j) = nat_eq i j
relation_same _ _ = false

pub relation_same_iff : (x y : TypedRelation) → (relation_same x y ≡ true) ↔ (x ≡ y)
relation_same_iff x y = ground arith

instance abbrev pub eq_relation : Eq TypedRelation
eq_relation = record { same = relation_same; same_iff = relation_same_iff }

abbrev version_same : VersionVariant → VersionVariant → Bool
version_same (VersionVariant.has_version i) (VersionVariant.has_version j) = nat_eq i j
version_same (VersionVariant.is_version i) (VersionVariant.is_version j) = nat_eq i j
version_same _ _ = false

pub version_same_iff : (x y : VersionVariant) → (version_same x y ≡ true) ↔ (x ≡ y)
version_same_iff x y = ground arith

instance abbrev pub eq_version : Eq VersionVariant
eq_version = record { same = version_same; same_iff = version_same_iff }

-- The three sets that the loop over the relations fills.
pub record Sets : Type 0 where
  pub inbound : HashSet TypedRelation
  pub outbound : HashSet TypedRelation
  pub version : HashSet VersionVariant

abbrev pub no_relations : Sets
no_relations = record { inbound = []; outbound = []; version = [] }

module _ (from_str : Text → Result DieselUlid) (from_timestamp : ℤ → ℕ → Option NaiveDateTime) where
  -- `TryFrom<&Relation> for TypedRelation`
  unfoldable pub typed_relation : Relation → Result TypedRelation
  typed_relation external = err (anyhow "Invalid External rel")
  typed_relation (internal int) = from_str int.resource_id >>= λ resource_id.
      elim int.resource_variant [
        | ResourceVariant.unspecified ↦ err (anyhow "Invalid target")
        | ResourceVariant.project ↦ ok (TypedRelation.project resource_id)
        | ResourceVariant.collection ↦ ok (TypedRelation.collection resource_id)
        | ResourceVariant.dataset ↦ ok (TypedRelation.dataset resource_id)
        | ResourceVariant.object ↦ ok (TypedRelation.object resource_id)
      ]

  -- A turn of the loop for an internal relation, by its variant and direction.
  unfoldable pub add_internal :
      InternalRelation → Sets → InternalRelationVariant → RelationDirection → Result Sets
  add_internal int sets belongs_to inbound = typed_relation (internal int) >>= λ r.
      ok (record sets { inbound = insert_set sets.inbound r })
  add_internal int sets belongs_to outbound = typed_relation (internal int) >>= λ r.
      ok (record sets { outbound = insert_set sets.outbound r })
  add_internal int sets belongs_to unspecified = ok sets
  add_internal int sets version inbound = from_str int.resource_id >>= λ id.
      ok (record sets { version = insert_set sets.version (VersionVariant.has_version id) })
  add_internal int sets version outbound = from_str int.resource_id >>= λ id.
      ok (record sets { version = insert_set sets.version (VersionVariant.is_version id) })
  add_internal int sets version unspecified = ok sets
  add_internal int sets other direction = ok sets

  unfoldable pub add_relation : Sets → Option Relation → Result Sets
  unfolding add_internal
  add_relation sets none = ok sets
  add_relation sets (some external) = ok sets
  add_relation sets (some (internal int)) = add_internal int sets int.defined_variant int.direction

  unfoldable pub add_relations : Sets → List (Option Relation) → Result Sets
  add_relations sets [] = ok sets
  add_relations sets (rel ∷ rest) = add_relation sets rel >>= λ after. add_relations after rest

  -- `TryFrom<&DataEndpoint> for Endpoint`
  unfoldable pub status_of : ReplicationStatus → Option SyncStatus
  status_of unspecified = none
  status_of waiting = some SyncStatus.waiting
  status_of running = some SyncStatus.running
  status_of finished = some SyncStatus.finished
  status_of error = some SyncStatus.error

  unfoldable pub endpoint_of : DataEndpoint → Result Endpoint
  unfolding status_of
  endpoint_of value = do
    id ← from_str value.id
    variant ← ok_or value.variant (anyhow "No endpoint sync variant found")
    ok (record { id = id; variant = variant; status = status_of value.status })

  unfoldable pub endpoints_of : List DataEndpoint → Result (List Endpoint)
  endpoints_of [] = ok []
  endpoints_of (value ∷ rest) = endpoint_of value >>= λ e. endpoints_of rest >>= λ es. ok (e ∷ es)

  unfoldable pub from_prost_time : Option Timestamp → Option NaiveDateTime
  from_prost_time none = none
  from_prost_time (some stamp) = from_timestamp stamp.seconds (as_u32 stamp.nanos)

  -- What the four conversions below have in common; they differ in the type that they set.
  unfoldable pub object_from : ObjectType → GrpcResource → Result Object
  unfolding add_relations endpoints_of from_prost_time
  object_from object_type value = do
    sets ← add_relations no_relations value.relations
    id ← from_str value.id
    endpoints ← endpoints_of value.endpoints
    created_by ← from_str value.created_by
    ok (record {
      id = id;
      name = value.name;
      title = value.title;
      key_values = value.key_values;
      object_status = value.status;
      data_class = value.data_class;
      object_type = object_type;
      hashes = [];
      metadata_license = value.metadata_license_tag;
      data_license = value.data_license_tag;
      dynamic = value.dynamic;
      children = into_option sets.outbound;
      parents = into_option sets.inbound;
      versions = into_option sets.version;
      synced = false;
      endpoints = endpoints;
      created_at = from_prost_time value.created_at;
      created_by = some created_by;
    })

  -- `TryFrom<Project> for Object`
  unfoldable pub object_from_project : GrpcResource → Result Object
  unfolding object_from
  object_from_project value = object_from ObjectType.project value

  -- `TryFrom<Collection> for Object`
  unfoldable pub object_from_collection : GrpcResource → Result Object
  unfolding object_from
  object_from_collection value = object_from ObjectType.collection value

  -- `TryFrom<Dataset> for Object`
  unfoldable pub object_from_dataset : GrpcResource → Result Object
  unfolding object_from
  object_from_dataset value = object_from ObjectType.dataset value

  -- `TryFrom<GrpcObject> for Object`
  unfoldable pub object_from_object : GrpcResource → Result Object
  unfolding object_from
  object_from_object value = object_from ObjectType.object value

  -- `TryFrom<Resource> for Object`
  unfoldable pub object_from_resource : Resource → Result Object
  unfolding object_from_project object_from_collection object_from_dataset object_from_object
  object_from_resource (Resource.project p) = object_from_project p
  object_from_resource (Resource.collection c) = object_from_collection c
  object_from_resource (Resource.dataset d) = object_from_dataset d
  object_from_resource (Resource.object o) = object_from_object o
