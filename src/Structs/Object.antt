-- ===== src/Structs/Object.antt =====
-- structs.rs: `Object` and what it is made of, `TypedRelation`, `TypedId`, `Bundle`.
use data_proxy.Base.{
  ℕ, Bool, true, false, List, [], ◌∷◌, map, Option, none, some, Text, codes, eq_nat, eq_text,
  if◌then◌else◌, Result, ok, err, anyhow, s3_error, invalid_object_state, Eq, ◌==◌, contains,
}
use data_proxy.Base.Map.{Map}
use data_proxy.Structs.Format.{DieselUlid}

-- An instant, which the program stores and passes on.
abbrev pub NaiveDateTime : Type 0
NaiveDateTime = ℕ

-- `HashSet`, as a list of its members.
abbrev pub HashSet : Type 0 → Type 0
HashSet A = List A

-- `HashSet::insert`
abbrev pub insert_set : {A : Type 0} ⦃e : Eq A⦄ → HashSet A → A → HashSet A
insert_set s a = if contains s a then s else a ∷ s

-- helpers.rs: `IntoOption for HashSet`
unfoldable pub into_option : {A : Type 0} → HashSet A → Option (HashSet A)
into_option [] = none
into_option (x ∷ xs) = some (x ∷ xs)

pub data ObjectType : Type 0 where
  project collection dataset object : ObjectType

unfoldable pub type_eq : ObjectType → ObjectType → Bool
type_eq ObjectType.project ObjectType.project = true
type_eq ObjectType.collection ObjectType.collection = true
type_eq ObjectType.dataset ObjectType.dataset = true
type_eq ObjectType.object ObjectType.object = true
type_eq _ _ = false

-- The gRPC enum `ResourceVariant`.
pub data ResourceVariant : Type 0 where
  unspecified project collection dataset object : ResourceVariant

-- `TryFrom<ResourceVariant> for ObjectType`, by value and by reference.
unfoldable pub type_of_variant : ResourceVariant → Result ObjectType
type_of_variant ResourceVariant.project = ok ObjectType.project
type_of_variant ResourceVariant.collection = ok ObjectType.collection
type_of_variant ResourceVariant.dataset = ok ObjectType.dataset
type_of_variant ResourceVariant.object = ok ObjectType.object
type_of_variant ResourceVariant.unspecified = err (anyhow "Invalid resource variant")

pub data TypedRelation : Type 0 where
  project collection dataset object : DieselUlid → TypedRelation

-- `TypedRelation::get_id`
unfoldable pub relation_id : TypedRelation → DieselUlid
relation_id (TypedRelation.project i) = i
relation_id (TypedRelation.collection i) = i
relation_id (TypedRelation.dataset i) = i
relation_id (TypedRelation.object i) = i

pub data VersionVariant : Type 0 where
  has_version is_version : DieselUlid → VersionVariant

-- The gRPC enums `Status` and `DataClass`; the values that the program does not name are `other`.
pub data Status : Type 0 where
  initializing available : Status
  other : ℕ → Status

pub data DataClass : Type 0 where
  public private : DataClass
  other : ℕ → DataClass

unfoldable pub is_public : DataClass → Bool
is_public DataClass.public = true
is_public _ = false

pub data SyncVariant : Type 0 where
  full_sync : SyncVariant
  partial_sync : Bool → SyncVariant

pub data SyncStatus : Type 0 where
  waiting running finished error : SyncStatus

pub record Endpoint : Type 0 where
  pub id : DieselUlid
  pub variant : SyncVariant
  pub status : Option SyncStatus

-- The gRPC message `KeyValue`.
pub record KeyValue : Type 0 where
  pub key : Text
  pub value : Text

pub record Object : Type 0 where
  pub id : DieselUlid
  pub name : Text
  pub title : Text
  pub key_values : List KeyValue
  pub object_status : Status
  pub data_class : DataClass
  pub object_type : ObjectType
  pub hashes : Map Text Text
  pub metadata_license : Text
  pub data_license : Text
  pub dynamic : Bool
  pub children : Option (HashSet TypedRelation)
  pub parents : Option (HashSet TypedRelation)
  pub versions : Option (HashSet VersionVariant)
  pub synced : Bool
  pub endpoints : List Endpoint
  pub created_at : Option NaiveDateTime
  pub created_by : Option DieselUlid

pub record Bundle : Type 0 where
  pub id : DieselUlid
  pub owner_access_key : Text
  pub ids : List DieselUlid
  pub expires_at : Option NaiveDateTime
  pub once : Bool

abbrev pub all_rights_reserved : Text
all_rights_reserved = codes "AllRightsReserved"

-- What `initialize_now` takes from outside: a generated identifier and the time.
pub record Fresh : Type 0 where
  pub id : DieselUlid
  pub now : NaiveDateTime

unfoldable pub initialize_now : Fresh → Text → ObjectType → Option TypedRelation → Object
unfolding type_eq
initialize_now fresh name object_type parent = record {
  id = fresh.id;
  name = name;
  title = [];
  key_values = [];
  object_status =
      if type_eq object_type ObjectType.object then Status.initializing else Status.available;
  data_class = DataClass.private;
  object_type = object_type;
  hashes = [];
  metadata_license = all_rights_reserved;
  data_license = all_rights_reserved;
  dynamic = true;
  children = none;
  parents = elim parent [ none ↦ none | some p ↦ some (p ∷ []) ];
  versions = none;
  synced = false;
  endpoints = [];
  created_at = some fresh.now;
  created_by = none;
}

abbrev pub is_partial : SyncVariant → Bool
is_partial full_sync = false
is_partial (partial_sync _) = true

-- The first endpoint of the given identifier, tested for a partial sync.
unfoldable pub partial_at : List Endpoint → DieselUlid → Bool
partial_at [] ep_id = false
partial_at (ep ∷ eps) ep_id = if ep.id == ep_id then is_partial ep.variant else partial_at eps ep_id

-- `Object::is_partial_sync`
unfoldable pub is_partial_sync : Object → DieselUlid → Bool
unfolding partial_at
is_partial_sync o ep_id = partial_at o.endpoints ep_id

-- `Object::fail_partial_sync`
unfoldable pub fail_partial_sync : Object → DieselUlid → Result (Unit {0})
unfolding is_partial_sync
fail_partial_sync o ep_id =
    if is_partial_sync o ep_id
    then err (s3_error invalid_object_state "Object partial synced")
    else ok tt

-- `Object::get_hashes`: the gRPC number of the algorithm, and the hash.
unfoldable pub hash_alg : Text → ℕ
hash_alg k = if k == codes "MD5" then 2 else if k == codes "SHA256" then 1 else 0

unfoldable pub get_hashes : Object → List (ℕ × Text)
unfolding hash_alg
get_hashes o = map (λ (e : Text × Text). (hash_alg e.0, e.1)) o.hashes

pub data TypedId : Type 0 where
  project collection dataset object unknown : DieselUlid → TypedId

-- `TypedId::get_id`
unfoldable pub id_of : TypedId → DieselUlid
id_of (TypedId.project id) = id
id_of (TypedId.collection id) = id
id_of (TypedId.dataset id) = id
id_of (TypedId.object id) = id
id_of (TypedId.unknown id) = id

-- `From<&Object> for TypedId`
unfoldable pub typed_id : Object → TypedId
typed_id o = elim o.object_type [
  | ObjectType.project ↦ TypedId.project o.id
  | ObjectType.collection ↦ TypedId.collection o.id
  | ObjectType.dataset ↦ TypedId.dataset o.id
  | ObjectType.object ↦ TypedId.object o.id
]
