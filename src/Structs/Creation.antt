-- ===== src/Structs/Creation.antt =====
-- structs.rs: `ResourceStates::into_new_or_existing`, which turns the states of a path into objects
-- to use and objects to create.
pub mod Parents
use data_proxy.Base.{
  Option, none, some, ◌≡◌, Result, ok, err, Error, s3_error, no_such_key, ok_or, ◌>>=◌,
}
use data_proxy.Structs.Object.{Object, TypedRelation, Fresh}
use data_proxy.Structs.States.{
  ResourceState, found, missing, absent, ResourceStates, Tags, tag_of, tag, get_missing,
  require_project,
}

pub data NewOrExistingObject : Type 0 where
  new existing : Object → NewOrExistingObject
  nothing : NewOrExistingObject

-- The object of either kind.
unfoldable pub object_of : NewOrExistingObject → Option Object
object_of (new o) = some o
object_of (existing o) = some o
object_of nothing = none

-- The match that `collection`, `dataset` and `object` repeat; `not_found` is its error.
unfoldable pub resolve : Fresh → ResourceState → TypedRelation → Error → Result NewOrExistingObject
unfolding get_missing
resolve fresh absent relation not_found = ok nothing
resolve fresh (found o) relation not_found = ok (existing o)
resolve fresh (missing name variant) relation not_found =
    elim (get_missing fresh (missing name variant) (some relation)) [
      | some o ↦ ok (new o)
      | none ↦ err not_found
    ]

-- The relation to the collection if there is one, else to the project.
unfoldable pub below_project : Object → NewOrExistingObject → TypedRelation
below_project project (existing c) = TypedRelation.collection c.id
below_project project (new c) = TypedRelation.collection c.id
below_project project nothing = TypedRelation.project project.id

-- The relation to the dataset if there is one, else as for a dataset.
unfoldable pub below_collection : Object → NewOrExistingObject → NewOrExistingObject → TypedRelation
below_collection project collection (existing d) = TypedRelation.dataset d.id
below_collection project collection (new d) = TypedRelation.dataset d.id
below_collection project collection nothing = below_project project collection

-- The five parts of the result.
pub record Hierarchy : Type 0 where
  pub project : NewOrExistingObject
  pub collection : NewOrExistingObject
  pub dataset : NewOrExistingObject
  pub object : NewOrExistingObject
  pub tags : Tags

-- The three arguments stand for the identifiers and times that creating an object takes.
unfoldable pub into_new_or_existing : Fresh → Fresh → Fresh → ResourceStates → Result Hierarchy
unfolding require_project resolve below_project below_collection object_of
into_new_or_existing fresh_c fresh_d fresh_o s = do
  project ← require_project s
  collection ←
      resolve fresh_c s.collection (TypedRelation.project project.id)
        (s3_error no_such_key "Collection not found")
  dataset ←
      resolve fresh_d s.dataset (below_project project collection)
        (s3_error no_such_key "Dataset not found")
  object ←
      resolve fresh_o s.object (below_collection project collection dataset)
        (s3_error no_such_key "Object not found")
  ok (record {
    project = existing project;
    collection = collection;
    dataset = dataset;
    object = object;
    tags = record {
      project = some (tag project);
      collection = tag_of (object_of collection);
      dataset = tag_of (object_of dataset);
      object = tag_of (object_of object);
    };
  })
