-- ===== src/Structs/Requests/Created.antt =====
-- structs.rs: the requests for the objects that `into_new_or_existing` creates, and their parents.
use data_proxy.Base.{[], ◌∷◌, Option, none, some, Text, ◌≡◌, refl, ok, arith}
use data_proxy.Structs.Format.{DieselUlid}
use data_proxy.Structs.Object.{Object, ObjectType, TypedRelation, Fresh}
use data_proxy.Structs.States.{
  ResourceState, found, missing, absent, ResourceStates, require_project,
}
use data_proxy.Structs.Creation.{
  NewOrExistingObject, new, existing, nothing, object_of, Hierarchy, into_new_or_existing,
}
use data_proxy.Structs.Creation.Parents.{IsTyped, Resolved, nearest, into_new_or_existing_lem}
use data_proxy.Structs.Requests.{
  Parent, project_id, collection_id, dataset_id, CreateRequest, create_collection_request,
  create_dataset_request, create_object_request, collection_parent, dataset_parent, object_parent,
  first_parent, request_below,
}

-- The message for the nearest ancestor.
abbrev pub parent_message : (DieselUlid → Text) → TypedRelation → Option Parent
parent_message to_string (TypedRelation.project i) = some (project_id (to_string i))
parent_message to_string (TypedRelation.collection i) = some (collection_id (to_string i))
parent_message to_string (TypedRelation.dataset i) = some (dataset_id (to_string i))
parent_message to_string (TypedRelation.object i) = none

-- If an object was created, its request has its name and the given parent.
abbrev pub Requested :
    (Object → CreateRequest) → ResourceState → Option Parent → NewOrExistingObject → Type 0
Requested request (missing name v) parent (new o) =
    ((request o).name ≡ name) × ((request o).parent ≡ parent)
Requested request (missing name v) parent _ = ⊥
Requested request (found o) parent r = r ≡ existing o
Requested request absent parent r = r ≡ nothing

-- The request of an object whose only parent is known.
abbrev Names : (Object → CreateRequest) → TypedRelation → Option Parent → Type 0
Names request parent m =
    (o : Object)
    → o.parents ≡ some (parent ∷ [])
    → ((request o).name ≡ o.name) × ((request o).parent ≡ m)

Requested-Resolved :
    (t : ObjectType) (request : Object → CreateRequest) (s : ResourceState) (parent : TypedRelation)
    (m : Option Parent) (r : NewOrExistingObject)
    → Names request parent m
    → Resolved t s parent r
    → Requested request s m r
Requested-Resolved t request (found o) parent m r n h = h
Requested-Resolved t request absent parent m r n h = h
Requested-Resolved t request (missing name v) parent m (new o) n (o', e, named, typed, below) =
    ground (arith, n o)
Requested-Resolved t request (missing name v) parent m (existing o) n (o', e, named, typed, below) =
    ground arith
Requested-Resolved t request (missing name v) parent m nothing n (o', e, named, typed, below) =
    ground arith

module _ (to_string : DieselUlid → Text) where
  Names-collection :
      (p : Object)
      → Names
          (create_collection_request to_string)
          (TypedRelation.project p.id)
          (some (project_id (to_string p.id)))
  unfolding create_collection_request request_below first_parent collection_parent
  Names-collection p o h = (refl, rw h refl)

  Names-dataset :
      (p : Object) (c : Option Object)
      → Names
          (create_dataset_request to_string)
          (nearest p c none)
          (parent_message to_string (nearest p c none))
  unfolding create_dataset_request request_below first_parent dataset_parent
  Names-dataset p none o h = (refl, rw h refl)
  Names-dataset p (some c) o h = (refl, rw h refl)

  Names-object :
      (p : Object) (c d : Option Object)
      → Names
          (create_object_request to_string)
          (nearest p c d)
          (parent_message to_string (nearest p c d))
  unfolding create_object_request request_below first_parent object_parent
  Names-object p none none o h = (refl, rw h refl)
  Names-object p (some c) none o h = (refl, rw h refl)
  Names-object p none (some d) o h = (refl, rw h refl)
  Names-object p (some c) (some d) o h = (refl, rw h refl)

  -- With the project found, and the missing states recorded with the variants of their places,
  -- what into_new_or_existing creates can be requested: for each object that it creates, and for
  -- no other, the create request has the name of the missing state and as parent the message for
  -- the nearest ancestor, new or old; what is found is used and what is absent is left out.
  pub created_requests :
      (fresh_c fresh_d fresh_o : Fresh) (s : ResourceStates) (p : Object)
      → require_project s ≡ ok p
      → IsTyped s
      → (h : Hierarchy) × (into_new_or_existing fresh_c fresh_d fresh_o s ≡ ok h)
        × Requested
            (create_collection_request to_string)
            s.collection
            (some (project_id (to_string p.id)))
            h.collection
        × Requested
            (create_dataset_request to_string)
            s.dataset
            (parent_message to_string (nearest p (object_of h.collection) none))
            h.dataset
        × Requested
            (create_object_request to_string)
            s.object
            (parent_message to_string (nearest p (object_of h.collection) (object_of h.dataset)))
            h.object
  created_requests fc fd fo s p present typed =
      let (h, made, _, c, d, o, _) = into_new_or_existing_lem fc fd fo s p present typed in
      (
        h,
        made,
        Requested-Resolved ObjectType.collection (create_collection_request to_string) s.collection
            (TypedRelation.project p.id) (some (project_id (to_string p.id))) h.collection
            (Names-collection p) c,
        Requested-Resolved ObjectType.dataset (create_dataset_request to_string) s.dataset
            (nearest p (object_of h.collection) none)
            (parent_message to_string (nearest p (object_of h.collection) none)) h.dataset
            (Names-dataset p (object_of h.collection)) d,
        Requested-Resolved ObjectType.object (create_object_request to_string) s.object
            (nearest p (object_of h.collection) (object_of h.dataset))
            (parent_message to_string (nearest p (object_of h.collection) (object_of h.dataset)))
            h.object (Names-object p (object_of h.collection) (object_of h.dataset)) o,
      )
