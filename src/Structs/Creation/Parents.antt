-- ===== src/Structs/Creation/Parents.antt =====
-- structs.rs: what `into_new_or_existing` makes of the states that `set_missing` builds, and the parents
-- of what it creates.
use data_proxy.Base.{
  Option, none, some, [], ◌∷◌, ◌≡◌, refl, ok, Error, arith, s3_error, no_such_key,
}
use data_proxy.Structs.Object.{
  Object, ObjectType, TypedRelation, Fresh, type_of_variant, initialize_now,
}
use data_proxy.Structs.States.{
  ResourceState, found, missing, absent, ResourceStates, tag_of, tag, require_project,
}
use data_proxy.Structs.Creation.{
  NewOrExistingObject, new, existing, nothing, object_of, resolve, below_project, below_collection,
  Hierarchy, into_new_or_existing,
}

-- A missing state records the variant of its place, as `set_missing` writes it.
abbrev pub TypedAt : ObjectType → ResourceState → Type 0
TypedAt t (found o) = Unit
TypedAt t (missing name v) = type_of_variant v ≡ ok t
TypedAt t absent = Unit

pub record IsTyped (s : ResourceStates) : Type 0 where
  pub collection : TypedAt ObjectType.collection s.collection
  pub dataset : TypedAt ObjectType.dataset s.dataset
  pub object : TypedAt ObjectType.object s.object

-- What a state becomes: an object found is used as it is; a missing one is created with the path's
-- name, the type of its place and exactly the given parent; an absent one is left out.
abbrev pub Resolved : ObjectType → ResourceState → TypedRelation → NewOrExistingObject → Type 0
Resolved t (found o) parent r = r ≡ existing o
Resolved t (missing name v) parent r =
    (o : Object) × (r ≡ new o)
    × (o.name ≡ name)
    × (o.object_type ≡ t)
    × (o.parents ≡ some (parent ∷ []))
Resolved t absent parent r = r ≡ nothing

-- The nearest of a project, the collection if there is one, and the dataset if there is one.
abbrev pub nearest : Object → Option Object → Option Object → TypedRelation
nearest p _ (some d) = TypedRelation.dataset d.id
nearest p (some c) none = TypedRelation.collection c.id
nearest p none none = TypedRelation.project p.id

resolve_lem :
    (fresh : Fresh) (t : ObjectType) (st : ResourceState) (parent : TypedRelation) (e : Error)
    → TypedAt t st
    → (r : NewOrExistingObject) × (resolve fresh st parent e ≡ ok r) × Resolved t st parent r
unfolding resolve initialize_now
resolve_lem fresh t absent parent e h = (nothing, refl, refl)
resolve_lem fresh t (found o) parent e h = (existing o, refl, refl)
resolve_lem fresh t (missing name v) parent e h =
    let o = initialize_now fresh name t (some parent) in
    (new o, ground arith, (o, refl, refl, refl, refl))

below_project-eq :
    (p : Object) (c : NewOrExistingObject) → below_project p c ≡ nearest p (object_of c) none
unfolding below_project object_of
below_project-eq p c = ground arith

below_collection-eq :
    (p : Object) (c d : NewOrExistingObject)
    → below_collection p c d ≡ nearest p (object_of c) (object_of d)
unfolding below_collection below_project object_of
below_collection-eq p c d = ground arith

-- With the project found, and the missing states recorded with the variants of their places,
-- into_new_or_existing succeeds: the project is used as it is; collection, dataset and object are
-- used, created with the path's name and the type of their place, or left out as their states say,
-- each created one with the nearest ancestor, new or old, as its only parent; and the tags are the
-- identifiers and names of these objects.
pub into_new_or_existing_lem :
    (fresh_c fresh_d fresh_o : Fresh) (s : ResourceStates) (p : Object)
    → require_project s ≡ ok p
    → IsTyped s
    → (h : Hierarchy) × (into_new_or_existing fresh_c fresh_d fresh_o s ≡ ok h)
      × (h.project ≡ existing p)
      × Resolved ObjectType.collection s.collection (TypedRelation.project p.id) h.collection
      × Resolved ObjectType.dataset s.dataset (nearest p (object_of h.collection) none) h.dataset
      × Resolved ObjectType.object s.object
          (nearest p (object_of h.collection) (object_of h.dataset))
          h.object
      × (h.tags ≡ record {
        project = some (tag p);
        collection = tag_of (object_of h.collection);
        dataset = tag_of (object_of h.dataset);
        object = tag_of (object_of h.object);
      })
unfolding into_new_or_existing
into_new_or_existing_lem fc fd fo s p present typed =
    let (c, ce, cr) =
      resolve_lem fc ObjectType.collection s.collection (TypedRelation.project p.id)
        (s3_error no_such_key "Collection not found") typed.collection in
    let (d, de, dr) =
      resolve_lem fd ObjectType.dataset s.dataset (below_project p c)
        (s3_error no_such_key "Dataset not found") typed.dataset in
    let (o, oe, or) =
      resolve_lem fo ObjectType.object s.object (below_collection p c d)
        (s3_error no_such_key "Object not found") typed.object in
    (
      record {
        project = existing p;
        collection = c;
        dataset = d;
        object = o;
        tags = record {
          project = some (tag p);
          collection = tag_of (object_of c);
          dataset = tag_of (object_of d);
          object = tag_of (object_of o);
        };
      },
      rw present (rw ce (rw de (rw oe))),
      refl,
      cr,
      rw (← below_project-eq p c) dr,
      rw (← below_collection-eq p c d) or,
      refl,
    )
