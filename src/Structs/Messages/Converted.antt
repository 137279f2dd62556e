-- ===== src/Structs/Messages/Converted.antt =====
-- structs.rs: the versions that the loop over the relations adds, and the relations of a converted
-- resource.
use data_proxy.Base.{
  ℕ, true, List, [], ◌∷◌, Option, none, some, Text, ◌≡◌, ◌≢◌, refl, ◌↔◌, ◌⊎◌, arith, Result, ok,
  >>=-eq-ok, contains,
}
use data_proxy.Base.Int.{ℤ}
use data_proxy.Structs.Format.{DieselUlid}
use data_proxy.Structs.Object.{
  Object, ObjectType, TypedRelation, VersionVariant, insert_set, into_option, NaiveDateTime,
}
use data_proxy.Structs.Messages.{
  InternalRelationVariant, belongs_to, version, other, RelationDirection, inbound, outbound,
  InternalRelation, Relation, external, internal, GrpcResource, eq_relation, eq_version, Sets,
  no_relations, typed_relation, add_internal, add_relation, add_relations, endpoints_of,
  object_from,
}
use data_proxy.Structs.Messages.Relations.{
  Holds, Holds-into_option, contains-insert_set, HasBelonging, side-add_relations,
}

module _ (from_str : Text → Result DieselUlid) (from_timestamp : ℤ → ℕ → Option NaiveDateTime) where
  -- An entry of the message's relations that is a version, in the direction that says which.
  abbrev pub IsVersion : Option Relation → VersionVariant → Type 0
  IsVersion none x = ⊥
  IsVersion (some external) x = ⊥
  IsVersion (some (internal int)) (VersionVariant.has_version id) =
      (int.defined_variant ≡ version)
      × (int.direction ≡ inbound)
      × (from_str int.resource_id ≡ ok id)
  IsVersion (some (internal int)) (VersionVariant.is_version id) =
      (int.defined_variant ≡ version)
      × (int.direction ≡ outbound)
      × (from_str int.resource_id ≡ ok id)

  abbrev pub HasVersion : List (Option Relation) → VersionVariant → Type 0
  HasVersion [] x = ⊥
  HasVersion (rel ∷ rest) x = IsVersion rel x ⊎ HasVersion rest x

  -- Such an entry is of the variant and of one of the two directions.
  IsVersion-variant :
      (int : InternalRelation) (x : VersionVariant)
      → IsVersion (some (internal int)) x
      → (int.defined_variant ≡ version) × (int.direction ≢ RelationDirection.unspecified)
  IsVersion-variant int (VersionVariant.has_version id) h = ground arith
  IsVersion-variant int (VersionVariant.is_version id) h = ground arith

  IsVersion-inbound :
      (int : InternalRelation) (i : DieselUlid) (x : VersionVariant)
      → int.defined_variant ≡ version
      → int.direction ≡ inbound
      → from_str int.resource_id ≡ ok i
      → IsVersion (some (internal int)) x ↔ (VersionVariant.has_version i ≡ x)
  IsVersion-inbound int i (VersionVariant.has_version id) p q a = ground arith
  IsVersion-inbound int i (VersionVariant.is_version id) p q a = ground arith

  IsVersion-outbound :
      (int : InternalRelation) (i : DieselUlid) (x : VersionVariant)
      → int.defined_variant ≡ version
      → int.direction ≡ outbound
      → from_str int.resource_id ≡ ok i
      → IsVersion (some (internal int)) x ↔ (VersionVariant.is_version i ≡ x)
  IsVersion-outbound int i (VersionVariant.has_version id) p q a = ground arith
  IsVersion-outbound int i (VersionVariant.is_version id) p q a = ground arith

  version-add_internal :
      (int : InternalRelation) (sets out : Sets) (v : InternalRelationVariant)
      (d : RelationDirection) (x : VersionVariant)
      → int.defined_variant ≡ v
      → int.direction ≡ d
      → add_internal from_str from_timestamp int sets v d ≡ ok out
      → (contains out.version x ≡ true)
        ↔ ((contains sets.version x ≡ true) ⊎ IsVersion (some (internal int)) x)
  unfolding add_internal
  version-add_internal int sets out belongs_to RelationDirection.unspecified x p q h =
      ground (arith, IsVersion-variant int x)
  version-add_internal int sets out belongs_to inbound x p q h =
      let (t, a, made) =
        >>=-eq-ok (typed_relation from_str from_timestamp (internal int))
          (λ t. ok (record sets { inbound = insert_set sets.inbound t })) h in
      ground (arith, IsVersion-variant int x)
  version-add_internal int sets out belongs_to outbound x p q h =
      let (t, a, made) =
        >>=-eq-ok (typed_relation from_str from_timestamp (internal int))
          (λ t. ok (record sets { outbound = insert_set sets.outbound t })) h in
      ground (arith, IsVersion-variant int x)
  version-add_internal int sets out version RelationDirection.unspecified x p q h =
      ground (arith, IsVersion-variant int x)
  version-add_internal int sets out version inbound x p q h =
      let (i, a, made) =
        >>=-eq-ok (from_str int.resource_id)
          (λ id.
            ok (record sets { version = insert_set sets.version (VersionVariant.has_version id) }))
          h in
      ground (
        arith,
        contains-insert_set sets.version (VersionVariant.has_version i) x,
        IsVersion-inbound int i x p q a,
      )
  version-add_internal int sets out version outbound x p q h =
      let (i, a, made) =
        >>=-eq-ok (from_str int.resource_id)
          (λ id.
            ok (record sets { version = insert_set sets.version (VersionVariant.is_version id) }))
          h in
      ground (
        arith,
        contains-insert_set sets.version (VersionVariant.is_version i) x,
        IsVersion-outbound int i x p q a,
      )
  version-add_internal int sets out other d x p q h = ground (arith, IsVersion-variant int x)

  version-add_relation :
      (sets out : Sets) (rel : Option Relation) (x : VersionVariant)
      → add_relation from_str from_timestamp sets rel ≡ ok out
      → (contains out.version x ≡ true) ↔ ((contains sets.version x ≡ true) ⊎ IsVersion rel x)
  unfolding add_relation
  version-add_relation sets out none x h = ground arith
  version-add_relation sets out (some external) x h = ground arith
  version-add_relation sets out (some (internal int)) x h =
      version-add_internal int sets out int.defined_variant int.direction x refl refl h

  version-add_relations :
      (l : List (Option Relation)) (sets out : Sets) (x : VersionVariant)
      → add_relations from_str from_timestamp sets l ≡ ok out
      → (contains out.version x ≡ true) ↔ ((contains sets.version x ≡ true) ⊎ HasVersion l x)
  unfolding add_relations
  version-add_relations [] sets out x h = ground arith
  version-add_relations (rel ∷ rest) sets out x h =
      let (mid, a, b) =
        >>=-eq-ok (add_relation from_str from_timestamp sets rel)
          (λ after. add_relations from_str from_timestamp after rest) h in
      ground (arith, version-add_relation sets mid rel x a, version-add_relations rest mid out x b)

  -- What a converted object has of its relations.
  relations_of :
      (t : ObjectType) (value : GrpcResource) (o : Object)
      → object_from from_str from_timestamp t value ≡ ok o
      → (sets : Sets) × (add_relations from_str from_timestamp no_relations value.relations
          ≡ ok sets)
        × (o.parents ≡ into_option sets.inbound)
        × (o.children ≡ into_option sets.outbound)
        × (o.versions ≡ into_option sets.version)
        × (o.object_type ≡ t)
        × (from_str value.id ≡ ok o.id)
  unfolding object_from
  relations_of t value o h =
      let (sets, a, h1) =
        >>=-eq-ok (add_relations from_str from_timestamp no_relations value.relations) _ h in
      let (id, b, h2) = >>=-eq-ok (from_str value.id) _ h1 in
      let (es, c, h3) = >>=-eq-ok (endpoints_of from_str from_timestamp value.endpoints) _ h2 in
      let (by, d, h4) = >>=-eq-ok (from_str value.created_by) _ h3 in
      (sets, a, ground arith, ground arith, ground arith, ground arith, ground arith)

  -- A resource converted from its message has the type of the message's kind and the message's
  -- identifier; its parents and its children are exactly what the inbound and the outbound
  -- relations of belonging convert to, and its versions exactly those that the version relations
  -- name, inbound ones as HasVersion and outbound ones as IsVersion.
  pub object_from-relations :
      (t : ObjectType) (value : GrpcResource) {o : Object}
      → object_from from_str from_timestamp t value ≡ ok o
      → (o.object_type ≡ t)
        × (from_str value.id ≡ ok o.id)
        × ((r : TypedRelation)
            → Holds o.parents r ↔ HasBelonging from_str from_timestamp inbound value.relations r)
        × ((r : TypedRelation)
            → Holds o.children r ↔ HasBelonging from_str from_timestamp outbound value.relations r)
        × ((x : VersionVariant) → Holds o.versions x ↔ HasVersion value.relations x)
  object_from-relations t value {o} h =
      let (sets, a, ps, cs, vs, typed, id) = relations_of t value o h in
      (
        typed,
        id,
        (λ r. rw ps (
            ground (
              arith,
              Holds-into_option sets.inbound r,
              side-add_relations from_str from_timestamp value.relations no_relations sets inbound r
                  (ground arith) a,
            ))),
        (λ r. rw cs (
            ground (
              arith,
              Holds-into_option sets.outbound r,
              side-add_relations from_str from_timestamp value.relations no_relations sets outbound
                  r (ground arith) a,
            ))),
        λ x. rw vs (
            ground (
              arith,
              Holds-into_option sets.version x,
              version-add_relations value.relations no_relations sets x a,
            )),
      )
