-- ===== src/Structs/Messages/Relations.antt =====
-- structs.rs: which members the loop over the relations adds to the sets of parents and children.
use data_proxy.Base.{
  ℕ, true, List, [], ◌∷◌, Option, none, some, Text, Eq, ◌≡◌, ◌≢◌, ◌↔◌, ◌⊎◌, inl, inr, arith, Result,
  ok, >>=-eq-ok, contains, Bool-cases,
}
use data_proxy.Base.Int.{ℤ}
use data_proxy.Structs.Format.{DieselUlid}
use data_proxy.Structs.Object.{
  TypedRelation, VersionVariant, HashSet, insert_set, into_option, NaiveDateTime,
}
use data_proxy.Structs.Messages.{
  InternalRelationVariant, belongs_to, version, other, RelationDirection, inbound, outbound,
  InternalRelation, Relation, external, internal, eq_relation, eq_version, Sets, typed_relation,
  add_internal, add_relation, add_relations,
}

-- Membership in an optional set, as the fields of `Object` hold it.
abbrev pub Holds : {A : Type 0} ⦃e : Eq A⦄ → Option (HashSet A) → A → Type 0
Holds none a = ⊥
Holds (some s) a = contains s a ≡ true

pub Holds-into_option :
    {A : Type 0} ⦃e : Eq A⦄ (s : HashSet A) (a : A)
    → Holds (into_option s) a ↔ (contains s a ≡ true)
unfolding into_option
Holds-into_option [] a = ground arith
Holds-into_option (x ∷ s) a = ((λ h. h), λ h. h)

contains_same : {A : Type 0} ⦃e : Eq A⦄ (s : List A) (a x : A) → a ≡ x → contains s a ≡ contains s x
contains_same s a x h = cc

pub contains-insert_set :
    {A : Type 0} ⦃e : Eq A⦄ (s : HashSet A) (a x : A)
    → (contains (insert_set s a) x ≡ true) ↔ ((contains s x ≡ true) ⊎ (a ≡ x))
contains-insert_set ⦃e⦄ s a x = elim (Bool-cases (contains s a)) [
  | inl old ↦ ground (arith, contains_same s a x)
  | inr fresh ↦ ground (arith, e.same_iff a x)
]

module _ (from_str : Text → Result DieselUlid) (from_timestamp : ℤ → ℕ → Option NaiveDateTime) where
  -- An entry of the message's relations: a relation of belonging in the given direction, converted.
  abbrev pub IsBelonging : RelationDirection → Option Relation → TypedRelation → Type 0
  IsBelonging d none r = ⊥
  IsBelonging d (some external) r = ⊥
  IsBelonging d (some (internal int)) r =
      (int.defined_variant ≡ belongs_to)
      × (int.direction ≡ d)
      × (typed_relation from_str from_timestamp (internal int) ≡ ok r)

  abbrev pub HasBelonging : RelationDirection → List (Option Relation) → TypedRelation → Type 0
  HasBelonging d [] r = ⊥
  HasBelonging d (rel ∷ rest) r = IsBelonging d rel r ⊎ HasBelonging d rest r

  -- The set for a direction.
  abbrev pub side : RelationDirection → Sets → HashSet TypedRelation
  side inbound sets = sets.inbound
  side outbound sets = sets.outbound
  side RelationDirection.unspecified sets = []

  side-belongs :
      (int : InternalRelation) (sets out : Sets) (d e : RelationDirection) (r : TypedRelation)
      → add_internal from_str from_timestamp int sets belongs_to d ≡ ok out
      → (contains (side e out) r ≡ true) ↔ (
          (contains (side e sets) r ≡ true)
          ⊎ ((d ≡ e)
              × (e ≢ RelationDirection.unspecified)
              × (typed_relation from_str from_timestamp (internal int) ≡ ok r)))
  unfolding add_internal
  side-belongs int sets out RelationDirection.unspecified e r h = ground arith
  side-belongs int sets out inbound e r h =
      let (q, typed, made) =
        >>=-eq-ok (typed_relation from_str from_timestamp (internal int))
          (λ q. ok (record sets { inbound = insert_set sets.inbound q })) h in
      ground (arith, contains-insert_set sets.inbound q r)
  side-belongs int sets out outbound e r h =
      let (q, typed, made) =
        >>=-eq-ok (typed_relation from_str from_timestamp (internal int))
          (λ q. ok (record sets { outbound = insert_set sets.outbound q })) h in
      ground (arith, contains-insert_set sets.outbound q r)

  side-version :
      (int : InternalRelation) (sets out : Sets) (d e : RelationDirection)
      → add_internal from_str from_timestamp int sets version d ≡ ok out
      → side e out ≡ side e sets
  unfolding add_internal
  side-version int sets out RelationDirection.unspecified e h = ground arith
  side-version int sets out inbound e h =
      let (q, a, made) =
        >>=-eq-ok (from_str int.resource_id)
          (λ id.
            ok (record sets { version = insert_set sets.version (VersionVariant.has_version id) }))
          h in
      ground arith
  side-version int sets out outbound e h =
      let (q, a, made) =
        >>=-eq-ok (from_str int.resource_id)
          (λ id.
            ok (record sets { version = insert_set sets.version (VersionVariant.is_version id) }))
          h in
      ground arith

  side-add_internal :
      (int : InternalRelation) (sets out : Sets) (v : InternalRelationVariant)
      (d e : RelationDirection) (r : TypedRelation)
      → e ≢ RelationDirection.unspecified
      → add_internal from_str from_timestamp int sets v d ≡ ok out
      → (contains (side e out) r ≡ true) ↔ (
          (contains (side e sets) r ≡ true)
          ⊎ ((v ≡ belongs_to)
              × (d ≡ e)
              × (typed_relation from_str from_timestamp (internal int) ≡ ok r)))
  unfolding add_internal
  side-add_internal int sets out belongs_to d e r n h =
      ground (arith, side-belongs int sets out d e r h)
  side-add_internal int sets out version d e r n h = ground (arith, side-version int sets out d e h)
  side-add_internal int sets out other d e r n h = ground arith

  side-add_relation :
      (sets out : Sets) (rel : Option Relation) (e : RelationDirection) (r : TypedRelation)
      → e ≢ RelationDirection.unspecified
      → add_relation from_str from_timestamp sets rel ≡ ok out
      → (contains (side e out) r ≡ true) ↔ ((contains (side e sets) r ≡ true) ⊎ IsBelonging e rel r)
  unfolding add_relation
  side-add_relation sets out none e r n h = ground arith
  side-add_relation sets out (some external) e r n h = ground arith
  side-add_relation sets out (some (internal int)) e r n h =
      side-add_internal int sets out int.defined_variant int.direction e r n h

  pub side-add_relations :
      (l : List (Option Relation)) (sets out : Sets) (e : RelationDirection) (r : TypedRelation)
      → e ≢ RelationDirection.unspecified
      → add_relations from_str from_timestamp sets l ≡ ok out
      → (contains (side e out) r ≡ true) ↔ ((contains (side e sets) r ≡ true) ⊎ HasBelonging e l r)
  unfolding add_relations
  side-add_relations [] sets out e r n h = ground arith
  side-add_relations (rel ∷ rest) sets out e r n h =
      let (mid, a, b) =
        >>=-eq-ok (add_relation from_str from_timestamp sets rel)
          (λ after. add_relations from_str from_timestamp after rest) h in
      ground
        (arith, side-add_relation sets mid rel e r n a, side-add_relations rest mid out e r n b)
