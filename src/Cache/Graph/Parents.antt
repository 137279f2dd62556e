-- ===== src/Cache/Graph/Parents.antt =====
-- caching/cache.rs: the line of parents of a resource, in a cache where parents are of a higher type.
use data_proxy.Base.{
  ℕ, zero, suc, ◌<◌, [], ◌∷◌, Option, none, some, Text, eq_nat, ok, ◌≡◌, refl, ◌∙◌, subst,
  Option-cases, inl, inr, arith,
}
use data_proxy.Base.Map.{get}
use data_proxy.Structs.Format.{DieselUlid, ObjectLocation}
use data_proxy.Structs.Object.{Object, ObjectType, TypedId, id_of, typed_id}
use data_proxy.Cache.{Cache, get_resource_name, get_resource}
use data_proxy.Cache.Graph.{Resources, get_parents, Lineage, enter_parent, climb, get_single_parent}
use data_proxy.Cache.Graph.Hierarchy.{
  type_rank, rank_of, Hierarchical, Above, rank_of-stored, rank_of_small, get_parents-Above,
  get_parents-apart,
}

-- A place of the line: a resource of the cache of this place's type.
abbrev Placed : Resources → ObjectType → Option (DieselUlid × Text) → Type 0
Placed resources t none = Unit
Placed resources t (some (id, name)) =
    (o : Object) × (location : Option ObjectLocation) × (get resources id ≡ some (o, location))
    × (o.name ≡ name)
    × (o.object_type ≡ t)

abbrev pub IsLineage : Resources → Lineage → Type 0
IsLineage resources l =
    Placed resources ObjectType.project l.project
    × Placed resources ObjectType.collection l.collection
    × Placed resources ObjectType.dataset l.dataset

-- The parent is entered at its type's place; it is no object, being above something.
enter_parent-IsLineage :
    (resources : Resources) (l : Lineage) (name : Text) (id : TypedId)
    → IsLineage resources l
    → Above resources 3 (name, id)
    → (next : Lineage) × (enter_parent l name id ≡ ok (next, id_of id))
      × (next.object ≡ l.object)
      × IsLineage resources next
unfolding enter_parent id_of typed_id
enter_parent-IsLineage resources l name (TypedId.project id) (p, c, d)
      ((o, location, h, n, t), low) =
    (
      record l { project = some (id, name) },
      refl,
      refl,
      ((o, location, h, n, ground (arith, t)), c, d),
    )
enter_parent-IsLineage resources l name (TypedId.collection id) (p, c, d)
      ((o, location, h, n, t), low) =
    (
      record l { collection = some (id, name) },
      refl,
      refl,
      (p, (o, location, h, n, ground (arith, t)), d),
    )
enter_parent-IsLineage resources l name (TypedId.dataset id) (p, c, d)
      ((o, location, h, n, t), low) =
    (
      record l { dataset = some (id, name) },
      refl,
      refl,
      (p, c, (o, location, h, n, ground (arith, t))),
    )
enter_parent-IsLineage resources l name (TypedId.object id) (p, c, d)
      ((o, location, h, n, t), low) =
    absurd (
      too_low o (ground (arith, t))
        (subst (λ n. n < 3) (rank_of-stored resources id o location h) low))
  where
    too_low : (o : Object) → o.object_type ≡ ObjectType.object → type_rank o.object_type < 3 → ⊥
    too_low o e low = absurd (omega (arith, subst (λ t. type_rank t < 3) e low))
enter_parent-IsLineage resources l name (TypedId.unknown id) (p, c, d)
      ((o, location, h, n, t), low) =
    ground (arith, t)

-- With more rounds than the resource's rank the climb ends, with a line of stored resources.
climb-IsLineage :
    (resources : Resources) (n : ℕ) (id : DieselUlid) (l : Lineage)
    → Hierarchical resources
    → rank_of resources id < n
    → IsLineage resources l
    → (r : Lineage) × (climb resources n id l ≡ some (ok r))
      × (r.object ≡ l.object)
      × IsLineage resources r
unfolding climb
climb-IsLineage resources zero id l w h i = absurd (omega (arith, h))
climb-IsLineage resources (suc n) id l w h i = elim (Option-cases (get_parents resources id)) [
  | inl e ↦ (l, rw (climb, e) refl, refl, i)
  | inr ([], e) ↦ absurd (get_parents-apart resources id e)
  | inr ((name, parent) ∷ others, e) ↦
      (let ((stored, low), rest) = get_parents-Above resources id ((name, parent) ∷ others) w e in
        let (next, entered, same, j) =
          enter_parent-IsLineage resources l name parent i
            (stored, omega (arith, low, rank_of_small resources id)) in
        let (r, climbed, kept, k) =
          climb-IsLineage resources n (id_of parent) next w (omega (arith, low, h)) j in
        (r, rw (climb, e) (rw entered climbed), kept ∙ same, k))
]

-- In such a cache, get_single_parent ends after at most four rounds for every resource of the
-- cache and without error, with the resource's identifier and name in the last place, and in each
-- of the other places, if it is filled, the identifier and the name of a resource of this place's
-- type.
pub get_single_parent-IsLineage :
    (cache : Cache) (id : DieselUlid) (o : Object) (location : Option ObjectLocation)
    → Hierarchical cache.resources
    → get cache.resources id ≡ some (o, location)
    → (l : Lineage) × (get_single_parent cache 4 id ≡ some (ok l))
      × (l.object ≡ some (id, o.name))
      × IsLineage cache.resources l
unfolding get_single_parent get_resource_name get_resource
get_single_parent-IsLineage cache id o location w h =
    let (l, climbed, same, i) =
      climb-IsLineage cache.resources 4 id
        (record { project = none; collection = none; dataset = none; object = some (id, o.name) }) w
        (omega (arith, rank_of_small cache.resources id)) (tt, tt, tt) in
    (l, rw (get_single_parent, get_resource_name, get_resource, h) climbed, same, i)
