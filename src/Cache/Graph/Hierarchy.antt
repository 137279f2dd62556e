-- ===== src/Cache/Graph/Hierarchy.antt =====
-- caching/cache.rs: caches where parents are of a higher type, and what `get_parents` gives there.
use data_proxy.Base.{
  ℕ, ◌<◌, ◌≤◌, List, [], ◌∷◌, Option, none, some, Text, eq_nat, All, ◌≡◌, ◌≢◌, refl, sym, ◌∙◌, ap,
  subst, Option-cases, inl, inr, arith,
}
use data_proxy.Base.Map.{get}
use data_proxy.Structs.Format.{DieselUlid, ObjectLocation}
use data_proxy.Structs.Object.{
  Object, ObjectType, TypedRelation, relation_id, TypedId, id_of, typed_id,
}
use data_proxy.Cache.Graph.{Resources, collect_related, parents_of, get_parents}

-- The place of a type in the hierarchy, from the project down.
abbrev pub type_rank : ObjectType → ℕ
type_rank ObjectType.project = 0
type_rank ObjectType.collection = 1
type_rank ObjectType.dataset = 2
type_rank ObjectType.object = 3

abbrev pub rank_of : Resources → DieselUlid → ℕ
rank_of resources id = elim (get resources id) [
  | none ↦ 0
  | some entry ↦ type_rank entry.0.object_type
]

abbrev pub relations_of : Option (List TypedRelation) → List TypedRelation
relations_of none = []
relations_of (some relations) = relations

-- Each resource is stored under its identifier, and each of its parents is of a higher type.
abbrev pub Hierarchical : Resources → Type 0
Hierarchical resources =
    (id : DieselUlid) (o : Object) (location : Option ObjectLocation)
    → get resources id ≡ some (o, location)
    → (o.id ≡ id)
      × All (λ (r : TypedRelation). rank_of resources (relation_id r) < type_rank o.object_type)
          (relations_of o.parents)

-- A named and typed resource of the cache.
abbrev pub Stored : Resources → Text × TypedId → Type 0
Stored resources (name, id) =
    (o : Object) × (location : Option ObjectLocation) × (get resources (id_of id)
      ≡ some (o, location))
    × (o.name ≡ name)
    × (typed_id o ≡ id)

abbrev pub Above : Resources → ℕ → Text × TypedId → Type 0
Above resources n (name, id) = Stored resources (name, id) × (rank_of resources (id_of id) < n)

pub type_rank_small : (t : ObjectType) → type_rank t ≤ 3
type_rank_small t = ground arith

pub rank_of_small : (resources : Resources) (id : DieselUlid) → rank_of resources id ≤ 3
rank_of_small resources id = elim (Option-cases (get resources id)) [
  | inl e ↦ rw (rank_of, e) (omega arith)
  | inr (entry, e) ↦ rw (rank_of, e) (type_rank_small entry.0.object_type)
]

pub rank_of-stored :
    (resources : Resources) (id : DieselUlid) (o : Object) (location : Option ObjectLocation)
    → get resources id ≡ some (o, location)
    → rank_of resources id ≡ type_rank o.object_type
rank_of-stored resources id o location h = rw (rank_of, h) refl

pub id_of-typed_id : (o : Object) → id_of (typed_id o) ≡ o.id
unfolding id_of typed_id
id_of-typed_id o = ground arith

-- What `get_parents` and `collect_related` may give.
abbrev Collected : Resources → ℕ → Option (List (Text × TypedId)) → Type 0
Collected resources n none = Unit
Collected resources n (some found) = All (Above resources n) found

entry-Above :
    (resources : Resources) (n : ℕ) (id : DieselUlid) (o : Object)
    (location : Option ObjectLocation)
    → Hierarchical resources
    → rank_of resources id < n
    → get resources id ≡ some (o, location)
    → Above resources n (o.name, typed_id o)
entry-Above resources n id o location w low h =
    let same = id_of-typed_id o ∙ (w id o location h).0 in
    (
      (o, location, ap (get resources) same ∙ h, refl, refl),
      subst (λ i. rank_of resources i < n) (sym same) low,
    )

related-Collected :
    (resources : Resources) (n : ℕ) (relations : List TypedRelation)
    → Hierarchical resources
    → All (λ (r : TypedRelation). rank_of resources (relation_id r) < n) relations
    → Collected resources n (collect_related resources relations)
unfolding collect_related
related-Collected resources n [] w a = tt
related-Collected resources n (r ∷ relations) w (low, a) =
    begin (get resources (relation_id r)) refl (related-Collected resources n relations w a)
  where
    joined :
        (x : Text × TypedId) (rest : Option (List (Text × TypedId)))
        → Above resources n x
        → Collected resources n rest
        → Collected resources n (elim rest [ none ↦ none | some collected ↦ some (x ∷ collected) ])
    joined x none b c = tt
    joined x (some collected) b c = (b, c)

    begin :
        (entry : Option (Object × Option ObjectLocation))
        → get resources (relation_id r) ≡ entry
        → Collected resources n (collect_related resources relations)
        → Collected resources n (collect_related resources (r ∷ relations))
    begin none h later = rw (collect_related, h) tt
    begin (some (o, location)) h later =
        rw (collect_related, h)
          (joined (o.name, typed_id o) (collect_related resources relations)
            (entry-Above resources n (relation_id r) o location w low h) later)

parents-Collected :
    (resources : Resources) (id : DieselUlid)
    → Hierarchical resources
    → Collected resources (rank_of resources id) (get_parents resources id)
unfolding get_parents parents_of
parents-Collected resources id w = begin (get resources id) refl
  where
    of_parents :
        (n : ℕ) (parents : Option (List TypedRelation))
        → All (λ (r : TypedRelation). rank_of resources (relation_id r) < n) (relations_of parents)
        → Collected resources n (parents_of resources parents)
    of_parents n none a = tt
    of_parents n (some []) a = tt
    of_parents n (some (r ∷ relations)) a = related-Collected resources n (r ∷ relations) w a

    begin :
        (entry : Option (Object × Option ObjectLocation))
        → get resources id ≡ entry
        → Collected resources (rank_of resources id) (get_parents resources id)
    begin none h = rw (get_parents, h) tt
    begin (some (o, location)) h =
        rw (get_parents, rank_of, h)
          (of_parents (type_rank o.object_type) o.parents (w id o location h).1)

-- What `get_parents` gives is above the resource and not empty.
pub get_parents-Above :
    (resources : Resources) (id : DieselUlid) (found : List (Text × TypedId))
    → Hierarchical resources
    → get_parents resources id ≡ some found
    → All (Above resources (rank_of resources id)) found
get_parents-Above resources id found w h =
    subst (Collected resources (rank_of resources id)) h (parents-Collected resources id w)

abbrev NotNil : Option (List (Text × TypedId)) → Type 0
NotNil none = Unit
NotNil (some []) = ⊥
NotNil (some (x ∷ found)) = Unit

get_parents-NotNil : (resources : Resources) (id : DieselUlid) → NotNil (get_parents resources id)
unfolding get_parents parents_of collect_related
get_parents-NotNil resources id = begin (get resources id) refl
  where
    joined :
        (x : Text × TypedId) (rest : Option (List (Text × TypedId)))
        → NotNil (elim rest [ none ↦ none | some collected ↦ some (x ∷ collected) ])
    joined x none = tt
    joined x (some collected) = tt

    first :
        (entry : Option (Object × Option ObjectLocation)) (rest : Option (List (Text × TypedId)))
        → NotNil (elim entry [
          | none ↦ none
          | some e ↦ elim rest [
            | none ↦ none
            | some collected ↦ some ((e.0.name, typed_id e.0) ∷ collected)
          ]
        ])
    first none rest = tt
    first (some e) rest = joined (e.0.name, typed_id e.0) rest

    of_parents : (parents : Option (List TypedRelation)) → NotNil (parents_of resources parents)
    of_parents none = tt
    of_parents (some []) = tt
    of_parents (some (r ∷ relations)) =
        first (get resources (relation_id r)) (collect_related resources relations)

    begin :
        (entry : Option (Object × Option ObjectLocation))
        → get resources id ≡ entry
        → NotNil (get_parents resources id)
    begin none h = rw (get_parents, h) tt
    begin (some (o, location)) h = rw (get_parents, h) (of_parents o.parents)

pub get_parents-apart :
    (resources : Resources) (id : DieselUlid) → get_parents resources id ≢ some []
get_parents-apart resources id h = subst NotNil h (get_parents-NotNil resources id)
