-- ===== src/Tests/Graph.antt =====
-- The theorems of Cache/Graph and Cache/Objects at concrete inputs.
use data_proxy.Base.{
  ◌<◌, [], ◌∷◌, Option, none, some, ok, Result, codes, eq_nat, eq_text, nat_eq_iff, ◌≡◌, ◌⊎◌, inl,
  inr, refl, sym, subst, arith, All,
}
use data_proxy.Base.Map.{get, insert}
use data_proxy.Structs.Format.{DieselUlid, ObjectLocation}
use data_proxy.Structs.Object.{
  Object, ObjectType, DataClass, TypedRelation, relation_id, id_of, type_eq,
}
use data_proxy.Cache.{Cache}
use data_proxy.Cache.Graph.{Resources, get_parents, Lineage, get_single_parent}
use data_proxy.Cache.Graph.Parents.{IsLineage, get_single_parent-IsLineage}
use data_proxy.Cache.Graph.Hierarchy.{Hierarchical, rank_of, type_rank, relations_of}
use data_proxy.Cache.Objects.{upsert_object, delete_object}
use data_proxy.Cache.Objects.Stale.{delete_object-paths}
use data_proxy.Cache.Objects.Reachable.{WellFormed, started, upserted, Reachable-WellFormed}
use data_proxy.Sync.Load.{load_objects}
use data_proxy.Sync.Loaded.{load_objects-fine}
use data_proxy.Tests.{sample}

-- The project "p", its collection "c" and an object "o" in this.
abbrev top : Object
top = sample 1 (codes "p") ObjectType.project DataClass.private

abbrev middle : Object
middle = record (sample 2 (codes "c") ObjectType.collection DataClass.private) {
  parents = some (TypedRelation.project 1 ∷ []);
}

abbrev bottom : Object
bottom = record (sample 4 (codes "o") ObjectType.object DataClass.private) {
  parents = some (TypedRelation.collection 2 ∷ []);
}

abbrev family : Resources
family = (1, (top, none)) ∷ (2, (middle, none)) ∷ (4, (bottom, none)) ∷ []

abbrev home : Cache
home = record {
  resources = family;
  bundles = [];
  paths = (codes "p", 1) ∷ (codes "p/c", 2) ∷ (codes "p/c/o", 4) ∷ [];
}

members :
    (id : DieselUlid) (o : Object) (location : Option ObjectLocation)
    → get family id ≡ some (o, location)
    → ((id ≡ 1) × (o ≡ top)) ⊎ ((id ≡ 2) × (o ≡ middle)) ⊎ ((id ≡ 4) × (o ≡ bottom))
unfolding get
members id o location h = ground (arith, h, nat_eq_iff 1 id, nat_eq_iff 2 id, nat_eq_iff 4 id)

-- What `Hierarchical` asks of one resource.
abbrev Higher : DieselUlid → Object → Type 0
Higher id o =
    (o.id ≡ id)
    × All (λ (r : TypedRelation). rank_of family (relation_id r) < type_rank o.object_type)
        (relations_of o.parents)

family-Hierarchical : Hierarchical family
unfolding get relation_id
family-Hierarchical id o location h = elim (members id o location h) [
  | inl (i, e) ↦ subst (λ k. Higher k o) (sym i) (subst (Higher 1) (sym e) (refl, tt))
  | inr (inl (i, e)) ↦
      subst (λ k. Higher k o) (sym i) (subst (Higher 2) (sym e) (refl, (omega arith, tt)))
  | inr (inr (i, e)) ↦
      subst (λ k. Higher k o) (sym i) (subst (Higher 4) (sym e) (refl, (omega arith, tt)))
]

get_single_parent-IsLineage_example :
    (l : Lineage) × (get_single_parent home 4 4 ≡ some (ok l))
    × (l.object ≡ some (4, codes "o"))
    × IsLineage family l
unfolding get
get_single_parent-IsLineage_example =
    get_single_parent-IsLineage home 4 bottom none family-Hierarchical refl

-- The object is deleted, and its path stays.
delete_object-paths_example :
    (r : Result (Unit {0})) × (after : Cache) × (delete_object
        (λ id. ok tt)
        (λ location. ok tt)
        1
        4
        home
      ≡ some (r, after))
    × (after.paths ≡ home.paths)
    × (r ≡ ok tt → get after.resources 4 ≡ none)
unfolding get
delete_object-paths_example =
    delete_object-paths (λ id. ok tt) (λ location. ok tt) 0 4 home
      (λ o location h. (family-Hierarchical 4 o location h).0)

-- The collection loses its parent: its path stays.
abbrev orphan : Object
orphan = record middle { parents = none }

Reachable-WellFormed_example :
    WellFormed
      (record { resources = (1, (top, none)) ∷ []; bundles = []; paths = (codes "p", 1) ∷ [] })
unfolding upsert_object get_parents get insert id_of type_eq
Reachable-WellFormed_example =
    Reachable-WellFormed
      (record { resources = (1, (top, none)) ∷ []; bundles = []; paths = (codes "p", 1) ∷ [] })
      (upserted (λ o. ok tt) 1 top (ok tt) started refl)

-- The family out of order.
load_objects-fine_example :
    (load_objects (bottom ∷ middle ∷ top ∷ []) (record { prefixes = []; paths = [] })).0 ≡ ok tt
unfolding relation_id
load_objects-fine_example =
    load_objects-fine (bottom ∷ middle ∷ top ∷ []) (record { prefixes = []; paths = [] })
      (
        ((middle, inr (inl refl), refl, omega arith), tt),
        (((top, inr (inr (inl refl)), refl, omega arith), tt), (tt, tt)),
      )
