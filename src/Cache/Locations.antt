-- ===== src/Cache/Locations.antt =====
-- caching/cache.rs: lookups by path, the locations of resources and their bindings, and the levels of
-- paths below resources.
use data_proxy.Base.{
  ℕ, true, List, [], ◌∷◌, ◌++◌, Option, none, some, Text, eq_nat, eq_text, nat_eq, slash,
  if◌then◌else◌, Result, ok, err, anyhow, ◌>>=◌,
}
use data_proxy.Base.Map.{get, insert}
use data_proxy.Structs.Format.{DieselUlid, ObjectLocation}
use data_proxy.Structs.Object.{Object, TypedId}
use data_proxy.Cache.{Cache, get_resource}
use data_proxy.Cache.Graph.{get_suffixes}

unfoldable pub get_resource_by_path : Cache → Text → Option DieselUlid
get_resource_by_path cache res = get cache.paths res

unfoldable pub get_full_resource_by_path : Cache → Text → Option Object
unfolding get_resource_by_path
get_full_resource_by_path cache res = elim (get_resource_by_path cache res) [
  | none ↦ none
  | some id ↦ elim (get cache.resources id) [ none ↦ none | some entry ↦ some entry.0 ]
]

unfoldable pub get_location : Cache → DieselUlid → Option ObjectLocation
get_location cache resource_id = elim (get cache.resources resource_id) [
  | none ↦ none
  | some entry ↦ entry.1
]

unfoldable pub get_location_cloned : Cache → DieselUlid → Option ObjectLocation
unfolding get_resource
get_location_cloned cache id = elim (get_resource cache id) [ ok r ↦ r.1 | err e ↦ none ]

-- The writes of the two operations below.
pub data Write : Type 0 where
  upsert_location : ObjectLocation → Write
  insert_binding : DieselUlid → DieselUlid → Write
  delete_location : DieselUlid → Write

abbrev pub bind_location : Cache → DieselUlid → Object → ObjectLocation → Cache
bind_location cache object_id object location = record cache {
  resources = insert cache.resources object_id (object, some location);
}

module _ (persist : Write → Result (Unit {0})) where
  unfoldable pub add_location_with_binding :
      DieselUlid → ObjectLocation → Cache → Result (Unit {0}) × Cache
  add_location_with_binding object_id location cache = elim (get cache.resources object_id) [
    | none ↦ (err (anyhow "Resource not found"), cache)
    | some entry ↦ (
      persist (upsert_location location) >>= λ done. persist (insert_binding object_id location.id),
      bind_location cache object_id entry.0 location,
    )
  ]

  -- The binding is replaced where the identifier of the location changes.
  unfoldable pub rebind : DieselUlid → ObjectLocation → Option ObjectLocation → Result (Unit {0})
  rebind object_id location none = persist (insert_binding object_id location.id)
  rebind object_id location (some old) =
      if nat_eq old.id location.id
      then ok tt
      else (persist (delete_location old.id) >>= λ done.
          persist (insert_binding object_id location.id))

  unfoldable pub update_location : DieselUlid → ObjectLocation → Cache → Result (Unit {0}) × Cache
  unfolding rebind
  update_location object_id location cache = elim (get cache.resources object_id) [
    | none ↦ (err (anyhow "Resource not found"), cache)
    | some entry ↦ (
      persist (upsert_location location) >>= λ done. rebind object_id location entry.1,
      bind_location cache object_id entry.0 location,
    )
  ]

-- The entries of one starting point: objects with their locations, other levels with a slash.
unfoldable pub path_levels : Cache → List (TypedId × Text) → List (Text × Option ObjectLocation)
unfolding get_location_cloned
path_levels cache [] = []
path_levels cache ((id, name) ∷ suffixes) =
    let rest = path_levels cache suffixes in
    elim id [
      | TypedId.object i ↦ (name, get_location_cloned cache i) ∷ rest
      | TypedId.project i ↦ (name ++ slash ∷ [], none) ∷ rest
      | TypedId.collection i ↦ (name ++ slash ∷ [], none) ∷ rest
      | TypedId.dataset i ↦ (name ++ slash ∷ [], none) ∷ rest
      | TypedId.unknown i ↦ (name ++ slash ∷ [], none) ∷ rest
    ]

unfoldable pub get_path_levels :
    Cache → ℕ → List DieselUlid → Option (List (Text × Option ObjectLocation))
unfolding get_suffixes path_levels
get_path_levels cache fuel [] = some []
get_path_levels cache fuel (id ∷ starting_points) =
    let rest = get_path_levels cache fuel starting_points in
    elim (get_suffixes cache.resources true fuel (TypedId.unknown id)) [
      | none ↦ none
      | some suffixes ↦ elim rest [
        | none ↦ none
        | some levels ↦ some (path_levels cache suffixes ++ levels)
      ]
    ]
