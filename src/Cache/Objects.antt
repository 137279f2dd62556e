-- ===== src/Cache/Objects.antt =====
-- caching/cache.rs: `upsert_object`, `update_object_name`, `delete_object`. The transactions of the
-- database and the deletion of the data are parameters: whether they succeed.
pub mod Stale
pub mod Ordered
pub mod Reachable
pub mod Stored
use data_proxy.Base.{
  ℕ, Bool, true, false, not, ◌&&◌, List, [], ◌∷◌, ◌++◌, Option, none, some, Text, nat_eq, eq_nat,
  eq_text, ◌==◌, slash, text_le, if◌then◌else◌, Result, ok, err, anyhow,
}
use data_proxy.Base.Map.{Map, get, insert, remove}
use data_proxy.Structs.Format.{DieselUlid, ObjectLocation}
use data_proxy.Structs.Object.{Object, ObjectType, TypedRelation, TypedId, typed_id, type_eq}
use data_proxy.Cache.{Cache}
use data_proxy.Cache.Graph.{get_prefixes, get_name_trees}

-- `SkipMap::insert`, which keeps the order of the keys.
unfoldable pub insert_path : List (Text × DieselUlid) → Text → DieselUlid → List (Text × DieselUlid)
insert_path [] path id = (path, id) ∷ []
insert_path ((key, value) ∷ paths) path id =
    let rest = insert_path paths path id in
    if key == path
    then (path, id) ∷ paths
    else if text_le path key
    then (path, id) ∷ (key, value) ∷ paths
    else (key, value) ∷ rest

unfoldable pub below_paths : Text → List (TypedId × Text) → List Text
below_paths name [] = []
below_paths name ((id, pre) ∷ prefixes) = (pre ++ slash ∷ name) ∷ below_paths name prefixes

unfoldable pub remove_paths : List (Text × DieselUlid) → List Text → List (Text × DieselUlid)
remove_paths paths [] = paths
remove_paths paths (p ∷ rest) = remove_paths (remove paths p) rest

unfoldable pub insert_paths :
    List (Text × DieselUlid) → DieselUlid → List Text → List (Text × DieselUlid)
unfolding insert_path
insert_paths paths id [] = paths
insert_paths paths id (p ∷ rest) = insert_paths (insert_path paths p id) id rest

-- The loop of `update_object_name`, over pairs of an old and a new path.
unfoldable pub rename_paths :
    List (Text × DieselUlid) → List Text → List Text → List (Text × DieselUlid)
unfolding insert_path
rename_paths paths [] new = paths
rename_paths paths (o ∷ old) [] = paths
rename_paths paths (o ∷ old) (n ∷ new) = elim (get paths o) [
  | none ↦ rename_paths (remove paths o) old new
  | some id ↦ rename_paths (insert_path (remove paths o) n id) old new
]

unfoldable pub update_object_name : ℕ → TypedId → Text → Text → Cache → Option Cache
unfolding rename_paths get_name_trees
update_object_name fuel object_id old_name new_name cache =
    elim (get_name_trees cache.resources fuel object_id old_name (some new_name)) [
      | none ↦ none
      | some (old_paths, none) ↦
          some (record cache { paths = rename_paths cache.paths old_paths [] })
      | some (old_paths, some new_paths) ↦
          some (record cache { paths = rename_paths cache.paths old_paths new_paths })
    ]

abbrev pub no_parents : Option (List TypedRelation) → Bool
no_parents none = true
no_parents (some []) = true
no_parents (some (r ∷ relations)) = false

abbrev pub is_project : Object → Bool
is_project object = type_eq object.object_type ObjectType.project

-- The paths of the object itself, by its prefixes.
unfoldable pub place_object :
    Object → List (TypedId × Text) → List (Text × DieselUlid) → List (Text × DieselUlid)
unfolding below_paths remove_paths insert_paths
place_object object prefixes paths =
    if no_parents object.parents && not (is_project object)
    then remove_paths paths (below_paths object.name prefixes)
    else insert_paths paths object.id (below_paths object.name prefixes)

unfoldable pub place_project :
    Object → List (TypedId × Text) → List (Text × DieselUlid) → List (Text × DieselUlid)
unfolding insert_path
place_project object [] paths =
    if is_project object then insert_path paths object.name object.id else paths
place_project object (p ∷ prefixes) paths = paths

-- The entry of the object: its location stays, and the old name is kept for later.
unfoldable pub store_object : Object → Cache → Text × Cache
store_object object cache = elim (get cache.resources object.id) [
  | some (old, location) ↦
      (old.name, record cache { resources = insert cache.resources object.id (object, location) })
  | none ↦
      (object.name, record cache { resources = insert cache.resources object.id (object, none) })
]

unfoldable pub upsert_stored : ℕ → Object → Text → Cache → Option Cache
unfolding place_object place_project update_object_name
upsert_stored fuel object old_name cache =
    elim (get_prefixes cache.resources false fuel (TypedId.unknown object.id)) [
      | none ↦ none
      | some prefixes ↦
          let placed = record cache {
            paths = place_project object prefixes (place_object object prefixes cache.paths);
          } in
          if old_name == object.name
          then some placed
          else update_object_name fuel (typed_id object) old_name object.name placed
    ]

unfoldable pub upsert_object :
    (Object → Result (Unit {0})) → ℕ → Object → Cache → Option (Result (Unit {0}) × Cache)
unfolding store_object upsert_stored
upsert_object transaction fuel object cache = elim (transaction object) [
  | err e ↦ some (err e, cache)
  | ok _ ↦
      let (old_name, stored) = store_object object cache in
      elim (upsert_stored fuel object old_name stored) [
        | none ↦ none
        | some placed ↦ some (ok tt, placed)
      ]
]

-- The data of the entry's location is deleted before the entry.
unfoldable pub delete_data :
    (ObjectLocation → Result (Unit {0}))
    → Option (Object × Option ObjectLocation)
    → Result (Unit {0})
delete_data delete none = ok tt
delete_data delete (some (object, none)) = ok tt
delete_data delete (some (object, some location)) = delete location

unfoldable pub remove_entry :
    ℕ
    → DieselUlid
    → Option (Object × Option ObjectLocation)
    → Cache
    → Option (Result (Unit {0}) × Cache)
unfolding get_name_trees remove_paths
remove_entry fuel id none cache = some (err (anyhow "Resource not found"), cache)
remove_entry fuel id (some (object, location)) cache =
    let removed = record cache { resources = remove cache.resources id } in
    elim (get_name_trees removed.resources fuel (typed_id object) object.name none) [
      | none ↦ none
      | some (old_paths, new_paths) ↦
          some (ok tt, record removed { paths = remove_paths removed.paths old_paths })
    ]

unfoldable pub delete_object :
    (DieselUlid → Result (Unit {0}))
    → (ObjectLocation → Result (Unit {0}))
    → ℕ
    → DieselUlid
    → Cache
    → Option (Result (Unit {0}) × Cache)
unfolding delete_data remove_entry
delete_object transaction delete fuel id cache = elim (transaction id) [
  | err e ↦ some (err e, cache)
  | ok _ ↦ elim (delete_data delete (get cache.resources id)) [
    | err e ↦ some (err e, cache)
    | ok _ ↦ remove_entry fuel id (get cache.resources id) cache
  ]
]
