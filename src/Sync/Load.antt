-- ===== src/Sync/Load.antt =====
-- caching/cache.rs: how `sync_with_persistence` enters the resources of the database and their paths.
use data_proxy.Base.{
  List, [], ◌∷◌, ◌++◌, Option, none, some, Text, slash, eq_nat, Result, ok, err, anyhow,
}
use data_proxy.Base.Map.{Map, get, insert}
use data_proxy.Structs.Format.{DieselUlid}
use data_proxy.Structs.Object.{Object, TypedRelation, relation_id}
use data_proxy.Cache.Objects.{insert_path}
use data_proxy.Sync.{sort_objects}

-- The paths by which each resource is reached, and the index of paths.
pub record Loading : Type 0 where
  pub prefixes : Map DieselUlid (List Text)
  pub paths : List (Text × DieselUlid)

unfoldable pub paths_below : Text → List Text → List Text
paths_below name [] = []
paths_below name (e ∷ prefixes) = (e ++ slash ∷ name) ∷ paths_below name prefixes

unfoldable pub index_all :
    DieselUlid → List Text → List (Text × DieselUlid) → List (Text × DieselUlid)
unfolding insert_path
index_all id [] paths = paths
index_all id (p ∷ rest) paths = index_all id rest (insert_path paths p id)

-- One parent: what it is reached by, extended by the name, becomes what the object is reached by.
unfoldable pub enter_below : Object → List Text → Loading → Loading
unfolding paths_below index_all
enter_below object above s = record {
  prefixes = insert s.prefixes object.id (paths_below object.name above);
  paths = index_all object.id (paths_below object.name above) s.paths;
}

unfoldable pub enter_parents : Object → List TypedRelation → Loading → Result (Unit {0}) × Loading
unfolding enter_below relation_id
enter_parents object [] s = (ok tt, s)
enter_parents object (parent ∷ parents) s = elim (get s.prefixes (relation_id parent)) [
  | none ↦ (err (anyhow "Expected parent for non root object"), s)
  | some above ↦ enter_parents object parents (enter_below object above s)
]

unfoldable pub enter_root : Object → Loading → Loading
unfolding insert_path
enter_root object s = record {
  prefixes = insert s.prefixes object.id (object.name ∷ []);
  paths = insert_path s.paths object.name object.id;
}

unfoldable pub enter_object :
    Object → Option (List TypedRelation) → Loading → Result (Unit {0}) × Loading
unfolding enter_parents enter_root
enter_object object none s = (ok tt, enter_root object s)
enter_object object (some []) s = (ok tt, enter_root object s)
enter_object object (some (parent ∷ parents)) s = enter_parents object (parent ∷ parents) s

unfoldable pub enter_objects : List Object → Loading → Result (Unit {0}) × Loading
unfolding enter_object
enter_objects [] s = (ok tt, s)
enter_objects (object ∷ rest) s = elim (enter_object object object.parents s).0 [
  | err e ↦ (err e, (enter_object object object.parents s).1)
  | ok _ ↦ enter_objects rest (enter_object object object.parents s).1
]

unfoldable pub load_objects : List Object → Loading → Result (Unit {0}) × Loading
unfolding enter_objects sort_objects
load_objects database_objects s = enter_objects (sort_objects database_objects) s
