-- ===== src/Cache/Graph.antt =====
-- caching/cache.rs: the hierarchy of the cache's resources. `none` of a walk is that its rounds did not
-- suffice; the queue of a walk is a list that is read at its front.
pub mod Hierarchy
pub mod Walks
pub mod Prefixes
pub mod Parents
use data_proxy.Base.{
  ℕ, zero, suc, Bool, true, false, List, [], ◌∷◌, ◌++◌, map, Option, none, some, Text, eq_nat,
  eq_text, slash, is_empty, if◌then◌else◌, Result, ok, err, anyhow, ok_or, ◌>>=◌,
}
use data_proxy.Base.Map.{Map, get}
use data_proxy.Structs.Format.{DieselUlid, ObjectLocation}
use data_proxy.Structs.Object.{
  Object, ObjectType, TypedRelation, relation_id, TypedId, id_of, typed_id, type_eq,
}
use data_proxy.Structs.Permission.{DbPermissionLevel, grants}
use data_proxy.Structs.States.{AccessKeyPermissions}
use data_proxy.Cache.{Cache, get_resource_name, get_resource}

-- `Cache::resources`
abbrev pub Resources : Type 0
Resources = Map DieselUlid (Object × Option ObjectLocation)

-- The name and the typed identifier of each of the relations' resources, if all are in the cache.
unfoldable pub collect_related : Resources → List TypedRelation → Option (List (Text × TypedId))
unfolding relation_id typed_id
collect_related resources [] = some []
collect_related resources (r ∷ relations) =
    let rest = collect_related resources relations in
    elim (get resources (relation_id r)) [
      | none ↦ none
      | some entry ↦ elim rest [
        | none ↦ none
        | some collected ↦ some ((entry.0.name, typed_id entry.0) ∷ collected)
      ]
    ]

-- `get_parents` on the relations of a resource: no parents are `None`.
unfoldable pub parents_of : Resources → Option (List TypedRelation) → Option (List (Text × TypedId))
unfolding collect_related
parents_of resources none = none
parents_of resources (some []) = none
parents_of resources (some (r ∷ relations)) = collect_related resources (r ∷ relations)

unfoldable pub get_parents : Resources → DieselUlid → Option (List (Text × TypedId))
unfolding parents_of
get_parents resources resource_id = elim (get resources resource_id) [
  | none ↦ none
  | some entry ↦ parents_of resources entry.0.parents
]

unfoldable pub children_of :
    Resources → Option (List TypedRelation) → Option (List (Text × TypedId))
unfolding collect_related
children_of resources none = none
children_of resources (some relations) = collect_related resources relations

unfoldable pub get_children : Resources → DieselUlid → Option (List (Text × TypedId))
unfolding children_of
get_children resources resource_id = elim (get resources resource_id) [
  | none ↦ none
  | some entry ↦ children_of resources entry.0.children
]

-- The three names above a resource that a walk has passed, the last one nearest.
pub record Visited : Type 0 where
  pub first : Option (Text × TypedId)
  pub second : Option (Text × TypedId)
  pub third : Option (Text × TypedId)

abbrev pub unvisited : Visited
unvisited = record { first = none; second = none; third = none }

-- The last free place is filled; a fourth name is left out.
unfoldable pub visit : Text × TypedId → Visited → Visited
visit parent visited = elim visited.third [
  | none ↦ record visited { third = some parent }
  | some _ ↦ elim visited.second [
    | none ↦ record visited { second = some parent }
    | some _ ↦ elim visited.first [
      | none ↦ record visited { first = some parent }
      | some _ ↦ visited
    ]
  ]
]

-- One place of the three, when a walk has come to its end: the path so far, and the results.
unfoldable pub place :
    Bool → Option (Text × TypedId) → Text × List (TypedId × Text) → Text × List (TypedId × Text)
place push none (current_path, result) = (current_path, result)
place push (some (name, id)) (current_path, result) =
    let path = (if is_empty current_path then [] else current_path ++ slash ∷ []) ++ name in
    (path, if push then result ++ (id, path) ∷ [] else result)

unfoldable pub finish : Bool → Visited → List (TypedId × Text)
unfolding place
finish with_intermediates visited =
    (place true visited.third
      (place with_intermediates visited.second (place with_intermediates visited.first ([], [])))).1

abbrev pub next_above : Visited → Text × TypedId → TypedId × Visited
next_above visited (name, id) = (id, visit (name, id) visited)

module _ (resources : Resources) (with_intermediates : Bool) where
  -- The loop of `get_prefixes`.
  unfoldable pub prefix_rounds :
      ℕ → List (TypedId × Visited) → List (TypedId × Text) → Option (List (TypedId × Text))
  unfolding visit finish
  prefix_rounds fuel [] final_result = some final_result
  prefix_rounds zero (entry ∷ prefixes) final_result = none
  prefix_rounds (suc fuel) ((id, visited) ∷ prefixes) final_result =
      elim (get_parents resources (id_of id)) [
        | some parents ↦
            prefix_rounds fuel (prefixes ++ map (next_above visited) parents) final_result
        | none ↦ prefix_rounds fuel prefixes (final_result ++ finish with_intermediates visited)
      ]

  unfoldable pub get_prefixes : ℕ → TypedId → Option (List (TypedId × Text))
  unfolding prefix_rounds
  get_prefixes fuel resource_id = prefix_rounds fuel ((resource_id, unvisited) ∷ []) []

  abbrev pub next_below : Text → Text × TypedId → TypedId × Text
  next_below name (child_name, id) = (id, name ++ slash ∷ child_name)

  -- The loop of `get_suffixes`.
  unfoldable pub suffix_rounds :
      ℕ → List (TypedId × Text) → List (TypedId × Text) → Option (List (TypedId × Text))
  suffix_rounds fuel [] final_result = some final_result
  suffix_rounds zero (entry ∷ prefixes) final_result = none
  suffix_rounds (suc fuel) ((id, name) ∷ prefixes) final_result =
      elim (get_children resources (id_of id)) [
        | some children ↦ suffix_rounds fuel (prefixes ++ map (next_below name) children) (
            if with_intermediates
            then final_result ++ map (next_below name) children
            else final_result)
        | none ↦ suffix_rounds fuel prefixes (final_result ++ (id, name) ∷ [])
      ]

  unfoldable pub get_suffixes : ℕ → TypedId → Option (List (TypedId × Text))
  unfolding suffix_rounds
  get_suffixes fuel resource_id = suffix_rounds fuel ((resource_id, []) ∷ []) []

-- The paths `pre/name` + `suf`, for all prefixes and suffixes.
unfoldable pub below_prefix : Text → Text → List (TypedId × Text) → List Text
below_prefix pre name [] = []
below_prefix pre name ((id, suf) ∷ suffixes) =
    (pre ++ slash ∷ (name ++ suf)) ∷ below_prefix pre name suffixes

unfoldable pub all_paths : Text → List (TypedId × Text) → List (TypedId × Text) → List Text
unfolding below_prefix
all_paths name [] suffixes = []
all_paths name ((id, pre) ∷ prefixes) suffixes =
    below_prefix pre name suffixes ++ all_paths name prefixes suffixes

unfoldable pub get_name_trees :
    Resources → ℕ → TypedId → Text → Option Text → Option (List Text × Option (List Text))
unfolding get_prefixes get_suffixes all_paths
get_name_trees resources fuel resource_id resource_name new_name =
    elim (get_prefixes resources false fuel resource_id) [
      | none ↦ none
      | some prefixes ↦ elim (get_suffixes resources false fuel resource_id) [
        | none ↦ none
        | some suffixes ↦ some (
          all_paths resource_name prefixes suffixes,
          elim new_name [ none ↦ none | some name ↦ some (all_paths name prefixes suffixes) ],
        )
      ]
    ]

-- The four places of `get_single_parent`.
pub record Lineage : Type 0 where
  pub project : Option (DieselUlid × Text)
  pub collection : Option (DieselUlid × Text)
  pub dataset : Option (DieselUlid × Text)
  pub object : Option (DieselUlid × Text)

-- The match on a parent's type: the entry, and the resource to go on with.
unfoldable pub enter_parent : Lineage → Text → TypedId → Result (Lineage × DieselUlid)
enter_parent result name (TypedId.dataset p_id) =
    ok (record result { dataset = some (p_id, name) }, p_id)
enter_parent result name (TypedId.collection p_id) =
    ok (record result { collection = some (p_id, name) }, p_id)
enter_parent result name (TypedId.project p_id) =
    ok (record result { project = some (p_id, name) }, p_id)
enter_parent result name (TypedId.object p_id) = err (anyhow "Unexpected parent type")
enter_parent result name (TypedId.unknown p_id) = err (anyhow "Unexpected parent type")

module _ (resources : Resources) where
  -- The loop of `get_single_parent`, along the first parents; without a first parent it stays.
  unfoldable pub climb : ℕ → DieselUlid → Lineage → Option (Result Lineage)
  unfolding enter_parent
  climb zero id result = none
  climb (suc fuel) id result = elim (get_parents resources id) [
    | none ↦ some (ok result)
    | some [] ↦ climb fuel id result
    | some ((name, typed_id) ∷ others) ↦ elim (enter_parent result name typed_id) [
      | err e ↦ some (err e)
      | ok next ↦ climb fuel next.1 next.0
    ]
  ]

  -- `check_access_parents`: the name `perm` of the pattern hides the permission asked for.
  unfoldable pub parents_hold : AccessKeyPermissions → List (Text × TypedId) → Bool
  parents_hold key_info [] = false
  parents_hold key_info ((name, id) ∷ parents) =
      let rest = parents_hold key_info parents in
      elim (get key_info.permissions (id_of id)) [
        | none ↦ rest
        | some perm ↦ if grants perm perm then true else rest
      ]

  unfoldable pub check_access_parents :
      AccessKeyPermissions → DieselUlid → DbPermissionLevel → Result (Unit {0})
  unfolding parents_hold
  check_access_parents key_info resource_id perm = elim (get_parents resources resource_id) [
    | none ↦ err (anyhow "Insufficient permissions")
    | some parents ↦
        if parents_hold key_info parents then ok tt else err (anyhow "Insufficient permissions")
  ]

unfoldable pub get_single_parent : Cache → ℕ → DieselUlid → Option (Result Lineage)
unfolding climb
get_single_parent cache fuel id = elim (get_resource_name cache id) [
  | none ↦ some (err (anyhow "Resource not found"))
  | some name ↦
      climb cache.resources fuel id
        (record { project = none; collection = none; dataset = none; object = some (id, name) })
]
