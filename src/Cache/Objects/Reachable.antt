-- ===== src/Cache/Objects/Reachable.antt =====
-- caching/cache.rs: the caches that upserts, deletions and bundles lead to from an empty one.
use data_proxy.Base.{
  ℕ, Bool, true, false, not, ◌&&◌, List, [], ◌∷◌, Option, none, some, Text, eq_nat, eq_text,
  nat_eq_iff, text_eq, Sorted, if◌then◌else◌, Result, ok, err, ◌≡◌, refl, subst, Option-cases, inl,
  inr, arith,
}
use data_proxy.Base.Map.{get, insert, remove, get-insert, get-remove}
use data_proxy.Structs.Format.{DieselUlid, ObjectLocation}
use data_proxy.Structs.Object.{Object, Bundle, TypedId, typed_id}
use data_proxy.Cache.{Cache, add_bundle, delete_bundle}
use data_proxy.Cache.Graph.{Resources, get_prefixes, get_name_trees}
use data_proxy.Cache.Objects.{
  insert_path, below_paths, remove_paths, insert_paths, rename_paths, update_object_name,
  no_parents, is_project, place_object, place_project, store_object, upsert_stored, upsert_object,
  delete_data, remove_entry, delete_object,
}
use data_proxy.Cache.Objects.Ordered.{
  insert_path-Sorted, remove_paths-Sorted, insert_paths-Sorted, rename_paths-Sorted,
}

-- Each resource is stored under its own identifier.
abbrev pub Keyed : Resources → Type 0
Keyed resources =
    (id : DieselUlid) (o : Object) (location : Option ObjectLocation)
    → get resources id ≡ some (o, location)
    → o.id ≡ id

abbrev pub WellFormed : Cache → Type 0
WellFormed cache = Sorted cache.paths × Keyed cache.resources

-- A cache with what operations succeeded or failed on it.
pub data Reachable : Cache → Type 0 where
  started : Reachable (record { resources = []; bundles = []; paths = [] })
  upserted :
      {cache after : Cache} (transaction : Object → Result (Unit {0})) (fuel : ℕ) (o : Object)
      (r : Result (Unit {0}))
      → Reachable cache
      → upsert_object transaction fuel o cache ≡ some (r, after)
      → Reachable after
  deleted :
      {cache after : Cache} (transaction : DieselUlid → Result (Unit {0}))
      (delete : ObjectLocation → Result (Unit {0})) (fuel : ℕ) (id : DieselUlid)
      (r : Result (Unit {0}))
      → Reachable cache
      → delete_object transaction delete fuel id cache ≡ some (r, after)
      → Reachable after
  bundle_added : {cache : Cache} (b : Bundle) → Reachable cache → Reachable (add_bundle cache b)
  bundle_deleted :
      {cache : Cache} (id : DieselUlid) → Reachable cache → Reachable (delete_bundle cache id)

insert-Keyed :
    (resources : Resources) (o : Object) (location : Option ObjectLocation)
    → Keyed resources
    → Keyed (insert resources o.id (o, location))
insert-Keyed resources o location k id p l h =
    ground (arith, get-insert resources o.id id (o, location), nat_eq_iff o.id id, k id p l, h)

remove-Keyed :
    (resources : Resources) (gone : DieselUlid) → Keyed resources → Keyed (remove resources gone)
remove-Keyed resources gone k id p l h = ground (arith, get-remove resources gone id, k id p l, h)

store_object-WellFormed :
    (o : Object) (cache : Cache) → WellFormed cache → WellFormed (store_object o cache).1
unfolding store_object
store_object-WellFormed o cache (s, k) = elim (Option-cases (get cache.resources o.id)) [
  | inl e ↦ rw (store_object, e) (s, insert-Keyed cache.resources o none k)
  | inr (entry, e) ↦ rw (store_object, e) (s, insert-Keyed cache.resources o entry.1 k)
]

Sorted-if :
    (b : Bool) (x y : List (Text × DieselUlid)) → Sorted x → Sorted y → Sorted (if b then x else y)
Sorted-if true x y s t = s
Sorted-if false x y s t = t

place_object-Sorted :
    (o : Object) (prefixes : List (TypedId × Text)) (m : List (Text × DieselUlid))
    → Sorted m
    → Sorted (place_object o prefixes m)
unfolding place_object
place_object-Sorted o prefixes m s =
    Sorted-if (no_parents o.parents && not (is_project o))
      (remove_paths m (below_paths o.name prefixes))
      (insert_paths m o.id (below_paths o.name prefixes))
      (remove_paths-Sorted (below_paths o.name prefixes) m s)
      (insert_paths-Sorted o.id (below_paths o.name prefixes) m s)

place_project-Sorted :
    (o : Object) (prefixes : List (TypedId × Text)) (m : List (Text × DieselUlid))
    → Sorted m
    → Sorted (place_project o prefixes m)
unfolding place_project
place_project-Sorted o [] m s =
    Sorted-if (is_project o) (insert_path m o.name o.id) m (insert_path-Sorted o.name o.id m s) s
place_project-Sorted o (p ∷ prefixes) m s = s

-- What an operation that ends leaves.
abbrev Leaves : Option Cache → Type 0
Leaves none = Unit
Leaves (some cache) = WellFormed cache

abbrev LeavesBoth : Option (Result (Unit {0}) × Cache) → Type 0
LeavesBoth none = Unit
LeavesBoth (some (r, cache)) = WellFormed cache

renamed-Leaves :
    (cache : Cache) (trees : Option (List Text × Option (List Text)))
    → WellFormed cache
    → Leaves (elim trees [
      | none ↦ none
      | some (old_paths, none) ↦
          some (record cache { paths = rename_paths cache.paths old_paths [] })
      | some (old_paths, some new_paths) ↦
          some (record cache { paths = rename_paths cache.paths old_paths new_paths })
    ])
renamed-Leaves cache none w = tt
renamed-Leaves cache (some (old, none)) (s, k) = (rename_paths-Sorted old [] cache.paths s, k)
renamed-Leaves cache (some (old, some new)) (s, k) = (rename_paths-Sorted old new cache.paths s, k)

update_object_name-Leaves :
    (fuel : ℕ) (id : TypedId) (old new : Text) (cache : Cache)
    → WellFormed cache
    → Leaves (update_object_name fuel id old new cache)
unfolding update_object_name
update_object_name-Leaves fuel id old new cache w =
    renamed-Leaves cache (get_name_trees cache.resources fuel id old (some new)) w

Leaves-if : (b : Bool) (x y : Option Cache) → Leaves x → Leaves y → Leaves (if b then x else y)
Leaves-if true x y s t = s
Leaves-if false x y s t = t

upsert_stored-Leaves :
    (fuel : ℕ) (o : Object) (old_name : Text) (cache : Cache)
    → WellFormed cache
    → Leaves (upsert_stored fuel o old_name cache)
unfolding upsert_stored
upsert_stored-Leaves fuel o old_name cache (s, k) =
    begin (get_prefixes cache.resources false fuel (TypedId.unknown o.id)) refl
  where
    begin :
        (prefixes : Option (List (TypedId × Text)))
        → get_prefixes cache.resources false fuel (TypedId.unknown o.id) ≡ prefixes
        → Leaves (upsert_stored fuel o old_name cache)
    begin none e = rw (upsert_stored, e) tt
    begin (some prefixes) e =
        rw (upsert_stored, e)
          (let placed = record cache {
            paths = place_project o prefixes (place_object o prefixes cache.paths);
          } in
            let w : WellFormed placed = (
              place_project-Sorted o prefixes (place_object o prefixes cache.paths)
                  (place_object-Sorted o prefixes cache.paths s),
              k,
            ) in
            Leaves-if (text_eq old_name o.name) (some placed)
              (update_object_name fuel (typed_id o) old_name o.name placed) w
              (update_object_name-Leaves fuel (typed_id o) old_name o.name placed w))

upsert_object-Leaves :
    (transaction : Object → Result (Unit {0})) (fuel : ℕ) (o : Object) (cache : Cache)
    → WellFormed cache
    → LeavesBoth (upsert_object transaction fuel o cache)
unfolding upsert_object
upsert_object-Leaves transaction fuel o cache w = begin (transaction o) refl
  where
    finished :
        (placed : Option Cache)
        → Leaves placed
        → LeavesBoth (elim placed [ none ↦ none | some c ↦ some (ok tt, c) ])
    finished none l = tt
    finished (some c) l = l

    begin :
        (r : Result (Unit {0}))
        → transaction o ≡ r
        → LeavesBoth (upsert_object transaction fuel o cache)
    begin (err e) h = rw (upsert_object, h) w
    begin (ok x) h =
        rw (upsert_object, h)
          (let (old_name, kept) = store_object o cache in
            finished (upsert_stored fuel o old_name kept)
              (upsert_stored-Leaves fuel o old_name kept (store_object-WellFormed o cache w)))

remove_entry-Leaves :
    (fuel : ℕ) (id : DieselUlid) (entry : Option (Object × Option ObjectLocation)) (cache : Cache)
    → WellFormed cache
    → LeavesBoth (remove_entry fuel id entry cache)
unfolding remove_entry
remove_entry-Leaves fuel id none cache w = w
remove_entry-Leaves fuel id (some (o, location)) cache (s, k) =
    finished (get_name_trees (remove cache.resources id) fuel (typed_id o) o.name none)
  where
    finished :
        (trees : Option (List Text × Option (List Text)))
        → LeavesBoth (elim trees [
          | none ↦ none
          | some (old_paths, new_paths) ↦ some (
            ok tt,
            record cache {
              resources = remove cache.resources id;
              paths = remove_paths cache.paths old_paths;
            },
          )
        ])
    finished none = tt
    finished (some (old, new)) =
        (remove_paths-Sorted old cache.paths s, remove-Keyed cache.resources id k)

delete_object-Leaves :
    (transaction : DieselUlid → Result (Unit {0})) (delete : ObjectLocation → Result (Unit {0}))
    (fuel : ℕ) (id : DieselUlid) (cache : Cache)
    → WellFormed cache
    → LeavesBoth (delete_object transaction delete fuel id cache)
unfolding delete_object
delete_object-Leaves transaction delete fuel id cache w = begin (transaction id) refl
  where
    answered :
        (answer : Result (Unit {0}))
        → LeavesBoth (elim answer [
          | err e ↦ some (err e, cache)
          | ok _ ↦ remove_entry fuel id (get cache.resources id) cache
        ])
    answered (err e) = w
    answered (ok x) = remove_entry-Leaves fuel id (get cache.resources id) cache w

    begin :
        (r : Result (Unit {0}))
        → transaction id ≡ r
        → LeavesBoth (delete_object transaction delete fuel id cache)
    begin (err e) h = rw (delete_object, h) w
    begin (ok x) h = rw (delete_object, h) (answered (delete_data delete (get cache.resources id)))

-- In every cache that upserts and deletions of objects, also failed ones, and changes of bundles
-- lead to from an empty cache, the paths are in ascending order, each at most once, and each
-- resource is stored under its own identifier.
pub Reachable-WellFormed : (cache : Cache) → Reachable cache → WellFormed cache
unfolding add_bundle delete_bundle get
Reachable-WellFormed cache started = (tt, λ id o l h. ground (arith, h))
Reachable-WellFormed cache (upserted {cache = before} transaction fuel o r from h) =
    subst LeavesBoth h
      (upsert_object-Leaves transaction fuel o before (Reachable-WellFormed before from))
Reachable-WellFormed cache (deleted {cache = before} transaction delete fuel id r from h) =
    subst LeavesBoth h
      (delete_object-Leaves transaction delete fuel id before (Reachable-WellFormed before from))
Reachable-WellFormed cache (bundle_added {cache = before} b from) = Reachable-WellFormed before from
Reachable-WellFormed cache (bundle_deleted {cache = before} id from) =
    Reachable-WellFormed before from
