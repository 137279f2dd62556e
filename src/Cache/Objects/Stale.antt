-- ===== src/Cache/Objects/Stale.antt =====
-- caching/cache.rs: the paths after a deletion, and after an upsert of an object without parents.
use data_proxy.Base.{
  ℕ, suc, Bool, true, false, List, [], ◌∷◌, Option, none, some, Text, eq_nat, eq_text, nat_eq_iff,
  text_eq, if◌then◌else◌, Result, ok, err, Error, anyhow, ◌≡◌, refl, ◌∙◌, ap, Option-cases, inl,
  inr, arith,
}
use data_proxy.Base.Map.{Map, get, remove, get-insert, get-remove}
use data_proxy.Structs.Format.{DieselUlid, ObjectLocation}
use data_proxy.Structs.Object.{Object, TypedRelation, TypedId, id_of, typed_id}
use data_proxy.Cache.{Cache}
use data_proxy.Cache.Graph.{
  Resources, get_parents, parents_of, get_children, finish, place, prefix_rounds, get_prefixes,
  suffix_rounds, get_suffixes, all_paths, get_name_trees,
}
use data_proxy.Cache.Objects.{
  insert_path, below_paths, remove_paths, insert_paths, rename_paths, update_object_name,
  no_parents, is_project, place_object, place_project, store_object, upsert_stored, upsert_object,
  delete_data, remove_entry, delete_object,
}

id_of-typed_id : (o : Object) → id_of (typed_id o) ≡ o.id
unfolding id_of typed_id
id_of-typed_id o = ground arith

-- A resource without parents has no prefixes, and is the only round of its walk.
get_prefixes-none :
    (resources : Resources) (fuel : ℕ) (id : TypedId)
    → get_parents resources (id_of id) ≡ none
    → get_prefixes resources false (suc fuel) id ≡ some []
unfolding get_prefixes prefix_rounds finish place
get_prefixes-none resources fuel id h = rw (get_prefixes, prefix_rounds, h) refl

get_suffixes-none :
    (resources : Resources) (fuel : ℕ) (id : TypedId)
    → get_children resources (id_of id) ≡ none
    → get_suffixes resources false (suc fuel) id ≡ some ((id, []) ∷ [])
unfolding get_suffixes suffix_rounds
get_suffixes-none resources fuel id h = rw (get_suffixes, suffix_rounds, h) refl

gone_parents :
    (resources : Resources) (id : DieselUlid)
    → get resources id ≡ none
    → get_parents resources id ≡ none
unfolding get_parents
gone_parents resources id h = rw (get_parents, h) refl

gone_children :
    (resources : Resources) (id : DieselUlid)
    → get resources id ≡ none
    → get_children resources id ≡ none
unfolding get_children
gone_children resources id h = rw (get_children, h) refl

-- The name trees of a resource that is not in the resources are empty.
gone_name_trees :
    (resources : Resources) (fuel : ℕ) (id : TypedId) (name : Text)
    → get resources (id_of id) ≡ none
    → get_name_trees resources (suc fuel) id name none ≡ some ([], none)
unfolding get_name_trees all_paths
gone_name_trees resources fuel id name h =
    rw (get_name_trees, get_prefixes-none resources fuel id (gone_parents resources (id_of id) h))
      (rw (get_suffixes-none resources fuel id (gone_children resources (id_of id) h)) refl)

removed-gone :
    (m : Map DieselUlid (Object × Option ObjectLocation)) (id : DieselUlid)
    → get (remove m id) id ≡ none
removed-gone m id = get-remove m id id ∙ rw ((nat_eq_iff id id).1 refl) refl

module _ (transaction : DieselUlid → Result (Unit {0}))
    (delete : ObjectLocation → Result (Unit {0})) where
  remove_entry-paths :
      (fuel : ℕ) (id : DieselUlid) (o : Object) (location : Option ObjectLocation) (cache : Cache)
      → o.id ≡ id
      → remove_entry (suc fuel) id (some (o, location)) cache
        ≡ some (ok tt, record cache { resources = remove cache.resources id })
  unfolding remove_entry remove_paths
  remove_entry-paths fuel id o location cache same =
      rw
        (
          remove_entry,
          gone_name_trees (remove cache.resources id) fuel (typed_id o) o.name (
              ap (get (remove cache.resources id)) (id_of-typed_id o ∙ same)
              ∙ removed-gone cache.resources id),
        )
        refl

  -- The outcome of a deletion: the paths are those of before, and without error the entry is gone.
  abbrev Kept : DieselUlid → Cache → Option (Result (Unit {0}) × Cache) → Type 0
  Kept id cache outcome =
      (r : Result (Unit {0})) × (after : Cache) × (outcome ≡ some (r, after))
      × (after.paths ≡ cache.paths)
      × (r ≡ ok tt → get after.resources id ≡ none)

  Kept-err : (id : DieselUlid) (cache : Cache) (e : Error) → Kept id cache (some (err e, cache))
  Kept-err id cache e = (err e, cache, refl, refl, λ h. cc)

  Kept-entry :
      (fuel : ℕ) (id : DieselUlid) (cache : Cache) (entry : Option (Object × Option ObjectLocation))
      → ((o : Object) (location : Option ObjectLocation) → entry ≡ some (o, location) → o.id ≡ id)
      → Kept id cache (remove_entry (suc fuel) id entry cache)
  unfolding remove_entry
  Kept-entry fuel id cache none keyed = Kept-err id cache (anyhow "Resource not found")
  Kept-entry fuel id cache (some (o, location)) keyed = (
    ok tt,
    record cache { resources = remove cache.resources id },
    remove_entry-paths fuel id o location cache (keyed o location refl),
    refl,
    λ h. removed-gone cache.resources id,
  )

  Kept-data :
      (fuel : ℕ) (id : DieselUlid) (cache : Cache) (answer : Result (Unit {0}))
      → ((o : Object) (location : Option ObjectLocation)
          → get cache.resources id ≡ some (o, location)
          → o.id ≡ id)
      → Kept id cache (elim answer [
        | err e ↦ some (err e, cache)
        | ok _ ↦ remove_entry (suc fuel) id (get cache.resources id) cache
      ])
  Kept-data fuel id cache (err e) keyed = Kept-err id cache e
  Kept-data fuel id cache (ok x) keyed = Kept-entry fuel id cache (get cache.resources id) keyed

  -- If the cache's entry for an identifier, where there is one, is a resource with this
  -- identifier, delete_object of it always ends; if it succeeds the resource is not in the cache
  -- any more, but whether it succeeds or fails all paths stay, also those of the resource.
  pub delete_object-paths :
      (fuel : ℕ) (id : DieselUlid) (cache : Cache)
      → ((o : Object) (location : Option ObjectLocation)
          → get cache.resources id ≡ some (o, location)
          → o.id ≡ id)
      → (r : Result (Unit {0})) × (after : Cache) × (delete_object transaction delete
            (suc fuel)
            id
            cache
          ≡ some (r, after))
        × (after.paths ≡ cache.paths)
        × (r ≡ ok tt → get after.resources id ≡ none)
  unfolding delete_object
  delete_object-paths fuel id cache keyed = begin (transaction id) refl
    where
      begin :
          (r : Result (Unit {0}))
          → transaction id ≡ r
          → Kept id cache (delete_object transaction delete (suc fuel) id cache)
      begin (err e) h = rw (delete_object, h) (Kept-err id cache e)
      begin (ok x) h =
          rw (delete_object, h)
            (Kept-data fuel id cache (delete_data delete (get cache.resources id)) keyed)

module _ (transaction : Object → Result (Unit {0})) where
  parentless :
      (resources : Resources) (o : Object) (entry : Option ObjectLocation)
      → get resources o.id ≡ some (o, entry)
      → no_parents o.parents ≡ true
      → get_parents resources o.id ≡ none
  unfolding get_parents parents_of
  parentless resources o entry h p = rw (get_parents, h) (none_of o.parents p)
    where
      none_of :
          (r : Option (List TypedRelation)) → no_parents r ≡ true → parents_of resources r ≡ none
      none_of none q = refl
      none_of (some []) q = refl
      none_of (some (x ∷ xs)) q = cc

  stored :
      (o : Object) (cache : Cache)
      → (location : Option ObjectLocation) × (get (store_object o cache).1.resources o.id
          ≡ some (o, location))
  unfolding store_object
  stored o cache = begin (get cache.resources o.id) refl
    where
      begin :
          (entry : Option (Object × Option ObjectLocation))
          → get cache.resources o.id ≡ entry
          → (location : Option ObjectLocation) × (get (store_object o cache).1.resources o.id
              ≡ some (o, location))
      begin none h = (
        none,
        rw (store_object, h)
            (get-insert cache.resources o.id o.id (o, none)
              ∙ rw ((nat_eq_iff o.id o.id).1 refl) refl),
      )
      begin (some (old, location)) h = (
        location,
        rw (store_object, h)
            (get-insert cache.resources o.id o.id (o, location)
              ∙ rw ((nat_eq_iff o.id o.id).1 refl) refl),
      )

  -- What a parentless resource's paths become, and the renaming that finds no path.
  rename-parentless :
      (fuel : ℕ) (id : TypedId) (old new : Text) (cache : Cache) (suffixes : List (TypedId × Text))
      → get_parents cache.resources (id_of id) ≡ none
      → get_suffixes cache.resources false (suc fuel) id ≡ some suffixes
      → update_object_name (suc fuel) id old new cache ≡ some cache
  unfolding update_object_name get_name_trees rename_paths all_paths
  rename-parentless fuel id old new cache suffixes h s =
      rw (update_object_name, get_name_trees, get_prefixes-none cache.resources fuel id h, s) refl

  placed-parentless :
      (o : Object) (paths : List (Text × DieselUlid))
      → place_project o [] (place_object o [] paths)
        ≡ (if is_project o then insert_path paths o.name o.id else paths)
  unfolding place_project place_object below_paths remove_paths insert_paths
  placed-parentless o paths = ground arith

  stored-paths : (o : Object) (cache : Cache) → (store_object o cache).1.paths ≡ cache.paths
  unfolding store_object
  stored-paths o cache = elim (Option-cases (get cache.resources o.id)) [
    | inl e ↦ rw (store_object, e) refl
    | inr (entry, e) ↦ rw (store_object, e) refl
  ]

  upsert_stored-parentless :
      (fuel : ℕ) (o : Object) (old_name : Text) (kept : Cache) (suffixes : List (TypedId × Text))
      → get_parents kept.resources o.id ≡ none
      → get_suffixes kept.resources false (suc fuel) (typed_id o) ≡ some suffixes
      → upsert_stored (suc fuel) o old_name kept
        ≡ some (record kept {
          paths = if is_project o then insert_path kept.paths o.name o.id else kept.paths;
        })
  unfolding upsert_stored id_of
  upsert_stored-parentless fuel o old_name kept suffixes h s =
      rw
        (
          upsert_stored,
          get_prefixes-none kept.resources fuel (TypedId.unknown o.id) h,
          placed-parentless o kept.paths,
        )
        (split (text_eq old_name o.name))
    where
      placed : Cache
      placed = record kept {
        paths = if is_project o then insert_path kept.paths o.name o.id else kept.paths;
      }

      split :
          (b : Bool)
          → (if b
              then some placed
              else update_object_name (suc fuel) (typed_id o) old_name o.name placed)
            ≡ some placed
      split true = refl
      split false =
          rename-parentless fuel (typed_id o) old_name o.name placed suffixes
            (ap (get_parents kept.resources) (id_of-typed_id o) ∙ h) s

  -- If the transaction succeeds and the walk below the object ends, an upsert of an object without
  -- parents succeeds and stores the object, enters the name of a project as a path and changes no
  -- other path: not those of a former name, nor those of an object that has lost its parents.
  pub upsert_object-parentless :
      (fuel : ℕ) (o : Object) (cache : Cache) (suffixes : List (TypedId × Text))
      → transaction o ≡ ok tt
      → no_parents o.parents ≡ true
      → let (old_name, kept) = store_object o cache in
        let paths = if is_project o then insert_path cache.paths o.name o.id else cache.paths in
        get_suffixes kept.resources false (suc fuel) (typed_id o) ≡ some suffixes
        → upsert_object transaction (suc fuel) o cache ≡ some (ok tt, record kept { paths = paths })
  unfolding upsert_object
  upsert_object-parentless fuel o cache suffixes h p s =
      let (location, entry) = stored o cache in
      let kept = (store_object o cache).1 in
      rw
        (
          upsert_object,
          h,
          upsert_stored-parentless fuel o (store_object o cache).0 kept suffixes
              (parentless kept.resources o location entry p) s,
          stored-paths o cache,
        )
        refl
