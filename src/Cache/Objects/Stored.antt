-- ===== src/Cache/Objects/Stored.antt =====
-- caching/cache.rs: what an upsert of an object leaves in the resources.
use data_proxy.Base.{
  ℕ, false, List, [], Option, none, some, Text, eq_nat, eq_text, nat_eq, if◌then◌else◌, Result, ok,
  err, ◌≡◌, refl, Option-cases, inl, inr, arith, ap, ◌∙◌,
}
use data_proxy.Base.Map.{get, get-insert}
use data_proxy.Structs.Format.{DieselUlid}
use data_proxy.Structs.Object.{Object, TypedId, typed_id}
use data_proxy.Cache.{Cache}
use data_proxy.Cache.Graph.{get_prefixes, get_name_trees}
use data_proxy.Cache.Locations.{get_location}
use data_proxy.Cache.Objects.{
  store_object, rename_paths, place_object, place_project, update_object_name, upsert_stored,
  upsert_object,
}

-- The paths are all that the renaming changes.
renamed-resources :
    (cache after : Cache) (trees : Option (List Text × Option (List Text)))
    → elim trees [
      | none ↦ none
      | some (old_paths, none) ↦
          some (record cache { paths = rename_paths cache.paths old_paths [] })
      | some (old_paths, some new_paths) ↦
          some (record cache { paths = rename_paths cache.paths old_paths new_paths })
    ]
      ≡ some after
    → after.resources ≡ cache.resources
renamed-resources cache after none h = cc
renamed-resources cache after (some (old_paths, none)) h = ground arith
renamed-resources cache after (some (old_paths, some new_paths)) h = ground arith

update_object_name-resources :
    (fuel : ℕ) (id : TypedId) (old_name new_name : Text) (cache : Cache) {after : Cache}
    → update_object_name fuel id old_name new_name cache ≡ some after
    → after.resources ≡ cache.resources
unfolding update_object_name
update_object_name-resources fuel id old_name new_name cache {after} h =
    renamed-resources cache after (get_name_trees cache.resources fuel id old_name (some new_name))
      h

upsert_stored-resources :
    (fuel : ℕ) (o : Object) (old_name : Text) (cache : Cache) {after : Cache}
    → upsert_stored fuel o old_name cache ≡ some after
    → after.resources ≡ cache.resources
unfolding upsert_stored
upsert_stored-resources fuel o old_name cache {after} h =
    elim (Option-cases (get_prefixes cache.resources false fuel (TypedId.unknown o.id))) [
      | inl e ↦ ground arith
      | inr (prefixes, e) ↦
          let placed : Cache = record cache {
            paths = place_project o prefixes (place_object o prefixes cache.paths);
          } in
          ground (
            arith,
            update_object_name-resources fuel (typed_id o) old_name o.name placed {after = after},
          )
    ]

abbrev outcome : Cache → Result (Unit {0}) → Option Cache → Option (Result (Unit {0}) × Cache)
outcome cache t r = elim t [
  | err e ↦ some (err e, cache)
  | ok _ ↦ elim r [ none ↦ none | some placed ↦ some (ok tt, placed) ]
]

upsert-resources :
    (transaction : Object → Result (Unit {0})) (fuel : ℕ) (o : Object) (cache : Cache)
    {after : Cache}
    → upsert_object transaction fuel o cache ≡ some (ok tt, after)
    → after.resources ≡ (store_object o cache).1.resources
unfolding upsert_object
upsert-resources transaction fuel o cache {after} h =
    stored (transaction o) (upsert_stored fuel o (store_object o cache).0 (store_object o cache).1)
      refl h
  where
    stored :
        (t : Result (Unit {0})) (r : Option Cache)
        → upsert_stored fuel o (store_object o cache).0 (store_object o cache).1 ≡ r
        → outcome cache t r ≡ some (ok tt, after)
        → after.resources ≡ (store_object o cache).1.resources
    stored (err e) r p k = ground arith
    stored (ok u) none p k = cc
    stored (ok u) (some placed) p k =
        let e : placed ≡ after = ground arith in
        upsert_stored-resources fuel o (store_object o cache).0 (store_object o cache).1
          (p ∙ ap (λ (c : Cache). some c) e)

-- The entry of the object is replaced, with the location that it had, and no other entry changes.
pub upsert_object-get :
    (transaction : Object → Result (Unit {0})) (fuel : ℕ) (o : Object) (cache : Cache)
    {after : Cache}
    → upsert_object transaction fuel o cache ≡ some (ok tt, after)
    → (j : DieselUlid)
    → get after.resources j
      ≡ (if nat_eq o.id j then some (o, get_location cache o.id) else get cache.resources j)
unfolding store_object get_location
upsert_object-get transaction fuel o cache {after} h j =
    elim (Option-cases (get cache.resources o.id)) [
      | inl e ↦ rw (upsert-resources transaction fuel o cache {after = after} h) (
          rw (store_object, e) (rw (get_location, e) (get-insert cache.resources o.id j (o, none))))
      | inr (entry, e) ↦ rw (upsert-resources transaction fuel o cache {after = after} h) (
          rw (store_object, e)
            (rw (get_location, e) (get-insert cache.resources o.id j (o, entry.1))))
    ]
