-- ===== src/Cache.antt =====
-- caching/cache.rs: the cache of resources, of their paths and of bundles. Locks, which each operation
-- takes and releases, are left out.
pub mod Users
pub mod Accounts
pub mod Paths
pub mod Graph
pub mod Objects
pub mod Parts
pub mod Secrets
pub mod Locations
use data_proxy.Base.{
  ℕ, Bool, List, [], ◌∷◌, ◌++◌, map, Option, none, some, Text, eq_nat, eq_text, ◌==◌, if◌then◌else◌,
  Result, ok, err, anyhow, ok_or, ◌>>=◌, slash, strip_prefix, range,
}
use data_proxy.Base.Map.{Map, get, insert, remove}
use data_proxy.Structs.Format.{DieselUlid, ObjectLocation}
use data_proxy.Structs.Object.{Object, Bundle}

-- The fields of `Cache` that these operations use; `paths` is in the order of its keys.
pub record Cache : Type 0 where
  pub resources : Map DieselUlid (Object × Option ObjectLocation)
  pub bundles : Map DieselUlid Bundle
  pub paths : List (Text × DieselUlid)

unfoldable pub get_resource : Cache → DieselUlid → Result (Object × Option ObjectLocation)
get_resource cache resource_id =
    ok_or (get cache.resources resource_id) (anyhow "Resource not found")

unfoldable pub get_resource_cloned :
    Cache → DieselUlid → Bool → Result (Object × Option ObjectLocation)
unfolding get_resource
get_resource_cloned cache resource_id skip_location =
    get_resource cache resource_id >>= λ (r : Object × Option ObjectLocation).
    ok (r.0, if skip_location then none else r.1)

unfoldable pub get_resource_name : Cache → DieselUlid → Option Text
unfolding get_resource
get_resource_name cache id = elim (get_resource cache id) [ ok r ↦ some r.0.name | err e ↦ none ]

unfoldable pub get_path : Cache → Text → Option DieselUlid
get_path cache path = get cache.paths path

-- The prefix of the paths of a bucket, and `strip_prefix(..).unwrap_or_default()` at it.
unfoldable pub bucket_prefix : Text → Text
bucket_prefix bucket_name = bucket_name ++ slash ∷ []

unfoldable pub strip_bucket : Text → Text × DieselUlid → Text × DieselUlid
unfolding bucket_prefix
strip_bucket bucket_name (key, id) =
    (elim (strip_prefix (bucket_prefix bucket_name) key) [ none ↦ [] | some path ↦ path ], id)

-- The last key of the range ends in '~'.
abbrev pub tilde : ℕ
tilde = b'~'

unfoldable pub get_path_range : Cache → Text → Text → List (Text × DieselUlid)
unfolding bucket_prefix
get_path_range cache bucket_name skip = map (strip_bucket bucket_name) (
    range cache.paths (bucket_prefix bucket_name ++ skip) (bucket_prefix bucket_name ++ tilde ∷ []))

unfoldable pub add_bundle : Cache → Bundle → Cache
add_bundle cache bundle = record cache { bundles = insert cache.bundles bundle.id bundle }

unfoldable pub get_bundle : Cache → DieselUlid → Option Bundle
get_bundle cache bundle_id = get cache.bundles bundle_id

unfoldable pub delete_bundle : Cache → DieselUlid → Cache
delete_bundle cache bundle_id = record cache { bundles = remove cache.bundles bundle_id }

unfoldable pub check_delete_bundle : Cache → DieselUlid → Text → Result (Unit {0})
unfolding get_bundle
check_delete_bundle cache bundle_id access_key = elim (get_bundle cache bundle_id) [
  | some bundle ↦
      if bundle.owner_access_key == access_key then ok tt else err (anyhow "Access denied")
  | none ↦ err (anyhow "Bundle not found")
]
