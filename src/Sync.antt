-- ===== src/Sync.antt =====
-- caching/grpc_query_handler.rs: `sort_objects`, the order in which synced resources are entered.
pub mod Sorted
pub mod Load
pub mod Loaded
use data_proxy.Base.{Bool, true, false, List}
use data_proxy.Base.Sorting.{sort_by}
use data_proxy.Structs.Object.{Object, ObjectType}

pub data Ordering : Type 0 where
  less equal greater : Ordering

-- The table of `sort_objects`.
unfoldable pub compare_types : ObjectType → ObjectType → Ordering
compare_types ObjectType.project ObjectType.project = equal
compare_types ObjectType.project ObjectType.collection = less
compare_types ObjectType.project ObjectType.dataset = less
compare_types ObjectType.project ObjectType.object = less
compare_types ObjectType.collection ObjectType.project = greater
compare_types ObjectType.collection ObjectType.collection = equal
compare_types ObjectType.collection ObjectType.dataset = less
compare_types ObjectType.collection ObjectType.object = less
compare_types ObjectType.dataset ObjectType.project = greater
compare_types ObjectType.dataset ObjectType.collection = greater
compare_types ObjectType.dataset ObjectType.dataset = equal
compare_types ObjectType.dataset ObjectType.object = less
compare_types ObjectType.object ObjectType.project = greater
compare_types ObjectType.object ObjectType.collection = greater
compare_types ObjectType.object ObjectType.dataset = greater
compare_types ObjectType.object ObjectType.object = equal

unfoldable pub not_greater : Ordering → Bool
not_greater less = true
not_greater equal = true
not_greater greater = false

unfoldable pub sort_objects : List Object → List Object
unfolding compare_types not_greater sort_by
sort_objects res =
    sort_by (λ (x y : Object). not_greater (compare_types x.object_type y.object_type)) res
