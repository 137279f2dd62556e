-- ===== src/Sync/Sorted.antt =====
-- caching/grpc_query_handler.rs: what `sort_objects` gives.
use data_proxy.Base.{ℕ, List, leb, ◌≡◌, arith}
use data_proxy.Base.Sorting.{Ascends, of_key, sort_by-Ascends, of_key-sort_by}
use data_proxy.Structs.Object.{Object, ObjectType}
use data_proxy.Cache.Graph.Hierarchy.{type_rank}
use data_proxy.Sync.{compare_types, not_greater, sort_objects}

abbrev pub rank_of_object : Object → ℕ
rank_of_object o = type_rank o.object_type

compare_types-rank :
    (t u : ObjectType) → not_greater (compare_types t u) ≡ leb (type_rank t) (type_rank u)
unfolding not_greater compare_types
compare_types-rank t u = ground arith

-- x
pub sort_objects-Ascends :
    (res : List Object) (k : ℕ)
    → Ascends rank_of_object (sort_objects res)
      × (of_key rank_of_object k (sort_objects res) ≡ of_key rank_of_object k res)
unfolding sort_objects
sort_objects-Ascends res k =
    let le = λ (x y : Object). not_greater (compare_types x.object_type y.object_type) in
    (
      sort_by-Ascends rank_of_object le (λ x y. compare_types-rank x.object_type y.object_type) res,
      of_key-sort_by rank_of_object le (λ x y. compare_types-rank x.object_type y.object_type) k
          res,
    )
