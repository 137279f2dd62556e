-- ===== src/Client/FullSync.antt =====
-- caching/grpc_query_handler.rs: the full sync with an endpoint, at the beginning of
-- `create_notifications_channel`.
use data_proxy.Base.{List, [], ◌∷◌, ◌++◌, Option, none, some, eq_text, ok, err, anyhow}
use data_proxy.Base.Sorting.{sort_by}
use data_proxy.Structs.Messages.{Resource, object_from_resource}
use data_proxy.Cache.Accounts.{GrpcUser}
use data_proxy.Cache.Secrets.{eq_kid}
use data_proxy.Sync.{Ordering, less, equal, greater, not_greater}
use data_proxy.Client.{Env, GrpcPubkey, store}
use data_proxy.Client.Base.{Method, ◌>>=◌, ◌>>◌, lift, skip}
use data_proxy.Client.Events.{pubkey_of, enter_pubkey, enter_user}

-- The messages of a full sync.
pub data Target : Type 0 where
  generic_resource : Option Resource → Target
  user : GrpcUser → Target
  pubkey : GrpcPubkey → Target

-- The loop over the messages: resources are kept for later, users and keys are entered.
unfoldable pub receive_targets : Env → List (Option Target) → List Resource → Method (List Resource)
unfolding enter_user enter_pubkey pubkey_of
receive_targets env [] resources = lift (ok resources)
receive_targets env (none ∷ targets) resources = lift (err (anyhow "Missing target in full_sync"))
receive_targets env (some (generic_resource none) ∷ targets) resources =
    receive_targets env targets resources
receive_targets env (some (generic_resource (some r)) ∷ targets) resources =
    receive_targets env targets (resources ++ r ∷ [])
receive_targets env (some (user u) ∷ targets) resources =
    enter_user env u >> receive_targets env targets resources
receive_targets env (some (pubkey pk) ∷ targets) resources =
    enter_pubkey env (pubkey_of pk) >> receive_targets env targets resources

-- The table of `sort_resources`.
unfoldable pub compare_resources : Resource → Resource → Ordering
compare_resources (Resource.project x) (Resource.project y) = equal
compare_resources (Resource.project x) (Resource.collection y) = less
compare_resources (Resource.project x) (Resource.dataset y) = less
compare_resources (Resource.project x) (Resource.object y) = less
compare_resources (Resource.collection x) (Resource.project y) = greater
compare_resources (Resource.collection x) (Resource.collection y) = equal
compare_resources (Resource.collection x) (Resource.dataset y) = less
compare_resources (Resource.collection x) (Resource.object y) = less
compare_resources (Resource.dataset x) (Resource.project y) = greater
compare_resources (Resource.dataset x) (Resource.collection y) = greater
compare_resources (Resource.dataset x) (Resource.dataset y) = equal
compare_resources (Resource.dataset x) (Resource.object y) = less
compare_resources (Resource.object x) (Resource.project y) = greater
compare_resources (Resource.object x) (Resource.collection y) = greater
compare_resources (Resource.object x) (Resource.dataset y) = greater
compare_resources (Resource.object x) (Resource.object y) = equal

unfoldable pub sort_resources : List Resource → List Resource
unfolding compare_resources not_greater sort_by
sort_resources res = sort_by (λ (x y : Resource). not_greater (compare_resources x y)) res

unfoldable pub enter_resources : Env → List Resource → Method (Unit {0})
unfolding store
enter_resources env [] = skip
enter_resources env (res ∷ resources) = do
  stored ← store env (object_from_resource env.from_str env.from_timestamp res)
  enter_resources env resources

unfoldable pub full_sync_endpoint : Env → List (Option Target) → Method (Unit {0})
unfolding receive_targets sort_resources enter_resources
full_sync_endpoint env targets = do
  resources ← receive_targets env targets []
  enter_resources env (sort_resources resources)
