-- ===== src/Client/Synced.antt =====
-- caching/grpc_query_handler.rs: what an event of a resource and a full sync leave in the cache.
use data_proxy.Base.{
  List, [], ◌∷◌, ◌++◌, Option, none, some, Text, Result, ok, ◌≡◌, arith, sym, ◌∙◌, nat_eq,
  nat_eq_iff, eq_nat, if◌then◌else◌, Bool-cases, inl, inr, append_assoc, append-nil, subst,
}
use data_proxy.Base.Map.{get}
use data_proxy.Base.Sorting.{In, In-sort_by}
use data_proxy.Structs.Format.{DieselUlid, ObjectLocation}
use data_proxy.Structs.Object.{Object, ResourceVariant}
use data_proxy.Structs.Messages.{GrpcResource, Resource, object_from_resource}
use data_proxy.Cache.Locations.{get_location}
use data_proxy.Cache.Objects.Stored.{upsert_object-get}
use data_proxy.Client.{Env, store}
use data_proxy.Client.Base.{Call, World}
use data_proxy.Client.Calls.{after_part, store-ends, lift-value}
use data_proxy.Client.Events.{enter_user, enter_pubkey, pubkey_of}
use data_proxy.Client.FullSync.{
  Target, generic_resource, user, pubkey, receive_targets, sort_resources, enter_resources,
  full_sync_endpoint,
}

-- Some resource has the identifier.
abbrev pub Present : World → DieselUlid → Type 0
Present w id = (entry : Object × Option ObjectLocation) × (get w.cache.resources id ≡ some entry)

-- What is stored has its entry, and the entries of others stay.
pub store-get :
    (env : Env) (converted : Result Object) (w : World) {o : Object} {w' : World}
    → store env converted w ≡ some (ok o, w')
    → (j : DieselUlid)
    → get w'.cache.resources j
      ≡ (if nat_eq o.id j then some (o, get_location w.cache o.id) else get w.cache.resources j)
store-get env converted w {o} {w'} h j =
    upsert_object-get env.transaction env.rounds o w.cache {after = w'.cache}
      (store-ends env converted w h).1 j

-- The converted resource is present.
abbrev pub Entered : Env → World → Resource → Type 0
Entered env w res =
    (o : Object) × (object_from_resource env.from_str env.from_timestamp res ≡ ok o)
    × Present w o.id

store-Present :
    (env : Env) (converted : Result Object) (w : World) {o : Object} {w' : World}
    → store env converted w ≡ some (ok o, w')
    → (j : DieselUlid) → Present w j
    → Present w' j
store-Present env converted w {o} {w'} h j (entry, e) =
    let g = store-get env converted w h j in
    elim (Bool-cases (nat_eq o.id j)) [
      | inl s ↦ ((o, get_location w.cache o.id), (rw s at g))
      | inr s ↦ (entry, (rw s at g) ∙ e)
    ]

store-Entered :
    (env : Env) (converted : Result Object) (w : World) {o : Object} {w' : World}
    → store env converted w ≡ some (ok o, w')
    → Present w' o.id
store-Entered env converted w {o} {w'} h = (
  (o, get_location w.cache o.id),
  ground (arith, store-get env converted w h o.id, nat_eq_iff o.id o.id),
)

enter_resources-Present :
    (env : Env) (l : List Resource) (w : World) {w' : World}
    → enter_resources env l w ≡ some (ok tt, w')
    → ((j : DieselUlid) → Present w j → Present w' j)
      × ((res : Resource) → In res l → Entered env w' res)
unfolding enter_resources
enter_resources-Present env [] w {w'} h =
    (λ j p. subst (λ x. Present x j) (lift-value tt w h).1 p, λ res i. absurd i)
enter_resources-Present env (res ∷ l) w {w'} h =
    after_part (store env (object_from_resource env.from_str env.from_timestamp res)) _ w h
      λ o v stored k.
        let (keeps, enters) = enter_resources-Present env l v k in
        let (converted, _, _) =
          store-ends env (object_from_resource env.from_str env.from_timestamp res) w stored in
        (
          λ j p. keeps j (store-Present env _ w stored j p),
          λ r i. elim i [
            | inl e ↦
                subst (Entered env w') (sym e)
                  (o, converted, keeps o.id (store-Entered env _ w stored))
            | inr deeper ↦ enters r deeper
          ],
        )

-- The resources among the messages of a full sync.
abbrev pub resources_among : List (Option Target) → List Resource
resources_among [] = []
resources_among (none ∷ targets) = resources_among targets
resources_among (some (generic_resource none) ∷ targets) = resources_among targets
resources_among (some (generic_resource (some r)) ∷ targets) = r ∷ resources_among targets
resources_among (some (user u) ∷ targets) = resources_among targets
resources_among (some (pubkey pk) ∷ targets) = resources_among targets

received-all :
    (env : Env) (targets : List (Option Target)) (l : List Resource) (w : World) {r : List Resource}
    {w' : World}
    → receive_targets env targets l w ≡ some (ok r, w')
    → r ≡ l ++ resources_among targets
unfolding receive_targets
received-all env [] l w h = (lift-value l w h).0 ∙ sym (append-nil l)
received-all env (none ∷ targets) l w h = absurd (cc)
received-all env (some (generic_resource none) ∷ targets) l w h = received-all env targets l w h
received-all env (some (generic_resource (some r)) ∷ targets) l w h =
    received-all env targets (l ++ r ∷ []) w h ∙ append_assoc l (r ∷ []) (resources_among targets)
received-all env (some (user u) ∷ targets) l w h =
    after_part (enter_user env u) _ w h λ _ v _ k. received-all env targets l v k
received-all env (some (pubkey pk) ∷ targets) l w h =
    after_part (enter_pubkey env (pubkey_of pk)) _ w h λ _ v _ k. received-all env targets l v k

-- When a full sync ends without error, every resource among its messages can be converted, and the
-- cache has a resource of the converted one's identifier.
pub full_sync_endpoint-Entered :
    (env : Env) (targets : List (Option Target)) (w : World) {w' : World} (res : Resource)
    → full_sync_endpoint env targets w ≡ some (ok tt, w')
    → In res (resources_among targets)
    → Entered env w' res
unfolding full_sync_endpoint sort_resources
full_sync_endpoint-Entered env targets w res h i =
    after_part (receive_targets env targets []) _ w h λ l v received k.
      (enter_resources-Present env (sort_resources l) v k).1 res
        (In-sort_by _ res l (subst (In res) (sym (received-all env targets [] w received)) i))

-- The request and the message of a resource of a type; a reference of no type has none.
abbrev pub fetch_of : ResourceVariant → Option ((Text → Call) × (GrpcResource → Resource))
fetch_of ResourceVariant.project = some (Call.get_project, Resource.project)
fetch_of ResourceVariant.collection = some (Call.get_collection, Resource.collection)
fetch_of ResourceVariant.dataset = some (Call.get_dataset, Resource.dataset)
fetch_of ResourceVariant.object = some (Call.get_object, Resource.object)
fetch_of ResourceVariant.unspecified = none
