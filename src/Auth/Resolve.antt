-- ===== src/Auth/Resolve.antt =====
-- auth/auth.rs: `prefix_into_resource_states`. The parameter is the cache's
-- `get_full_resource_by_path` at the time of the call.
pub mod Sound
use data_proxy.Base.{
  ℕ, suc, Bool, true, false, not, ◌&&◌, List, [], ◌∷◌, Option, none, some, Text, length, Result, ok,
  err, s3_error, no_such_bucket, internal_error, ◌>>=◌, ◌>>◌, map_err, guard, if◌then◌else◌,
}
use data_proxy.Structs.Object.{Object, ObjectType}
use data_proxy.Structs.States.{
  ResourceStates, new, set_missing, set_project, set_collection, set_dataset, set_object,
  get_project, validate,
}

-- The arms for an object found, by its type.
unfoldable pub set_by_type : ResourceStates → Object → ObjectType → ResourceStates
unfolding set_project set_collection set_dataset set_object
set_by_type states obj ObjectType.project = set_project states obj
set_by_type states obj ObjectType.dataset = set_dataset states obj
set_by_type states obj ObjectType.collection = set_collection states obj
set_by_type states obj ObjectType.object = set_object states obj

abbrev pub is_none {ℓ} : {A : Type ℓ} → Option A → Bool
is_none none = true
is_none (some _) = false

module _ (get_full_resource_by_path : Text → Option Object) where
  -- One round of the loop.
  unfoldable pub enter : ResourceStates → ℕ → ℕ → Text × Text → Result ResourceStates
  unfolding set_by_type
  enter states idx len (prefix, name) = elim (get_full_resource_by_path prefix) [
    | none ↦ map_err (set_missing states idx len name) (s3_error internal_error "Internal Error")
    | some obj ↦ ok (set_by_type states obj obj.object_type)
  ]

  unfoldable pub enter_all : ResourceStates → ℕ → ℕ → List (Text × Text) → Result ResourceStates
  enter_all states idx len [] = ok states
  enter_all states idx len (p ∷ rest) =
      enter states idx len p >>= λ states'. enter_all states' (suc idx) len rest

  unfoldable pub prefix_into_resource_states : List (Text × Text) → Bool → Result ResourceStates
  prefix_into_resource_states prefixes allow_create = do
    states ← enter_all new 0 (length prefixes) prefixes
    guard (not (not allow_create && is_none (get_project states)))
        (s3_error no_such_bucket "Bucket not found")
    map_err (validate states allow_create) (s3_error internal_error "Internal Error")
    ok states
