-- ===== src/Structs/States/Missing.antt =====
-- structs.rs: which missing states `validate` accepts, and the states that `set_missing` fills.
use data_proxy.Base.{
  ℕ, zero, suc, ◌+◌, ◌-◌, ◌≤◌, ◌<◌, Bool, true, false, Text, ◌≡◌, ◌↔◌, ◌⊎◌, inl, inr, refl, err,
  anyhow, ok, arith,
}
use data_proxy.Structs.Object.{ResourceVariant}
use data_proxy.Structs.States.{
  ResourceState, missing, ResourceStates, is_missing, validate, set_missing,
}

-- What is missing of a path is its lower end: the project is not missing, unless it may be created,
-- and below a missing state all states are missing.
pub record TailMissing (s : ResourceStates) (allow_create_project : Bool) : Type 0 where
  pub root : (allow_create_project ≡ true) ⊎ (is_missing s.project ≡ false)
  pub below_collection : (is_missing s.collection ≡ false) ⊎ (is_missing s.dataset ≡ true)
  pub below_dataset : (is_missing s.dataset ≡ false) ⊎ (is_missing s.object ≡ true)

-- validate succeeds exactly if the project is not missing or may be created, the dataset is
-- missing wherever the collection is, and the object is missing wherever the dataset is.
pub validate_iff :
    (s : ResourceStates) (allow_create_project : Bool)
    → (validate s allow_create_project ≡ ok tt) ↔ TailMissing s allow_create_project
unfolding validate
validate_iff s a = (
  λ h. record {
    root = ground arith;
    below_collection = ground arith;
    below_dataset = ground arith;
  },
  λ t. ground (arith, t.root, t.below_collection, t.below_dataset),
)

-- The state that `set_missing` fills, from the top.
abbrev pub slot : ℕ → ℕ → ℕ
slot zero len = 0
slot (suc idx) len = suc idx + 4 - len

-- The state at a position from the top.
abbrev pub state_at : ResourceStates → ℕ → ResourceState
state_at s zero = s.project
state_at s (suc zero) = s.collection
state_at s (suc (suc zero)) = s.dataset
state_at s (suc (suc (suc n))) = s.object

abbrev pub variant_at : ℕ → ResourceVariant
variant_at zero = ResourceVariant.project
variant_at (suc zero) = ResourceVariant.collection
variant_at (suc (suc zero)) = ResourceVariant.dataset
variant_at (suc (suc (suc n))) = ResourceVariant.object

-- A write of the state at a position from the top.
abbrev pub put_at : ResourceStates → ℕ → ResourceState → ResourceStates
put_at s zero st = record s { project = st }
put_at s (suc zero) st = record s { collection = st }
put_at s (suc (suc zero)) st = record s { dataset = st }
put_at s (suc (suc (suc n))) st = record s { object = st }

-- For an index into a path of at most four names, set_missing writes one state and leaves the
-- others: the project for the first name, and for a later name the state that stands as far above
-- the object as the name stands before the last one; the variant that it records is the one of
-- that state.
pub set_missing_lem :
    (s : ResourceStates) (idx len : ℕ) (name : Text)
    → idx < len
    → len ≤ 4
    → set_missing s idx len name
      ≡ ok (put_at s (slot idx len) (missing name (variant_at (slot idx len))))
unfolding set_missing
set_missing_lem s zero len name h k = refl
set_missing_lem s (suc zero) (suc (suc zero)) name h k = refl
set_missing_lem s (suc zero) (suc (suc (suc zero))) name h k = refl
set_missing_lem s (suc zero) (suc (suc (suc (suc zero)))) name h k = refl
set_missing_lem s (suc (suc zero)) (suc (suc (suc zero))) name h k = refl
set_missing_lem s (suc (suc zero)) (suc (suc (suc (suc zero)))) name h k = refl
set_missing_lem s (suc (suc (suc zero))) (suc (suc (suc (suc zero)))) name h k = refl
set_missing_lem s (suc idx) len name h k = absurd (omega arith)

-- Every other index but the first is refused.
pub set_missing_invalid :
    (s : ResourceStates) (idx len : ℕ) (name : Text)
    → ((len ≤ suc idx) ⊎ (4 < len))
    → set_missing s (suc idx) len name ≡ err (anyhow "Invalid index")
unfolding set_missing
set_missing_invalid s idx len name (inl h) = ground arith
set_missing_invalid s idx len name (inr h) = ground arith
