-- ===== src/Auth/Resolve/Sound.antt =====
-- auth/auth.rs: what the states of a path say of the cache and of the path.
use mathlib.Core.Bool.{false≢true}
use data_proxy.Base.{
  Error, ◌>>◌, ◌⊎◌, ◌==◌, ◌||◌, eq_nat, anyhow, ℕ, zero, suc, Bool, true, false, not, ◌&&◌, List,
  [], ◌∷◌, Option, some, Text, length, Result, ok, err, ◌≡◌, refl, arith, >>=-eq-ok, Ensures,
  Ensures-elim, Ensures-map_err, Ensures-bind, map_err, guard, if◌then◌else◌, Option-cases, inl,
  inr,
}
use data_proxy.Structs.Object.{Object, ObjectType, ResourceVariant, type_of_variant, Fresh}
use data_proxy.Structs.States.{
  ResourceState, found, missing, absent, ResourceStates, new, set_missing, get_project, validate,
  require_project, as_ref,
}
use data_proxy.Structs.States.Missing.{TailMissing, validate_iff}
use data_proxy.Structs.Creation.{into_new_or_existing, Hierarchy}
use data_proxy.Structs.Creation.Parents.{IsTyped, TypedAt, into_new_or_existing_lem}
use data_proxy.Auth.Resolve.{set_by_type, enter, enter_all, prefix_into_resource_states, is_none}

-- Two checks before a result: both have passed.
both_checks :
    (g : Bool) (r : Result (Unit {0})) (states : ResourceStates) (e f : Error) {s : ResourceStates}
    → (guard g e >> (map_err r f >> ok states)) ≡ ok s
    → (g ≡ true) × (r ≡ ok tt) × (states ≡ s)
both_checks true (ok u) states e f h = (refl, refl, ground arith)
both_checks true (err _) states e f h = cc
both_checks false r states e f h = cc

pub require_project-found :
    (s : ResourceStates) (p : Object) → s.project ≡ found p → require_project s ≡ ok p
unfolding require_project
require_project-found s p e = rw (e, as_ref)

module _ (get_full_resource_by_path : Text → Option Object) where
  -- An object found has the type of its place and is the cache's object of some path; a missing one
  -- records the variant of its place.
  abbrev pub FromCache : ObjectType → ResourceState → Type 0
  FromCache t (found o) =
      (o.object_type ≡ t) × (path : Text) × (get_full_resource_by_path path ≡ some o)
  FromCache t (missing name v) = type_of_variant v ≡ ok t
  FromCache t absent = Unit

  pub record AllFromCache (s : ResourceStates) : Type 0 where
    pub project : FromCache ObjectType.project s.project
    pub collection : FromCache ObjectType.collection s.collection
    pub dataset : FromCache ObjectType.dataset s.dataset
    pub object : FromCache ObjectType.object s.object

  new-AllFromCache : AllFromCache new
  new-AllFromCache = record { project = tt; collection = tt; dataset = tt; object = tt }

  set_by_type-AllFromCache :
      (s : ResourceStates) (o : Object) (t : ObjectType) (path : Text)
      → o.object_type ≡ t
      → get_full_resource_by_path path ≡ some o
      → AllFromCache s
      → AllFromCache (set_by_type s o t)
  unfolding set_by_type
  set_by_type-AllFromCache s o ObjectType.project path e h v = record {
    project = (e, path, h);
    collection = v.collection;
    dataset = v.dataset;
    object = v.object;
  }
  set_by_type-AllFromCache s o ObjectType.collection path e h v = record {
    project = v.project;
    collection = (e, path, h);
    dataset = v.dataset;
    object = v.object;
  }
  set_by_type-AllFromCache s o ObjectType.dataset path e h v = record {
    project = v.project;
    collection = v.collection;
    dataset = (e, path, h);
    object = v.object;
  }
  set_by_type-AllFromCache s o ObjectType.object path e h v = record {
    project = v.project;
    collection = v.collection;
    dataset = v.dataset;
    object = (e, path, h);
  }

  -- The arms of `set_missing` below the project, whichever test passes.
  set_missing_arms :
      (s : ResourceStates) (name : Text) (last collection dataset : Bool)
      → AllFromCache s
      → Ensures AllFromCache (
          if last
          then ok (record s { object = missing name ResourceVariant.object })
          else if collection
          then ok (record s { collection = missing name ResourceVariant.collection })
          else if dataset
          then ok (record s { dataset = missing name ResourceVariant.dataset })
          else err (anyhow "Invalid index"))
  unfolding type_of_variant
  set_missing_arms s name true c d v = record {
    project = v.project;
    collection = v.collection;
    dataset = v.dataset;
    object = refl;
  }
  set_missing_arms s name false true d v = record {
    project = v.project;
    collection = refl;
    dataset = v.dataset;
    object = v.object;
  }
  set_missing_arms s name false false true v = record {
    project = v.project;
    collection = v.collection;
    dataset = refl;
    object = v.object;
  }
  set_missing_arms s name false false false v = tt

  set_missing-AllFromCache :
      (s : ResourceStates) (idx len : ℕ) (name : Text)
      → AllFromCache s
      → Ensures AllFromCache (set_missing s idx len name)
  unfolding set_missing type_of_variant
  set_missing-AllFromCache s zero len name v = record {
    project = refl;
    collection = v.collection;
    dataset = v.dataset;
    object = v.object;
  }
  set_missing-AllFromCache s (suc idx) len name v =
      set_missing_arms s name (len == suc (suc idx) && (idx == 0 || idx == 1 || idx == 2))
        (idx == 0 && len == 4) ((idx == 0 && len == 3) || (idx == 1 && len == 4)) v

  enter-AllFromCache :
      (s : ResourceStates) (idx len : ℕ) (p : Text × Text)
      → AllFromCache s
      → Ensures AllFromCache (enter get_full_resource_by_path s idx len p)
  unfolding enter
  enter-AllFromCache s idx len (prefix, name) v =
      elim (Option-cases (get_full_resource_by_path prefix)) [
        | inl e ↦
            rw (e, enter)
              (Ensures-map_err AllFromCache _ _ (set_missing-AllFromCache s idx len name v))
        | inr (o, e) ↦ rw (e, enter) (set_by_type-AllFromCache s o o.object_type prefix refl e v)
      ]

  enter_all-AllFromCache :
      (s : ResourceStates) (idx len : ℕ) (l : List (Text × Text))
      → AllFromCache s
      → Ensures AllFromCache (enter_all get_full_resource_by_path s idx len l)
  unfolding enter_all
  enter_all-AllFromCache s idx len [] v = v
  enter_all-AllFromCache s idx len (p ∷ l) v =
      Ensures-bind AllFromCache AllFromCache (enter get_full_resource_by_path s idx len p)
        (λ s'. enter_all get_full_resource_by_path s' (suc idx) len l)
        (enter-AllFromCache s idx len p v) (λ s' v'. enter_all-AllFromCache s' (suc idx) len l v')

  -- What a successful call says of its states.
  pub record IsResolved (allow_create : Bool) (s : ResourceStates) : Type 0 where
    pub from_cache : AllFromCache s
    pub has_project : (allow_create ≡ true) ⊎ ((p : Object) × (s.project ≡ found p))
    pub tail_missing : TailMissing s allow_create

  found_of : (st : ResourceState) → is_none (as_ref st) ≡ false → (p : Object) × (st ≡ found p)
  unfolding as_ref
  found_of (found o) h = (o, refl)
  found_of (missing _ _) h = cc
  found_of absent h = cc

  project_tested :
      (allow_create : Bool) (s : ResourceStates)
      → not (not allow_create && is_none (get_project s)) ≡ true
      → (allow_create ≡ true) ⊎ ((p : Object) × (s.project ≡ found p))
  unfolding get_project
  project_tested true s h = inl refl
  project_tested false s h = inr (found_of s.project (ground arith))

  -- When the states of a path are returned, each object found is the cache's object of some path
  -- and has the type of its place, each missing one records the variant of its place, what is
  -- missing is the lower end of the path (a missing project counting only without allow_create),
  -- and without allow_create the project is found.
  pub prefix_into_resource_states-IsResolved :
      (prefixes : List (Text × Text)) (allow_create : Bool) {s : ResourceStates}
      → prefix_into_resource_states get_full_resource_by_path prefixes allow_create ≡ ok s
      → IsResolved allow_create s
  unfolding prefix_into_resource_states
  prefix_into_resource_states-IsResolved prefixes allow_create {s} h =
      let (states, entered, rest) =
        >>=-eq-ok (enter_all get_full_resource_by_path new 0 (length prefixes) prefixes) _ h in
      let (tested, valid, same) = both_checks _ (validate states allow_create) states _ _ rest in
      rw (← same) (record {
        from_cache =
            Ensures-elim AllFromCache entered
              (enter_all-AllFromCache new 0 (length prefixes) prefixes new-AllFromCache);
        has_project = project_tested allow_create states tested;
        tail_missing = (validate_iff states allow_create).0 valid;
      })

  TypedAt-of_cache : (t : ObjectType) (st : ResourceState) → FromCache t st → TypedAt t st
  TypedAt-of_cache t (found o) h = tt
  TypedAt-of_cache t (missing name v) h = h
  TypedAt-of_cache t absent h = tt

  IsTyped-of_cache : (s : ResourceStates) → AllFromCache s → IsTyped s
  IsTyped-of_cache s v = record {
    collection = TypedAt-of_cache ObjectType.collection s.collection v.collection;
    dataset = TypedAt-of_cache ObjectType.dataset s.dataset v.dataset;
    object = TypedAt-of_cache ObjectType.object s.object v.object;
  }

  -- Whenever a path resolves without allow_create, on any cache, the step that turns its states
  -- into objects to use and objects to create succeeds.
  pub resolved_path_creates :
      (prefixes : List (Text × Text)) (s : ResourceStates) (fresh_c fresh_d fresh_o : Fresh)
      → prefix_into_resource_states get_full_resource_by_path prefixes false ≡ ok s
      → (h : Hierarchy) × (into_new_or_existing fresh_c fresh_d fresh_o s ≡ ok h)
  resolved_path_creates prefixes s fc fd fo h =
      let v = prefix_into_resource_states-IsResolved prefixes false h in
      elim v.has_project [
        | inl e ↦ absurd (false≢true e)
        | inr (p, e) ↦
            let created =
              into_new_or_existing_lem fc fd fo s p (require_project-found s p e)
                (IsTyped-of_cache s v.from_cache) in
            (created.0, created.1)
      ]
