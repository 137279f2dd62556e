-- ===== src/Structs/States/Access.antt =====
-- structs.rs: who passes `ResourceStates::check_permissions`, and which object decides
-- `fail_partial_sync`.
use data_proxy.Base.{
  Bool, true, false, ◌&&◌, ◌||◌, List, [], ◌∷◌, ◌≡◌, ◌↔◌, ◌⊎◌, inl, inr, eq_nat, if◌then◌else◌, ok,
  err, s3_error, access_denied, arith, Option, none, some, any, refl,
}
use data_proxy.Base.Map.{Map, get}
use data_proxy.Structs.Format.{DieselUlid}
use data_proxy.Structs.Permission.{DbPermissionLevel, grants, grants_trans}
use data_proxy.Structs.Object.{is_public}
use data_proxy.Structs.States.{
  ResourceState, found, missing, absent, ResourceStates, AccessKeyPermissions, bottom_up, holds,
  admits, check_states, check_permissions,
}

-- Why a request may pass at a state: the object is there, and it is public where that is enough, or
-- the key holds at least the required level on it.
abbrev pub Allowed :
    Map DieselUlid DbPermissionLevel → DbPermissionLevel → Bool → ResourceState → Type 0
Allowed permissions perm allow_public (found o) =
    ((allow_public ≡ true) × (is_public o.data_class ≡ true))
    ⊎ ((q : DbPermissionLevel) × (get permissions o.id ≡ some q) × (grants q perm ≡ true))
Allowed permissions perm allow_public (missing _ _) = ⊥
Allowed permissions perm allow_public absent = ⊥

module _ (permissions : Map DieselUlid DbPermissionLevel) (perm : DbPermissionLevel)
    (allow_public : Bool) where
  Allowed-admits :
      (st : ResourceState)
      → Allowed permissions perm allow_public st
      → admits permissions perm allow_public st ≡ true
  unfolding admits holds
  Allowed-admits (found o) (inl p) = ground arith
  Allowed-admits (found o) (inr (q, e, g)) = ground arith
  Allowed-admits (missing _ _) h = absurd h
  Allowed-admits absent h = absurd h

  admits-Allowed :
      (st : ResourceState)
      → admits permissions perm allow_public st ≡ true
      → Allowed permissions perm allow_public st
  unfolding admits holds
  admits-Allowed (found o) h = held (get permissions o.id) refl h
    where
      held :
          (g : Option DbPermissionLevel)
          → get permissions o.id ≡ g
          → ((allow_public && is_public o.data_class)
              || (elim (get permissions o.id) [ none ↦ false | some q ↦ grants q perm ]))
            ≡ true
          → Allowed permissions perm allow_public (found o)
      held none e k = ground arith
      held (some q) e k = ground arith
  admits-Allowed (missing _ _) h = cc
  admits-Allowed absent h = cc

  check_states-any :
      (l : List ResourceState)
      → check_states permissions perm allow_public l ≡ (
          if any (admits permissions perm allow_public) l
          then ok tt
          else err (s3_error access_denied "Access Denied"))
  unfolding check_states
  check_states-any [] = refl
  check_states-any (s ∷ l) = ground (arith, check_states-any l)

  Any_admits :
      (s : ResourceStates)
      → (any (admits permissions perm allow_public) (bottom_up s) ≡ true) ↔ (
          Allowed permissions perm allow_public s.object
          ⊎ Allowed permissions perm allow_public s.dataset
          ⊎ Allowed permissions perm allow_public s.collection
          ⊎ Allowed permissions perm allow_public s.project)
  Any_admits s = (
    λ h. ground (
      arith,
      admits-Allowed s.object,
      admits-Allowed s.dataset,
      admits-Allowed s.collection,
      admits-Allowed s.project,
    ),
    λ h. ground (
      arith,
      Allowed-admits s.object,
      Allowed-admits s.dataset,
      Allowed-admits s.collection,
      Allowed-admits s.project,
    ),
  )

-- ResourceStates::check_permissions succeeds exactly if at one of the four levels of the path an
-- object is found that is public, where public objects are let through, or on which the key holds
-- at least the required level.
pub check_permissions_iff :
    (s : ResourceStates) (key : AccessKeyPermissions) (perm : DbPermissionLevel)
    (allow_public : Bool)
    → (check_permissions s key perm allow_public ≡ ok tt) ↔ (
        Allowed key.permissions perm allow_public s.object
        ⊎ Allowed key.permissions perm allow_public s.dataset
        ⊎ Allowed key.permissions perm allow_public s.collection
        ⊎ Allowed key.permissions perm allow_public s.project)
unfolding check_permissions
check_permissions_iff s key perm allow_public = (
  λ h. ground (
    arith,
    check_states-any key.permissions perm allow_public (bottom_up s),
    (Any_admits key.permissions perm allow_public s).0,
  ),
  λ h.
      rw (check_states-any key.permissions perm allow_public (bottom_up s))
        (rw ((Any_admits key.permissions perm allow_public s).1 h)),
)

-- The only other outcome is `AccessDenied`.
check_permissions-denied :
    (s : ResourceStates) (key : AccessKeyPermissions) (perm : DbPermissionLevel)
    (allow_public : Bool)
    → (check_permissions s key perm allow_public ≡ ok tt)
      ⊎ (check_permissions s key perm allow_public ≡ err (s3_error access_denied "Access Denied"))
unfolding check_permissions
check_permissions-denied s key perm a =
    ground (arith, check_states-any key.permissions perm a (bottom_up s))

Allowed-mono :
    (m : Map DieselUlid DbPermissionLevel) (p q : DbPermissionLevel) (allow_public : Bool)
    → grants p q ≡ true
    → (st : ResourceState) → Allowed m p allow_public st
    → Allowed m q allow_public st
Allowed-mono m p q a g (found o) (inl h) = inl h
Allowed-mono m p q a g (found o) (inr (r, e, h)) = inr (r, e, grants_trans r p q h g)
Allowed-mono m p q a g (missing _ _) h = h
Allowed-mono m p q a g absent h = h

-- Whoever passes ResourceStates::check_permissions for a level passes it for every level that this
-- one grants.
pub check_permissions_mono :
    (s : ResourceStates) (key : AccessKeyPermissions) (p q : DbPermissionLevel)
    (allow_public : Bool)
    → grants p q ≡ true
    → check_permissions s key p allow_public ≡ ok tt
    → check_permissions s key q allow_public ≡ ok tt
check_permissions_mono s key p q a g h =
    let lower = Allowed-mono key.permissions p q a g in
    (check_permissions_iff s key q a).1 (
      ground (
        arith,
        (check_permissions_iff s key p a).0 h,
        lower s.object,
        lower s.dataset,
        lower s.collection,
        lower s.project,
      ))
