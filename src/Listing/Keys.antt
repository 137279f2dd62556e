-- ===== src/Listing/Keys.antt =====
-- s3_frontend/utils/list_objects.rs: which keys and common prefixes a page has.
use data_proxy.Base.{
  ℕ, true, false, List, [], ◌∷◌, ◌++◌, Option, Text, ◌≡◌, refl, ◌↔◌, ◌⊎◌, inl, inr, Eq, Result, ok,
  err, >>=-eq-ok, arith, Bool-cases, contains, eq_text, map_err, s3_error, no_such_key,
}
use data_proxy.Structs.Format.{DieselUlid, ObjectLocation}
use data_proxy.Structs.Object.{Object, ObjectType, type_eq}
use data_proxy.Cache.{Cache, get_resource_cloned, get_path_range}
use data_proxy.Listing.{
  Contents, eq_contents, Page, empty_page, Place, below, entry, beside, place, contents_of,
  insert_new, add_entry, at_place, turn, list_response,
}
use data_proxy.Listing.Places.{
  IsBelow, IsKey, place-below, place-entry, Describes, contents_of-Describes,
}
use data_proxy.Listing.Pages.{collect, turns-split, token_at}

-- Membership in a set after `insert`.
contains-append :
    {A : Type 0} ⦃e : Eq A⦄ (s : List A) (a x : A)
    → (contains (s ++ a ∷ []) x ≡ true) ↔ ((contains s x ≡ true) ⊎ (x ≡ a))
contains-append ⦃e⦄ [] a x = ground (arith, e.same_iff a x)
contains-append ⦃e⦄ (y ∷ s) a x = ground (arith, contains-append s a x)

contains_same : {A : Type 0} ⦃e : Eq A⦄ (s : List A) (a x : A) → x ≡ a → contains s a ≡ contains s x
contains_same s a x h = cc

contains-insert_new :
    {A : Type 0} ⦃e : Eq A⦄ (s : List A) (a x : A)
    → (contains (insert_new s a) x ≡ true) ↔ ((contains s x ≡ true) ⊎ (x ≡ a))
contains-insert_new s a x = elim (Bool-cases (contains s a)) [
  | inl old ↦ ground (arith, contains_same s a x)
  | inr fresh ↦ ground (arith, contains-append s a x)
]

-- A path at the place `p` is a key of the listing and names an object, of which `c` is the entry.
abbrev pub IsEntry : Cache → Place → Text × DieselUlid → Contents → Type 0
IsEntry cache p (path, id) c =
    (resource : Object × Option ObjectLocation) × (p ≡ entry)
    × (get_resource_cloned cache id false ≡ ok resource)
    × (type_eq resource.0.object_type ObjectType.object ≡ true)
    × (c ≡ contents_of path resource)

keys-add_entry :
    (page : Page) (path : Text) (r : Object × Option ObjectLocation) (c : Contents)
    → (contains (add_entry page path r).keys c ≡ true) ↔ (
        (contains page.keys c ≡ true)
        ⊎ ((type_eq r.0.object_type ObjectType.object ≡ true) × (c ≡ contents_of path r)))
unfolding add_entry
keys-add_entry page path r c = ground (arith, contains-insert_new page.keys (contents_of path r) c)

-- The entry of a path whose resource is known.
IsEntry-iff :
    (cache : Cache) (path : Text) (id : DieselUlid) (r : Object × Option ObjectLocation)
    (c : Contents)
    → get_resource_cloned cache id false ≡ ok r
    → ((type_eq r.0.object_type ObjectType.object ≡ true) × (c ≡ contents_of path r))
      ↔ IsEntry cache entry (path, id) c
IsEntry-iff cache path id r c found =
    ((λ h. (r, refl, found, h.0, h.1)), λ (q, p, found', t, k). (ground arith, ground arith))

keys-resource :
    (cache : Cache) (page out : Page) (path : Text) (id : DieselUlid)
    (q : Result (Object × Option ObjectLocation)) (c : Contents)
    → get_resource_cloned cache id false ≡ q
    → at_place cache page (path, id) entry ≡ ok out
    → (contains out.keys c ≡ true)
      ↔ ((contains page.keys c ≡ true) ⊎ IsEntry cache entry (path, id) c)
unfolding at_place
keys-resource cache page out path id (err e) c found h = ground arith
keys-resource cache page out path id (ok r) c found h =
    let (p, n) = IsEntry-iff cache path id r c found in
    let (k, m) = keys-add_entry page path r c in ground arith

keys-at_place :
    (cache : Cache) (page out : Page) (next : Text × DieselUlid) (p : Place) (c : Contents)
    → at_place cache page next p ≡ ok out
    → (contains out.keys c ≡ true) ↔ ((contains page.keys c ≡ true) ⊎ IsEntry cache p next c)
unfolding at_place
keys-at_place cache page out next (below b) c h = ground arith
keys-at_place cache page out next beside c h = ground arith
keys-at_place cache page out (path, id) entry c h =
    keys-resource cache page out path id (get_resource_cloned cache id false) c refl h

prefixes-add_entry :
    (page : Page) (path : Text) (r : Object × Option ObjectLocation)
    → (add_entry page path r).common_prefixes ≡ page.common_prefixes
unfolding add_entry
prefixes-add_entry page path r = ground arith

prefixes-at_place :
    (cache : Cache) (page out : Page) (next : Text × DieselUlid) (p : Place) (t : Text)
    → at_place cache page next p ≡ ok out
    → (contains out.common_prefixes t ≡ true)
      ↔ ((contains page.common_prefixes t ≡ true) ⊎ (p ≡ below t))
unfolding at_place
prefixes-at_place cache page out next (below b) t h =
    ground (arith, contains-insert_new page.common_prefixes b t)
prefixes-at_place cache page out next beside t h = ground arith
prefixes-at_place cache page out (path, id) entry t h =
    let (r, a, b) =
      >>=-eq-ok
        (map_err (get_resource_cloned cache id false)
          (s3_error no_such_key "No key found for path"))
        (λ (r : Object × Option ObjectLocation). ok (add_entry page path r)) h in
    ground (arith, prefixes-add_entry page path r)

module _ (cache : Cache) (delimiter prefix : Option Text) where
  -- The path is a key of the listing and names an object, which `c` describes.
  abbrev pub IsListed : Text × DieselUlid → Contents → Type 0
  IsListed (path, id) c =
      (resource : Object × Option ObjectLocation) × IsKey delimiter prefix path
      × (get_resource_cloned cache id false ≡ ok resource)
      × (resource.0.object_type ≡ ObjectType.object)
      × Describes c path resource

  IsListed-iff :
      (path : Text) (id : DieselUlid) (c : Contents)
      → IsEntry cache (place delimiter prefix path) (path, id) c ↔ IsListed (path, id) c
  unfolding type_eq
  IsListed-iff path id c = (
    (λ (r, p, found, is, e). (
      r,
      (place-entry delimiter prefix path).0 p,
      found,
      is_object r.0.object_type is,
      (contents_of-Describes c path r).0 e,
    )),
    λ (r, p, found, is, e). (
      r,
      (place-entry delimiter prefix path).1 p,
      found,
      rw is refl,
      (contents_of-Describes c path r).1 e,
    ),
  )
    where
      is_object : (t : ObjectType) → type_eq t ObjectType.object ≡ true → t ≡ ObjectType.object
      is_object t h = ground arith

  -- One of the paths has the entry `c`; one of them lies below the common prefix `p`.
  abbrev pub HasEntry : List (Text × DieselUlid) → Contents → Type 0
  HasEntry [] c = ⊥
  HasEntry (next ∷ rest) c = IsListed next c ⊎ HasEntry rest c

  abbrev pub HasBelow : List (Text × DieselUlid) → Text → Type 0
  HasBelow [] p = ⊥
  HasBelow (next ∷ rest) p = IsBelow delimiter prefix next.0 p ⊎ HasBelow rest p

  collect-keys :
      (l : List (Text × DieselUlid)) (page out : Page) (c : Contents)
      → collect cache delimiter prefix l page ≡ ok out
      → (contains out.keys c ≡ true) ↔ ((contains page.keys c ≡ true) ⊎ HasEntry l c)
  unfolding turn
  collect-keys [] page out c h = ground arith
  collect-keys (next ∷ rest) page out c h =
      let (mid, a, b) =
        >>=-eq-ok (turn cache delimiter prefix page next) (collect cache delimiter prefix rest) h in
      ground (
        arith,
        keys-at_place cache page mid next (place delimiter prefix next.0) c a,
        collect-keys rest mid out c b,
        IsListed-iff next.0 next.1 c,
      )

  collect-prefixes :
      (l : List (Text × DieselUlid)) (page out : Page) (t : Text)
      → collect cache delimiter prefix l page ≡ ok out
      → (contains out.common_prefixes t ≡ true)
        ↔ ((contains page.common_prefixes t ≡ true) ⊎ HasBelow l t)
  unfolding turn
  collect-prefixes [] page out t h = ground arith
  collect-prefixes (next ∷ rest) page out t h =
      let (mid, a, b) =
        >>=-eq-ok (turn cache delimiter prefix page next) (collect cache delimiter prefix rest) h in
      ground (
        arith,
        prefixes-at_place cache page mid next (place delimiter prefix next.0) t a,
        collect-prefixes rest mid out t b,
        place-below delimiter prefix next.0 t,
      )

  -- A page of the listing covers a first part of the range of paths, whose rest begins at the path
  -- of its token, or is empty if there is none; its keys are exactly the descriptions of the
  -- objects in that part whose path begins with the prefix with no delimiter after it, each with
  -- its path, identifier, class, time and the raw length of its location, zero without one; and
  -- its common prefixes are exactly the paths of that part that begin with the prefix, each up to
  -- and with the first delimiter after it.
  pub list_response-keys :
      (encode : Text → Text) (bucket start_at : Text) (max_keys : ℕ) {page : Page}
      {token : Option Text}
      → list_response encode cache delimiter prefix bucket start_at max_keys ≡ ok (page, token)
      → (before after : List (Text × DieselUlid)) × (get_path_range cache bucket start_at
          ≡ before ++ after)
        × (token ≡ token_at encode after)
        × ((c : Contents) → (contains page.keys c ≡ true) ↔ HasEntry before c)
        × ((t : Text) → (contains page.common_prefixes t ≡ true) ↔ HasBelow before t)
  unfolding list_response
  list_response-keys encode bucket start_at max_keys {page} {token} h =
      let (before, after, joined, collected, at) =
        turns-split cache delimiter prefix encode max_keys (get_path_range cache bucket start_at)
          empty_page page token h in
      (
        before,
        after,
        joined,
        at,
        (λ c. ground (arith, collect-keys before empty_page page c collected)),
        λ t. ground (arith, collect-prefixes before empty_page page t collected),
      )
