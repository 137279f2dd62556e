-- ===== src/Listing/Pages.antt =====
-- s3_frontend/utils/list_objects.rs: what a page holds, and how the pages follow one another.
use data_proxy.Base.{
  ℕ, ◌≤◌, ◌+◌, false, List, [], ◌∷◌, ◌++◌, Option, none, some, Text, ◌≡◌, refl, sym, ap, ◌∙◌,
  length, length-append, nat_eq, Result, ok, >>=-eq-ok, ◌>>=◌, arith, inl, inr, ◌⊎◌, Bool-cases,
  Sorted, append-nil, map_err, eq_text, s3_error, no_such_key, Eq,
}
use data_proxy.Structs.Format.{DieselUlid, ObjectLocation}
use data_proxy.Structs.Object.{Object}
use data_proxy.Cache.{Cache, get_resource_cloned, get_path_range}
use data_proxy.Cache.Paths.{get_path_range-resume}
use data_proxy.Listing.{
  Page, empty_page, num_keys, Place, below, entry, beside, place, contents_of, eq_contents,
  insert_new, turn, at_place, add_entry, turns, list_response,
}

-- The token for the paths that are left.
abbrev pub token_at : (Text → Text) → List (Text × DieselUlid) → Option Text
token_at encode [] = none
token_at encode (next ∷ rest) = some (encode next.0)

module _ (cache : Cache) (delimiter prefix : Option Text) where
  -- The loop without a limit for the page.
  abbrev pub collect : List (Text × DieselUlid) → Page → Result Page
  collect [] page = ok page
  collect (next ∷ rest) page =
      turn cache delimiter prefix page next >>= λ (after : Page). collect rest after

  module _ (encode : Text → Text) (max_keys : ℕ) where
    -- What a run of the loop gives: the paths before the token are collected.
    pub turns-split :
        (l : List (Text × DieselUlid)) (page out : Page) (token : Option Text)
        → turns cache delimiter prefix encode max_keys l page ≡ ok (out, token)
        → (before after : List (Text × DieselUlid)) × (l ≡ before ++ after)
          × (collect before page ≡ ok out)
          × (token ≡ token_at encode after)
    unfolding turns
    turns-split [] page out token h = ([], [], refl, ground arith, ground arith)
    turns-split (next ∷ rest) page out token h =
        elim (Bool-cases (nat_eq (num_keys page) max_keys)) [
          | inl full ↦ ([], next ∷ rest, refl, ground arith, ground arith)
          | inr room ↦
              let (mid, a, b) =
                >>=-eq-ok (turn cache delimiter prefix page next)
                  (λ (after : Page). turns cache delimiter prefix encode max_keys rest after)
                  (ground arith) in
              let (before, after, joined, collected, at) = turns-split rest mid out token b in
              (
                next ∷ before,
                after,
                ap (λ (x : List (Text × DieselUlid)). next ∷ x) joined,
                ground arith,
                at,
              )
        ]

    length-insert_new :
        {A : Type 0} ⦃e : Eq A⦄ (s : List A) (a : A) → length (insert_new s a) ≤ length s + 1
    length-insert_new s a = ground (arith, length-append s (a ∷ []))

    num_keys-add_entry :
        (page : Page) (path : Text) (r : Object × Option ObjectLocation)
        → num_keys (add_entry page path r) ≤ num_keys page + 1
    unfolding add_entry num_keys
    num_keys-add_entry page path r =
        ground (arith, length-insert_new page.keys (contents_of path r))

    -- A turn adds at most one key or common prefix.
    num_keys-at_place :
        (page out : Page) (next : Text × DieselUlid) (p : Place)
        → at_place cache page next p ≡ ok out
        → num_keys out ≤ num_keys page + 1
    unfolding at_place num_keys
    num_keys-at_place page out next (below c) h =
        ground (arith, length-insert_new page.common_prefixes c)
    num_keys-at_place page out next beside h = ground arith
    num_keys-at_place page out (path, id) entry h =
        let (r, a, b) =
          >>=-eq-ok
            (map_err (get_resource_cloned cache id false)
              (s3_error no_such_key "No key found for path"))
            (λ (r : Object × Option ObjectLocation). ok (add_entry page path r)) h in
        ground (arith, num_keys-add_entry page path r)

    num_keys-turn :
        (page out : Page) (next : Text × DieselUlid)
        → turn cache delimiter prefix page next ≡ ok out
        → num_keys out ≤ num_keys page + 1
    unfolding turn
    num_keys-turn page out next h =
        num_keys-at_place page out next (place delimiter prefix next.0) h

    turns-bound :
        (l : List (Text × DieselUlid)) (page out : Page) (token : Option Text)
        → num_keys page ≤ max_keys
        → turns cache delimiter prefix encode max_keys l page ≡ ok (out, token)
        → (num_keys out ≤ max_keys) × ((token ≡ none) ⊎ (num_keys out ≡ max_keys))
    unfolding turns
    turns-bound [] page out token b h = (ground arith, inl (ground arith))
    turns-bound (next ∷ rest) page out token b h =
        elim (Bool-cases (nat_eq (num_keys page) max_keys)) [
          | inl full ↦ (ground arith, inr (ground arith))
          | inr room ↦
              let (mid, a, c) =
                >>=-eq-ok (turn cache delimiter prefix page next)
                  (λ (after : Page). turns cache delimiter prefix encode max_keys rest after)
                  (ground arith) in
              turns-bound rest mid out token (ground (arith, num_keys-turn page mid next a)) c
        ]

module _ (encode : Text → Text) (cache : Cache) (delimiter prefix : Option Text)
    (bucket start_at : Text) (max_keys : ℕ) where
  token_at-some :
      {t : Text} (l : List (Text × DieselUlid))
      → token_at encode l ≡ some t
      → (next : Text × DieselUlid) × (rest : List (Text × DieselUlid)) × (l ≡ next ∷ rest)
        × (t ≡ encode next.0)
  token_at-some [] h = ground arith
  token_at-some (next ∷ rest) h = (next, rest, refl, ground arith)

  token_at-none : (l : List (Text × DieselUlid)) → token_at encode l ≡ none → l ≡ []
  token_at-none [] h = refl
  token_at-none (next ∷ rest) h = ground arith

  num_keys_empty : (m : ℕ) → num_keys empty_page ≤ m
  unfolding num_keys
  num_keys_empty m = omega arith

  -- If a page of the listing ends with a token, with the cache's paths in order: the token encodes
  -- a path, the paths of the range are those before it followed by the range that starts at it, so
  -- that the next page continues there and no path is passed over or visited twice; the page is
  -- what the paths before it give without a limit, and holds exactly max_keys keys and common
  -- prefixes.
  pub list_response-resume :
      {page : Page} {token : Text}
      → Sorted cache.paths
      → list_response encode cache delimiter prefix bucket start_at max_keys ≡ ok (page, some token)
      → (before : List (Text × DieselUlid)) × (path : Text) × (token ≡ encode path)
        × (get_path_range cache bucket start_at ≡ before ++ get_path_range cache bucket path)
        × (collect cache delimiter prefix before empty_page ≡ ok page)
        × (length page.keys + length page.common_prefixes ≡ max_keys)
  unfolding list_response num_keys
  list_response-resume {page} {token} sorted h =
      let l = get_path_range cache bucket start_at in
      let (before, after, joined, collected, at) =
        turns-split cache delimiter prefix encode max_keys l empty_page page (some token) h in
      let ((path, id), more, next, coded) = token_at-some after (sym at) in
      let whole = joined ∙ ap (λ x. before ++ x) next in
      (
        before,
        path,
        coded,
        whole
            ∙ ap (λ x. before ++ x)
                (sym
                  (get_path_range-resume cache bucket start_at path id before more sorted whole)),
        collected,
        ground (
          arith,
          turns-bound cache delimiter prefix encode max_keys l empty_page page (some token)
              (num_keys_empty max_keys) h,
        ),
      )

  -- A page without a token is what all paths of the range give without a limit, and holds at most
  -- max_keys keys and common prefixes.
  pub list_response-last :
      {page : Page}
      → list_response encode cache delimiter prefix bucket start_at max_keys ≡ ok (page, none)
      → (collect cache delimiter prefix (get_path_range cache bucket start_at) empty_page ≡ ok page)
        × (length page.keys + length page.common_prefixes ≤ max_keys)
  unfolding list_response num_keys
  list_response-last {page} h =
      let l = get_path_range cache bucket start_at in
      let (before, after, joined, collected, at) =
        turns-split cache delimiter prefix encode max_keys l empty_page page none h in
      let ended = token_at-none after (sym at) in
      (
        rw (joined, ended, append-nil before) collected,
        (turns-bound cache delimiter prefix encode max_keys l empty_page page none
            (num_keys_empty max_keys) h).0,
      )
