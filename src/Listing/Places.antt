-- ===== src/Listing/Places.antt =====
-- s3_frontend/utils/list_objects.rs: which paths match, which lie below a common prefix, and what the
-- entry of an object says, described without the code.
use data_proxy.Base.{
  ℕ, ◌≤◌, [], ◌∷◌, ◌++◌, Option, none, some, Text, length, ◌≡◌, ◌≢◌, ◌↔◌, ◌⊎◌, inl, inr, refl, sym,
  ap, ◌∙◌, arith, append_assoc, Option-cases, strip_prefix, strip_prefix-append,
  append-strip_prefix, split_once_at, append-split_once_at,
}
use data_proxy.Base.Int.{ℤ, pos}
use data_proxy.Structs.Format.{ObjectLocation}
use data_proxy.Structs.Object.{Object}
use data_proxy.Listing.{Contents, Place, below, entry, beside, split_place, place, contents_of}

-- The text of the prefix asked for.
abbrev pub asked_prefix : Option Text → Text
asked_prefix none = []
asked_prefix (some prefix) = prefix

-- The text is `a`, the delimiter and `b`, and the delimiter does not occur before.
abbrev pub FirstAt : Text → Text → Text → Text → Type 0
FirstAt delimiter s a b =
    (a ++ delimiter ++ b ≡ s) × ((a' b' : Text) → a' ++ delimiter ++ b' ≡ s → length a ≤ length a')

-- The path begins with the prefix, and the common prefix is the path up to and with the first
-- delimiter after it.
abbrev pub IsBelow : Option Text → Option Text → Text → Text → Type 0
IsBelow none prefix path t = ⊥
IsBelow (some delimiter) prefix path t =
    (rest a b : Text) × (asked_prefix prefix ++ rest ≡ path)
    × FirstAt delimiter rest a b
    × (t ≡ (asked_prefix prefix ++ a) ++ delimiter)

-- The path begins with the prefix, and no delimiter follows it.
abbrev pub IsKey : Option Text → Option Text → Text → Type 0
IsKey none prefix path = (rest : Text) × (asked_prefix prefix ++ rest ≡ path)
IsKey (some delimiter) prefix path =
    (rest : Text) × (asked_prefix prefix ++ rest ≡ path)
    × ((a b : Text) → a ++ delimiter ++ b ≢ rest)

-- Where the delimiter occurs, the text is split, and not later.
split-at :
    (d s a b : Text)
    → a ++ d ++ b ≡ s
    → (a' b' : Text) × (split_once_at d s ≡ some (a', b')) × (length a' ≤ length a)
unfolding split_once_at
split-at d [] [] b h = (
  [],
  b,
  rw (ap (strip_prefix d) (sym h) ∙ strip_prefix-append d b, split_once_at) refl,
  omega arith,
)
split-at d (c ∷ s) [] b h = (
  [],
  b,
  rw (ap (strip_prefix d) (sym h) ∙ strip_prefix-append d b, split_once_at) refl,
  omega arith,
)
split-at d [] (x ∷ a) b h = cc
split-at d (c ∷ s) (x ∷ a) b h =
    let (a', b', e, short) = split-at d s a b (ground arith) in
    elim (Option-cases (strip_prefix d (c ∷ s))) [
      | inl f ↦ (c ∷ a', b', rw (f, split_once_at) (rw e refl), omega (arith, short))
      | inr (r, f) ↦ ([], r, rw (f, split_once_at) refl, omega arith)
    ]

append-same_length : (a b r s : Text) → a ++ r ≡ b ++ s → length a ≡ length b → a ≡ b
append-same_length [] [] r s h k = refl
append-same_length [] (y ∷ b) r s h k = absurd (omega (arith, k))
append-same_length (x ∷ a) [] r s h k = absurd (omega (arith, k))
append-same_length (x ∷ a) (y ∷ b) r s h k =
    let shorter : length a ≡ length b = omega (arith, k) in
    ground (arith, h, append-same_length a b r s, shorter)

split-FirstAt : (d s a b : Text) → split_once_at d s ≡ some (a, b) → FirstAt d s a b
split-FirstAt d s a b h = (
  append-split_once_at d s a b h,
  λ x y e.
      let (a', b', f, short) = split-at d s x y e in
      let same : a ≡ a' = ground (arith, h, f) in omega (arith, short, ap (length {A = ℕ}) same),
)

-- What remains of a path after the prefix, and the place by what remains.
abbrev after_prefix : Option Text → Text → Option Text
after_prefix none path = some path
after_prefix (some prefix) path = strip_prefix prefix path

after_prefix_iff :
    (prefix : Option Text) (path rest : Text)
    → (after_prefix prefix path ≡ some rest) ↔ (asked_prefix prefix ++ rest ≡ path)
after_prefix_iff none path rest = ground arith
after_prefix_iff (some p) path rest = (
  (λ h. append-strip_prefix p path h),
  λ h. ap (strip_prefix p) (sym h) ∙ strip_prefix-append p rest,
)

abbrev by_delimiter : Option Text → Text → Text → Place
by_delimiter none prefix rest = entry
by_delimiter (some delimiter) prefix rest = split_place prefix delimiter rest

place-matching :
    (delimiter prefix : Option Text) (path rest : Text)
    → asked_prefix prefix ++ rest ≡ path
    → place delimiter prefix path ≡ by_delimiter delimiter (asked_prefix prefix) rest
unfolding place
place-matching (some d) (some p) path rest h =
    rw ((after_prefix_iff (some p) path rest).1 h, place) refl
place-matching (some d) none path rest h = ap (split_place [] d) (sym h)
place-matching none (some p) path rest h =
    rw ((after_prefix_iff (some p) path rest).1 h, place) refl
place-matching none none path rest h = refl

-- A path that is not beside the listing begins with the prefix.
place-matches :
    (delimiter prefix : Option Text) (path : Text)
    → place delimiter prefix path ≢ beside
    → (rest : Text) × (asked_prefix prefix ++ rest ≡ path)
unfolding place
place-matches (some d) (some p) path h = elim (Option-cases (strip_prefix p path)) [
  | inl e ↦ absurd (h (rw (e, place) refl))
  | inr (rest, e) ↦ (rest, append-strip_prefix p path e)
]
place-matches none (some p) path h = elim (Option-cases (strip_prefix p path)) [
  | inl e ↦ absurd (h (rw (e, place) refl))
  | inr (rest, e) ↦ (rest, append-strip_prefix p path e)
]
place-matches delimiter none path h = (path, refl)

abbrev Split : Text → Text → Text → Type 0
Split prefix delimiter rest =
    ((split_place prefix delimiter rest ≡ entry) × (split_once_at delimiter rest ≡ none))
    ⊎ ((a b : Text) × (split_once_at delimiter rest ≡ some (a, b))
        × (split_place prefix delimiter rest ≡ below ((prefix ++ a) ++ delimiter)))

Split-cases : (prefix delimiter rest : Text) → Split prefix delimiter rest
unfolding split_place
Split-cases prefix delimiter rest = elim (Option-cases (split_once_at delimiter rest)) [
  | inl e ↦ inl (rw (e, split_place) refl, e)
  | inr ((a, b), e) ↦ inr (a, b, e, rw (e, split_place) refl)
]

pub place-below :
    (delimiter prefix : Option Text) (path t : Text)
    → (place delimiter prefix path ≡ below t) ↔ IsBelow delimiter prefix path t
place-below none prefix path t = (
  (λ h.
      let (rest, m) = place-matches none prefix path (λ e. ground (arith, e, h)) in
      ground (arith, h, place-matching none prefix path rest m)),
  λ h. absurd h,
)
place-below (some d) prefix path t = (
  (λ h.
      let (rest, m) = place-matches (some d) prefix path (λ e. ground (arith, e, h)) in
      let at = place-matching (some d) prefix path rest m in
      elim (Split-cases (asked_prefix prefix) d rest) [
        | inl (is, lacks) ↦ absurd (ground (arith, h, at, is))
        | inr (a, b, e, is) ↦ (rest, a, b, m, split-FirstAt d rest a b e, ground (arith, h, at, is))
      ]),
  λ (rest, a, b, m, (joined, least), is).
      let at = place-matching (some d) prefix path rest m in
      let (a', b', e, short) = split-at d rest a b joined in
      let same : a' ≡ a =
        append-same_length a' a (d ++ b') (d ++ b)
          (sym (append_assoc a' d b')
            ∙ (append-split_once_at d rest a' b' e ∙ (sym joined ∙ append_assoc a d b)))
          (omega (arith, short, least a' b' (append-split_once_at d rest a' b' e))) in
      elim (Split-cases (asked_prefix prefix) d rest) [
        | inl (out, lacks) ↦ absurd (ground (arith, lacks, e))
        | inr (a₁, b₁, e₁, out) ↦ at ∙ (out ∙ ground (arith, e, e₁, same, is))
      ],
)

pub place-entry :
    (delimiter prefix : Option Text) (path : Text)
    → (place delimiter prefix path ≡ entry) ↔ IsKey delimiter prefix path
place-entry none prefix path = (
  (λ h. place-matches none prefix path (λ e. ground (arith, e, h))),
  λ (rest, m). place-matching none prefix path rest m,
)
place-entry (some d) prefix path = (
  (λ h.
      let (rest, m) = place-matches (some d) prefix path (λ e. ground (arith, e, h)) in
      let at = place-matching (some d) prefix path rest m in
      elim (Split-cases (asked_prefix prefix) d rest) [
        | inl (is, lacks) ↦ (
          rest,
          m,
          λ a b joined.
              let (a', b', e, short) = split-at d rest a b joined in ground (arith, lacks, e),
        )
        | inr (a, b, e, is) ↦ absurd (ground (arith, h, at, is))
      ]),
  λ (rest, m, never).
      let at = place-matching (some d) prefix path rest m in
      elim (Split-cases (asked_prefix prefix) d rest) [
        | inl (is, lacks) ↦ at ∙ is
        | inr (a, b, e, is) ↦ absurd (never a b (append-split_once_at d rest a b e))
      ],
)

-- The size of an object: what its location says, zero without one.
abbrev pub IsSize : Option ObjectLocation → ℤ → Type 0
IsSize none size = size ≡ pos 0
IsSize (some l) size = size ≡ l.raw_content_len

-- The entry has the path as its key, and the rest from the object and its location.
abbrev pub Describes : Contents → Text → Object × Option ObjectLocation → Type 0
Describes c path (o, location) =
    (c.key ≡ path)
    × (c.etag ≡ o.id)
    × IsSize location c.size
    × (c.storage_class ≡ o.data_class)
    × (c.created_at ≡ o.created_at)

pub contents_of-Describes :
    (c : Contents) (path : Text) (r : Object × Option ObjectLocation)
    → (c ≡ contents_of path r) ↔ Describes c path r
unfolding contents_of
contents_of-Describes c path (o, none) = ground arith
contents_of-Describes c path (o, some l) = ground arith
