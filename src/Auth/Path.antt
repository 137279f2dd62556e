-- ===== src/Auth/Path.antt =====
-- auth/auth_helpers.rs: `key_into_prefix`, the names of a path with the path up to each of them.
use mathlib.Core.Option
use data_proxy.Base.{
  get_elem?, take, ℕ, zero, suc, ◌≤◌, ◌<◌, List, [], ◌∷◌, ◌++◌, append_assoc, Option, none, some,
  Text, slash, split_once, split_once-cases, join, join-cons, length, ltb, if◌then◌else◌, Result,
  ok, err, s3_error, internal_error, ◌≡◌, refl, ap, ◌∙◌, arith, map, inl, inr,
}

-- `str::splitn` at '/': at most the given number of parts, the last one with the rest of the text.
unfoldable pub splitn : ℕ → Text → List Text
splitn zero s = []
splitn (suc zero) s = s ∷ []
splitn (suc (suc n)) s = elim (split_once slash s) [
  | none ↦ s ∷ []
  | some (a, b) ↦ a ∷ splitn (suc n) b
]

-- The loop, with the text collected in `prefix`.
unfoldable pub collect : Text → List Text → List (Text × Text)
collect prefix [] = []
collect prefix (s ∷ rest) = (prefix ++ s, s) ∷ collect ((prefix ++ s) ++ slash ∷ []) rest

unfoldable pub key_into_prefix : Text → Result (List (Text × Text))
unfolding splitn collect
key_into_prefix key =
    let parts = collect [] (splitn 4 key) in
    if ltb 4 (length parts) then err (s3_error internal_error "Invalid key parsing") else ok parts

length-collect : (p : Text) (l : List Text) → length (collect p l) ≡ length l
unfolding collect
length-collect p [] = refl
length-collect p (s ∷ l) = ap suc (length-collect ((p ++ s) ++ slash ∷ []) l)

length-splitn : (n : ℕ) (s : Text) → (length (splitn n s) ≤ n) × (0 < n → 0 < length (splitn n s))
unfolding splitn
length-splitn zero s = omega arith
length-splitn (suc zero) s = omega arith
length-splitn (suc (suc n)) s = elim (split_once-cases slash s) [
  | inl (e, l) ↦ rw (e, splitn) (omega arith)
  | inr (a, b, e, j, l) ↦ rw (e, splitn) (omega (arith, length-splitn (suc n) b))
]

join-splitn : (n : ℕ) (s : Text) → join slash (splitn (suc n) s) ≡ s
unfolding splitn
join-splitn zero s = refl
join-splitn (suc n) s = elim (split_once-cases slash s) [
  | inl (e, l) ↦ rw (e, splitn)
  | inr (a, b, e, j, l) ↦
      rw (e, splitn)
        (join-cons slash a (splitn (suc n) b) ((length-splitn (suc n) b).1 (omega arith))
          ∙ (ap (λ r. a ++ slash ∷ r) (join-splitn n b) ∙ j))
]

-- The name at an index with the path up to it.
abbrev pub with_path : Text → List Text → ℕ → Option (Text × Text)
with_path p names i =
    Option.map (λ (n : Text). (p ++ join slash (take (suc i) names), n)) (get_elem? names i)

collect-elem : (p : Text) (l : List Text) (i : ℕ) → get_elem? (collect p l) i ≡ with_path p l i
unfolding collect
collect-elem p [] i = refl
collect-elem p (s ∷ l) zero = refl
collect-elem p (s ∷ []) (suc i) = refl
collect-elem p (s ∷ t ∷ l) (suc i) =
    rw (collect-elem ((p ++ s) ++ slash ∷ []) (t ∷ l) i) (simp (append_assoc, append_assoc))

names_of_collect : (p : Text) (l : List Text) → map (λ (e : Text × Text). e.1) (collect p l) ≡ l
unfolding collect
names_of_collect p [] = refl
names_of_collect p (s ∷ l) = ap (λ r. s ∷ r) (names_of_collect ((p ++ s) ++ slash ∷ []) l)

-- key_into_prefix never fails: it gives one to four names that joined by '/' are the key, each
-- with the names up to it joined by '/'.
pub key_into_prefix_lem :
    (key : Text)
    → (parts : List (Text × Text)) × (key_into_prefix key ≡ ok parts)
      × (0 < length parts)
      × (length parts ≤ 4)
      × (join slash (map (λ (e : Text × Text). e.1) parts) ≡ key)
      × ((i : ℕ) → get_elem? parts i ≡ with_path [] (map (λ (e : Text × Text). e.1) parts) i)
unfolding key_into_prefix
key_into_prefix_lem key =
    let names = splitn 4 key in
    let few = length-splitn 4 key in
    let same = length-collect [] names in
    let back = names_of_collect [] names in
    (
      collect [] names,
      ground (arith, few.0, same),
      omega (arith, few.1 (omega arith), same),
      omega (arith, few.0, same),
      rw back (join-splitn 3 key),
      λ i. rw back (collect-elem [] names i),
    )
