-- ===== src/Location/Names.antt =====
-- data_backends/location_handler.rs: how a scheme is divided, and the keys that it gives.
use data_proxy.Base.{
  subst, ℕ, suc, true, false, List, [], ◌∷◌, ◌++◌, none, some, Text, ◌≡◌, ◌≢◌, ◌⊎◌, inl, inr, refl,
  arith, ap, slash, ends_with, Lacks, nat_eq, nat_eq_iff, ◌&&◌, if◌then◌else◌, sym, ◌∙◌,
  append_assoc, append-nil, Bool-cases, Option-cases, ◌==◌, eq_text, text_eq_iff,
}
use data_proxy.Structs.Format.{DieselUlid}
use data_proxy.Structs.States.{Tags}
use data_proxy.Location.{
  Arguments, project, project_id, collection, collection_id, dataset, dataset_id, object, object_id,
  endpoint_id, random, text, slash_arg, CompiledVariant, s3, split_arguments, compiled,
  with_hierarchy, push_key, push_all, into_names,
}

-- No argument is a slash.
abbrev pub NoSlash : List Arguments → Type 0
NoSlash [] = Unit
NoSlash (a ∷ rest) = (a ≢ slash_arg) × NoSlash rest

-- The outcome of the division of the arguments.
abbrev Divided : List Arguments → Type 0
Divided args =
    ((bucket : List Arguments) × NoSlash args × (split_arguments args ≡ (bucket, [], true)))
    ⊎ ((bucket key : List Arguments) × (args ≡ bucket ++ slash_arg ∷ key)
        × NoSlash bucket
        × (split_arguments args ≡ (bucket, key, false)))

split_arguments-cons :
    (a : Arguments) (rest : List Arguments)
    → a ≢ slash_arg
    → split_arguments (a ∷ rest)
      ≡ (a ∷ (split_arguments rest).0, (split_arguments rest).1, (split_arguments rest).2)
unfolding split_arguments
split_arguments-cons a rest n = ground arith

Arguments-cases : (a : Arguments) → (a ≡ slash_arg) ⊎ (a ≢ slash_arg)
Arguments-cases slash_arg = inl refl
Arguments-cases project = ground arith
Arguments-cases project_id = ground arith
Arguments-cases collection = ground arith
Arguments-cases collection_id = ground arith
Arguments-cases dataset = ground arith
Arguments-cases dataset_id = ground arith
Arguments-cases object = ground arith
Arguments-cases object_id = ground arith
Arguments-cases endpoint_id = ground arith
Arguments-cases (random n) = ground arith
Arguments-cases (text t) = ground arith

divide : (args : List Arguments) → Divided args
unfolding split_arguments
divide [] = inl ([], tt, refl)
divide (a ∷ rest) = elim (Arguments-cases a) [
  | inl e ↦ inr ([], rest, ap (λ x. x ∷ rest) e, tt, rw e refl)
  | inr n ↦ elim (divide rest) [
    | inl (bucket, none_there, e) ↦
        inl (a ∷ bucket, (n, none_there), rw (split_arguments-cons a rest n, e) refl)
    | inr (bucket, key, joined, free, e) ↦ inr (
      a ∷ bucket,
      key,
      ap (λ x. a ∷ x) joined,
      (n, free),
      rw (split_arguments-cons a rest n, e) refl,
    )
  ]
]

-- The arguments of a scheme are refused exactly if none of them is a slash; otherwise they are the
-- bucket's arguments, none of which is a slash, the first slash, and the key's arguments, and the
-- compiled scheme holds these two parts.
pub compiled-cases :
    (args : List Arguments)
    → (NoSlash args × (compiled args ≡ none))
      ⊎ ((bucket key : List Arguments) × (args ≡ bucket ++ slash_arg ∷ key)
          × NoSlash bucket
          × (compiled args
              ≡ some (record { bucket_arguments = bucket; key_arguments = key; schema = s3 })))
unfolding compiled
compiled-cases args = elim (divide args) [
  | inl (bucket, free, e) ↦ inl (free, rw e refl)
  | inr (bucket, key, joined, free, e) ↦ inr (bucket, key, joined, free, rw e refl)
]

-- No two slashes follow one another.
abbrev pub NoDouble : Text → Type 0
NoDouble [] = Unit
NoDouble (c ∷ []) = Unit
NoDouble (c ∷ d ∷ s) = ((c ≡ slash) → d ≢ slash) × NoDouble (d ∷ s)

NoDouble-Lacks : (s : Text) → Lacks slash s → NoDouble s
NoDouble-Lacks [] h = tt
NoDouble-Lacks (c ∷ []) h = tt
NoDouble-Lacks (c ∷ d ∷ s) h = ((λ e. h.1.0), NoDouble-Lacks (d ∷ s) h.1)

-- A text without slashes can follow every text, and a slash every one that does not end in a slash.
NoDouble-append : (key part : Text) → NoDouble key → Lacks slash part → NoDouble (key ++ part)
NoDouble-append [] part k p = NoDouble-Lacks part p
NoDouble-append (c ∷ []) [] k p = tt
NoDouble-append (c ∷ []) (d ∷ part) k p = ((λ e. p.0), NoDouble-Lacks (d ∷ part) p)
NoDouble-append (c ∷ d ∷ key) part k p = (k.0, NoDouble-append (d ∷ key) part k.1 p)

NoDouble-slash :
    (key : Text) → NoDouble key → ends_with slash key ≡ false → NoDouble (key ++ slash ∷ [])
unfolding ends_with
NoDouble-slash [] k e = tt
NoDouble-slash (c ∷ []) k e = ((λ h. ground arith), tt)
NoDouble-slash (c ∷ d ∷ key) k e = (k.0, NoDouble-slash (d ∷ key) k.1 e)

NoDouble-push_key :
    (key part : Text)
    → NoDouble key
    → (part ≡ slash ∷ []) ⊎ Lacks slash part
    → NoDouble (push_key key part)
unfolding push_key
NoDouble-push_key key part k p = elim (Bool-cases (part == slash ∷ [])) [
  | inl is_slash ↦ elim (Bool-cases (ends_with slash key)) [
    | inl ended ↦ rw (is_slash, ended) k
    | inr free ↦ rw (is_slash, free) (NoDouble-slash key k free)
  ]
  | inr apart ↦ elim p [
    | inl e ↦ absurd (ground (arith, text_eq_iff part (slash ∷ [])))
    | inr lacks ↦ rw apart (NoDouble-append key part k lacks)
  ]
]

-- A text with each run of slashes written as one slash.
abbrev pub squeeze : Text → Text
squeeze [] = []
squeeze (c ∷ []) = c ∷ []
squeeze (c ∷ d ∷ s) =
    let rest = squeeze (d ∷ s) in if nat_eq c slash && nat_eq d slash then rest else c ∷ rest

squeeze-cons-Lacks : (c : ℕ) (part : Text) → Lacks slash part → squeeze (c ∷ part) ≡ c ∷ part
squeeze-cons-Lacks c [] p = refl
squeeze-cons-Lacks c (d ∷ part) p =
    ground (arith, squeeze-cons-Lacks d part p.1, nat_eq_iff d slash)

squeeze-append : (s part : Text) → Lacks slash part → squeeze (s ++ part) ≡ squeeze s ++ part
squeeze-append [] [] p = refl
squeeze-append [] (d ∷ part) p = squeeze-cons-Lacks d part p.1
squeeze-append (c ∷ []) part p = squeeze-cons-Lacks c part p
squeeze-append (c ∷ d ∷ s) part p = ground (arith, squeeze-append (d ∷ s) part p)

squeeze-head : (c : ℕ) (s : Text) → (rest : Text) × (squeeze (c ∷ s) ≡ c ∷ rest)
squeeze-head c [] = ([], refl)
squeeze-head c (d ∷ s) = elim (Bool-cases (nat_eq c slash && nat_eq d slash)) [
  | inl e ↦
      let (rest, h) = squeeze-head d s in
      (
        rest,
        rw e (h ∙ ap (λ x. x ∷ rest) (ground (arith, e, nat_eq_iff c slash, nat_eq_iff d slash))),
      )
  | inr e ↦ (squeeze (d ∷ s), rw e refl)
]

ends_with-cons :
    (c d : ℕ) (s : Text) → ends_with slash (c ∷ squeeze (d ∷ s)) ≡ ends_with slash (squeeze (d ∷ s))
unfolding ends_with
ends_with-cons c d s =
    let (rest, h) = squeeze-head d s in
    subst (λ t. ends_with slash (c ∷ t) ≡ ends_with slash t) (sym h) refl

-- A slash at the end of a squeezed text.
squeeze-slash :
    (s : Text)
    → squeeze (s ++ slash ∷ [])
      ≡ (if ends_with slash (squeeze s) then squeeze s else squeeze s ++ slash ∷ [])
unfolding ends_with
squeeze-slash [] = refl
squeeze-slash (c ∷ []) = ground (arith, nat_eq_iff c slash)
squeeze-slash (c ∷ d ∷ s) = elim (Bool-cases (nat_eq c slash && nat_eq d slash)) [
  | inl e ↦ rw e (squeeze-slash (d ∷ s))
  | inr e ↦ rw (e, ends_with-cons c d s) (ground (arith, squeeze-slash (d ∷ s)))
]

push_key-squeeze :
    (s part : Text)
    → (part ≡ slash ∷ []) ⊎ Lacks slash part
    → push_key (squeeze s) part ≡ squeeze (s ++ part)
unfolding push_key
push_key-squeeze s part (inl e) = rw e (sym (squeeze-slash s))
push_key-squeeze s part (inr p) = elim (Bool-cases (part == slash ∷ [])) [
  | inl e ↦ absurd (ground (arith, text_eq_iff part (slash ∷ [])))
  | inr e ↦ rw e (sym (squeeze-append s part p))
]

module _ (to_string : DieselUlid → Text) (proxy_id : DieselUlid) (draw : ℕ → ℕ → Text)
    (hierarchy : Tags) where
  -- Every text that the arguments give, from the given place on, is a slash or has none.
  abbrev pub PlainFrom : ℕ → List Arguments → Type 0
  PlainFrom place [] = Unit
  PlainFrom place (a ∷ rest) =
      ((part : Text)
        → with_hierarchy to_string proxy_id draw place a hierarchy ≡ some part
        → (part ≡ slash ∷ []) ⊎ Lacks slash part)
      × PlainFrom (suc place) rest

  NoDouble-push_all :
      (place : ℕ) (key : Text) (args : List Arguments)
      → NoDouble key
      → PlainFrom place args
      → NoDouble (push_all to_string proxy_id draw push_key hierarchy place key args)
  unfolding push_all
  NoDouble-push_all place key [] k p = k
  NoDouble-push_all place key (a ∷ rest) k p =
      elim (Option-cases (with_hierarchy to_string proxy_id draw place a hierarchy)) [
        | inl e ↦ rw (e, push_all) (NoDouble-push_all (suc place) key rest k p.1)
        | inr (part, e) ↦
            rw (e, push_all)
              (NoDouble-push_all (suc place) (push_key key part) rest
                (NoDouble-push_key key part k (p.0 part e)) p.1)
      ]

  -- The texts that the arguments give, one after the other; an argument that gives none is left out.
  abbrev pub written_from : ℕ → List Arguments → Text
  written_from place [] = []
  written_from place (a ∷ rest) =
      let later = written_from (suc place) rest in
      elim (with_hierarchy to_string proxy_id draw place a hierarchy) [
        | none ↦ later
        | some part ↦ part ++ later
      ]

  push_all-squeeze :
      (place : ℕ) (s : Text) (args : List Arguments)
      → PlainFrom place args
      → push_all to_string proxy_id draw push_key hierarchy place (squeeze s) args
        ≡ squeeze (s ++ written_from place args)
  unfolding push_all
  push_all-squeeze place s [] p = ap squeeze (sym (append-nil s))
  push_all-squeeze place s (a ∷ rest) p =
      elim (Option-cases (with_hierarchy to_string proxy_id draw place a hierarchy)) [
        | inl e ↦ rw (e, push_all, written_from) (push_all-squeeze (suc place) s rest p.1)
        | inr (part, e) ↦
            rw (e, push_all, written_from)
              (ap (λ k. push_all to_string proxy_id draw push_key hierarchy (suc place) k rest)
                  (push_key-squeeze s part (p.0 part e))
                ∙ (push_all-squeeze (suc place) (s ++ part) rest p.1
                    ∙ ap squeeze (append_assoc s part (written_from (suc place) rest))))
      ]

  -- Provided that every text that a scheme's key arguments give is a slash or has no slash, the
  -- key that the scheme gives is these texts one after the other, an argument without a text left
  -- out, with each run of slashes written as one slash; so it never has two slashes in a row.
  pub into_names-NoDouble :
      (scheme : CompiledVariant)
      → PlainFrom 0 scheme.key_arguments
      → let key = (into_names to_string proxy_id draw scheme hierarchy).1 in
        (key ≡ squeeze (written_from 0 scheme.key_arguments)) × NoDouble key
  unfolding into_names
  into_names-NoDouble scheme p = (
    push_all-squeeze 0 [] scheme.key_arguments p,
    NoDouble-push_all 0 [] scheme.key_arguments tt p,
  )
