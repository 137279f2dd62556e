-- ===== src/Cache/Paths.antt =====
-- caching/cache.rs: how the ranges of a bucket's paths that start at different paths are related.
use data_proxy.Base.{
  true, List, [], ◌∷◌, ◌++◌, map, Text, ◌≡◌, refl, sym, ap, ap₂, ◌∙◌, arith, inl, inr, Bool-cases,
  Sorted, range, range-resume, between-prefix, text_le, ◌&&◌, strip_prefix-append, eq_text,
}
use data_proxy.Structs.Format.{DieselUlid}
use data_proxy.Cache.{Cache, get_path_range, bucket_prefix, strip_bucket, tilde}

-- A list whose image is put together is put together itself.
map-split :
    {A B : Type 0} (f : A → B) (l : List A) (before : List B) (y : B) (after : List B)
    → map f l ≡ before ++ y ∷ after
    → (xs ys : List A) × (x : A) × (l ≡ xs ++ x ∷ ys)
      × (map f xs ≡ before)
      × (f x ≡ y)
      × (map f ys ≡ after)
map-split f [] [] y after h = ground arith
map-split f [] (b ∷ before) y after h = ground arith
map-split f (x ∷ l) [] y after h = ([], l, x, refl, refl, ground arith, ground arith)
map-split f (x ∷ l) (b ∷ before) y after h =
    let (xs, ys, z, joined, front, here, back) = map-split f l before y after (ground arith) in
    (x ∷ xs, ys, z, ground arith, ground arith, here, back)

-- A key of a range lies between its bounds.
between-range :
    {V : Type 0} (m : List (Text × V)) (low high k : Text) (v : V) (before after : List (Text × V))
    → range m low high ≡ before ++ (k, v) ∷ after
    → (text_le low k ≡ true) × (text_le k high ≡ true)
unfolding range
between-range [] low high k v [] after h = ground arith
between-range [] low high k v (b ∷ before) after h = ground arith
between-range ((j, w) ∷ m) low high k v [] after h =
    elim (Bool-cases (text_le low j && text_le j high)) [
      | inr out ↦ between-range m low high k v [] after (ground arith)
      | inl inside ↦ ground arith
    ]
between-range ((j, w) ∷ m) low high k v (b ∷ before) after h =
    elim (Bool-cases (text_le low j && text_le j high)) [
      | inr out ↦ between-range m low high k v (b ∷ before) after (ground arith)
      | inl inside ↦ between-range m low high k v before after (ground arith)
    ]

-- A key in the range of a bucket is the bucket's prefix and the path that the range shows for it.
strip_bucket-prefix :
    (bucket r : Text) (id : DieselUlid)
    → strip_bucket bucket (bucket_prefix bucket ++ r, id) ≡ (r, id)
unfolding strip_bucket
strip_bucket-prefix bucket r id = rw (strip_prefix-append (bucket_prefix bucket) r) refl

-- With the cache's paths in order, the range of a bucket's paths from a path that another range of
-- the bucket shows is the rest of that range from this path on.
pub get_path_range-resume :
    (cache : Cache) (bucket skip path : Text) (id : DieselUlid)
    (before after : List (Text × DieselUlid))
    → Sorted cache.paths
    → get_path_range cache bucket skip ≡ before ++ (path, id) ∷ after
    → get_path_range cache bucket path ≡ (path, id) ∷ after
unfolding get_path_range
get_path_range-resume cache bucket skip path id before after sorted h =
    let low = bucket_prefix bucket ++ skip in
    let high = bucket_prefix bucket ++ tilde ∷ [] in
    let (xs, ys, x, joined, front, here, back) =
      map-split (strip_bucket bucket) (range cache.paths low high) before (path, id) after h in
    let (above, under) = between-range cache.paths low high x.0 x.1 xs ys joined in
    let (r, prefixed) = between-prefix (bucket_prefix bucket) skip x.0 tilde above under in
    let shown =
      sym (strip_bucket-prefix bucket r x.1)
      ∙ (ap (λ k. strip_bucket bucket (k, x.1)) prefixed ∙ here) in
    let is_key =
      ap (λ p. bucket_prefix bucket ++ p) (ap (λ (e : Text × DieselUlid). e.0) (sym shown))
      ∙ prefixed in
    ap (λ k. map (strip_bucket bucket) (range cache.paths k high)) is_key
    ∙ (ap (map (strip_bucket bucket))
          (range-resume cache.paths low high x.0 x.1 xs ys sorted joined)
        ∙ ap₂ ◌∷◌ here back)
