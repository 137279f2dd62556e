-- ===== src/Cache/Objects/Ordered.antt =====
-- caching/cache.rs: what every cache satisfies that upserts, deletions and bundles lead to.
use data_proxy.Base.{
  true, false, List, [], ◌∷◌, Text, eq_nat, eq_text, text_eq, text_eq_iff, text_le, text_le_trans,
  text_le_antisym, Sorted, Above, ◌≡◌, ◌⊎◌, subst, Bool-cases, Option-cases, inl, inr, arith,
}
use data_proxy.Base.Map.{get, remove}
use data_proxy.Structs.Format.{DieselUlid}
use data_proxy.Cache.Objects.{insert_path, remove_paths, insert_paths, rename_paths}

abbrev Paths : Type 0
Paths = List (Text × DieselUlid)

-- Every key after `k` also comes after what is before `k`.
Above-lower : (p k : Text) (m : Paths) → text_le p k ≡ true → Above k m → Above p m
Above-lower p k [] h a = tt
Above-lower p k ((j, v) ∷ m) h (b, a) = (later (Bool-cases (text_le j p)), Above-lower p k m h a)
  where
    later : (text_le j p ≡ true) ⊎ (text_le j p ≡ false) → text_le j p ≡ false
    later (inl e) = ground (arith, text_le_trans j p k e h, b)
    later (inr e) = e

Above-insert_path :
    (k p : Text) (id : DieselUlid) (m : Paths)
    → text_le p k ≡ false
    → Above k m
    → Above k (insert_path m p id)
unfolding insert_path
Above-insert_path k p id [] h a = (h, tt)
Above-insert_path k p id ((j, v) ∷ m) h (b, a) = elim (Bool-cases (text_eq j p)) [
  | inl e ↦ rw (insert_path, e) (h, a)
  | inr e ↦ elim (Bool-cases (text_le p j)) [
    | inl f ↦ rw (insert_path, e, f) (h, (b, a))
    | inr f ↦ rw (insert_path, e, f) (b, Above-insert_path k p id m h a)
  ]
]

pub insert_path-Sorted :
    (p : Text) (id : DieselUlid) (m : Paths) → Sorted m → Sorted (insert_path m p id)
unfolding insert_path
insert_path-Sorted p id [] s = (tt, tt)
insert_path-Sorted p id ((j, v) ∷ m) (a, s) = elim (Bool-cases (text_eq j p)) [
  | inl e ↦ rw (insert_path, e) (subst (λ k. Above k m) ((text_eq_iff j p).0 e) a, s)
  | inr e ↦ elim (Bool-cases (text_le p j)) [
    | inl f ↦
        rw (insert_path, e, f)
          ((before e f (Bool-cases (text_le j p)), Above-lower p j m f a), (a, s))
    | inr f ↦ rw (insert_path, e, f) (Above-insert_path j p id m f a, insert_path-Sorted p id m s)
  ]
]
  where
    before :
        text_eq j p ≡ false
        → text_le p j ≡ true
        → (text_le j p ≡ true) ⊎ (text_le j p ≡ false)
        → text_le j p ≡ false
    before e f (inl g) = ground (arith, text_le_antisym j p g f, text_eq_iff j p, e)
    before e f (inr g) = g

Above-remove : (k p : Text) (m : Paths) → Above k m → Above k (remove m p)
unfolding remove
Above-remove k p [] a = tt
Above-remove k p ((j, v) ∷ m) (b, a) = elim (Bool-cases (text_eq j p)) [
  | inl e ↦ rw (remove, e) (Above-remove k p m a)
  | inr e ↦ rw (remove, e) (b, Above-remove k p m a)
]

remove-Sorted : (p : Text) (m : Paths) → Sorted m → Sorted (remove m p)
unfolding remove
remove-Sorted p [] s = tt
remove-Sorted p ((j, v) ∷ m) (a, s) = elim (Bool-cases (text_eq j p)) [
  | inl e ↦ rw (remove, e) (remove-Sorted p m s)
  | inr e ↦ rw (remove, e) (Above-remove j p m a, remove-Sorted p m s)
]

pub remove_paths-Sorted : (gone : List Text) (m : Paths) → Sorted m → Sorted (remove_paths m gone)
unfolding remove_paths
remove_paths-Sorted [] m s = s
remove_paths-Sorted (p ∷ gone) m s = remove_paths-Sorted gone (remove m p) (remove-Sorted p m s)

pub insert_paths-Sorted :
    (id : DieselUlid) (new : List Text) (m : Paths) → Sorted m → Sorted (insert_paths m id new)
unfolding insert_paths
insert_paths-Sorted id [] m s = s
insert_paths-Sorted id (p ∷ new) m s =
    insert_paths-Sorted id new (insert_path m p id) (insert_path-Sorted p id m s)

pub rename_paths-Sorted :
    (old new : List Text) (m : Paths) → Sorted m → Sorted (rename_paths m old new)
unfolding rename_paths
rename_paths-Sorted [] new m s = s
rename_paths-Sorted (o ∷ old) [] m s = s
rename_paths-Sorted (o ∷ old) (n ∷ new) m s = elim (Option-cases (get m o)) [
  | inl e ↦ rw (rename_paths, e) (rename_paths-Sorted old new (remove m o) (remove-Sorted o m s))
  | inr (id, e) ↦
      rw (rename_paths, e)
        (rename_paths-Sorted old new (insert_path (remove m o) n id)
          (insert_path-Sorted n id (remove m o) (remove-Sorted o m s)))
]
