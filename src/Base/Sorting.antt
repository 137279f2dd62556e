-- ===== src/Base/Sorting.antt =====
-- `slice::sort_by`, a stable sort, by a test that stands for `Ordering` not `Greater`; and what it
-- gives when the test compares keys.
use Prim.Native.Nat.{ℕ, ◌≤◌}
use mathlib.Core.Path.{◌≡◌, refl, sym, subst, ◌∙◌, ap}
use mathlib.Core.Logic.{◌⊎◌, inl, inr}
use mathlib.Core.Bool.{Bool}
use mathlib.Core.List.{List, [], ◌∷◌}
use native.Mathlib.Omega.{arith}
use data_proxy.Base.Tests.{nat_eq, nat_eq_iff, leb, if◌then◌else◌, Bool-cases}
use data_proxy.Base.Lists.{All}

module _ {A : Type 0} where
  unfoldable pub insert_by : (A → A → Bool) → A → List A → List A
  insert_by le x [] = x ∷ []
  insert_by le x (y ∷ l) = let rest = insert_by le x l in if le x y then x ∷ y ∷ l else y ∷ rest

  unfoldable pub sort_by : (A → A → Bool) → List A → List A
  unfolding insert_by
  sort_by le [] = []
  sort_by le (x ∷ l) = insert_by le x (sort_by le l)

  -- The elements of one key, in their order.
  abbrev pub of_key : (A → ℕ) → ℕ → List A → List A
  of_key key k [] = []
  of_key key k (x ∷ l) = let rest = of_key key k l in if nat_eq (key x) k then x ∷ rest else rest

  -- No element has a greater key than a later one.
  abbrev pub Ascends : (A → ℕ) → List A → Type 0
  Ascends key [] = Unit
  Ascends key (x ∷ l) = All (λ (y : A). key x ≤ key y) l × Ascends key l

module _ {A : Type 0} (key : A → ℕ) (le : A → A → Bool)
    (keyed : (x y : A) → le x y ≡ leb (key x) (key y)) where
  All-le :
      (x y : A) (l : List A)
      → key x ≤ key y
      → All (λ (z : A). key y ≤ key z) l
      → All (λ (z : A). key x ≤ key z) l
  All-le x y [] h a = tt
  All-le x y (z ∷ l) h (b, a) = (omega (arith, h, b), All-le x y l h a)

  All-insert_by :
      (y x : A) (l : List A)
      → key y ≤ key x
      → All (λ (z : A). key y ≤ key z) l
      → All (λ (z : A). key y ≤ key z) (insert_by le x l)
  unfolding insert_by
  All-insert_by y x [] h a = (h, tt)
  All-insert_by y x (z ∷ l) h (b, a) = elim (Bool-cases (le x z)) [
    | inl e ↦ rw (insert_by, e) (h, (b, a))
    | inr e ↦ rw (insert_by, e) (b, All-insert_by y x l h a)
  ]

  insert_by-Ascends : (x : A) (l : List A) → Ascends key l → Ascends key (insert_by le x l)
  unfolding insert_by
  insert_by-Ascends x [] s = (tt, tt)
  insert_by-Ascends x (y ∷ l) (a, s) = elim (Bool-cases (le x y)) [
    | inl e ↦
        rw (insert_by, e)
          (let h : key x ≤ key y = ground (arith, keyed x y, e) in ((h, All-le x y l h a), (a, s)))
    | inr e ↦
        rw (insert_by, e)
          (All-insert_by y x l (ground (arith, keyed x y, e)) a, insert_by-Ascends x l s)
  ]

  of_key-insert_by :
      (k : ℕ) (x : A) (l : List A) → of_key key k (insert_by le x l) ≡ of_key key k (x ∷ l)
  unfolding insert_by
  of_key-insert_by k x [] = refl
  of_key-insert_by k x (y ∷ l) =
      ground (arith, keyed x y, nat_eq_iff (key x) k, nat_eq_iff (key y) k, of_key-insert_by k x l)

  pub sort_by-Ascends : (l : List A) → Ascends key (sort_by le l)
  unfolding sort_by
  sort_by-Ascends [] = tt
  sort_by-Ascends (x ∷ l) = insert_by-Ascends x (sort_by le l) (sort_by-Ascends l)

  -- The elements of each key stay in their order.
  pub of_key-sort_by : (k : ℕ) (l : List A) → of_key key k (sort_by le l) ≡ of_key key k l
  unfolding sort_by
  of_key-sort_by k [] = refl
  of_key-sort_by k (x ∷ l) =
      of_key-insert_by k x (sort_by le l)
      ∙ ap (λ r. if nat_eq (key x) k then x ∷ r else r) (of_key-sort_by k l)

module _ {A : Type 0} where
  -- Membership, with equality of elements.
  abbrev pub In : A → List A → Type 0
  In x [] = ⊥
  In x (y ∷ l) = (x ≡ y) ⊎ In x l

  pub All-In : (P : A → Type 0) (x : A) (l : List A) → All P l → In x l → P x
  All-In P x [] a i = absurd i
  All-In P x (y ∷ l) (p, a) (inl e) = subst P (sym e) p
  All-In P x (y ∷ l) (p, a) (inr i) = All-In P x l a i

  In-insert_by : (le : A → A → Bool) (x y : A) (l : List A) → In x (y ∷ l) → In x (insert_by le y l)
  unfolding insert_by
  In-insert_by le x y [] i = i
  In-insert_by le x y (z ∷ l) i = elim (Bool-cases (le y z)) [
    | inl e ↦ rw (insert_by, e) i
    | inr e ↦ rw (insert_by, e) (over (In-insert_by le x y l) i)
  ]
    where
      over :
          (In x (y ∷ l) → In x (insert_by le y l)) → In x (y ∷ z ∷ l) → In x (z ∷ insert_by le y l)
      over deeper (inl e) = inr (deeper (inl e))
      over deeper (inr (inl e)) = inl e
      over deeper (inr (inr j)) = inr (deeper (inr j))

  pub In-sort_by : (le : A → A → Bool) (x : A) (l : List A) → In x l → In x (sort_by le l)
  unfolding sort_by
  In-sort_by le x [] i = absurd i
  In-sort_by le x (y ∷ l) (inl e) = In-insert_by le x y (sort_by le l) (inl e)
  In-sort_by le x (y ∷ l) (inr i) = In-insert_by le x y (sort_by le l) (inr (In-sort_by le x l i))

  All-insert :
      (P : A → Type 0) (le : A → A → Bool) (y : A) (l : List A)
      → P y
      → All P l
      → All P (insert_by le y l)
  unfolding insert_by
  All-insert P le y [] p a = (p, tt)
  All-insert P le y (z ∷ l) p (q, a) = elim (Bool-cases (le y z)) [
    | inl e ↦ rw (insert_by, e) (p, (q, a))
    | inr e ↦ rw (insert_by, e) (q, All-insert P le y l p a)
  ]

  pub All-sort_by :
      (P : A → Type 0) (le : A → A → Bool) (l : List A) → All P l → All P (sort_by le l)
  unfolding sort_by
  All-sort_by P le [] a = tt
  All-sort_by P le (y ∷ l) (p, a) = All-insert P le y (sort_by le l) p (All-sort_by P le l a)
