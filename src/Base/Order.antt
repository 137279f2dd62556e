-- ===== src/Base/Order.antt =====
-- Texts in the order of their code points (the order of `str`), and lists of entries in the order of
-- their keys (`SkipMap`, `BTreeMap::range`).
use Prim.Native.Nat.{ℕ}
use mathlib.Core.Path.{◌≡◌, refl}
use mathlib.Core.Logic.{inl, inr}
use mathlib.Core.Bool.{Bool, true, false, ◌&&◌}
use mathlib.Core.List.{List, [], ◌∷◌, ◌++◌}
use native.Mathlib.Omega.{arith}
use data_proxy.Base.Tests.{nat_eq, nat_eq_iff, ltb, if◌then◌else◌, Bool-cases}
use data_proxy.Base.Texts.{Text}

-- `a <= b`
unfoldable pub text_le : Text → Text → Bool
text_le [] t = true
text_le (c ∷ s) [] = false
text_le (c ∷ s) (d ∷ t) = let rest = text_le s t in if ltb c d then true else (nat_eq c d && rest)

pub text_le_refl : (s : Text) → text_le s s ≡ true
unfolding text_le
text_le_refl [] = refl
text_le_refl (c ∷ s) = ground (arith, text_le_refl s)

pub text_le_total : (s t : Text) → text_le s t ≡ false → text_le t s ≡ true
unfolding text_le
text_le_total [] t h = ground arith
text_le_total (c ∷ s) [] h = refl
text_le_total (c ∷ s) (d ∷ t) h = ground (arith, text_le_total s t)

pub text_le_trans : (s t r : Text) → text_le s t ≡ true → text_le t r ≡ true → text_le s r ≡ true
unfolding text_le
text_le_trans [] t r h k = refl
text_le_trans (c ∷ s) [] r h k = ground arith
text_le_trans (c ∷ s) (d ∷ t) [] h k = ground arith
text_le_trans (c ∷ s) (d ∷ t) (e ∷ r) h k = ground (arith, text_le_trans s t r)

pub text_le_antisym : (s t : Text) → text_le s t ≡ true → text_le t s ≡ true → s ≡ t
unfolding text_le
text_le_antisym [] [] h k = refl
text_le_antisym [] (d ∷ t) h k = ground arith
text_le_antisym (c ∷ s) [] h k = ground arith
text_le_antisym (c ∷ s) (d ∷ t) h k =
    ground (arith, nat_eq_iff c d, nat_eq_iff d c, text_le_antisym s t)

-- A text between `p ++ s` and `p` followed by one character starts with `p`.
pub between-prefix :
    (p s k : Text) (c : ℕ)
    → text_le (p ++ s) k ≡ true
    → text_le k (p ++ c ∷ []) ≡ true
    → (r : Text) × (p ++ r ≡ k)
unfolding text_le
between-prefix [] s k c low high = (k, refl)
between-prefix (d ∷ p) s [] c low high = ground arith
between-prefix (d ∷ p) s (e ∷ k) c low high = elim (Bool-cases (ltb d e)) [
  | inl less ↦ ground arith
  | inr geq ↦
      let (r, joined) = between-prefix p s k c (ground arith) (ground arith) in (r, ground arith)
]

module _ {V : Type 0} where
  -- The entries with a key from `low` to `high`.
  unfoldable pub range : List (Text × V) → Text → Text → List (Text × V)
  range [] low high = []
  range ((k, v) ∷ m) low high =
      let rest = range m low high in if text_le low k && text_le k high then (k, v) ∷ rest else rest

  -- Every key comes after `k`.
  abbrev pub Above : Text → List (Text × V) → Type 0
  Above k [] = Unit
  Above k ((j, v) ∷ m) = (text_le j k ≡ false) × Above k m

  -- The keys ascend, each at most once.
  abbrev pub Sorted : List (Text × V) → Type 0
  Sorted [] = Unit
  Sorted ((k, v) ∷ m) = Above k m × Sorted m

  Above-range :
      (j k : Text) (m : List (Text × V)) (low high : Text) (v : V) (before after : List (Text × V))
      → Above j m
      → range m low high ≡ before ++ (k, v) ∷ after
      → text_le k j ≡ false
  unfolding range
  Above-range j k [] low high v [] after a e = ground arith
  Above-range j k [] low high v (b ∷ before) after a e = ground arith
  Above-range j k ((i, w) ∷ m) low high v [] after a e =
      elim (Bool-cases (text_le low i && text_le i high)) [
        | inr out ↦ Above-range j k m low high v [] after a.1 (ground arith)
        | inl inside ↦ ground arith
      ]
  Above-range j k ((i, w) ∷ m) low high v (b ∷ before) after a e =
      elim (Bool-cases (text_le low i && text_le i high)) [
        | inr out ↦ Above-range j k m low high v (b ∷ before) after a.1 (ground arith)
        | inl inside ↦ Above-range j k m low high v before after a.1 (ground arith)
      ]

  -- Above a key, a lower bound below it and the key itself select the same entries.
  range-Above :
      (m : List (Text × V)) (low high k : Text)
      → Above k m
      → text_le low k ≡ true
      → range m k high ≡ range m low high
  unfolding range
  range-Above [] low high k a l = refl
  range-Above ((j, v) ∷ m) low high k a l =
      ground (arith, range-Above m low high k a.1 l, text_le_total j k a.0, text_le_trans low k j l)

  -- A range from one of its keys is the rest of the range from there.
  pub range-resume :
      (m : List (Text × V)) (low high k : Text) (v : V) (before after : List (Text × V))
      → Sorted m
      → range m low high ≡ before ++ (k, v) ∷ after
      → range m k high ≡ (k, v) ∷ after
  unfolding range
  range-resume [] low high k v [] after s e = ground arith
  range-resume [] low high k v (b ∷ before) after s e = ground arith
  range-resume ((i, w) ∷ m) low high k v [] after s e =
      elim (Bool-cases (text_le low i && text_le i high)) [
        | inr out ↦ ground (
          arith,
          range-resume m low high k v [] after s.1,
          Above-range i k m low high v [] after s.0,
        )
        | inl inside ↦ ground (arith, range-Above m low high i s.0, text_le_refl i)
      ]
  range-resume ((i, w) ∷ m) low high k v (b ∷ before) after s e =
      elim (Bool-cases (text_le low i && text_le i high)) [
        | inr out ↦ ground (
          arith,
          range-resume m low high k v (b ∷ before) after s.1,
          Above-range i k m low high v (b ∷ before) after s.0,
        )
        | inl inside ↦ ground (
          arith,
          range-resume m low high k v before after s.1,
          Above-range i k m low high v before after s.0,
        )
      ]
