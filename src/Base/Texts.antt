-- ===== src/Base/Texts.antt =====
-- Texts that the program takes apart, as lists of code points: `str::split_once` and
-- `str::strip_prefix` by their documented behaviour, `ends_with`, equality.
use Prim.Native.Nat.{ℕ, ◌<◌}
use Prim.Native.Char.{code}
use Prim.Native.String.{String}
use mathlib.Core.Path.{◌≡◌, refl}
use mathlib.Core.Logic.{◌↔◌, ◌≢◌, ◌⊎◌, inl, inr}
use mathlib.Core.Bool.{Bool, true, false, ◌&&◌}
use mathlib.Core.Option.{Option, none, some}
use mathlib.Core.List.{List, [], ◌∷◌, ◌++◌}
use native.Mathlib.Omega.{arith}
use data_proxy.Base.Lists.{length}
use data_proxy.Base.Tests.{Option-cases, nat_eq, nat_eq_iff, Bool-cases, if◌then◌else◌}

abbrev pub Text : Type 0
Text = List ℕ

abbrev pub codes : String → Text
codes String.[] = []
codes (String.◌∷◌ c s) = code c ∷ codes s

abbrev pub text_eq : Text → Text → Bool
text_eq [] [] = true
text_eq [] (d ∷ t) = false
text_eq (c ∷ s) [] = false
text_eq (c ∷ s) (d ∷ t) = nat_eq c d && text_eq s t

pub text_eq_iff : (s t : Text) → (text_eq s t ≡ true) ↔ (s ≡ t)
text_eq_iff [] [] = ground arith
text_eq_iff [] (d ∷ t) = ground arith
text_eq_iff (c ∷ s) [] = ground arith
text_eq_iff (c ∷ s) (d ∷ t) = ground (arith, text_eq_iff s t)

-- `char` of '/'.
abbrev pub slash : ℕ
slash = b'/'

-- `str::split_once` at one character: the text before its first occurrence, and the text after it.
unfoldable pub split_once : ℕ → Text → Option (Text × Text)
split_once c [] = none
split_once c (d ∷ s) =
    let rest = split_once c s in
    if nat_eq d c then some ([], s) else elim rest [ none ↦ none | some (a, b) ↦ some (d ∷ a, b) ]

-- `c` does not occur.
abbrev pub Lacks : ℕ → Text → Type 0
Lacks c [] = Unit
Lacks c (d ∷ s) = (d ≢ c) × Lacks c s

pub split_once-append : (c : ℕ) (a b : Text) → Lacks c a → split_once c (a ++ c ∷ b) ≡ some (a, b)
unfolding split_once
split_once-append c [] b l = ground arith
split_once-append c (d ∷ a) b l = ground (arith, split_once-append c a b l.1)

pub split_once_none : (c : ℕ) (a : Text) → Lacks c a → split_once c a ≡ none
unfolding split_once
split_once_none c [] l = refl
split_once_none c (d ∷ a) l = ground (arith, split_once_none c a l.1)

-- The outcome of a split: the character does not occur, or the text is put together from the parts,
-- with no occurrence in the first.
pub split_once-cases :
    (c : ℕ) (s : Text)
    → ((split_once c s ≡ none) × Lacks c s)
      ⊎ ((a b : Text) × (split_once c s ≡ some (a, b)) × (a ++ c ∷ b ≡ s) × Lacks c a)
unfolding split_once
split_once-cases c [] = inl (refl, tt)
split_once-cases c (d ∷ s) = elim (Bool-cases (nat_eq d c)) [
  | inl e ↦ inr ([], s, rw e, rw ((nat_eq_iff d c).0 e), tt)
  | inr e ↦ elim (split_once-cases c s) [
    | inl (n, l) ↦ inl (rw (e, n), ((λ q. ground (arith, q, e)), l))
    | inr (a, b, h, j, l) ↦ inr (d ∷ a, b, rw (e, h), rw j, ((λ q. ground (arith, q, e)), l))
  ]
]

-- `str::strip_prefix`
unfoldable pub strip_prefix : Text → Text → Option Text
strip_prefix [] s = some s
strip_prefix (c ∷ p) [] = none
strip_prefix (c ∷ p) (d ∷ s) = let rest = strip_prefix p s in if nat_eq c d then rest else none

pub strip_prefix-append : (p s : Text) → strip_prefix p (p ++ s) ≡ some s
unfolding strip_prefix
strip_prefix-append [] s = refl
strip_prefix-append (c ∷ p) s = ground (arith, strip_prefix-append p s)

pub append-strip_prefix : (p s : Text) {r : Text} → strip_prefix p s ≡ some r → p ++ r ≡ s
unfolding strip_prefix
append-strip_prefix [] s h = ground arith
append-strip_prefix (c ∷ p) [] h = cc
append-strip_prefix (c ∷ p) (d ∷ s) {r} h = ground (arith, append-strip_prefix p s {r = r})

-- `str::split_once` at a text
unfoldable pub split_once_at : Text → Text → Option (Text × Text)
split_once_at d [] = elim (strip_prefix d []) [ none ↦ none | some b ↦ some ([], b) ]
split_once_at d (c ∷ s) =
    let rest = split_once_at d s in
    elim (strip_prefix d (c ∷ s)) [
      | some b ↦ some ([], b)
      | none ↦ elim rest [ none ↦ none | some (a, b) ↦ some (c ∷ a, b) ]
    ]

pub append-split_once_at :
    (d s : Text) (a b : Text) → split_once_at d s ≡ some (a, b) → a ++ d ++ b ≡ s
unfolding split_once_at
append-split_once_at d [] a b h = elim (Option-cases (strip_prefix d [])) [
  | inl e ↦ ground arith
  | inr (r, e) ↦ ground (arith, append-strip_prefix d [] e)
]
append-split_once_at d (c ∷ s) a b h = elim (Option-cases (strip_prefix d (c ∷ s))) [
  | inl e ↦ elim (Option-cases (split_once_at d s)) [
    | inl n ↦ ground arith
    | inr ((a', b'), n) ↦ ground (arith, append-split_once_at d s a' b' n)
  ]
  | inr (r, e) ↦ ground (arith, append-strip_prefix d (c ∷ s) e)
]

-- `str::ends_with` at one character
unfoldable pub ends_with : ℕ → Text → Bool
ends_with c [] = false
ends_with c (d ∷ []) = nat_eq d c
ends_with c (d ∷ e ∷ s) = ends_with c (e ∷ s)

-- `str::is_empty`
abbrev pub is_empty : Text → Bool
is_empty [] = true
is_empty (c ∷ s) = false

-- The parts with a separator between them (`slice::join`).
abbrev pub join : ℕ → List Text → Text
join c [] = []
join c (s ∷ []) = s
join c (s ∷ t ∷ rest) = s ++ c ∷ join c (t ∷ rest)

pub join-cons :
    (c : ℕ) (s : Text) (l : List Text) → 0 < length l → join c (s ∷ l) ≡ s ++ c ∷ join c l
join-cons c s [] h = absurd (omega arith)
join-cons c s (t ∷ l) h = refl
