-- ===== src/Base/Equality.antt =====
-- The interface for `PartialEq`/`Eq` of the keys of maps and sets, and its instances.
use Prim.Native.Nat.{ℕ}
use mathlib.Core.Path.{◌≡◌}
use mathlib.Core.Logic.{◌↔◌}
use mathlib.Core.Bool.{Bool, true, false, ◌||◌}
use mathlib.Core.List.{List, [], ◌∷◌}
use data_proxy.Base.Tests.{nat_eq, nat_eq_iff}
use data_proxy.Base.Texts.{Text, text_eq, text_eq_iff}

-- `==` and what it means.
infix 50 ◌==◌
pub record Eq {ℓ} (K : Type ℓ) : Type ℓ where
  pub same : K → K → Bool
  pub same_iff : (x y : K) → (same x y ≡ true) ↔ (x ≡ y)

instance abbrev pub eq_text : Eq Text
eq_text = record { same = text_eq; same_iff = text_eq_iff }

abbrev pub ◌==◌ {ℓ} : {K : Type ℓ} ⦃keys : Eq K⦄ → K → K → Bool
◌==◌ ⦃keys⦄ = keys.same

instance abbrev pub eq_nat : Eq ℕ
eq_nat = record { same = nat_eq; same_iff = nat_eq_iff }

module _ {ℓ} {A : Type ℓ} ⦃e : Eq A⦄ where
  -- `slice::contains`
  abbrev pub contains : List A → A → Bool
  contains [] a = false
  contains (x ∷ xs) a = x == a || contains xs a
