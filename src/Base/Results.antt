-- ===== src/Base/Results.antt =====
-- Fallible code: `anyhow::Result` and `Result<_, S3Error>` are one result type, whose errors keep the
-- code (for an `s3_error!`) and the message that the source writes.
use Prim.Native.String.{String}
use mathlib.Core.Path.{◌≡◌, refl, subst}
use mathlib.Core.Logic.{◌⊎◌, inl, inr}
use mathlib.Core.Bool.{Bool, true, false}
use data_proxy.Base.Tests.{if◌then◌else◌}
use mathlib.Core.Option.{Option, none, some}

-- The codes that the program passes to `s3_error!`.
pub data S3ErrorCode : Type 0 where
  no_such_key no_such_bucket access_denied internal_error invalid_request : S3ErrorCode
  invalid_object_state method_not_allowed malformed_acl_error : S3ErrorCode
  unexpected_content invalid_part not_signed_up invalid_argument : S3ErrorCode
  missing_content_length entity_too_large invalid_token invalid_access_key_id : S3ErrorCode

pub data Error : Type 0 where
  anyhow : String → Error
  s3_error : S3ErrorCode → String → Error

pub data Result {ℓ} (A : Type ℓ) : Type ℓ where
  ok : A → Result A
  err : Error → Result A

-- The `?` operator.
infixl 5 ◌>>=◌
abbrev pub ◌>>=◌ {ℓ κ} : {B : Type κ} {A : Type ℓ} → Result A → (A → Result B) → Result B
err failure >>= next = err failure
ok value >>= next = next value

-- `if !test { return Err(e) }`
abbrev pub guard : (test : Bool) → Error → Result (Unit {0})
guard false failure = err failure
guard true _ = ok tt

infixl 5 ◌>>◌
abbrev pub ◌>>◌ {κ} : {B : Type κ} → Result (Unit {0}) → Result B → Result B
first >> second = first >>= λ done. second

-- `ok_or_else`
abbrev pub ok_or {ℓ} : {A : Type ℓ} → Option A → Error → Result A
ok_or none e = err e
ok_or (some a) e = ok a

-- `map_err(|_| e)`
abbrev pub map_err {ℓ} : {A : Type ℓ} → Result A → Error → Result A
map_err (ok a) e = ok a
map_err (err _) e = err e

-- `Result::ok`
abbrev pub to_option {ℓ} : {A : Type ℓ} → Result A → Option A
to_option (ok a) = some a
to_option (err _) = none

pub Result-cases {ℓ} :
    {A : Type ℓ} (r : Result A) → ((a : A) × (r ≡ ok a)) ⊎ ((e : Error) × (r ≡ err e))
Result-cases (ok a) = inl (a, refl)
Result-cases (err e) = inr (e, refl)

-- What succeeds after `?` has succeeded before it.
pub >>=-eq-ok {ℓ κ} :
    {A : Type ℓ} {B : Type κ} (r : Result A) (next : A → Result B) {result : B}
    → (r >>= next) ≡ ok result
    → (value : A) × (r ≡ ok value) × (next value ≡ ok result)
>>=-eq-ok (err failure) next h = cc
>>=-eq-ok (ok value) next h = (value, refl, h)

-- The same in a form for chains: the rest of a proof is given the value.
pub after_ok {ℓ κ μ} :
    {A : Type ℓ} {B : Type κ} {C : Type μ} (r : Result A) (next : A → Result B) {result : B}
    → (r >>= next) ≡ ok result
    → ((value : A) → r ≡ ok value → next value ≡ ok result → C)
    → C
after_ok (err failure) next h rest = absurd (cc)
after_ok (ok value) next h rest = rest value refl h

pub ok-eq {ℓ} : {A : Type ℓ} {a b : A} → ok a ≡ ok b → a ≡ b
ok-eq h = cc

pub guard-eq-ok : (b : Bool) (e : Error) → guard b e ≡ ok tt → b ≡ true
guard-eq-ok true e h = refl
guard-eq-ok false e h = cc

pub ok_or-eq-ok {ℓ} :
    {A : Type ℓ} (o : Option A) (e : Error) {a : A} → ok_or o e ≡ ok a → o ≡ some a
ok_or-eq-ok none e h = cc
ok_or-eq-ok (some a) e h = cc

pub map_err-eq-ok {ℓ} :
    {A : Type ℓ} (r : Result A) (e : Error) {a : A} → map_err r e ≡ ok a → r ≡ ok a
map_err-eq-ok (ok a) e h = h
map_err-eq-ok (err f) e h = cc

-- What holds of the value, if there is one.
abbrev pub Ensures {ℓ κ} : {A : Type ℓ} → (A → Type κ) → Result A → Type κ
Ensures P (ok a) = P a
Ensures P (err e) = Unit

pub Ensures-elim {ℓ κ} :
    {A : Type ℓ} (P : A → Type κ) {r : Result A} {a : A} → r ≡ ok a → Ensures P r → P a
Ensures-elim P e h = subst (Ensures P) e h

pub Ensures-if {ℓ κ} :
    {A : Type ℓ} (P : A → Type κ) (b : Bool) (x y : Result A)
    → Ensures P x
    → Ensures P y
    → Ensures P (if b then x else y)
Ensures-if P true x y p q = p
Ensures-if P false x y p q = q

pub Ensures-map_err {ℓ κ} :
    {A : Type ℓ} (P : A → Type κ) (r : Result A) (e : Error) → Ensures P r → Ensures P (map_err r e)
Ensures-map_err P (ok a) e h = h
Ensures-map_err P (err _) e h = tt

pub Ensures-bind {ℓ κ μ ν} :
    {A : Type ℓ} {B : Type κ} (P : A → Type μ) (Q : B → Type ν) (m : Result A) (f : A → Result B)
    → Ensures P m
    → ((a : A) → P a → Ensures Q (f a))
    → Ensures Q (m >>= f)
Ensures-bind P Q (ok a) f h k = k a h
Ensures-bind P Q (err e) f h k = tt
