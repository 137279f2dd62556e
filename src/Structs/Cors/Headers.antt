-- ===== src/Structs/Cors/Headers.antt =====
-- structs.rs: for which requests `into_headers` gives headers.
use data_proxy.Base.{
  true, false, ◌&&◌, List, [], ◌∷◌, Option, none, some, Text, eq_text, text_eq, text_eq_iff, nat_eq,
  All, contains, ◌≡◌, refl, ◌∙◌, arith, Bool-cases, inl, inr,
}
use data_proxy.Base.Int.{ℤ, pos, negsuc}
use data_proxy.Base.Map.{get, insert, get-insert}
use data_proxy.Structs.Cors.{
  CorsRule, Headers, allow_origin, allow_methods, allow_headers, expose, max_age, with_list,
  with_option, with_age, rule_headers, contains_key, all_there, check_headers, into_headers,
}

-- The names that the headers of a rule can have.
abbrev pub response_names : List Text
response_names = allow_origin ∷ allow_methods ∷ allow_headers ∷ expose ∷ max_age ∷ []

insert-other :
    (headers : Headers) (name other value : Text)
    → text_eq other name ≡ false
    → get headers name ≡ none
    → get (insert headers other value) name ≡ none
insert-other headers name other value apart h =
    get-insert headers other name value ∙ rw (apart, h) refl

with_list-other :
    (headers : Headers) (name other : Text) (l : List Text)
    → text_eq other name ≡ false
    → get headers name ≡ none
    → get (with_list other l headers) name ≡ none
unfolding with_list
with_list-other headers name other [] apart h = h
with_list-other headers name other (x ∷ l) apart h = insert-other headers name other _ apart h

with_option-other :
    (headers : Headers) (name other : Text) (l : Option (List Text))
    → text_eq other name ≡ false
    → get headers name ≡ none
    → get (with_option other l headers) name ≡ none
unfolding with_option
with_option-other headers name other none apart h = h
with_option-other headers name other (some l) apart h = insert-other headers name other _ apart h

with_age-other :
    (headers : Headers) (name : Text) (age : ℤ)
    → text_eq max_age name ≡ false
    → get headers name ≡ none
    → get (with_age age headers) name ≡ none
unfolding with_age
with_age-other headers name (pos age) apart h = elim (Bool-cases (nat_eq age 0)) [
  | inl e ↦ rw (with_age, e) (insert-other headers name max_age _ apart h)
  | inr e ↦ rw (with_age, e) h
]
with_age-other headers name (negsuc age) apart h = h

contains-All :
    (l : List Text) (name : Text)
    → contains l name ≡ false
    → All (λ (x : Text). text_eq x name ≡ false) l
contains-All [] name h = tt
contains-All (x ∷ l) name h = elim (Bool-cases (text_eq x name)) [
  | inl e ↦ ground (arith, e, h)
  | inr e ↦ (e, contains-All l name (ground (arith, e, h)))
]

-- A name that is none of the five is not among a rule's headers.
rule_headers-other :
    (rule : CorsRule) (name : Text)
    → contains response_names name ≡ false
    → get (rule_headers rule) name ≡ none
unfolding rule_headers get
rule_headers-other rule name h =
    let (o, (m, (a, (x, (g, done))))) = contains-All response_names name h in
    with_age-other _ name rule.max_age_seconds g (
      with_option-other _ name expose rule.expose_headers x (
        with_option-other _ name allow_headers rule.allowed_headers a (
          with_list-other _ name allow_methods rule.allowed_methods m
            (with_list-other [] name allow_origin rule.allowed_origins o refl))))

all_there-other :
    (headers : Headers) (name : Text) (expected : List Text)
    → contains expected name ≡ true
    → get headers name ≡ none
    → all_there headers expected ≡ false
unfolding all_there
all_there-other headers name [] c h = ground (arith, c)
all_there-other headers name (x ∷ expected) c h = elim (Bool-cases (text_eq x name)) [
  | inl e ↦ rw ((text_eq_iff x name).0 e, all_there, contains_key, h) refl
  | inr e ↦ ground (arith, e, c, all_there-other headers name expected)
]

-- A request that asks for a header whose name is not one of the five names of the answer is given
-- no headers, whatever headers the rules allow.
pub into_headers-requested :
    (rules : List CorsRule) (origin method name : Text) (expected : List Text)
    → contains expected name ≡ true
    → contains response_names name ≡ false
    → into_headers rules origin method (some expected) ≡ none
unfolding into_headers check_headers
into_headers-requested [] origin method name expected c o = refl
into_headers-requested (rule ∷ rules) origin method name expected c o =
    elim (Bool-cases
      (contains rule.allowed_origins origin && contains rule.allowed_methods method)) [
        | inl e ↦
            rw
              (
                into_headers,
                e,
                check_headers,
                all_there-other (rule_headers rule) name expected c
                    (rule_headers-other rule name o),
              )
              refl
        | inr e ↦
            rw (into_headers, e) (into_headers-requested rules origin method name expected c o)
      ]
