-- ===== src/Tests/Packages.antt =====
-- The theorems of Auth/Packages and Auth/Tokens at concrete inputs.
use data_proxy.Base.{
  ℕ, ◌+◌, ◌-◌, ap, ◌≡◌, ◌⊎◌, refl, true, Option, none, some, Result, ok, err, anyhow, [], ◌∷◌, Text,
  codes, slash, split_once, nat_eq, eq_nat, eq_text, if◌then◌else◌, arith,
}
use data_proxy.Base.Int.{ℤ, pos}
use data_proxy.Structs.Format.{DieselUlid}
use data_proxy.Structs.Permission.{Method, is_method_read}
use data_proxy.Structs.Object.{Object, ObjectType, DataClass, TypedId, is_public}
use data_proxy.Structs.States.{ResourceStates}
use data_proxy.Structs.Users.{objects, CheckAccessResult, user_state_of, token}
use data_proxy.Auth.Helpers.{check_permission_list}
use data_proxy.Auth.Requests.{Caller}
use data_proxy.Auth.Requests.Granted.{IsGranted}
use data_proxy.Auth.Packages.{
  Packages, object_path, get_parents, get_parent_project_objects, package_user,
  handle_package_objects, check_access, dispatch_object,
}
use data_proxy.Auth.Packages.Readable.{
  IsPackage, handle_package_objects-IsPackage, check_access-IsGranted,
}
use data_proxy.Auth.Tokens.{
  create_secrets, dp_exchange, serialize, deserialize, ArunaTokenClaims, PubKey, Proxy, check_token,
}
use data_proxy.Auth.Tokens.Accepted.{Accepts, deserialize-serialize, check_token-Accepts}
use data_proxy.Tests.{sample, project_p, writer, proxy}
use data_proxy.Tests.Auth.{granted, put_granted}

-- A private object below the project.
abbrev private_o : Object
private_o = sample 4 (codes "o") ObjectType.object DataClass.private

abbrev stored : DieselUlid → Result Object
stored id =
    if nat_eq id 4
    then ok private_o
    else if nat_eq id 1
    then ok project_p
    else err (anyhow "Resource not found")

abbrev number : Text → Result DieselUlid
number [] = err (anyhow "Invalid")
number (c ∷ text) = ok c

abbrev packages_of : (caller : Option Caller) → Packages (proxy caller)
packages_of caller = record {
  PackageInput = Unit {0};
  BundleInput = Unit {0};
  RootInput = Unit {0};
  from_str = number;
  get_resource_cloned = λ id skip. elim (stored id) [ ok o ↦ ok (o, none) | err e ↦ err e ];
  get_prefixes = λ id with_intermediates. (TypedId.project 1, codes "p") ∷ [];
  get_bundle = λ id. none;
  build_package = λ headers o caller projects. some tt;
  evaluate_package = λ input. some true;
  build_bundle = λ headers b caller. some tt;
  evaluate_bundle = λ input. some true;
  build_root = λ method headers caller. some tt;
  evaluate_root = λ input. some true;
}

abbrev package_key : Text
package_key = 4 ∷ slash ∷ codes "o.tar"

abbrev packed : CheckAccessResult
packed = record {
  objects_state = objects private_o (codes "o.tar");
  user_state = token (codes "key") 77;
  headers = none;
}

package_read :
    handle_package_objects
      (proxy (some (writer, [])))
      (packages_of (some (writer, [])))
      package_key
      none
      tt
    ≡ ok packed
unfolding handle_package_objects split_once get_parents get_parent_project_objects package_user
    check_permission_list is_public user_state_of
package_read = refl

handle_package_objects-IsPackage_example :
    (id : DieselUlid) × (object : Object) × IsPackage
      (proxy (some (writer, [])))
      (packages_of (some (writer, [])))
      package_key
      none
      tt
      packed
      id
      object
handle_package_objects-IsPackage_example =
    handle_package_objects-IsPackage (proxy (some (writer, []))) (packages_of (some (writer, [])))
      package_key none tt package_read

put_accessed :
    check_access
      (proxy (some (writer, [])))
      (packages_of (some (writer, [])))
      none
      Method.put
      (object_path (codes "p") (codes "n"))
      tt
    ≡ ok granted
unfolding check_access dispatch_object
put_accessed = put_granted

check_access-IsGranted_example :
    ((is_method_read Method.put ≡ true)
      × ((codes "p" ≡ codes "objects") ⊎ (codes "p" ≡ codes "bundles")))
    ⊎ ((states : ResourceStates) × IsGranted
          (proxy (some (writer, [])))
          (codes "p")
          (codes "n")
          Method.put
          none
          tt
          granted
          states)
check_access-IsGranted_example =
    check_access-IsGranted (proxy (some (writer, []))) (packages_of (some (writer, []))) none
      Method.put (codes "p") (codes "n") tt put_accessed

-- Identifiers written as one character that is no underscore.
abbrev letter : DieselUlid → Text
letter id = (id + 100) ∷ []

abbrev unletter : Text → Result DieselUlid
unletter [] = err (anyhow "Invalid")
unletter (c ∷ text) = ok (c - 100)

abbrev undigit : Text → Result ℕ
undigit [] = err (anyhow "Invalid")
undigit (c ∷ text) = ok (c - b'0')

deserialize-serialize_example :
    deserialize unletter undigit (serialize letter (record { target = 7; action = create_secrets }))
    ≡ some (ok (record { target = 7; action = create_secrets }))
deserialize-serialize_example =
    deserialize-serialize letter unletter undigit (record { target = 7; action = create_secrets })
      (λ id. ap ok (omega arith)) (λ id. ((λ e. omega (arith, e)), tt)) (λ n h. ap ok (omega arith))

-- Tokens that are the time of their end, for claims of the proxy 5 to the proxy 6.
abbrev exchange : ℕ → ArunaTokenClaims
exchange exp = record {
  iss = letter 5;
  sub = letter 5;
  exp = exp;
  aud = codes "proxy";
  tid = none;
  it = some (record { target = 6; action = dp_exchange });
}

abbrev decoded : Text → Result ArunaTokenClaims
decoded [] = err (anyhow "Invalid")
decoded (exp ∷ text) = ok (exchange exp)

abbrev proxy_key : PubKey
proxy_key = record { id = pos 1; key = codes "k"; is_proxy = true }

abbrev proxy_of : DieselUlid → Proxy
proxy_of id = record {
  DecodingKey = Unit {0};
  self_id = id;
  encoding_serial = pos 1;
  ulid_to_string = letter;
  i32_to_string = λ serial. codes "1";
  from_str = unletter;
  i32_from_str = λ text. ok (pos 1);
  decode_header = λ text. ok (some (codes "1"));
  decode = λ text key aud. decoded text;
  encode = λ kid claims. ok (claims.exp ∷ []);
  get_pubkey = λ serial. ok (proxy_key, tt);
  now = ok 0;
}

check_token-Accepts_example :
    (kid : Text) × (serial : ℤ) × (dec_key : Unit {0}) × (claims : ArunaTokenClaims) × (◌≡◌
      {A = Result (Option Text)}
      (ok (some (codes "1")))
      (ok (some kid)))
    × (ok (pos 1) ≡ ok serial)
    × (◌≡◌ {A = Result (PubKey × Unit {0})} (ok (proxy_key, tt)) (ok (proxy_key, dec_key)))
    × (decoded (900 ∷ []) ≡ ok claims)
    × (unletter claims.sub ≡ ok 5)
    × Accepts 6 claims.it claims.tid none
unfolding check_token
check_token-Accepts_example = check_token-Accepts (proxy_of 6) (900 ∷ []) 5 none proxy_key refl
