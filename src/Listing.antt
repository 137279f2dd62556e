-- ===== src/Listing.antt =====
-- s3_frontend/utils/list_objects.rs: one page of the listing of a bucket. `BTreeSet` is a list of its
-- members in the order of insertion.
pub mod Pages
pub mod Places
pub mod Keys
use data_proxy.Base.{
  ℕ, ◌+◌, Bool, true, false, ◌&&◌, List, [], ◌∷◌, ◌++◌, Option, none, some, Text, eq_nat, eq_text,
  ◌↔◌, ◌≡◌, arith, nat_eq_iff, text_eq, text_eq_iff, ◌==◌, Eq, contains, if◌then◌else◌, nat_eq,
  Result, ok, err, s3_error, no_such_key, map_err, ◌>>=◌, strip_prefix, split_once_at, length,
}
use data_proxy.Base.Int.{ℤ, pos, negsuc}
use data_proxy.Structs.Format.{DieselUlid, ObjectLocation}
use data_proxy.Structs.Object.{Object, ObjectType, type_eq, DataClass, NaiveDateTime}
use data_proxy.Cache.{Cache, get_resource_cloned, get_path_range}

pub record Contents : Type 0 where
  pub key : Text
  pub etag : DieselUlid
  pub size : ℤ
  pub storage_class : DataClass
  pub created_at : Option NaiveDateTime

-- `From<(&String, &(Object, Option<ObjectLocation>))> for Contents`
unfoldable pub contents_of : Text → Object × Option ObjectLocation → Contents
contents_of key (o, location) = record {
  key = key;
  etag = o.id;
  size = elim location [ none ↦ pos 0 | some l ↦ l.raw_content_len ];
  storage_class = o.data_class;
  created_at = o.created_at;
}

-- The derived `==`.
abbrev int_same : ℤ → ℤ → Bool
int_same (pos n) (pos m) = nat_eq n m
int_same (negsuc n) (negsuc m) = nat_eq n m
int_same _ _ = false

int_same_iff : (x y : ℤ) → (int_same x y ≡ true) ↔ (x ≡ y)
int_same_iff (pos n) (pos m) = ground arith
int_same_iff (pos n) (negsuc m) = ground arith
int_same_iff (negsuc n) (pos m) = ground arith
int_same_iff (negsuc n) (negsuc m) = ground arith

abbrev class_same : DataClass → DataClass → Bool
class_same DataClass.public DataClass.public = true
class_same DataClass.private DataClass.private = true
class_same (DataClass.other n) (DataClass.other m) = nat_eq n m
class_same _ _ = false

class_same_iff : (x y : DataClass) → (class_same x y ≡ true) ↔ (x ≡ y)
class_same_iff DataClass.public DataClass.public = ground arith
class_same_iff DataClass.public DataClass.private = ground arith
class_same_iff DataClass.public (DataClass.other m) = ground arith
class_same_iff DataClass.private DataClass.public = ground arith
class_same_iff DataClass.private DataClass.private = ground arith
class_same_iff DataClass.private (DataClass.other m) = ground arith
class_same_iff (DataClass.other n) DataClass.public = ground arith
class_same_iff (DataClass.other n) DataClass.private = ground arith
class_same_iff (DataClass.other n) (DataClass.other m) = ground arith

abbrev time_same : Option NaiveDateTime → Option NaiveDateTime → Bool
time_same none none = true
time_same (some s) (some t) = nat_eq s t
time_same _ _ = false

time_same_iff : (x y : Option NaiveDateTime) → (time_same x y ≡ true) ↔ (x ≡ y)
time_same_iff none none = ground arith
time_same_iff none (some t) = ground arith
time_same_iff (some s) none = ground arith
time_same_iff (some s) (some t) = ground arith

abbrev contents_same : Contents → Contents → Bool
contents_same x y =
    text_eq x.key y.key
    && (nat_eq x.etag y.etag
        && (int_same x.size y.size
            && (class_same x.storage_class y.storage_class && time_same x.created_at y.created_at)))

pub contents_same_iff : (x y : Contents) → (contents_same x y ≡ true) ↔ (x ≡ y)
contents_same_iff x y = ground (
  arith,
  text_eq_iff x.key y.key,
  int_same_iff x.size y.size,
  class_same_iff x.storage_class y.storage_class,
  time_same_iff x.created_at y.created_at,
)

instance abbrev pub eq_contents : Eq Contents
eq_contents = record { same = contents_same; same_iff = contents_same_iff }

-- What has been collected for the page: keys and common prefixes.
pub record Page : Type 0 where
  pub keys : List Contents
  pub common_prefixes : List Text

abbrev pub empty_page : Page
empty_page = record { keys = []; common_prefixes = [] }

unfoldable pub num_keys : Page → ℕ
num_keys page = length page.keys + length page.common_prefixes

-- What a path is to the listing: it lies below a common prefix, is a key, or does not match.
pub data Place : Type 0 where
  below : Text → Place
  entry beside : Place

-- The path without the part that is matched already, split at the delimiter.
unfoldable pub split_place : Text → Text → Text → Place
split_place prefix delimiter rest = elim (split_once_at delimiter rest) [
  | some (common_prefix, _) ↦ below ((prefix ++ common_prefix) ++ delimiter)
  | none ↦ entry
]

-- The conditions of the four loops, by what delimiter and prefix there are.
unfoldable pub place : Option Text → Option Text → Text → Place
unfolding split_place
place (some delimiter) (some prefix) path = elim (strip_prefix prefix path) [
  | some stripped_path ↦ split_place prefix delimiter stripped_path
  | none ↦ beside
]
place (some delimiter) none path = split_place [] delimiter path
place none (some prefix) path = elim (strip_prefix prefix path) [
  | some rest ↦ entry
  | none ↦ beside
]
place none none path = entry

-- `BTreeSet::insert`
abbrev pub insert_new : {A : Type 0} ⦃e : Eq A⦄ → List A → A → List A
insert_new s a = if contains s a then s else s ++ a ∷ []

abbrev pub insert_key : Page → Contents → Page
insert_key page c = record page { keys = insert_new page.keys c }

-- A path that is a key is entered if its resource is an object.
unfoldable pub add_entry : Page → Text → Object × Option ObjectLocation → Page
unfolding contents_of
add_entry page path resource =
    if type_eq resource.0.object_type ObjectType.object
    then insert_key page (contents_of path resource)
    else page

unfoldable pub at_place : Cache → Page → Text × DieselUlid → Place → Result Page
at_place cache page (path, id) (below common_prefix) =
    ok (record page { common_prefixes = insert_new page.common_prefixes common_prefix })
at_place cache page (path, id) beside = ok page
at_place cache page (path, id) entry =
    map_err (get_resource_cloned cache id false) (s3_error no_such_key "No key found for path")
    >>= λ (resource : Object × Option ObjectLocation). ok (add_entry page path resource)

-- One turn of the loop below the test of the number of keys.
unfoldable pub turn : Cache → Option Text → Option Text → Page → Text × DieselUlid → Result Page
turn cache delimiter prefix page next = at_place cache page next (place delimiter prefix next.0)

-- The loop over the range of paths, with the token where the page is full.
unfoldable pub turns :
    Cache
    → Option Text
    → Option Text
    → (Text → Text)
    → ℕ
    → List (Text × DieselUlid)
    → Page
    → Result (Page × Option Text)
unfolding num_keys
turns cache delimiter prefix encode max_keys [] page = ok (page, none)
turns cache delimiter prefix encode max_keys (next ∷ rest) page =
    elim (nat_eq (num_keys page) max_keys) [
      | true ↦ ok (page, some (encode next.0))
      | false ↦ turn cache delimiter prefix page next >>= λ (after : Page).
          turns cache delimiter prefix encode max_keys rest after
    ]

-- `list_response`; `encode` is the encoding of tokens (`STANDARD_NO_PAD.encode`).
unfoldable pub list_response :
    (Text → Text)
    → Cache
    → Option Text
    → Option Text
    → Text
    → Text
    → ℕ
    → Result (Page × Option Text)
list_response encode cache delimiter prefix bucket_name start_at max_keys =
    turns cache delimiter prefix encode max_keys (get_path_range cache bucket_name start_at)
      empty_page
