-- ===== src/Tests/Listing.antt =====
-- The theorems of Listing at concrete inputs.
use data_proxy.Base.{
  ◌≡◌, refl, true, none, some, ok, [], ◌∷◌, ◌++◌, Text, codes, text_le, eq_text, List, Sorted,
  length, ◌+◌, range, strip_prefix, split_once_at, contains, ◌↔◌,
}
use data_proxy.Base.Map.{get}
use data_proxy.Base.Int.{pos}
use data_proxy.Structs.Format.{DieselUlid}
use data_proxy.Structs.Object.{DataClass, type_eq}
use data_proxy.Cache.{
  Cache, get_path_range, bucket_prefix, strip_bucket, get_resource, get_resource_cloned,
}
use data_proxy.Listing.{
  Contents, eq_contents, Page, empty_page, num_keys, list_response, turns, turn, at_place,
  add_entry, place, split_place, contents_of,
}
use data_proxy.Listing.Pages.{token_at, collect, list_response-resume}
use data_proxy.Listing.Keys.{HasEntry, HasBelow, list_response-keys}
use data_proxy.Tests.{object_o}

-- A bucket "p" with the objects "a", "c" and "d/o".
abbrev bucket_p : Cache
bucket_p = record {
  resources = (4, (object_o, none)) ∷ [];
  bundles = [];
  paths = (codes "p", 1) ∷ (codes "p/a", 4) ∷ (codes "p/c", 4) ∷ (codes "p/d/o", 4) ∷ [];
}

bucket_p-Sorted : Sorted bucket_p.paths
unfolding text_le
bucket_p-Sorted = ((refl, (refl, (refl, tt))), ((refl, (refl, tt)), ((refl, tt), (tt, tt))))

abbrev shown : List (Text × DieselUlid)
shown = (codes "a", 4) ∷ (codes "c", 4) ∷ (codes "d/o", 4) ∷ []

whole_range : get_path_range bucket_p (codes "p") [] ≡ shown
unfolding get_path_range range text_le strip_bucket strip_prefix bucket_prefix
whole_range = refl

-- Tokens that are the paths themselves.
abbrev plain : Text → Text
plain t = t

abbrev entry_at : Text → Contents
entry_at path = record {
  key = path;
  etag = 4;
  size = pos 0;
  storage_class = DataClass.public;
  created_at = none;
}

abbrev first_page : Page
first_page = record {
  keys = entry_at (codes "a") ∷ entry_at (codes "c") ∷ [];
  common_prefixes = [];
}

abbrev whole_page : Page
whole_page = record first_page { common_prefixes = codes "d/" ∷ [] }

first_listed :
    list_response plain bucket_p (some (codes "/")) none (codes "p") [] 2
    ≡ ok (first_page, some (codes "d/o"))
unfolding list_response get_path_range range text_le strip_bucket strip_prefix bucket_prefix turns
    turn at_place add_entry place split_place split_once_at contents_of get_resource_cloned
    get_resource get type_eq num_keys
first_listed = refl

whole_listed :
    list_response plain bucket_p (some (codes "/")) none (codes "p") [] 3 ≡ ok (whole_page, none)
unfolding list_response get_path_range range text_le strip_bucket strip_prefix bucket_prefix turns
    turn at_place add_entry place split_place split_once_at contents_of get_resource_cloned
    get_resource get type_eq num_keys
whole_listed = refl

list_response-resume_example :
    (before : List (Text × DieselUlid)) × (path : Text) × (codes "d/o" ≡ plain path)
    × (get_path_range bucket_p (codes "p") [] ≡ before ++ get_path_range bucket_p (codes "p") path)
    × (collect bucket_p (some (codes "/")) none before empty_page ≡ ok first_page)
    × (length first_page.keys + length first_page.common_prefixes ≡ 2)
list_response-resume_example =
    list_response-resume plain bucket_p (some (codes "/")) none (codes "p") [] 2 {page = first_page}
      {token = codes "d/o"} bucket_p-Sorted first_listed

list_response-keys_example :
    (before after : List (Text × DieselUlid)) × (get_path_range bucket_p (codes "p") []
      ≡ before ++ after)
    × (some (codes "d/o") ≡ token_at plain after)
    × ((c : Contents)
        → (contains first_page.keys c ≡ true) ↔ HasEntry bucket_p (some (codes "/")) none before c)
    × ((t : Text)
        → (contains first_page.common_prefixes t ≡ true)
          ↔ HasBelow bucket_p (some (codes "/")) none before t)
list_response-keys_example =
    list_response-keys bucket_p (some (codes "/")) none plain (codes "p") [] 2 {page = first_page}
      {token = some (codes "d/o")} first_listed
