-- ===== src/S3/Reads.antt =====
-- s3_frontend/s3service.rs: `get_object` and `head_object`. Of the body, which tasks of their own
-- stream, the model has what is asked from the backend and the transformers that it passes.
use data_proxy.Base.{
  ℕ, ◌+◌, ◌-◌, ◌*◌, ◌/◌, ◌%◌, Bool, List, [], ◌∷◌, ◌++◌, Option, none, some, Text, codes, nat_eq,
  if◌then◌else◌, Result, ok, err, s3_error, no_such_key, invalid_part, ok_or, ◌>>=◌, map_err, ◌⊎◌,
  inl, inr,
}
use data_proxy.Base.Int.{ℤ, pos, as_u64, as_i64, sub_u64}
use data_proxy.Base.Map.{Map}
use data_proxy.Structs.Format.{
  DieselUlid, ObjectLocation, Key, is_pithos, location_is_compressed, location_encryption_key,
}
use data_proxy.Structs.Object.{Object, Bundle}
use data_proxy.Structs.States.{ResourceStates, require_object}
use data_proxy.Structs.Users.{CheckAccessResult, regular, objects, bundle, extract_object}
use data_proxy.Cache.Parts.{UploadPart, Parts, get_parts}
use data_proxy.Cache.{Cache}
use data_proxy.Cache.Locations.{get_path_levels}
use data_proxy.Ranges.{S3Range, ArunaRange, RangeHeader, FileContextVariants, calculate_ranges}
use data_proxy.S3.{internal}

-- The footer of a Pithos file, by the fields that the program reads.
pub record Footer (F : Type 0) : Type 0 where
  pub files : List (FileContextVariants F)
  pub disk_file_size : ℕ
  pub toc_len : ℕ
  pub encryption_len : ℕ

-- `bytes {}-{}/{}`
pub record ContentRange : Type 0 where
  pub first : ℕ
  pub last : ℕ
  pub complete_length : ℤ

-- How the body is read.
pub record Body : Type 0 where
  pub location : ObjectLocation
  pub query_ranges : Option RangeHeader
  pub decryption : Option (Key × List ℕ)
  pub decompression : Bool
  pub edit_list : Option (List ℕ)

pub record GetObjectOutput : Type 0 where
  pub body : Body
  pub content_range : Option ContentRange
  pub content_length : ℤ
  pub e_tag : Text
  pub headers : List (Text × Text)

abbrev pub sealed_chunk : ℕ
sealed_chunk = 65536 + 28

-- The lengths of the encrypted parts of an upload that is not finalized: whole chunks, and the rest.
unfoldable pub part_lengths : List UploadPart → List ℕ
part_lengths [] = []
part_lengths (part ∷ parts) =
    let rest = part_lengths parts in
    let full_chunks = part.size / sealed_chunk * sealed_chunk in
    if nat_eq (part.size % sealed_chunk) 0
    then full_chunks ∷ rest
    else full_chunks ∷ (part.size - full_chunks) ∷ rest

-- `headers.insert`: the library refuses what is no name or no value.
unfoldable pub set_headers :
    (Text → Bool) → (Text → Bool) → Option (Map Text Text) → Result (List (Text × Text))
set_headers is_name is_value none = ok []
set_headers is_name is_value (some []) = ok []
set_headers is_name is_value (some ((k, v) ∷ headers)) =
    let rest = set_headers is_name is_value (some headers) in
    if is_name k
    then (if is_value v
        then (elim rest [ err e ↦ err e | ok l ↦ ok ((k, v) ∷ l) ])
        else err (internal "Unable to parse header value"))
    else err (internal "Unable to parse header name")

abbrev pub files_of : {F : Type 0} → Option (Footer F) → Option (List (FileContextVariants F))
files_of none = none
files_of (some f) = some f.files

-- The header and the length of an answer to a request of a range.
unfoldable pub range_length : ℤ → Option ArunaRange → ℤ
range_length raw_content_len none = raw_content_len
range_length raw_content_len (some r) = as_i64 (sub_u64 r.to r.from)

unfoldable pub range_header : Option ArunaRange → Option ContentRange
range_header none = none
range_header (some r) =
    some (record { first = r.from; last = r.to; complete_length = as_i64 (sub_u64 r.to r.from) })

abbrev pub decryption_of : ObjectLocation → List ℕ → Option (Key × List ℕ)
decryption_of location lengths = elim (location_encryption_key location) [
  | none ↦ none
  | some key ↦ some (key, lengths)
]

module _ {F : Type 0} (get_range_and_filter_by_range : F → ArunaRange → ArunaRange × List ℕ)
    (read_footer : ObjectLocation → Result (Footer F)) (is_name is_value : Text → Bool)
    (to_string : DieselUlid → Text) where
  unfoldable pub footer_of : ObjectLocation → Result (Option (Footer F))
  unfolding is_pithos
  footer_of location =
      if is_pithos location then (read_footer location >>= λ footer. ok (some footer)) else ok none

  unfoldable pub data_lengths : Parts → ObjectLocation → Option (Footer F) → Result (List ℕ)
  unfolding get_parts part_lengths
  data_lengths parts location footer =
      if location.is_temporary
      then (ok_or location.upload_id (s3_error invalid_part "Upload id must be specified") >>= λ id.
          ok (part_lengths (get_parts parts id)))
      else ok (elim footer [
        | none ↦ as_u64 location.disk_content_len ∷ []
        | some f ↦ sub_u64 (sub_u64 (sub_u64 f.disk_file_size f.toc_len) f.encryption_len) 73 ∷ []
      ])

  -- `get_object` of an object of a path, with its location.
  unfoldable pub read_object :
      Parts
      → Option (Map Text Text)
      → ResourceStates
      → Option ObjectLocation
      → Option S3Range
      → Result GetObjectOutput
  unfolding require_object footer_of data_lengths calculate_ranges range_length range_header
      set_headers location_is_compressed location_encryption_key
  read_object parts headers states found range = do
    location ← ok_or found (s3_error no_such_key "Object not found")
    o ← require_object states
    footer ← footer_of location
    lengths ← data_lengths parts location footer
    ranges ←
        map_err
          (calculate_ranges get_range_and_filter_by_range range (as_u64 location.raw_content_len)
            (files_of footer) location)
          (internal "Unable to calculate ranges")
    set ← set_headers is_name is_value headers
    ok (record {
      body = record {
        location = location;
        query_ranges = ranges.0;
        decryption = decryption_of location lengths;
        decompression = location_is_compressed location;
        edit_list = ranges.1;
      };
      content_range = range_header ranges.3;
      content_length = range_length location.raw_content_len ranges.3;
      e_tag = codes "-" ++ to_string o.id;
      headers = set;
    })

  -- The levels of a bundle with its tag, or an object; `none` is a walk out of rounds.
  unfoldable pub get_object :
      ℕ
      → Cache
      → Parts
      → Option CheckAccessResult
      → Option S3Range
      → Option (Result (List (Text × Option ObjectLocation) × Text ⊎ GetObjectOutput))
  unfolding read_object get_path_levels
  get_object rounds cache parts data_of range = elim data_of [
    | none ↦ some (err (internal "No context found"))
    | some access ↦ elim access.objects_state [
      | bundle b name ↦ elim (get_path_levels cache rounds b.ids) [
        | none ↦ none
        | some levels ↦ some (ok (inl (levels, codes "-" ++ to_string b.id)))
      ]
      | regular states location ↦
          some (read_object parts access.headers states location range >>= λ out. ok (inr out))
      | objects root name ↦ some (err (internal "Invalid object state, missing location"))
    ]
  ]

-- The answer to `head_object`; times are those in the identifiers, whose conversion may fail, and the
-- type is guessed by the name.
pub record HeadObjectOutput : Type 0 where
  pub content_length : Option ℤ
  pub last_modified : ℕ
  pub e_tag : Text
  pub content_type : Option Text
  pub headers : List (Text × Text)

abbrev pub length_of : Option ObjectLocation → ℤ
length_of none = pos 0
length_of (some l) = l.raw_content_len

module _ (is_name is_value : Text → Bool) (to_string : DieselUlid → Text)
    (modified : DieselUlid → Option ℕ) (mime : Text → Option Text) where
  unfoldable pub head_bundle : Bundle → Result HeadObjectOutput
  head_bundle b = ok_or (modified b.id) (internal "Unable to parse timestamp") >>= λ time.
      ok (record {
        content_length = none;
        last_modified = time;
        e_tag = codes "-" ++ to_string b.id;
        content_type = none;
        headers = [];
      })

  unfoldable pub head_regular :
      Option (Map Text Text) → Object × Option ObjectLocation → Result HeadObjectOutput
  unfolding set_headers
  head_regular headers (o, location) = do
    time ← ok_or (modified o.id) (internal "Unable to parse timestamp")
    set ← set_headers is_name is_value headers
    ok (record {
      content_length = some (length_of location);
      last_modified = time;
      e_tag = to_string o.id;
      content_type = mime o.name;
      headers = set;
    })

  unfoldable pub head_object : Option CheckAccessResult → Result HeadObjectOutput
  unfolding head_bundle head_regular extract_object
  head_object data_of = ok_or data_of (internal "No context found") >>= λ access.
      elim access.objects_state [
        | bundle b name ↦ head_bundle b
        | other ↦ extract_object other >>= head_regular access.headers
      ]
