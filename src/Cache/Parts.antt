-- ===== src/Cache/Parts.antt =====
-- caching/cache.rs: the parts of uploads; s3_frontend/s3service.rs: how `complete_multipart_upload`
-- counts them. Writes to the database are parameters: whether they succeed.
pub mod Repeated
pub mod Summed
use data_proxy.Base.{
  ℕ, ◌+◌, Bool, true, false, ltb, leb, nat_eq, List, [], ◌∷◌, ◌++◌, Option, none, some, Text,
  eq_text, eq_nat, contains, if◌then◌else◌, Result, ok, err, anyhow, s3_error, internal_error,
}
use data_proxy.Base.Int.{add_u64}
use data_proxy.Base.Map.{Map, get, insert, remove}
use data_proxy.Base.Sorting.{sort_by}
use data_proxy.Structs.Format.{DieselUlid}

pub record UploadPart : Type 0 where
  pub id : DieselUlid
  pub object_id : DieselUlid
  pub upload_id : Text
  pub part_number : ℕ
  pub raw_size : ℕ
  pub size : ℕ

-- `multi_parts`
abbrev pub Parts : Type 0
Parts = Map Text (List UploadPart)

abbrev pub parts_of : Parts → Text → List UploadPart
parts_of parts upload_id = elim (get parts upload_id) [ none ↦ [] | some l ↦ l ]

-- The part is stored; then the entry is tried until it is free, which it is not `busy` times.
unfoldable pub create_multipart_upload :
    (UploadPart → Result (Unit {0})) → ℕ → UploadPart → Parts → Result (Unit {0}) × Parts
create_multipart_upload upsert busy part parts = elim (upsert part) [
  | err e ↦ (err e, parts)
  | ok _ ↦
      if ltb 10 busy
      then (err (anyhow "Failed to create multipart upload"), parts)
      else (ok tt, insert parts part.upload_id (parts_of parts part.upload_id ++ part ∷ []))
]

abbrev pub number_le : UploadPart → UploadPart → Bool
number_le a b = leb a.part_number b.part_number

unfoldable pub get_parts : Parts → Text → List UploadPart
unfolding sort_by
get_parts parts upload_id = sort_by number_le (parts_of parts upload_id)

unfoldable pub delete_parts_by_upload_id :
    (Text → Result (Unit {0})) → Text → Parts → Result (Unit {0}) × Parts
delete_parts_by_upload_id delete upload_id parts = elim (delete upload_id) [
  | err e ↦ (err e, parts)
  | ok _ ↦ (ok tt, remove parts upload_id)
]

-- `position` and `remove`: the first part of the number, and the others.
unfoldable pub take_part : ℕ → List UploadPart → Option (UploadPart × List UploadPart)
take_part number [] = none
take_part number (part ∷ l) =
    let later = take_part number l in
    if nat_eq part.part_number number
    then some (part, l)
    else elim later [ none ↦ none | some (found, others) ↦ some (found, part ∷ others) ]

-- The part leaves the cache before it is deleted in the database.
unfoldable pub delete_part :
    (DieselUlid → Result (Unit {0})) → Text → ℕ → Parts → Result (Unit {0}) × Parts
unfolding take_part
delete_part delete upload_id part_number parts = elim (get parts upload_id) [
  | none ↦ (err (anyhow "Upload not found"), parts)
  | some l ↦ elim (take_part part_number l) [
    | none ↦ (err (anyhow "Part not found"), parts)
    | some (removed, others) ↦ (delete removed.id, insert parts upload_id others)
  ]
]

-- The sums of `complete_multipart_upload`.
pub record Sums : Type 0 where
  pub cumulative_size : ℕ
  pub disk_size : ℕ

-- The loop over the parts: those whose numbers are among the tags are counted, the others deleted.
unfoldable pub count_parts :
    (DieselUlid → Result (Unit {0}))
    → Text
    → List ℕ
    → List UploadPart
    → Sums
    → Parts
    → Result Sums × Parts
unfolding delete_part
count_parts delete upload_id etags [] sums parts = (ok sums, parts)
count_parts delete upload_id etags (part ∷ rest) sums parts =
    if contains etags part.part_number
    then count_parts delete upload_id etags rest
        (record {
          cumulative_size = add_u64 sums.cumulative_size part.raw_size;
          disk_size = add_u64 sums.disk_size part.size;
        })
        parts
    else elim (delete_part delete upload_id part.part_number parts).0 [
      | err e ↦ (
        err (s3_error internal_error "Unable to delete part"),
        (delete_part delete upload_id part.part_number parts).1,
      )
      | ok _ ↦
          count_parts delete upload_id etags rest sums
            (delete_part delete upload_id part.part_number parts).1
    ]

-- The beginning of `complete_multipart_upload`, up to the call of the backend.
unfoldable pub complete_parts :
    (DieselUlid → Result (Unit {0})) → Text → List ℕ → Parts → Result Sums × Parts
unfolding get_parts count_parts
complete_parts delete upload_id etags parts =
    count_parts delete upload_id etags (get_parts parts upload_id)
      (record { cumulative_size = 0; disk_size = 0 }) parts
