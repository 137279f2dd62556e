-- ===== src/Cache/Parts/Repeated.antt =====
-- caching/cache.rs, s3_frontend/s3service.rs: what is counted at the end of an upload.
use data_proxy.Base.{
  ℕ, ◌+◌, ◌%◌, ◌^◌, ◌≤◌, true, List, [], ◌∷◌, ◌++◌, some, Text, eq_text, eq_nat, contains,
  text_eq_iff, Result, ok, ◌≡◌, refl, ap₂, arith,
}
use data_proxy.Base.Int.{add_u64}
use data_proxy.Base.Map.{get, insert, get-insert}
use data_proxy.Base.Sorting.{sort_by, insert_by, Ascends, of_key, sort_by-Ascends, of_key-sort_by}
use data_proxy.Structs.Format.{DieselUlid}
use data_proxy.Cache.Parts.{
  UploadPart, Parts, parts_of, create_multipart_upload, number_le, get_parts, count_parts,
  complete_parts,
}

abbrev pub number : UploadPart → ℕ
number part = part.part_number

pub created-parts :
    (upsert : UploadPart → Result (Unit {0})) (busy : ℕ) (part : UploadPart) (parts : Parts)
    → upsert part ≡ ok tt
    → busy ≤ 10
    → create_multipart_upload upsert busy part parts
      ≡ (ok tt, insert parts part.upload_id (parts_of parts part.upload_id ++ part ∷ []))
unfolding create_multipart_upload
created-parts upsert busy part parts h b = rw (create_multipart_upload, h) (ground arith)

-- The parts of an upload after one came: by their numbers, those of one number in the order they came.
pub get_parts-create :
    (upsert : UploadPart → Result (Unit {0})) (busy k : ℕ) (part : UploadPart) (parts : Parts)
    → upsert part ≡ ok tt
    → busy ≤ 10
    → let (r, after) = create_multipart_upload upsert busy part parts in
      let l = get_parts after part.upload_id in
      (r ≡ ok tt)
      × Ascends number l
      × (of_key number k l ≡ of_key number k (parts_of parts part.upload_id ++ part ∷ []))
unfolding get_parts
get_parts-create upsert busy k part parts h b =
    rw
      (
        created-parts upsert busy part parts h b,
        parts_of,
        get-insert parts part.upload_id part.upload_id (parts_of parts part.upload_id ++ part ∷ []),
        (text_eq_iff part.upload_id part.upload_id).1 refl,
      )
      (
        refl,
        sort_by-Ascends number number_le (λ x y. refl) (parts_of parts part.upload_id ++ part ∷ []),
        of_key-sort_by number number_le (λ x y. refl) k
            (parts_of parts part.upload_id ++ part ∷ []),
      )

add_twice : (m n : ℕ) → add_u64 (add_u64 0 m) n ≡ (m + n) % 2 ^ 64
add_twice m n = omega arith

-- Two parts of one number stay in their order.
sort_two :
    (a b : UploadPart) → b.part_number ≡ a.part_number → sort_by number_le (a ∷ b ∷ []) ≡ a ∷ b ∷ []
unfolding sort_by insert_by
sort_two a b e = ground (arith, e)

-- When a part was uploaded twice under one number of the upload that is completed, both sizes are
-- added, modulo 2^64, and both entries stay.
pub complete_parts-repeated :
    (delete : DieselUlid → Result (Unit {0})) (upload_id : Text) (etags : List ℕ) (a b : UploadPart)
    (parts : Parts)
    → get parts upload_id ≡ some (a ∷ b ∷ [])
    → b.part_number ≡ a.part_number
    → contains etags a.part_number ≡ true
    → complete_parts delete upload_id etags parts ≡ (
      ok (record {
        cumulative_size = (a.raw_size + b.raw_size) % 2 ^ 64;
        disk_size = (a.size + b.size) % 2 ^ 64;
      }),
      parts,
    )
unfolding complete_parts get_parts count_parts
complete_parts-repeated delete upload_id etags a b parts h e c =
    rw (complete_parts, get_parts, h, sort_two a b e, count_parts, c, e)
      (rw c (
        ap₂ (λ x y. (ok (record { cumulative_size = x; disk_size = y }), parts))
          (add_twice a.raw_size b.raw_size) (add_twice a.size b.size)))
