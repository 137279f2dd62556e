-- ===== src/Cache/Parts/Summed.antt =====
-- s3_frontend/s3service.rs: what the sums of `complete_multipart_upload` add up, whatever the order of
-- the parts.
use data_proxy.Base.{
  ℕ, ◌+◌, ◌%◌, ◌<◌, Bool, List, [], ◌∷◌, Text, eq_nat, contains, if◌then◌else◌, Result, ok,
  Result-cases, ◌≡◌, refl, ◌∙◌, inl, inr, Bool-cases, arith,
}
use data_proxy.Base.Int.{u64_mod, add_u64}
use data_proxy.Base.Sorting.{insert_by, sort_by}
use data_proxy.Structs.Format.{DieselUlid}
use data_proxy.Cache.Parts.{
  UploadPart, Parts, parts_of, number_le, get_parts, delete_part, Sums, count_parts, complete_parts,
}

-- The sum of a size over the parts whose numbers are among the given ones.
abbrev pub listed_total : (UploadPart → ℕ) → List ℕ → List UploadPart → ℕ
listed_total size numbers [] = 0
listed_total size numbers (part ∷ l) =
    let rest = listed_total size numbers l in
    if contains numbers part.part_number then size part + rest else rest

listed_total-insert_by :
    (size : UploadPart → ℕ) (numbers : List ℕ) (le : UploadPart → UploadPart → Bool)
    (part : UploadPart) (l : List UploadPart)
    → listed_total size numbers (insert_by le part l) ≡ listed_total size numbers (part ∷ l)
unfolding insert_by
listed_total-insert_by size numbers le part [] = refl
listed_total-insert_by size numbers le part (p ∷ l) =
    ground (arith, listed_total-insert_by size numbers le part l)

listed_total-sort_by :
    (size : UploadPart → ℕ) (numbers : List ℕ) (le : UploadPart → UploadPart → Bool)
    (l : List UploadPart)
    → listed_total size numbers (sort_by le l) ≡ listed_total size numbers l
unfolding sort_by
listed_total-sort_by size numbers le [] = refl
listed_total-sort_by size numbers le (p ∷ l) =
    listed_total-insert_by size numbers le p (sort_by le l)
    ∙ ground (arith, listed_total-sort_by size numbers le l)

add_step : (a b t : ℕ) → (add_u64 a b + t) % u64_mod ≡ (a + (b + t)) % u64_mod
add_step a b t = omega arith

from_zero : (n m : ℕ) → n ≡ m → (0 + n) % u64_mod ≡ m % u64_mod
from_zero n m h = omega (arith, h)

module _ (delete : DieselUlid → Result (Unit {0})) (upload_id : Text) (numbers : List ℕ) where
  abbrev Adds : Sums → List UploadPart → Sums → Type 0
  Adds before l after =
      (after.cumulative_size
        ≡ (before.cumulative_size + listed_total (λ (p : UploadPart). p.raw_size) numbers l)
          % u64_mod)
      × (after.disk_size
          ≡ (before.disk_size + listed_total (λ (p : UploadPart). p.size) numbers l) % u64_mod)

  count_parts-Adds :
      (l : List UploadPart) (before : Sums) (parts : Parts) {after : Sums} {parts' : Parts}
      → before.cumulative_size < u64_mod
      → before.disk_size < u64_mod
      → count_parts delete upload_id numbers l before parts ≡ (ok after, parts')
      → Adds before l after
  unfolding count_parts
  count_parts-Adds [] before parts c d h = ground arith
  count_parts-Adds (p ∷ l) before parts {after} {parts'} c d h =
      elim (Bool-cases (contains numbers p.part_number)) [
        | inl e ↦
            let next : Sums = record {
              cumulative_size = add_u64 before.cumulative_size p.raw_size;
              disk_size = add_u64 before.disk_size p.size;
            } in
            let (raw, disk) =
              count_parts-Adds l next parts {after = after} {parts' = parts'} (omega arith)
                (omega arith) (rw e at h) in
            rw e (
              raw ∙ add_step before.cumulative_size p.raw_size _,
              disk ∙ add_step before.disk_size p.size _,
            )
        | inr e ↦
            let outcome = delete_part delete upload_id p.part_number parts in
            elim (Result-cases outcome.0) [
              | inl (x, f) ↦ rw e (
                  count_parts-Adds l before outcome.1 {after = after} {parts' = parts'} c d
                    (rw f at (rw e at h)))
              | inr (x, f) ↦ absurd (ground (arith, e, f, h))
            ]
      ]

-- The sums at the end of an upload: over the parts of the upload whose numbers are listed.
pub complete_parts-totals :
    (delete : DieselUlid → Result (Unit {0})) (upload_id : Text) (numbers : List ℕ) (parts : Parts)
    {sums : Sums} {after : Parts}
    → complete_parts delete upload_id numbers parts ≡ (ok sums, after)
    → let l = parts_of parts upload_id in
      (sums.cumulative_size ≡ listed_total (λ (p : UploadPart). p.raw_size) numbers l % u64_mod)
      × (sums.disk_size ≡ listed_total (λ (p : UploadPart). p.size) numbers l % u64_mod)
unfolding complete_parts get_parts
complete_parts-totals delete upload_id numbers parts {sums} {after} h =
    let l = parts_of parts upload_id in
    let zero_sums : Sums = record { cumulative_size = 0; disk_size = 0 } in
    let (raw, disk) =
      count_parts-Adds delete upload_id numbers (sort_by number_le l) zero_sums parts {after = sums}
        {parts' = after} (omega arith) (omega arith) h in
    (
      raw
          ∙ from_zero _ _
              (listed_total-sort_by (λ (p : UploadPart). p.raw_size) numbers number_le l),
      disk ∙ from_zero _ _ (listed_total-sort_by (λ (p : UploadPart). p.size) numbers number_le l),
    )
