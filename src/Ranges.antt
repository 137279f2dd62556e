-- ===== src/Ranges.antt =====
-- s3_frontend/utils/ranges.rs: what a requested range becomes.
pub mod Bounds
use data_proxy.Base.{
  ℕ, ◌+◌, ◌/◌, ◌*◌, ◌%◌, List, [], ◌∷◌, Option, none, some, Result, ok, err, anyhow, ltb,
  if◌then◌else◌,
}
use data_proxy.Base.Int.{add_u64, sub_u64, u64_mod}
use data_proxy.Structs.Format.{
  ObjectLocation, is_pithos, location_is_compressed, location_encryption_key,
}

abbrev pub raw_chunk : ℕ
raw_chunk = 65536

abbrev pub encryption_chunk : ℕ
encryption_chunk = raw_chunk + 28

-- `s3s::dto::Range`
pub data S3Range : Type 0 where
  int : ℕ → Option ℕ → S3Range
  suffix : ℕ → S3Range

-- `pithos_lib::helpers::structs::Range`: from the first byte up to, and without, `to`.
pub record ArunaRange : Type 0 where
  pub from : ℕ
  pub to : ℕ

-- The two numbers of a header value `bytes={}-{}`.
pub record RangeHeader : Type 0 where
  pub first : ℕ
  pub last : ℕ

unfoldable pub aruna_range_from_s3range : S3Range → ℕ → ArunaRange
aruna_range_from_s3range (int first (some val)) content_length = record {
  from = first;
  to = if ltb content_length val then content_length else add_u64 val 1;
}
aruna_range_from_s3range (int first none) content_length = record {
  from = first;
  to = content_length;
}
aruna_range_from_s3range (suffix length) content_length = record {
  from = sub_u64 content_length length;
  to = content_length;
}

unfoldable pub calculate_content_length_from_range : ArunaRange → ℕ
calculate_content_length_from_range range = sub_u64 range.to range.from

-- `FileContextVariants`
pub data FileContextVariants {ℓ} (F : Type ℓ) : Type ℓ where
  file_decrypted : F → FileContextVariants F
  file_encrypted : FileContextVariants F

-- What `calculate_ranges` returns: the header, the edit list, the content length, the range.
abbrev pub Ranges : Type 0
Ranges = Option RangeHeader × Option (List ℕ) × ℕ × Option ArunaRange

-- `F` is the decrypted file context of pithos_lib, and the parameter its method
-- `get_range_and_filter_by_range`; a footer is given by its table of files.
module _ {ℓ} {F : Type ℓ}
    (get_range_and_filter_by_range : F → ArunaRange → ArunaRange × List ℕ) where
  unfoldable pub pithos_ranges : Option (List (FileContextVariants F)) → ArunaRange → Result Ranges
  unfolding calculate_content_length_from_range
  pithos_ranges none r = err (anyhow "Footer not found")
  pithos_ranges (some []) r = err (anyhow "No files in footer")
  pithos_ranges (some (file_encrypted ∷ _)) r = err (anyhow "File not decrypted")
  pithos_ranges (some (file_decrypted file ∷ _)) r =
      let (a, b) = get_range_and_filter_by_range file r in
      ok (
        some (record { first = a.from; last = sub_u64 a.to 1 }),
        some b,
        calculate_content_length_from_range a,
        some r,
      )

  unfoldable pub plain_ranges : ObjectLocation → ArunaRange → Ranges
  unfolding location_is_compressed location_encryption_key
  plain_ranges location r =
      if location_is_compressed location
      then (none, some (r.from ∷ sub_u64 r.to r.from ∷ []), sub_u64 r.to r.from, some r)
      else elim (location_encryption_key location) [
        | some _ ↦
            let start = r.from / raw_chunk in
            let end = r.to / raw_chunk + 1 in
            (
              some (record {
                first = start * encryption_chunk % u64_mod;
                last = end * encryption_chunk % u64_mod;
              }),
              some (r.from % raw_chunk ∷ sub_u64 r.to r.from ∷ []),
              sub_u64 r.to r.from,
              some r,
            )
        | none ↦ (some (record { first = r.from; last = r.to }), none, sub_u64 r.to r.from, some r)
      ]

  unfoldable pub calculate_ranges :
      Option S3Range → ℕ → Option (List (FileContextVariants F)) → ObjectLocation → Result Ranges
  unfolding pithos_ranges plain_ranges aruna_range_from_s3range is_pithos
  calculate_ranges none content_length footer location = ok (none, none, content_length, none)
  calculate_ranges (some range) content_length footer location =
      let aruna_range = aruna_range_from_s3range range content_length in
      if is_pithos location
      then pithos_ranges footer aruna_range
      else ok (plain_ranges location aruna_range)
