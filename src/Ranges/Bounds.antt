-- ===== src/Ranges/Bounds.antt =====
-- s3_frontend/utils/ranges.rs: the bytes that a range selects, the length that is announced, and the
-- window of encrypted chunks that is fetched for it.
use data_proxy.Base.{
  sym, ◌∙◌, ℕ, ◌+◌, ◌-◌, ◌*◌, ◌/◌, ◌%◌, ◌^◌, ◌≤◌, ◌<◌, min, List, [], ◌∷◌, Option, none, some, ok,
  ◌≡◌, ◌≢◌, ◌↔◌, false, arith,
}
use data_proxy.Base.Int.{u64_mod, sub_u64}
use data_proxy.Structs.Format.{
  ObjectLocation, Key, is_pithos, location_is_compressed, location_encryption_key,
}
use data_proxy.Ranges.{
  S3Range, int, suffix, ArunaRange, RangeHeader, FileContextVariants, Ranges, raw_chunk,
  encryption_chunk, aruna_range_from_s3range, plain_ranges, calculate_ranges,
}

-- A range that names bytes of an object of the given length (RFC 9110: a suffix that is longer than
-- the object names all of it).
abbrev pub Satisfiable : S3Range → ℕ → Type 0
Satisfiable (int first (some last)) len = (first ≤ last) × (first < len)
Satisfiable (int first none) len = first < len
Satisfiable (suffix n) len = (0 < n) × (0 < len)

-- The first byte that a range selects, and how many it selects (RFC 9110: `last` is included, and is
-- cut at the end of the object).
abbrev pub wanted_from : S3Range → ℕ → ℕ
wanted_from (int first _) len = first
wanted_from (suffix n) len = len - n

abbrev pub wanted : S3Range → ℕ → ℕ
wanted (int first (some last)) len = min (last + 1) len - first
wanted (int first none) len = len - first
wanted (suffix n) len = min n len

-- The last byte asked for is not the object's length, and a suffix is no longer than the object.
abbrev pub Regular : S3Range → ℕ → Type 0
Regular (int first (some last)) len = last ≢ len
Regular (int first none) len = Unit
Regular (suffix n) len = n ≤ len

-- The length of a suffix is a machine integer.
abbrev pub Fits : S3Range → Type 0
Fits (int first last) = Unit
Fits (suffix n) = n < u64_mod

pub range_lem :
    (range : S3Range) (len : ℕ)
    → len < u64_mod
    → Satisfiable range len
    → Regular range len
    → let r = aruna_range_from_s3range range len in
      (r.from ≡ wanted_from range len) × (r.to ≡ r.from + wanted range len) × (r.to ≤ len)
unfolding aruna_range_from_s3range
range_lem (int first (some last)) len fits s e = ground arith
range_lem (int first none) len fits s e = ground arith
range_lem (suffix n) len fits s e = ground arith

-- The length that is announced for a range is that of the bytes it selects exactly in the regular case.
announced_iff :
    (range : S3Range) (len : ℕ)
    → len + 1 < u64_mod
    → Fits range
    → Satisfiable range len
    → let r = aruna_range_from_s3range range len in
      (sub_u64 r.to r.from ≡ wanted range len) ↔ Regular range len
unfolding aruna_range_from_s3range
announced_iff (int first (some last)) len fits f s = ground arith
announced_iff (int first none) len fits f s = ground arith
announced_iff (suffix n) len fits f s = ground arith

sub_u64-eq : (a b : ℕ) → b ≤ a → a < u64_mod → sub_u64 a b ≡ a - b
sub_u64-eq a b h k = ground arith

-- For a closed range that starts inside the object, the computed end stays within the object
-- exactly if the requested last byte is not equal to the object's length; the range is never empty
-- and ends at most one byte past the object.
pub closed_range_end :
    (first last len : ℕ)
    → len + 1 < u64_mod
    → first ≤ last
    → first < len
    → let r = aruna_range_from_s3range (int first (some last)) len in
      ((r.to ≤ len) ↔ (last ≢ len)) × (r.from < r.to) × (r.to ≤ len + 1)
unfolding aruna_range_from_s3range
closed_range_end first last len fits h k = ground arith

module _ {ℓ} {F : Type ℓ} (get_range : F → ArunaRange → ArunaRange × List ℕ)
    (location : ObjectLocation) where
  plain_length :
      (r : ArunaRange)
      → ((plain_ranges get_range location r).2 ≡ sub_u64 r.to r.from)
        × ((plain_ranges get_range location r).3 ≡ some r)
  unfolding plain_ranges
  plain_length r = ground arith

  -- For a satisfiable range (RFC 9110) of an object that is not in Pithos format, of less than
  -- 2^64 - 1 bytes, whatever the compression and encryption, calculate_ranges succeeds, returns
  -- the computed range, and announces as content length the number of bytes that the range selects
  -- exactly if the range is regular: the last byte asked for is not the object's length, and a
  -- suffix, which fits 64 bits, is no longer than the object.
  pub calculate_ranges-content_length :
      (range : S3Range) (len : ℕ) (footer : Option (List (FileContextVariants F)))
      → len + 1 < u64_mod
      → Fits range
      → Satisfiable range len
      → is_pithos location ≡ false
      → (x : Ranges) × (calculate_ranges get_range (some range) len footer location ≡ ok x)
        × ((x.2 ≡ wanted range len) ↔ Regular range len)
        × (x.3 ≡ some (aruna_range_from_s3range range len))
  unfolding calculate_ranges
  calculate_ranges-content_length range len footer fits small s p =
      let r = aruna_range_from_s3range range len in
      let (count, same) = plain_length r in
      let (only, if_regular) = announced_iff range len fits small s in
      (
        plain_ranges get_range location r,
        rw p,
        ((λ h. only (sym count ∙ h)), λ regular. count ∙ if_regular regular),
        same,
      )

  -- For an encrypted object that is neither compressed nor in Pithos format and a range with from
  -- <= to below 2^63 - 65536, the header, its end read as exclusive, names whole encrypted chunks
  -- whose plain text contains the range: the range starts skip bytes, less than a chunk, into the
  -- first chunk, and the skipped and the kept bytes fit into the plain text of the chunks.
  pub encrypted_window :
      (r : ArunaRange) (key : Key)
      → r.from ≤ r.to
      → r.to + raw_chunk < 2 ^ 63
      → location_is_compressed location ≡ false
      → location_encryption_key location ≡ some key
      → (start end skip : ℕ) × ((plain_ranges get_range location r).0
          ≡ some (record { first = start * encryption_chunk; last = end * encryption_chunk }))
        × ((plain_ranges get_range location r).1 ≡ some (skip ∷ (r.to - r.from) ∷ []))
        × (start * raw_chunk + skip ≡ r.from)
        × (skip < raw_chunk)
        × (skip + (r.to - r.from) ≤ (end - start) * raw_chunk)
  unfolding plain_ranges
  encrypted_window r key h k c e = (
    r.from / raw_chunk,
    r.to / raw_chunk + 1,
    r.from % raw_chunk,
    ground arith,
    ground arith,
    omega arith,
    omega arith,
    omega arith,
  )

  -- For an object stored as it is, the header asks the backend for the range with its end
  -- included, so under the inclusive reading of bytes=first-last for one byte more than the
  -- content length.
  pub raw_header_excess :
      (r : ArunaRange)
      → r.from ≤ r.to
      → r.to < u64_mod
      → location_is_compressed location ≡ false
      → location_encryption_key location ≡ none
      → (h : RangeHeader) × ((plain_ranges get_range location r).0 ≡ some h)
        × (h.last + 1 - h.first ≡ (plain_ranges get_range location r).2 + 1)
  unfolding plain_ranges
  raw_header_excess r h k c e = (record { first = r.from; last = r.to }, ground arith, ground arith)

  -- An open range that starts past the end of an object not in Pithos format is not refused: the
  -- announced content length is 2^64 less the distance past the end.
  pub open_range_past_end :
      (first len : ℕ) (footer : Option (List (FileContextVariants F)))
      → len < first
      → first < u64_mod
      → is_pithos location ≡ false
      → (x : Ranges) × (calculate_ranges get_range (some (int first none)) len footer location
          ≡ ok x)
        × (x.2 + (first - len) ≡ u64_mod)
  unfolding calculate_ranges
  open_range_past_end first len footer h k p =
      let r = aruna_range_from_s3range (int first none) len in
      (plain_ranges get_range location r, rw p, ground arith)
