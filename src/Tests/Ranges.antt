-- ===== src/Tests/Ranges.antt =====
-- The theorems of Ranges at concrete inputs.
use data_proxy.Base.{
  ◌↔◌, ℕ, ◌+◌, ◌-◌, ◌*◌, ◌≤◌, ◌<◌, ◌≡◌, refl, false, none, some, ok, List, [], ◌∷◌, arith,
}
use data_proxy.Structs.Format.{
  FileFormat, is_pithos, location_is_compressed, location_encryption_key,
}
use data_proxy.Ranges.{
  int, ArunaRange, Ranges, raw_chunk, encryption_chunk, aruna_range_from_s3range, plain_ranges,
  calculate_ranges,
}
use data_proxy.Ranges.Bounds.{wanted, Regular, calculate_ranges-content_length, encrypted_window}
use data_proxy.Tests.{location_of}

-- A file context that returns the range asked for.
abbrev same_range : Unit {0} → ArunaRange → ArunaRange × List ℕ
same_range file r = (r, [])

raw_is_plain : is_pithos (location_of FileFormat.raw) ≡ false
unfolding is_pithos
raw_is_plain = refl

calculate_ranges-content_length_example :
    (x : Ranges) × (calculate_ranges same_range
        (some (int 10 (some 19)))
        100
        none
        (location_of FileFormat.raw)
      ≡ ok x)
    × ((x.2 ≡ wanted (int 10 (some 19)) 100) ↔ Regular (int 10 (some 19)) 100)
    × (x.3 ≡ some (aruna_range_from_s3range (int 10 (some 19)) 100))
calculate_ranges-content_length_example =
    calculate_ranges-content_length same_range (location_of FileFormat.raw) (int 10 (some 19)) 100
      none (omega arith) tt (omega arith) raw_is_plain

abbrev encrypted : FileFormat
encrypted = FileFormat.raw_encrypted (7 ∷ [])

encrypted_plain : location_is_compressed (location_of encrypted) ≡ false
unfolding location_is_compressed
encrypted_plain = refl

encrypted_key : location_encryption_key (location_of encrypted) ≡ some (7 ∷ [])
unfolding location_encryption_key
encrypted_key = refl

-- Bytes 70000 up to 140000: two whole chunks after the first, 4464 bytes skipped.
abbrev middle : ArunaRange
middle = record { from = 70000; to = 140000 }

encrypted_window_example :
    (start end skip : ℕ) × ((plain_ranges same_range (location_of encrypted) middle).0
      ≡ some (record { first = start * encryption_chunk; last = end * encryption_chunk }))
    × ((plain_ranges same_range (location_of encrypted) middle).1
        ≡ some (skip ∷ (140000 - 70000) ∷ []))
    × (start * raw_chunk + skip ≡ 70000)
    × (skip < raw_chunk)
    × (skip + (140000 - 70000) ≤ (end - start) * raw_chunk)
encrypted_window_example =
    encrypted_window same_range (location_of encrypted) middle (7 ∷ []) (omega arith) (omega arith)
      encrypted_plain encrypted_key

raw_uncompressed : location_is_compressed (location_of FileFormat.raw) ≡ false
unfolding location_is_compressed
raw_uncompressed = refl

raw_without_key : location_encryption_key (location_of FileFormat.raw) ≡ none
unfolding location_encryption_key
raw_without_key = refl
