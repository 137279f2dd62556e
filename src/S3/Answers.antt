-- ===== src/S3/Answers.antt =====
-- s3_frontend/s3service.rs: the answers to listings with a negative number of keys, and the header of
-- an answer to a request of a range.
use data_proxy.Base.{
  ℕ, ◌+◌, ◌-◌, ◌^◌, ◌<◌, ◌≤◌, List, Option, some, Text, Result, ok, err, Error, map_err, ◌≡◌, ◌⊎◌,
  inl, inr, refl, arith, Bool, false, ltb, s3_error, no_such_key, after_ok, ok-eq, map_err-eq-ok,
  ap, sym, ◌∙◌,
}
use data_proxy.Base.Int.{ℤ, pos, negsuc, as_u64}
use data_proxy.Base.Map.{Map}
use data_proxy.Structs.Format.{DieselUlid, ObjectLocation, is_pithos}
use data_proxy.Structs.States.{ResourceStates, require_object}
use data_proxy.Structs.Users.{CheckAccessResult}
use data_proxy.Cache.{get_path}
use data_proxy.Cache.Parts.{Parts}
use data_proxy.Listing.{list_response}
use data_proxy.Ranges.{
  S3Range, int, ArunaRange, Ranges, calculate_ranges, plain_ranges, aruna_range_from_s3range,
}
use data_proxy.Client.Base.{World}
use data_proxy.S3.{internal}
use data_proxy.S3.Buckets.{
  ListObjectsV2Input, list_objects_v2, used_prefix, read_token, start_of, page_size,
}
use data_proxy.S3.Reads.{
  Footer, GetObjectOutput, read_object, range_header, range_length, footer_of, data_lengths,
  files_of, set_headers,
}

Result-cases : {A : Type 0} (r : Result A) → ((a : A) × (r ≡ ok a)) ⊎ ((e : Error) × (r ≡ err e))
Result-cases (ok a) = inl (a, refl)
Result-cases (err e) = inr (e, refl)

-- A negative number is not below the number of keys that can be answered.
negative_page : (k : ℕ) → k < 2 ^ 31 → ltb (page_size (some (negsuc k))) 2147483648 ≡ false
unfolding page_size
negative_page k h = ground arith

-- A listing of a known bucket with a negative number of keys and a token that can be read, or
-- none, is answered by an error: a failed conversion, or missing keys.
pub list_objects_v2-negative :
    (encode : Text → Text) (decode : Text → Option Text) (access : CheckAccessResult)
    (input : ListObjectsV2Input) (k : ℕ) (w : World) (id : DieselUlid) (token : Option Text)
    → k < 2 ^ 31
    → input.max_keys ≡ some (negsuc k)
    → get_path w.cache input.bucket ≡ some id
    → read_token decode input.continuation_token ≡ ok token
    → (list_objects_v2 encode decode (some access) input w
        ≡ some (err (internal "[BACKEND] Conversion failure"), w))
      ⊎ (list_objects_v2 encode decode (some access) input w
          ≡ some (err (s3_error no_such_key "Keys not found in ListObjectsV2"), w))
unfolding list_objects_v2
list_objects_v2-negative encode decode access input k w id token small e_k e_b e_t =
    elim (Result-cases (
      list_response encode w.cache input.delimiter (used_prefix input.list_prefix) input.bucket
        (start_of input.start_after token) (page_size input.max_keys))) [
          | inl (listed, e) ↦ inl (
              rw (e_b, list_objects_v2)
                (rw (e_t, list_objects_v2)
                  (rw (e, list_objects_v2)
                    (rw (e_k, list_objects_v2) (rw (negative_page k small, list_objects_v2))))))
          | inr (f, e) ↦
              inr (rw (e_b, list_objects_v2) (rw (e_t, list_objects_v2) (rw (e, list_objects_v2))))
        ]

-- The range of the answer is the one that was computed, however the data is stored.
plain_ranges-range :
    {F : Type 0} (filter : F → ArunaRange → ArunaRange × List ℕ) (location : ObjectLocation)
    (r : ArunaRange)
    → (plain_ranges filter location r).3 ≡ some r
unfolding plain_ranges
plain_ranges-range filter location r = ground arith

closed_range :
    (first val n : ℕ)
    → val < n
    → n < 2 ^ 63
    → aruna_range_from_s3range (int first (some val)) n ≡ record { from = first; to = val + 1 }
unfolding aruna_range_from_s3range
closed_range first val n inside small = ground arith

length_of_range :
    (first val n : ℕ)
    → first ≤ val
    → val < n
    → n < 2 ^ 63
    → (len : ℤ)
    → range_length len (some (record { from = first; to = val + 1 })) ≡ pos (val + 1 - first)
unfolding range_length
length_of_range first val n order inside small len = ground arith

header_of_range :
    (first val n : ℕ)
    → first ≤ val
    → val < n
    → n < 2 ^ 63
    → range_header (some (record { from = first; to = val + 1 }))
      ≡ some (record { first = first; last = val + 1; complete_length = pos (val + 1 - first) })
unfolding range_header
header_of_range first val n order inside small = ground arith

module _ {F : Type 0} (get_range_and_filter_by_range : F → ArunaRange → ArunaRange × List ℕ)
    (read_footer : ObjectLocation → Result (Footer F)) (is_name is_value : Text → Bool)
    (to_string : DieselUlid → Text) where
  ranges_of :
      (location : ObjectLocation) (footer : Option (Footer F)) (r : S3Range) (len : ℕ)
      {ranges : Ranges}
      → is_pithos location ≡ false
      → calculate_ranges get_range_and_filter_by_range (some r) len (files_of footer) location
        ≡ ok ranges
      → ranges.3 ≡ some (aruna_range_from_s3range r len)
  unfolding calculate_ranges
  ranges_of location footer r len plain h = ground (
    arith,
    plain_ranges-range get_range_and_filter_by_range location (aruna_range_from_s3range r len),
  )

  -- For a closed range inside an object below 2^63 bytes that is not in Pithos format, an answer
  -- without error has the length of the range, and in its Content-Range the first byte asked for,
  -- as last byte the one after the last asked for, and as complete length the length of the range.
  pub read_object-content_range :
      (parts : Parts) (headers : Option (Map Text Text)) (states : ResourceStates)
      (location : ObjectLocation) (first val n : ℕ) {out : GetObjectOutput}
      → location.raw_content_len ≡ pos n
      → n < 2 ^ 63
      → first ≤ val
      → val < n
      → is_pithos location ≡ false
      → read_object get_range_and_filter_by_range read_footer is_name is_value to_string parts
          headers states
          (some location)
          (some (int first (some val)))
        ≡ ok out
      → (out.content_length ≡ pos (val + 1 - first))
        × (out.content_range
            ≡ some
                (record { first = first; last = val + 1; complete_length = pos (val + 1 - first) }))
  unfolding read_object
  read_object-content_range parts headers states location first val n {out} e_n small order inside
        plain h =
      after_ok (require_object states) _ h λ o _ h1.
        after_ok
          (footer_of get_range_and_filter_by_range read_footer is_name is_value to_string location)
          _ h1
          λ footer _ h2.
            after_ok
              (data_lengths get_range_and_filter_by_range read_footer is_name is_value to_string
                parts location footer)
              _ h2
              λ lengths _ h3.
                after_ok
                  (map_err
                    (calculate_ranges get_range_and_filter_by_range (some (int first (some val)))
                      (as_u64 location.raw_content_len) (files_of footer) location)
                    (internal "Unable to calculate ranges"))
                  _ h3
                  λ ranges k h4. after_ok (set_headers is_name is_value headers) _ h4 λ set _ h5.
                    let size : as_u64 location.raw_content_len ≡ n = rw e_n (omega arith) in
                    let range : ranges.3 ≡ some (record { from = first; to = val + 1 }) =
                      ranges_of location footer (int first (some val))
                        (as_u64 location.raw_content_len) {ranges = ranges} plain
                        (map_err-eq-ok _ (internal "Unable to calculate ranges") k)
                      ∙ (ap (λ (m : ℕ). some (aruna_range_from_s3range (int first (some val)) m))
                            size
                          ∙ ap (λ (r : ArunaRange). some r)
                              (closed_range first val n inside small)) in
                    (
                      ap (λ (x : GetObjectOutput). x.content_length) (sym (ok-eq h5))
                          ∙ (ap (λ (r : Option ArunaRange). range_length location.raw_content_len r)
                                range
                              ∙ length_of_range first val n order inside small
                                  location.raw_content_len),
                      ap (λ (x : GetObjectOutput). x.content_range) (sym (ok-eq h5))
                          ∙ (ap (λ (r : Option ArunaRange). range_header r) range
                              ∙ header_of_range first val n order inside small),
                    )
