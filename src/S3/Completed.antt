-- ===== src/S3/Completed.antt =====
-- s3_frontend/s3service.rs: what a `complete_multipart_upload` without error leaves.
use data_proxy.Base.{
  ◌%◌, Result-cases, map, refl, subst, ℕ, List, [], ◌∷◌, ◌++◌, Option, none, some, Text, Result, ok,
  ok_or, ok_or-eq-ok, s3_error, invalid_part, ◌≡◌, sym, ap, ◌∙◌, arith, eq_nat, nat_eq, nat_eq_iff,
  Option-cases, Bool-cases, inl, inr,
}
use data_proxy.Base.Int.{ℤ, as_i64, as_u64, u64_mod}
use data_proxy.Base.Map.{get, get-insert_same}
use data_proxy.Structs.Format.{DieselUlid, ObjectLocation}
use data_proxy.Structs.Object.{Object}
use data_proxy.Structs.Messages.{object_from_object}
use data_proxy.Structs.Users.{
  CheckAccessResult, ObjectsState, extract_object, try_slice, impersonating_token,
}
use data_proxy.Cache.Locations.{get_location, update_location}
use data_proxy.Cache.Parts.{UploadPart, Parts, parts_of, Sums, complete_parts}
use data_proxy.Cache.Parts.Summed.{listed_total, complete_parts-totals}
use data_proxy.Client.{finish_object, request, store}
use data_proxy.Client.Base.{Call, World, Method, ◌>>=◌, fail_with, skip, on_cache_total}
use data_proxy.Client.Calls.{
  after_part, after_value, after_fallible, after_fallible_value, request-ends, store-ends,
  lift-value,
}
use data_proxy.Client.Synced.{store-get}
use data_proxy.S3.{Env, internal, with_client}
use data_proxy.S3.Multipart.{
  CompletedPart, etag_parts, numbers, count, finish_upload, complete_multipart_upload,
}

-- A location is entered under the identifier.
abbrev pub Located : World → DieselUlid → ObjectLocation → Type 0
Located w id location = (o : Object) × (get w.cache.resources id ≡ some (o, some location))

-- The server's end of an object changes no location, no part, and nothing that is to be finalized.
abbrev Keeps : World → World → Type 0
Keeps w w' =
    (w'.parts ≡ w.parts)
    × (w'.finalizing ≡ w.finalizing)
    × ((id : DieselUlid) (location : ObjectLocation)
        → Located w id location
        → Located w' id location)

store-Keeps :
    (env : Env) (converted : Result Object) (w : World) {o : Object} {w' : World}
    → store env.client converted w ≡ some (ok o, w')
    → Keeps w w'
unfolding get_location
store-Keeps env converted w {o} {w'} h =
    let (_, _, only) = store-ends env.client converted w h in
    (
      ap (λ (x : World). x.parts) only,
      ap (λ (x : World). x.finalizing) only,
      λ id location (old, e). elim (Bool-cases (nat_eq o.id id)) [
        | inl s ↦ (o, ground (arith, store-get env.client converted w h id, nat_eq_iff o.id id))
        | inr s ↦ (old, ground (arith, store-get env.client converted w h id))
      ],
    )

finish_object-Keeps :
    (env : Env) (id : DieselUlid) (len : ℤ) (hashes : List (ℕ × Text)) (token : Text) (w : World)
    {o : Object} {w' : World}
    → finish_object env.client id len hashes token w ≡ some (ok o, w')
    → Keeps w w'
unfolding finish_object
finish_object-Keeps env id len hashes token w h =
    let call = Call.finish_object (env.client.to_string id) len hashes in
    after_part (request env.client token call "unknown object") _ w h λ answer v asked k.
      let same = (request-ends env.client token call w "unknown object" asked).1 in
      let (parts, finalizing, located) =
        store-Keeps env (object_from_object env.client.from_str env.client.from_timestamp answer) v
          k in
      (
        parts ∙ ap (λ (x : World). x.parts) same,
        finalizing ∙ ap (λ (x : World). x.finalizing) same,
        λ i location (o, e).
            located i location (o, ap (λ (x : World). get x.cache.resources i) same ∙ e),
      )

skip-Keeps : (w : World) {w' : World} → skip w ≡ some (ok tt, w') → Keeps w w'
skip-Keeps w h =
    let same = sym (lift-value tt w h).1 in
    (
      ap (λ (x : World). x.parts) same,
      ap (λ (x : World). x.finalizing) same,
      λ i location (o, e). (o, ap (λ (x : World). get x.cache.resources i) same ∙ e),
    )

-- What is told to the server, if a client is there for the user.
abbrev told : Env → Option Text → DieselUlid → ℤ → Method (Unit {0})
told env token id len = with_client env token tt λ t.
    fail_with (finish_object env.client id len [] t) (internal "Unable to create object")
    >>= λ finished. skip

told-Keeps :
    (env : Env) (token : Option Text) (id : DieselUlid) (len : ℤ) (w : World) {w' : World}
    → told env token id len w ≡ some (ok tt, w')
    → Keeps w w'
unfolding with_client
told-Keeps env none id len w h = skip-Keeps w h
told-Keeps env (some t) id len w {w'} h = elim (Bool-cases env.has_client) [
  | inl e ↦
      after_fallible (finish_object env.client id len [] t) (internal "Unable to create object") _ w
        (rw e at h)
        λ o v finished k.
          let (parts, finalizing, located) = finish_object-Keeps env id len [] t w finished in
          let (parts', finalizing', located') = skip-Keeps v k in
          (
            parts' ∙ parts,
            finalizing' ∙ finalizing,
            λ i location l. located' i location (located i location l),
          )
  | inr e ↦ skip-Keeps w (rw e at h)
]

updated-Located :
    (env : Env) (id : DieselUlid) (location : ObjectLocation) (w : World) {w' : World}
    → on_cache_total (update_location env.locations id location) w ≡ some (ok tt, w')
    → (w'.parts ≡ w.parts) × (w'.finalizing ≡ w.finalizing) × Located w' id location
unfolding update_location
updated-Located env id location w {w'} h = elim (Option-cases (get w.cache.resources id)) [
  | inl e ↦ absurd (ground arith)
  | inr (entry, e) ↦ (
    ground arith,
    ground arith,
    (entry.0, ground (arith, get-insert_same w.cache.resources id (entry.0, some location))),
  )
]

-- The location of a finished upload: its lengths are the sums over the counted parts.
abbrev pub summed : ObjectLocation → Sums → ObjectLocation
summed location sums = record location {
  disk_content_len = as_i64 sums.disk_size;
  raw_content_len = as_i64 sums.cumulative_size;
}

count-ends :
    (env : Env) (upload_id : Text) (tags : List (ℤ × Text)) (w : World) {sums : Sums} {w' : World}
    → count env upload_id tags w ≡ some (ok sums, w')
    → (complete_parts env.delete_part upload_id (numbers tags) w.parts ≡ (ok sums, w'.parts))
      × (w'.finalizing ≡ w.finalizing)
unfolding count
count-ends env upload_id tags w h = ground arith

-- The parts of the request, each with its number and its tag.
abbrev pub Named : List CompletedPart → List (ℤ × Text) → Type 0
Named [] tags = tags ≡ []
Named (part ∷ given) tags =
    (number : ℤ) × (etag : Text) × (rest : List (ℤ × Text)) × (part.part_number ≡ some number)
    × (part.e_tag ≡ some etag)
    × (tags ≡ (number, etag) ∷ rest)
    × Named given rest

etag_parts-Named :
    (given : List CompletedPart) {tags : List (ℤ × Text)}
    → etag_parts given ≡ ok tags
    → Named given tags
unfolding etag_parts
etag_parts-Named [] h = ground arith
etag_parts-Named (part ∷ given) {tags} h = elim (Option-cases part.part_number) [
  | inl e ↦ absurd (ground (arith, e, h))
  | inr (number, e) ↦ elim (Option-cases part.e_tag) [
    | inl f ↦ absurd (ground (arith, e, f, h))
    | inr (etag, f) ↦ elim (Result-cases (etag_parts given)) [
      | inr (x, g) ↦ absurd (ground (arith, e, f, g, h))
      | inl (rest, g) ↦
          (number, etag, rest, e, f, ground (arith, e, f, g, h), etag_parts-Named given g)
    ]
  ]
]

numbers-map : (tags : List (ℤ × Text)) → numbers tags ≡ map (λ (t : ℤ × Text). as_u64 t.0) tags
numbers-map [] = refl
numbers-map ((number, etag) ∷ rest) = ap (λ l. as_u64 number ∷ l) (numbers-map rest)

-- The sum of a size over the parts of the upload whose numbers are among the tags, on 64 bits.
abbrev pub tagged_total : (UploadPart → ℕ) → List (ℤ × Text) → Text → World → ℕ
tagged_total size tags upload_id w =
    listed_total size (map (λ (t : ℤ × Text). as_u64 t.0) tags) (parts_of w.parts upload_id)
    % u64_mod

totals :
    (env : Env) (tags : List (ℤ × Text)) (upload_id : Text) (w : World) {sums : Sums}
    {after : Parts}
    → complete_parts env.delete_part upload_id (numbers tags) w.parts ≡ (ok sums, after)
    → (sums.cumulative_size ≡ tagged_total (λ (p : UploadPart). p.raw_size) tags upload_id w)
      × (sums.disk_size ≡ tagged_total (λ (p : UploadPart). p.size) tags upload_id w)
totals env tags upload_id w {sums} {after} h =
    subst
      (λ l.
        (sums.cumulative_size
          ≡ listed_total (λ (p : UploadPart). p.raw_size) l (parts_of w.parts upload_id) % u64_mod)
        × (sums.disk_size
            ≡ listed_total (λ (p : UploadPart). p.size) l (parts_of w.parts upload_id) % u64_mod))
      (numbers-map tags)
      (complete_parts-totals env.delete_part upload_id (numbers tags) w.parts {sums = sums}
        {after = after} h)

-- What is claimed of the end of an upload.
abbrev pub Finished :
    Env → Object → ObjectLocation → List (ℤ × Text) → Text → World → World → Text → Type 0
Finished env o old tags upload_id w w' tag =
    (sums : Sums) × (complete_parts env.delete_part upload_id (numbers tags) w.parts
      ≡ (ok sums, w'.parts))
    × (sums.cumulative_size ≡ tagged_total (λ (p : UploadPart). p.raw_size) tags upload_id w)
    × (sums.disk_size ≡ tagged_total (λ (p : UploadPart). p.size) tags upload_id w)
    × (env.finish_multipart_upload old tags upload_id ≡ ok tt)
    × Located w' o.id (summed old sums)
    × (w'.finalizing ≡ w.finalizing ++ (o.id, summed old sums) ∷ [])
    × (tag ≡ env.client.to_string o.id)

finish_upload-Finished :
    (env : Env) (token : Option Text) (objects_state : ObjectsState) (o : Object)
    (old : ObjectLocation) (tags : List (ℤ × Text)) (upload_id : Text) (w : World) {tag : Text}
    {w' : World}
    → finish_upload env token objects_state o old tags upload_id w ≡ some (ok tag, w')
    → Finished env o old tags upload_id w w' tag
unfolding finish_upload
finish_upload-Finished env token objects_state o old tags upload_id w {tag} {w'} h =
    after_part (count env upload_id tags) _ w h λ sums w1 counted k1.
      after_fallible_value (env.finish_multipart_upload old tags upload_id)
        (internal "Unable to finish upload") _ w1 k1
        λ _ done k2.
          after_fallible (on_cache_total (update_location env.locations o.id (summed old sums)))
            (internal "Unable to update location") _ w1 k2
            λ _ w2 updated k3.
              after_part (told env token o.id (as_i64 sums.cumulative_size)) _ w2 k3 λ _ w3 said k4.
                after_value (try_slice objects_state) _ w3 k4 λ levels _ k5.
                  let (summation, f1) = count-ends env upload_id tags w counted in
                  let (p2, f2, located) = updated-Located env o.id (summed old sums) w1 updated in
                  let (p3, f3, keeps) =
                    told-Keeps env token o.id (as_i64 sums.cumulative_size) w2 said in
                  let later : World = record w3 {
                    finalizing = w3.finalizing ++ (o.id, summed old sums) ∷ [];
                  } in
                  let (is, same) = lift-value (env.client.to_string o.id) later k5 in
                  let parts : w1.parts ≡ w'.parts =
                    sym p2 ∙ (sym p3 ∙ ap (λ (x : World). x.parts) same) in
                  let (entry, there) = keeps o.id (summed old sums) located in
                  let (raw, disk) =
                    totals env tags upload_id w {sums = sums} {after = w1.parts} summation in
                  (
                    sums,
                    summation ∙ ap (λ p. (ok sums, p)) parts,
                    raw,
                    disk,
                    done,
                    (entry, ap (λ (x : World). get x.cache.resources o.id) (sym same) ∙ there),
                    sym (ap (λ (x : World). x.finalizing) same)
                        ∙ ap (λ l. l ++ (o.id, summed old sums) ∷ []) (f3 ∙ (f2 ∙ f1)),
                    is,
                  )

-- When complete_multipart_upload ends without error for a list of parts: the path's object has a
-- location with the number of an upload; every part has a number and a tag, which in the order of
-- the list the backend finished the upload with; the location in the cache is the old one with new
-- lengths: on the disk and raw, the sums, on 64 bits, of the sizes on the disk and of the raw
-- sizes of the parts of this upload in the cache whose numbers are among those given; the location
-- is queued to be finalized, and nothing else; and the answer is the object's identifier.
pub complete_multipart_upload-Finished :
    (env : Env) (access : CheckAccessResult) (given : List CompletedPart) (w : World) (tag : Text)
    (w' : World)
    → complete_multipart_upload env (some access) (some (some given)) w ≡ some (ok tag, w')
    → (o : Object) × (old : ObjectLocation) × (tags : List (ℤ × Text)) × (upload_id : Text)
      × (extract_object access.objects_state ≡ ok (o, some old))
      × (old.upload_id ≡ some upload_id)
      × Named given tags
      × Finished env o old tags upload_id w w' tag
unfolding complete_multipart_upload
complete_multipart_upload-Finished env access given w tag w' h =
    let token = impersonating_token env.client.to_string env.sign access.user_state in
    after_value (extract_object access.objects_state) _ w h λ found e k.
      after_value (ok_or found.1 (internal "Unable to extract object location")) _ w k λ old has k1.
        after_value (etag_parts given) _ w k1 λ tags read k2.
          after_value (ok_or old.upload_id (s3_error invalid_part "Upload id must be specified")) _
            w k2
            λ upload_id named k3. (
              found.0,
              old,
              tags,
              upload_id,
              e ∙ ap (λ (x : Option ObjectLocation). ok (found.0, x)) (ok_or-eq-ok found.1 _ has),
              ok_or-eq-ok old.upload_id _ named,
              etag_parts-Named given read,
              finish_upload-Finished env token access.objects_state found.0 old tags upload_id w k3,
            )
