-- ===== src/Location.antt =====
-- data_backends/location_handler.rs: the names of bucket and key that a compiled scheme gives an object.
-- The parameters are the printing of identifiers, the proxy's own identifier, and the random texts, by
-- the place of the argument and the length.
pub mod Names
use data_proxy.Base.{
  ℕ, suc, ◌+◌, Bool, true, false, ◌&&◌, ◌||◌, List, [], ◌∷◌, ◌++◌, map, Option, none, some, Text,
  leb, eq_text, ◌==◌, if◌then◌else◌, is_empty, ends_with, slash,
}
use data_proxy.Structs.Format.{DieselUlid}
use data_proxy.Structs.States.{Tags}

pub data Arguments : Type 0 where
  project project_id collection collection_id dataset dataset_id object object_id : Arguments
  endpoint_id : Arguments
  random : ℕ → Arguments
  slash_arg : Arguments
  text : Text → Arguments

pub data SchemaVariant : Type 0 where
  s3 filesystem : SchemaVariant

pub record CompiledVariant : Type 0 where
  pub bucket_arguments : List Arguments
  pub key_arguments : List Arguments
  pub schema : SchemaVariant

-- `to_ascii_lowercase`
unfoldable pub to_ascii_lowercase : Text → Text
to_ascii_lowercase [] = []
to_ascii_lowercase (c ∷ s) = (if leb b'A' c && leb c b'Z' then c + 32 else c) ∷ to_ascii_lowercase s

abbrev pub name_of : Option (DieselUlid × Text) → Option Text
name_of none = none
name_of (some (id, name)) = some name

-- One text of the loop for the bucket: a slash is written twice.
unfoldable pub push_bucket : Text → Text → Text
push_bucket bucket part =
    if part == slash ∷ []
    then (if is_empty bucket || ends_with slash bucket
        then bucket
        else (bucket ++ slash ∷ []) ++ part)
    else bucket ++ part

-- One text of the loop for the key: a slash after a slash is left out.
unfoldable pub push_key : Text → Text → Text
push_key key part =
    if part == slash ∷ []
    then (if ends_with slash key then key else key ++ slash ∷ [])
    else key ++ part

module _ (to_string : DieselUlid → Text) (proxy_id : DieselUlid) (draw : ℕ → ℕ → Text) where
  unfoldable pub lower_id : Option (DieselUlid × Text) → Option Text
  unfolding to_ascii_lowercase
  lower_id none = none
  lower_id (some (id, name)) = some (to_ascii_lowercase (to_string id))

  -- `Arguments::with_hierarchy`, for the argument at the given place.
  unfoldable pub with_hierarchy : ℕ → Arguments → Tags → Option Text
  unfolding lower_id
  with_hierarchy place project hierarchy = name_of hierarchy.project
  with_hierarchy place project_id hierarchy = lower_id hierarchy.project
  with_hierarchy place collection hierarchy = name_of hierarchy.collection
  with_hierarchy place collection_id hierarchy = lower_id hierarchy.collection
  with_hierarchy place dataset hierarchy = name_of hierarchy.dataset
  with_hierarchy place dataset_id hierarchy = lower_id hierarchy.collection
  with_hierarchy place object hierarchy = name_of hierarchy.object
  with_hierarchy place object_id hierarchy = lower_id hierarchy.object
  with_hierarchy place endpoint_id hierarchy = some (to_ascii_lowercase (to_string proxy_id))
  with_hierarchy place (random x) hierarchy = some (to_ascii_lowercase (draw place x))
  with_hierarchy place slash_arg hierarchy = some (slash ∷ [])
  with_hierarchy place (text x) hierarchy = some x

  unfoldable pub push_all : (Text → Text → Text) → Tags → ℕ → Text → List Arguments → Text
  unfolding with_hierarchy
  push_all push hierarchy place written [] = written
  push_all push hierarchy place written (a ∷ rest) = elim (with_hierarchy place a hierarchy) [
    | none ↦ push_all push hierarchy (suc place) written rest
    | some part ↦ push_all push hierarchy (suc place) (push written part) rest
  ]

  -- `CompiledVariant::into_names`
  unfoldable pub into_names : CompiledVariant → Tags → Text × Text
  unfolding push_all push_bucket push_key
  into_names scheme hierarchy = (
    push_all push_bucket hierarchy 0 [] scheme.bucket_arguments,
    push_all push_key hierarchy 0 [] scheme.key_arguments,
  )

-- The loop of `compile_s3` and `compile_filesystem` over the parsed arguments: bucket, key, and whether
-- no slash was found.
unfoldable pub split_arguments : List Arguments → List Arguments × List Arguments × Bool
split_arguments [] = ([], [], true)
split_arguments (slash_arg ∷ rest) = ([], rest, false)
split_arguments (a ∷ rest) =
    let (bucket, key, fill_bucket) = split_arguments rest in (a ∷ bucket, key, fill_bucket)

-- The end of both functions; an error of the parser is `none`.
unfoldable pub compiled : List Arguments → Option CompiledVariant
unfolding split_arguments
compiled args =
    let (bucket, key, fill_bucket) = split_arguments args in
    if fill_bucket
    then none
    else some (record { bucket_arguments = bucket; key_arguments = key; schema = s3 })
