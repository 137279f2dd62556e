-- ===== src/Tests/Location.antt =====
-- The theorems of Location at concrete inputs.
use data_proxy.Base.{
  ℕ, ◌≡◌, inr, ap, Option, none, some, [], ◌∷◌, List, Text, codes, slash, Lacks, arith,
}
use mathlib.Core.Path.{subst}
use data_proxy.Structs.Format.{DieselUlid}
use data_proxy.Structs.States.{Tags}
use data_proxy.Location.{
  Arguments, project, collection, object, slash_arg, random, CompiledVariant, s3, with_hierarchy,
  to_ascii_lowercase, into_names,
}
use data_proxy.Location.Names.{squeeze, written_from, NoDouble, PlainFrom, into_names-NoDouble}

-- The scheme s3://{{PROJECT_NAME}}/{{COLLECTION_NAME}}/{{RANDOM:2}}{{OBJECT_NAME}}
abbrev parsed : List Arguments
parsed = project ∷ slash_arg ∷ collection ∷ slash_arg ∷ random 2 ∷ object ∷ []

abbrev scheme : CompiledVariant
scheme = record {
  bucket_arguments = project ∷ [];
  key_arguments = collection ∷ slash_arg ∷ random 2 ∷ object ∷ [];
  schema = s3;
}

abbrev no_collection : Tags
no_collection = record {
  project = some (1, codes "p");
  collection = none;
  dataset = none;
  object = some (4, codes "o");
}

abbrev write_id : DieselUlid → Text
write_id id = id ∷ []

abbrev draw : ℕ → ℕ → Text
draw place x = codes "zz"

Lacks-some : (s part : Text) → Lacks slash s → some s ≡ some part → Lacks slash part
Lacks-some s part l h =
    subst (Lacks slash) (ap (λ (o : Option Text). elim o [ none ↦ s | some x ↦ x ]) h) l

all_plain : PlainFrom write_id 5 draw no_collection 0 scheme.key_arguments
unfolding with_hierarchy to_ascii_lowercase
all_plain = (
  (λ part h. ground arith),
  (
    (λ part h. ground arith),
    (
      (λ part h. inr (Lacks-some (codes "zz") part (ground arith, (ground arith, tt)) h)),
      ((λ part h. inr (Lacks-some (codes "o") part (ground arith, tt) h)), tt),
    ),
  ),
)

into_names-NoDouble_example :
    let key = (into_names write_id 5 draw scheme no_collection).1 in
    (key ≡ squeeze (written_from write_id 5 draw no_collection 0 scheme.key_arguments))
    × NoDouble key
into_names-NoDouble_example = into_names-NoDouble write_id 5 draw no_collection scheme all_plain
