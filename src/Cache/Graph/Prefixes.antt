-- ===== src/Cache/Graph/Prefixes.antt =====
-- caching/cache.rs: the prefixes that `get_prefixes` gives, by the names of the resources passed.
use data_proxy.Base.{
  is_empty, All, ℕ, zero, suc, ◌+◌, Bool, List, [], ◌∷◌, ◌++◌, map, Option, none, some, Text, join,
  slash, if◌then◌else◌, length, ◌≡◌,
}
use data_proxy.Structs.Object.{TypedId, id_of}
use data_proxy.Cache.Graph.{Resources, get_parents, Visited, unvisited}

-- The names and identifiers of the resources passed above a resource, the highest first.
abbrev pub Passed : Type 0
Passed = List (Text × TypedId)

-- The names, without those at the front that are empty.
abbrev pub names : Passed → List Text
names [] = []
names (([], id) ∷ passed) = names passed
names ((c ∷ name, id) ∷ passed) = (c ∷ name) ∷ map (λ (p : Text × TypedId). p.0) passed

-- A path: the names from the highest on, with slashes between them.
abbrev pub path_of : Passed → Text
path_of passed = join slash (names passed)

-- The prefixes at the end of a way: the path to the nearest resource passed and, with intermediates,
-- before it the paths to those above.
abbrev pub prefixes_of : Bool → Passed → Passed → List (TypedId × Text)
prefixes_of with_intermediates higher [] = []
prefixes_of with_intermediates higher (p ∷ []) = (p.1, path_of (higher ++ p ∷ [])) ∷ []
prefixes_of with_intermediates higher (p ∷ q ∷ rest) =
    (if with_intermediates then (p.1, path_of (higher ++ p ∷ [])) ∷ [] else [])
    ++ prefixes_of with_intermediates (higher ++ p ∷ []) (q ∷ rest)

-- The three places of a walk that has passed at most three resources.
abbrev slots : Passed → Visited
slots [] = unvisited
slots (a ∷ []) = record { first = none; second = none; third = some a }
slots (b ∷ a ∷ []) = record { first = none; second = some b; third = some a }
slots (c ∷ b ∷ a ∷ rest) = record { first = some c; second = some b; third = some a }

-- A path with one more name.
abbrev longer : Text → Text → Text
longer path name = (if is_empty path then [] else path ++ slash ∷ []) ++ name

module _ (resources : Resources) (with_intermediates : Bool) where
  abbrev Way : Type 0
  Way = TypedId × Passed

  abbrev go_on : Option (List (Text × TypedId)) → Passed → List Way
  go_on none passed = []
  go_on (some parents) passed = map (λ (p : Text × TypedId). (p.1, p ∷ passed)) parents

  abbrev stop : Option (List (Text × TypedId)) → Passed → List (TypedId × Text)
  stop none passed = prefixes_of with_intermediates [] passed
  stop (some parents) passed = []

  -- The next level: each way goes on to every parent of its resource.
  abbrev pub higher : List Way → List Way
  higher [] = []
  higher ((id, passed) ∷ l) = go_on (get_parents resources (id_of id)) passed ++ higher l

  -- The prefixes of the ways that end at a resource without parents.
  abbrev pub ended : List Way → List (TypedId × Text)
  ended [] = []
  ended ((id, passed) ∷ l) = stop (get_parents resources (id_of id)) passed ++ ended l

  -- The prefixes of `n` levels, one level after the other, and how many ways there are on them.
  abbrev pub levels : ℕ → List Way → List (TypedId × Text)
  levels zero l = []
  levels (suc n) l = ended l ++ levels n (higher l)

  abbrev pub ways : ℕ → List Way → ℕ
  ways zero l = 0
  ways (suc n) l = length l + ways n (higher l)

  abbrev rep : Way → TypedId × Visited
  rep (id, passed) = (id, slots passed)

  -- All ways have passed as many resources.
  abbrev Even : ℕ → List Way → Type 0
  Even m l = All (λ (w : Way). length w.1 ≡ m) l
