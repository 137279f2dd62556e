-- ===== src/Cache/Graph/Walks.antt =====
-- caching/cache.rs: the walk of `get_prefixes` goes through the levels above a resource, one after the
-- other.
use data_proxy.Base.{
  ℕ, zero, suc, ◌+◌, ◌<◌, ◌≤◌, Bool, List, [], ◌∷◌, ◌++◌, map, append_assoc, append-nil, Option,
  none, some, Text, length, All, All-append, ◌≡◌, refl, sym, ◌∙◌, ap, ap₂, Option-cases, inl, inr,
  arith,
}
use data_proxy.Structs.Object.{TypedId, id_of}
use data_proxy.Cache.Graph.{
  Resources, get_parents, Visited, unvisited, finish, next_above, prefix_rounds, get_prefixes,
}
use data_proxy.Cache.Graph.Hierarchy.{
  Above, rank_of, rank_of_small, Hierarchical, get_parents-Above,
}

abbrev Entry : Type 0
Entry = TypedId × Visited

module _ (resources : Resources) (with_intermediates : Bool) where
  abbrev above_one : Option (List (Text × TypedId)) → Visited → List Entry
  above_one none visited = []
  above_one (some parents) visited = map (next_above visited) parents

  abbrev ends_one : Option (List (Text × TypedId)) → Visited → List (TypedId × Text)
  ends_one none visited = finish with_intermediates visited
  ends_one (some parents) visited = []

  -- The next level: the parents of all entries, with the names passed on the way.
  abbrev pub above : List Entry → List Entry
  above [] = []
  above ((id, visited) ∷ l) = above_one (get_parents resources (id_of id)) visited ++ above l

  -- The prefixes of the entries that have no parents.
  abbrev pub ends : List Entry → List (TypedId × Text)
  ends [] = []
  ends ((id, visited) ∷ l) = ends_one (get_parents resources (id_of id)) visited ++ ends l

  abbrev rounds : ℕ → List Entry → List (TypedId × Text) → Option (List (TypedId × Text))
  rounds fuel l result = prefix_rounds resources with_intermediates fuel l result

  turn :
      (id : TypedId) (visited : Visited) (l : List Entry) (result : List (TypedId × Text))
      (fuel : ℕ)
      → rounds (suc fuel) ((id, visited) ∷ l) result
        ≡ rounds fuel
            (l ++ above_one (get_parents resources (id_of id)) visited)
            (result ++ ends_one (get_parents resources (id_of id)) visited)
  unfolding prefix_rounds
  turn id visited l result fuel = elim (Option-cases (get_parents resources (id_of id))) [
    | inl e ↦
        rw (prefix_rounds, e)
          (ap (λ k. rounds fuel k (result ++ finish with_intermediates visited))
            (sym (append-nil l)))
    | inr (parents, e) ↦
        rw (prefix_rounds, e)
          (ap (rounds fuel (l ++ map (next_above visited) parents)) (sym (append-nil result)))
  ]

  -- The entries of a level are taken in as many rounds, and their parents come to the end.
  sweep :
      (l more : List Entry) (result : List (TypedId × Text)) (fuel : ℕ)
      → rounds (length l + fuel) (l ++ more) result
        ≡ rounds fuel (more ++ above l) (result ++ ends l)
  sweep [] more result fuel =
      ap (λ n. rounds n more result) (omega arith)
      ∙ ap₂ (rounds fuel) (sym (append-nil more)) (sym (append-nil result))
  sweep ((id, visited) ∷ l) more result fuel =
      let a = above_one (get_parents resources (id_of id)) visited in
      let r = ends_one (get_parents resources (id_of id)) visited in
      ap (λ n. rounds n ((id, visited) ∷ (l ++ more)) result) (omega arith)
      ∙ (turn id visited (l ++ more) result (length l + fuel)
          ∙ (ap (λ k. rounds (length l + fuel) k (result ++ r)) (append_assoc l more a)
              ∙ (sweep l (more ++ a) (result ++ r) fuel
                  ∙ ap₂ (rounds fuel) (append_assoc more a (above l))
                      (append_assoc result r (ends l)))))

  -- Entries whose resources stand less than `n` levels below the highest type.
  abbrev Within : ℕ → List Entry → Type 0
  Within n l = All (λ (e : Entry). rank_of resources (id_of e.0) < n) l

  parents-Within :
      (n m : ℕ) (visited : Visited) (parents : List (Text × TypedId))
      → m ≤ n
      → All (Above resources m) parents
      → Within n (map (next_above visited) parents)
  parents-Within n m visited [] h a = tt
  parents-Within n m visited ((name, id) ∷ parents) h ((stored, low), a) =
      (omega (arith, low, h), parents-Within n m visited parents h a)

  above_one-Within :
      (n : ℕ) (id : TypedId) (visited : Visited)
      → Hierarchical resources
      → rank_of resources (id_of id) < suc n
      → Within n (above_one (get_parents resources (id_of id)) visited)
  above_one-Within n id visited w low = begin (get_parents resources (id_of id)) refl
    where
      begin :
          (parents : Option (List (Text × TypedId)))
          → get_parents resources (id_of id) ≡ parents
          → Within n (above_one parents visited)
      begin none e = tt
      begin (some parents) e =
          parents-Within n (rank_of resources (id_of id)) visited parents (omega (arith, low))
            (get_parents-Above resources (id_of id) parents w e)

  above-Within :
      (n : ℕ) (l : List Entry) → Hierarchical resources → Within (suc n) l → Within n (above l)
  above-Within n [] w a = tt
  above-Within n ((id, visited) ∷ l) w (low, a) =
      All-append (λ (e : Entry). rank_of resources (id_of e.0) < n)
        (above_one (get_parents resources (id_of id)) visited) (above l)
        (above_one-Within n id visited w low) (above-Within n l w a)

  -- The results of the levels in their order, `n` levels at most.
  abbrev pub by_levels : ℕ → List Entry → List (TypedId × Text)
  by_levels zero l = []
  by_levels (suc n) l = ends l ++ by_levels n (above l)

  abbrev pub size : ℕ → List Entry → ℕ
  size zero l = 0
  size (suc n) l = length l + size n (above l)

  walk_lem :
      (n : ℕ) (l : List Entry) (result : List (TypedId × Text)) (more : ℕ)
      → Hierarchical resources
      → Within n l
      → rounds (size n l + more) l result ≡ some (result ++ by_levels n l)
  unfolding prefix_rounds
  walk_lem zero [] result more w a = ap some (sym (append-nil result))
  walk_lem zero (e ∷ l) result more w (low, a) = absurd (omega (arith, low))
  walk_lem (suc n) l result more w a =
      ap₂ (λ k x. rounds k x result) (omega arith) (sym (append-nil l))
      ∙ (sweep l [] result (size n (above l) + more)
          ∙ (walk_lem n (above l) (result ++ ends l) more w (above-Within n l w a)
              ∙ ap some (append_assoc result (ends l) (by_levels n (above l)))))

  -- The walk of a resource, as a walk by levels.
  pub get_prefixes-walk :
      (id : TypedId) (more : ℕ)
      → Hierarchical resources
      → get_prefixes resources with_intermediates (size 4 ((id, unvisited) ∷ []) + more) id
        ≡ some (by_levels 4 ((id, unvisited) ∷ []))
  unfolding get_prefixes
  get_prefixes-walk id more w =
      walk_lem 4 ((id, unvisited) ∷ []) [] more w
        (omega (arith, rank_of_small resources (id_of id)), tt)
