-- ===== src/Sync/Loaded.antt =====
-- caching/cache.rs: the resources of a database are entered without error.
use data_proxy.Base.{
  ◌<◌, ◌≤◌, List, [], ◌∷◌, Option, none, some, Text, eq_nat, nat_eq, All, Result, ok, ◌≡◌, ◌⊎◌, inl,
  inr, refl, sym, ◌∙◌, ap, subst, arith, Bool-cases,
}
use data_proxy.Base.Map.{Map, get, insert, get-insert, get-insert_same}
use data_proxy.Base.Sorting.{Ascends, In, All-In, In-sort_by, All-sort_by}
use data_proxy.Structs.Format.{DieselUlid}
use data_proxy.Structs.Object.{Object, TypedRelation, relation_id}
use data_proxy.Cache.Graph.Hierarchy.{relations_of}
use data_proxy.Sync.{sort_objects, compare_types, not_greater}
use data_proxy.Sync.Sorted.{rank_of_object, sort_objects-Ascends}
use data_proxy.Sync.Load.{
  Loading, paths_below, enter_below, enter_parents, enter_root, enter_object, enter_objects,
  load_objects,
}

abbrev Known : Loading → DieselUlid → Type 0
Known s id = (v : List Text) × (get s.prefixes id ≡ some v)

-- The parent is among the objects, with a higher type.
abbrev pub Listed : List Object → Object → TypedRelation → Type 0
Listed l o r =
    (p : Object) × In p l × (p.id ≡ relation_id r) × (rank_of_object p < rank_of_object o)

insert-Known :
    (m : Map DieselUlid (List Text)) (k id : DieselUlid) (v : List Text)
    → ((w : List Text) × (get m id ≡ some w))
    → (w : List Text) × (get (insert m k v) id ≡ some w)
insert-Known m k id v (w, h) = elim (Bool-cases (nat_eq k id)) [
  | inl e ↦ (v, get-insert m k id v ∙ rw e refl)
  | inr e ↦ (w, get-insert m k id v ∙ rw e h)
]

-- What entering an object gives: no error, the known ones stay known, and the object is known.
abbrev Entered : Loading → DieselUlid → Result (Unit {0}) × Loading → Type 0
Entered s id outcome =
    (outcome.0 ≡ ok tt) × ((i : DieselUlid) → Known s i → Known outcome.1 i) × Known outcome.1 id

All-map : {A : Type 0} (P Q : A → Type 0) (l : List A) → ((x : A) → P x → Q x) → All P l → All Q l
All-map P Q [] f a = tt
All-map P Q (x ∷ l) f (p, a) = (f x p, All-map P Q l f a)

enter_parents-Entered :
    (o : Object) (parents : List TypedRelation) (s : Loading)
    → All (λ (r : TypedRelation). Known s (relation_id r)) parents
    → Known s o.id
    → Entered s o.id (enter_parents o parents s)
unfolding enter_parents enter_below
enter_parents-Entered o [] s a k = (refl, λ i known. known, k)
enter_parents-Entered o (r ∷ parents) s ((above, h), a) k =
    let next = enter_below o above s in
    let kept = λ (i : DieselUlid) (known : Known s i).
      insert-Known s.prefixes o.id i (paths_below o.name above) known in
    let (fine, stay, last) =
      enter_parents-Entered o parents next
        (All-map (λ (r : TypedRelation). Known s (relation_id r))
          (λ (r : TypedRelation). Known next (relation_id r)) parents (λ x. kept (relation_id x)) a)
        (kept o.id k) in
    rw (enter_parents, h) (fine, λ i known. stay i (kept i known), last)

below-Entered :
    (o : Object) (r : TypedRelation) (parents : List TypedRelation) (s : Loading)
    → All (λ (x : TypedRelation). Known s (relation_id x)) (r ∷ parents)
    → Entered s o.id (enter_parents o (r ∷ parents) s)
unfolding enter_parents enter_below
below-Entered o r parents s ((above, h), a) =
    let next = enter_below o above s in
    let kept = λ (i : DieselUlid) (known : Known s i).
      insert-Known s.prefixes o.id i (paths_below o.name above) known in
    let (fine, stay, last) =
      enter_parents-Entered o parents next
        (All-map (λ (x : TypedRelation). Known s (relation_id x))
          (λ (x : TypedRelation). Known next (relation_id x)) parents (λ x. kept (relation_id x)) a)
        (paths_below o.name above, get-insert_same s.prefixes o.id (paths_below o.name above)) in
    rw (enter_parents, h) (fine, λ i known. stay i (kept i known), last)

enter_object-Entered :
    (o : Object) (parents : Option (List TypedRelation)) (s : Loading)
    → All (λ (x : TypedRelation). Known s (relation_id x)) (relations_of parents)
    → Entered s o.id (enter_object o parents s)
unfolding enter_object enter_root
enter_object-Entered o none s a = (
  refl,
  λ i known. insert-Known s.prefixes o.id i (o.name ∷ []) known,
  (o.name ∷ [], get-insert_same s.prefixes o.id (o.name ∷ [])),
)
enter_object-Entered o (some []) s a = (
  refl,
  λ i known. insert-Known s.prefixes o.id i (o.name ∷ []) known,
  (o.name ∷ [], get-insert_same s.prefixes o.id (o.name ∷ [])),
)
enter_object-Entered o (some (r ∷ parents)) s a = below-Entered o r parents s a

-- A parent that was entered before, or that is still among the objects to enter.
abbrev Ready : Loading → List Object → Object → Type 0
Ready s l o =
    All (λ (r : TypedRelation). Known s (relation_id r) ⊎ Listed l o r) (relations_of o.parents)

-- Of objects in order, the first has no parent among them.
first-Known :
    (s : Loading) (o : Object) (l : List Object) (parents : List TypedRelation)
    → All (λ (p : Object). rank_of_object o ≤ rank_of_object p) l
    → All (λ (r : TypedRelation). Known s (relation_id r) ⊎ Listed (o ∷ l) o r) parents
    → All (λ (r : TypedRelation). Known s (relation_id r)) parents
first-Known s o l [] least a = tt
first-Known s o l (r ∷ parents) least (inl known, a) = (known, first-Known s o l parents least a)
first-Known s o l (r ∷ parents) least (inr (p, inl same, named, low), a) =
    absurd (omega (arith, subst (λ q. rank_of_object q < rank_of_object o) same low))
first-Known s o l (r ∷ parents) least (inr (p, inr i, named, low), a) =
    absurd
      (omega (arith, low, All-In (λ (q : Object). rank_of_object o ≤ rank_of_object q) p l least i))

ready_later :
    (s t : Loading) (o x : Object) (l : List Object) (parents : List TypedRelation)
    → ((i : DieselUlid) → Known s i → Known t i)
    → Known t o.id
    → All (λ (r : TypedRelation). Known s (relation_id r) ⊎ Listed (o ∷ l) x r) parents
    → All (λ (r : TypedRelation). Known t (relation_id r) ⊎ Listed l x r) parents
ready_later s t o x l [] stay last a = tt
ready_later s t o x l (r ∷ parents) stay last (inl known, a) =
    (inl (stay (relation_id r) known), ready_later s t o x l parents stay last a)
ready_later s t o x l (r ∷ parents) stay last (inr (p, inl same, named, low), a) = (
  inl (subst (Known t) (ap (λ (q : Object). q.id) (sym same) ∙ named) last),
  ready_later s t o x l parents stay last a,
)
ready_later s t o x l (r ∷ parents) stay last (inr (p, inr i, named, low), a) =
    (inr (p, i, named, low), ready_later s t o x l parents stay last a)

enter_objects-fine :
    (l : List Object) (s : Loading)
    → Ascends rank_of_object l
    → All (Ready s l) l
    → (enter_objects l s).0 ≡ ok tt
unfolding enter_objects
enter_objects-fine [] s up a = refl
enter_objects-fine (o ∷ l) s (least, up) (ready, a) =
    let (fine, stay, last) =
      enter_object-Entered o o.parents s (first-Known s o l (relations_of o.parents) least ready) in
    let t = (enter_object o o.parents s).1 in
    rw (enter_objects, fine)
      (enter_objects-fine l t up (
        All-map (Ready s (o ∷ l)) (Ready t l) l
          (λ x r. ready_later s t o x l (relations_of x.parents) stay last r) a))

-- If every parent of every resource of the database is among the resources and of a higher type,
-- entering them, sorted, ends without the error of a missing parent, in whatever order the
-- database gives them.
pub load_objects-fine :
    (objects : List Object) (s : Loading)
    → All (λ (o : Object). All (Listed objects o) (relations_of o.parents)) objects
    → (load_objects objects s).0 ≡ ok tt
unfolding load_objects sort_objects
load_objects-fine objects s a =
    let le = λ (x y : Object). not_greater (compare_types x.object_type y.object_type) in
    enter_objects-fine (sort_objects objects) s (sort_objects-Ascends objects 0).0 (
      All-map (λ (o : Object). All (Listed objects o) (relations_of o.parents))
        (Ready s (sort_objects objects)) (sort_objects objects)
        (λ o listed.
          All-map (Listed objects o)
            (λ (r : TypedRelation). Known s (relation_id r) ⊎ Listed (sort_objects objects) o r)
            (relations_of o.parents)
            (λ r (p, i, named, low). inr (p, In-sort_by le p objects i, named, low)) listed)
        (All-sort_by (λ (o : Object). All (Listed objects o) (relations_of o.parents)) le objects
          a))
