-- ===== src/Replication/Accounting.antt =====
-- replication/replication_handler.rs: what the comparison of announced and counted chunks accepts.
use data_proxy.Base.{
  ℕ, suc, refl, sym, ap, ◌∙◌, ◌↔◌, ◌≢◌, nat_eq, Bool-cases, Bool, true, false, List, [], ◌∷◌, subst,
  some, ◌≡◌, ◌⊎◌, inl, inr, arith, eq_text, eq_nat, nat_eq_iff, ok, >>=-eq-ok,
}
use data_proxy.Base.Int.{ℤ, as_u64}
use data_proxy.Base.Map.{Map, get, insert, get-insert}
use data_proxy.Structs.Format.{DieselUlid}
use data_proxy.Replication.Queue.{Direction, pull, eq_direction}
use data_proxy.Replication.{RcvSync, info, chunk, eq_sync, collected, compare_info, compare_infos}

-- How many chunks of an object there are in the list.
abbrev pub Counted : DieselUlid → List RcvSync → ℕ → Type 0
Counted id [] n = n ≡ 0
Counted id (info i chunks ∷ l) n = Counted id l n
Counted id (chunk i idx ∷ l) n =
    ((i ≡ id) × ((m : ℕ) × (n ≡ suc m) × Counted id l m)) ⊎ ((i ≢ id) × Counted id l n)

Counted-iff : (id : DieselUlid) (l : List RcvSync) (n : ℕ) → Counted id l n ↔ (n ≡ collected id l)
unfolding collected
Counted-iff id [] n = ((λ h. h), λ h. h)
Counted-iff id (info i chunks ∷ l) n = Counted-iff id l n
Counted-iff id (chunk i idx ∷ l) n = elim (Bool-cases (nat_eq id i)) [
  | inl e ↦
      let same : id ≡ i = (nat_eq_iff id i).0 e in
      (
        (λ c. elim c [
          | inl (_, (m, is, k)) ↦ rw e (is ∙ ap suc ((Counted-iff id l m).0 k) ∙ omega arith)
          | inr (apart, k) ↦ absurd (apart (sym same))
        ]),
        λ h. inl (
          sym same,
          (collected id l, ground (arith, h, e), (Counted-iff id l (collected id l)).1 refl),
        ),
      )
  | inr e ↦ (
    (λ c. elim c [
      | inl (same, (m, is, k)) ↦ absurd (ground (arith, same, e, nat_eq_iff id i))
      | inr (apart, k) ↦ rw e ((Counted-iff id l n).0 k)
    ]),
    λ h. inr (
      (λ same. ground (arith, same, e, nat_eq_iff id i)),
      (Counted-iff id l n).1 (ground (arith, h, e)),
    ),
  )
]

-- Whether an object was marked as found in the backend before.
abbrev pub Already : Map Direction Bool → DieselUlid → Type 0
Already marks id = get marks (pull id) ≡ some true

-- Each announced object has as many counted chunks as announced, or was marked before.
abbrev pub Accounted : List RcvSync → Map Direction Bool → List RcvSync → Type 0
Accounted finished marks [] = Unit
Accounted finished marks (info id chunks ∷ rest) =
    (Counted id finished (as_u64 chunks) ⊎ Already marks id) × Accounted finished marks rest
Accounted finished marks (chunk id idx ∷ rest) = Accounted finished marks rest

Already-insert :
    (marks : Map Direction Bool) (i id : DieselUlid)
    → Already (insert marks (pull i) false) id
    → Already marks id
Already-insert marks i id a =
    ground (arith, get-insert marks (pull i) (pull id) false, a, nat_eq_iff i id)

Accounted-insert :
    (finished : List RcvSync) (marks : Map Direction Bool) (i : DieselUlid) (l : List RcvSync)
    → Accounted finished (insert marks (pull i) false) l
    → Accounted finished marks l
Accounted-insert finished marks i [] a = tt
Accounted-insert finished marks i (info id chunks ∷ l) (inl e, a) =
    (inl e, Accounted-insert finished marks i l a)
Accounted-insert finished marks i (info id chunks ∷ l) (inr e, a) =
    (inr (Already-insert marks i id e), Accounted-insert finished marks i l a)
Accounted-insert finished marks i (chunk id idx ∷ l) a = Accounted-insert finished marks i l a

compare_info-cases :
    (finished : List RcvSync) (id : DieselUlid) (chunks : ℤ) (marks next : Map Direction Bool)
    → compare_info finished id chunks marks ≡ ok next
    → ((as_u64 chunks ≡ collected id finished) × (next ≡ insert marks (pull id) false))
      ⊎ (Already marks id × (next ≡ marks))
unfolding compare_info
compare_info-cases finished id chunks marks next h =
    ground (arith, nat_eq_iff (as_u64 chunks) (collected id finished))

-- Each announced object has as many chunks in the list as announced.
abbrev pub Complete : List RcvSync → List RcvSync → Type 0
Complete finished [] = Unit
Complete finished (info id chunks ∷ rest) =
    Counted id finished (as_u64 chunks) × Complete finished rest
Complete finished (chunk id idx ∷ rest) = Complete finished rest

Complete-compare_infos :
    (finished announced : List RcvSync) (marks : Map Direction Bool)
    → Complete finished announced
    → (after : Map Direction Bool) × (compare_infos finished announced marks ≡ ok after)
unfolding compare_infos compare_info
Complete-compare_infos finished [] marks c = (marks, refl)
Complete-compare_infos finished (info id chunks ∷ l) marks (c, rest) =
    let same =
      (nat_eq_iff (as_u64 chunks) (collected id finished)).1
        ((Counted-iff id finished (as_u64 chunks)).0 c) in
    let (after, e) = Complete-compare_infos finished l (insert marks (pull id) false) rest in
    (after, rw same e)
Complete-compare_infos finished (chunk id idx ∷ l) marks c =
    Complete-compare_infos finished l marks c

Accounted-compare_infos :
    (finished announced : List RcvSync) (marks after : Map Direction Bool)
    → compare_infos finished announced marks ≡ ok after
    → Accounted finished marks announced
unfolding compare_infos
Accounted-compare_infos finished [] marks after h = tt
Accounted-compare_infos finished (info id chunks ∷ l) marks after h =
    let (next, now, later) =
      >>=-eq-ok (compare_info finished id chunks marks) (compare_infos finished l) h in
    elim (compare_info-cases finished id chunks marks next now) [
      | inl (count, e) ↦ (
        inl ((Counted-iff id finished (as_u64 chunks)).1 count),
        Accounted-insert finished marks id l (
            subst (λ m. Accounted finished m l) e
              (Accounted-compare_infos finished l next after later)),
      )
      | inr (a, e) ↦ (
        inr a,
        subst (λ m. Accounted finished m l) e (Accounted-compare_infos finished l next after later),
      )
    ]
Accounted-compare_infos finished (chunk id idx ∷ l) marks after h =
    Accounted-compare_infos finished l marks after h

-- When the comparison ends without error, for each announced object the number of its chunks in
-- the list is the announced one, or the object was marked as found in the backend at its
-- beginning; and if the numbers agree for every announced object, the comparison ends without
-- error.
pub compare_infos-Accounted :
    (finished announced : List RcvSync) (marks : Map Direction Bool)
    → ((after : Map Direction Bool)
        → compare_infos finished announced marks ≡ ok after
        → Accounted finished marks announced)
      × (Complete finished announced
          → (after : Map Direction Bool) × (compare_infos finished announced marks ≡ ok after))
compare_infos-Accounted finished announced marks = (
  Accounted-compare_infos finished announced marks,
  Complete-compare_infos finished announced marks,
)
