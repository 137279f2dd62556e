-- ===== src/Replication/Intakes.antt =====
-- replication/replication_handler.rs: what the intake of chunks accepts, and how often it asks again.
use data_proxy.Base.{
  ℕ, suc, ◌+◌, ◌≤◌, true, List, [], ◌∷◌, ◌++◌, append_assoc, append-nil, subst, Text, ◌≡◌, ◌⊎◌, inl,
  inr, refl, sym, ap, ◌∙◌, arith, length, length-append, text_eq, eq_text, Bool-cases, Option-cases,
  Error, anyhow, Result, ok, err,
}
use data_proxy.Base.Int.{ℤ, pos, negsuc}
use data_proxy.Structs.Format.{DieselUlid}
use data_proxy.Replication.{
  RcvSync, info, chunk, DataChunk, Intake, new_intake, int_eq, retry, accept, take_in, take_all,
}

-- Messages of accepted chunks, each of a higher index than the one before, the first not below `n`.
abbrev pub Ascending : ℕ → List RcvSync → Type 0
Ascending n [] = Unit
Ascending n (chunk id (pos i) ∷ rest) = (n ≤ i) × Ascending (suc i) rest
Ascending n (chunk id (negsuc i) ∷ rest) = ⊥
Ascending n (info id chunks ∷ rest) = ⊥

Ascending-le : (n m : ℕ) (l : List RcvSync) → n ≤ m → Ascending m l → Ascending n l
Ascending-le n m [] h a = tt
Ascending-le n m (chunk id (pos i) ∷ rest) h a = (omega (arith, a.0), a.1)
Ascending-le n m (chunk id (negsuc i) ∷ rest) h a = a
Ascending-le n m (info id chunks ∷ rest) h a = a

-- What one turn does to the messages, the expected index and the count of retries.
abbrev Turn : Intake → Intake → Type 0
Turn s t =
    (((t.synced ≡ s.synced) × (s.expected ≤ t.expected))
      ⊎ ((id : DieselUlid) × (t.synced ≡ s.synced ++ chunk id (pos s.expected) ∷ [])
          × (t.expected ≡ s.expected + 1)))

abbrev Counted : Intake → Type 0
Counted s = (length s.retries ≡ s.retry_counter) × (s.retry_counter ≤ 6)

-- The messages that a run adds.
abbrev Added : Intake → Intake → Type 0
Added s t = (new : List RcvSync) × (t.synced ≡ s.synced ++ new) × Ascending s.expected new

Added-Turn : (s t : Intake) → Turn s t → Added s t
Added-Turn s t (inl (k, e)) = ([], k ∙ sym (append-nil s.synced), tt)
Added-Turn s t (inr (id, k, e)) = (chunk id (pos s.expected) ∷ [], k, (omega arith, tt))

Added-next : (s t u : Intake) → Turn s t → Added t u → Added s u
Added-next s t u (inl (k, e)) (new, added, up) =
    (new, added ∙ ap (λ x. x ++ new) k, Ascending-le s.expected t.expected new e up)
Added-next s t u (inr (id, k, e)) (new, added, up) = (
  chunk id (pos s.expected) ∷ new,
  added ∙ (ap (λ x. x ++ new) k ∙ append_assoc s.synced (chunk id (pos s.expected) ∷ []) new),
  (omega arith, Ascending-le (suc s.expected) t.expected new (omega (arith, e)) up),
)

int_eq-eq : (x y : ℤ) → int_eq x y ≡ true → x ≡ y
int_eq-eq x y h = ground arith

retry_keeps :
    (object_id : Text) (idx : ℤ) (e : Error) (s : Intake)
    → ((retry object_id idx e s).1.synced ≡ s.synced)
      × ((retry object_id idx e s).1.expected ≡ s.expected)
unfolding retry
retry_keeps object_id idx e s = ground arith

abbrev skipped : Error
skipped = anyhow "Exceeded retries for chunk because of skipped chunk"

abbrev differing : Error
differing = anyhow "Exceeded retries for chunk because of differing checksums"

module _ (md5 : Text → Text) (from_str : Text → Result DieselUlid) (max_chunks : ℤ) where
  accept-Turn :
      (c : DataChunk) (s : Intake)
      → c.chunk_idx ≡ pos s.expected
      → Turn s (accept md5 from_str max_chunks c (record s { expected = s.expected + 1 })).1
  unfolding accept
  accept-Turn c s idx = split (from_str c.object_id) refl
    where
      split :
          (r : Result DieselUlid)
          → from_str c.object_id ≡ r
          → Turn s (accept md5 from_str max_chunks c (record s { expected = s.expected + 1 })).1
      split (err e) h = rw (h, accept) (inl (refl, omega arith))
      split (ok id) h = rw (h, accept) (inr (id, rw idx refl, refl))

  take_in-Turn : (c : DataChunk) (s : Intake) → Turn s (take_in md5 from_str max_chunks c s).1
  unfolding take_in
  take_in-Turn c s = elim (Bool-cases (int_eq c.chunk_idx (pos s.expected))) [
    | inr apart ↦ rw apart (
        let (k, e) = retry_keeps c.object_id (pos s.expected) skipped s in
        inl (k, omega (arith, e)))
    | inl same ↦ elim (Bool-cases (text_eq (md5 c.bytes) c.checksum)) [
      | inl right ↦ rw (same, right) (accept-Turn c s (int_eq-eq c.chunk_idx (pos s.expected) same))
      | inr wrong ↦
          rw (same, wrong)
            (let (k, e) =
                retry_keeps c.object_id c.chunk_idx differing
                  (record s { expected = s.expected + 1 }) in
              inl (k, omega (arith, e)))
    ]
  ]

  take_in-Counted :
      (c : DataChunk) (s : Intake) → Counted s → Counted (take_in md5 from_str max_chunks c s).1
  unfolding take_in retry accept
  take_in-Counted c s h = ground (
    arith,
    length-append s.retries ((c.object_id, c.chunk_idx) ∷ []),
    length-append s.retries ((c.object_id, pos s.expected) ∷ []),
  )

  take_all-Counted :
      (l : List DataChunk) (s : Intake)
      → Counted s
      → Counted (take_all md5 from_str max_chunks l s).1
  unfolding take_all
  take_all-Counted [] s h = h
  take_all-Counted (c ∷ l) s h =
      let t = (take_in md5 from_str max_chunks c s).1 in
      elim (Option-cases (take_in md5 from_str max_chunks c s).0) [
        | inl on ↦ rw (on, take_all) (take_all-Counted l t (take_in-Counted c s h))
        | inr (r, back) ↦ rw (back, take_all) (take_in-Counted c s h)
      ]

  take_all-Added :
      (l : List DataChunk) (s : Intake) → Added s (take_all md5 from_str max_chunks l s).1
  unfolding take_all
  take_all-Added [] s = Added-Turn s s (inl (refl, omega arith))
  take_all-Added (c ∷ l) s =
      let t = (take_in md5 from_str max_chunks c s).1 in
      elim (Option-cases (take_in md5 from_str max_chunks c s).0) [
        | inl on ↦
            rw (on, take_all)
              (Added-next s t (take_all md5 from_str max_chunks l t).1 (take_in-Turn c s)
                (take_all-Added l t))
        | inr (r, back) ↦ rw (back, take_all) (Added-Turn s t (take_in-Turn c s))
      ]

  -- Whatever chunks come, the intake reports chunks in strictly ascending order of their indices,
  -- each index at most once, and asks at most six times for a chunk.
  pub take_all-Ascending :
      (l : List DataChunk)
      → let t = (take_all md5 from_str max_chunks l new_intake).1 in
        Ascending 0 t.synced × (length t.retries ≤ 6)
  take_all-Ascending l =
      let (new, added, up) = take_all-Added l new_intake in
      let (counted, few) = take_all-Counted l new_intake (refl, omega arith) in
      (subst (Ascending 0) (sym added) up, omega (arith, counted))
