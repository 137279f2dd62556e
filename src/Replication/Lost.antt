-- ===== src/Replication/Lost.antt =====
-- replication/replication_handler.rs: an object of which a chunk came damaged, from the responses to the
-- comparison.
use data_proxy.Base.{
  ℕ, suc, ◌+◌, ◌<◌, ◌^◌, true, false, List, [], ◌∷◌, ◌++◌, map, map-append, append-nil, subst, some,
  Text, ◌≡◌, ◌≢◌, refl, sym, ap, ap₂, ◌∙◌, arith, length, length-append, All, All-append, eq_text,
  eq_nat, contains, Result, ok, if◌then◌else◌,
}
use data_proxy.Base.Int.{ℤ, pos}
use data_proxy.Base.Map.{get}
use data_proxy.Structs.Format.{DieselUlid}
use data_proxy.Replication.Queue.{pull}
use data_proxy.Replication.{
  ObjectStateStatus, RcvSync, info, eq_sync, DataChunk, Intake, new_intake, take_all, collect_sync,
  compare_infos,
}
use data_proxy.Replication.Responses.{object_info, finish_message, Handling, handle_responses}
use data_proxy.Replication.Runs.{InOrder, bytes_of, message, corrupted_run}
use data_proxy.Replication.Announced.{
  Numbered, arriving, queued, handle_announced, compare-Numbered, collect-Numbered,
}

InOrder-Numbered :
    (md5 : Text → Text) (object : Text) (n : ℕ) (l : List DataChunk)
    → InOrder md5 object n l
    → Numbered object n l
InOrder-Numbered md5 object n [] o = tt
InOrder-Numbered md5 object n (c ∷ l) (obj, idx, right, o) =
    (obj, idx, InOrder-Numbered md5 object (suc n) l o)

Numbered-append :
    (object : Text) (n : ℕ) (l k : List DataChunk)
    → Numbered object n l
    → Numbered object (n + length l) k
    → Numbered object n (l ++ k)
Numbered-append object n [] k a b = subst (λ m. Numbered object m k) (omega arith) b
Numbered-append object n (c ∷ l) k (obj, idx, a) b = (
  obj,
  idx,
  Numbered-append object (suc n) l k a (subst (λ m. Numbered object m k) (omega arith) b),
)

abbrev Held : List RcvSync → List RcvSync → Type 0
Held sync l = All (λ (m : RcvSync). contains sync m ≡ true) l

collect-append :
    (sync l k : List RcvSync) → collect_sync sync (l ++ k) ≡ collect_sync (collect_sync sync l) k
unfolding collect_sync
collect-append sync [] k = refl
collect-append sync (m ∷ l) k =
    collect-append (if contains sync m then sync else sync ++ m ∷ []) l k

collect-Held : (sync l : List RcvSync) → Held sync l → collect_sync sync l ≡ sync
unfolding collect_sync
collect-Held sync [] a = refl
collect-Held sync (m ∷ l) (held, a) = rw held (collect-Held sync l a)

contains-weaken :
    (x m : RcvSync) (sync : List RcvSync) → contains sync m ≡ true → contains (x ∷ sync) m ≡ true
contains-weaken x m sync h = ground (arith, h)

Held-weaken : (x : RcvSync) (sync l : List RcvSync) → Held sync l → Held (x ∷ sync) l
Held-weaken x sync [] a = tt
Held-weaken x sync (m ∷ l) (held, a) = (contains-weaken x m sync held, Held-weaken x sync l a)

contains-head : (m : RcvSync) (sync : List RcvSync) → contains (m ∷ sync) m ≡ true
contains-head m sync = rw ((eq_sync.same_iff m m).1 refl) refl

Held-self : (l : List RcvSync) → Held l l
Held-self [] = tt
Held-self (m ∷ l) = (contains-head m l, Held-weaken m l l (Held-self l))

-- A list without one of its elements is held by the list.
Held-left : (l k : List RcvSync) → Held (l ++ k) l
Held-left [] k = tt
Held-left (m ∷ l) k = (contains-head m (l ++ k), Held-weaken m (l ++ k) l (Held-left l k))

Held-right : (l k r : List RcvSync) → Held k r → Held (l ++ k) r
Held-right [] k r a = a
Held-right (m ∷ l) k r a = Held-weaken m (l ++ k) r (Held-right l k r a)

module _ (md5 : Text → Text) (from_str : Text → Result DieselUlid) (object : Text) (id : DieselUlid)
    (named : from_str object ≡ ok id) where
  -- The indices of all chunks, the damaged one among them.
  Numbered-all :
      (before after : List DataChunk) (bad : DataChunk)
      → InOrder md5 object 0 before
      → bad.object_id ≡ object
      → bad.chunk_idx ≡ pos (length before)
      → InOrder md5 object (suc (length before)) after
      → Numbered object 0 (before ++ bad ∷ after)
  Numbered-all before after bad o obj idx p =
      Numbered-append object 0 before (bad ∷ after) (InOrder-Numbered md5 object 0 before o) (
        obj,
        idx ∙ ap pos (omega arith),
        subst (λ n. Numbered object n after) (omega arith)
            (InOrder-Numbered md5 object (suc (length before)) after p),
      )

  payload : (l : List DataChunk) → map (λ (x : Text × DataChunk). x.1) (queued l) ≡ l
  payload [] = refl
  payload (c ∷ l) = ap (λ k. c ∷ k) (payload l)

  -- What the intake sends to the comparison was sent to it before.
  Held-sent :
      (before after : List DataChunk) (bad : DataChunk) (announced : RcvSync)
      → Held
          (announced ∷ map (message id) (before ++ bad ∷ after))
          (map (message id) before ++ map (message id) after)
  Held-sent before after bad announced =
      let l = map (message id) before in
      let k = map (message id) after in
      subst (λ r. Held (announced ∷ r) (l ++ k))
        (sym (map-append (message id) before (bad ∷ after)))
        (Held-weaken announced (l ++ message id bad ∷ k) (l ++ k) (
          All-append (λ (m : RcvSync). contains (l ++ message id bad ∷ k) m ≡ true) l k
            (Held-left l (message id bad ∷ k))
            (Held-right l (message id bad ∷ k) k (Held-weaken (message id bad) k k (Held-self k)))))

  -- The set of what the two tasks sent to the comparison.
  sync-all :
      (size : ℤ) (l : List DataChunk) (sent : List RcvSync)
      → Numbered object 0 l
      → Held (info id size ∷ map (message id) l) sent
      → collect_sync [] ((info id size ∷ map (message id) l) ++ sent)
        ≡ collect_sync [] (info id size ∷ map (message id) l)
  unfolding collect_sync
  sync-all size l sent o held =
      let e = collect-Numbered object id 0 l (info id size ∷ []) o tt in
      collect-append (info id size ∷ []) (map (message id) l) sent
      ∙ (ap (λ r. collect_sync r sent) e
          ∙ (collect-Held (info id size ∷ map (message id) l) sent held ∙ sym e))

  -- An object in at least two chunks is announced, all its chunks come in order, and one that is
  -- not the last fails its checksum: the responses are accepted, the intake asks for this chunk
  -- once more, and for no other, but ends without error, having passed on the chunks before and
  -- after it and not the damaged one, and the comparison accepts the object as complete.
  pub lost_chunk :
      (size : ℤ) (before after : List DataChunk) (bad : DataChunk) (state : ObjectStateStatus)
      (h : Handling)
      → InOrder md5 object 0 before
      → bad.object_id ≡ object
      → bad.chunk_idx ≡ pos (length before)
      → md5 bad.bytes ≢ bad.checksum
      → InOrder md5 object (suc (length before)) after
      → 0 < length after
      → length (before ++ bad ∷ after) < 2 ^ 64
      → get h.states object ≡ some state
      → h.synced ≡ []
      → h.chunks ≡ []
      → let total = pos (length (before ++ bad ∷ after)) in
        let (received, t) =
          handle_responses from_str
            (some (object_info object total size)
              ∷ (arriving (before ++ bad ∷ after) ++ some finish_message ∷ []))
            h in
        let (ended, s) =
          take_all md5 from_str total (map (λ (x : Text × DataChunk). x.1) t.chunks) new_intake in
        let sync = collect_sync [] (t.synced ++ s.synced) in
        (received ≡ ok tt)
        × (ended ≡ ok tt)
        × (s.retries ≡ (object, pos (length before)) ∷ [])
        × (s.forwarded ≡ bytes_of before ++ bytes_of after)
        × (compare_infos sync sync [] ≡ ok ((pull id, false) ∷ []))
  lost_chunk size before after bad state h o obj idx wrong p q few known fresh_s fresh_c =
      let numbered = Numbered-all before after bad o obj idx p in
      let (received, chunks, synced) =
        handle_announced from_str object id named size (before ++ bad ∷ after) [] state h numbered
          known fresh_s fresh_c in
      let (ended, forwarded, sent, repeated) =
        corrupted_run md5 from_str (length (before ++ bad ∷ after)) object id named before after []
          bad o idx wrong p q (omega (arith, length-append before (bad ∷ after))) in
      let run =
        ap (λ k. take_all md5 from_str (pos (length (before ++ bad ∷ after))) k new_intake)
          (ap (map (λ (x : Text × DataChunk). x.1)) chunks
            ∙ (payload (before ++ bad ∷ after)
                ∙ ap (λ k. before ++ bad ∷ k) (sym (append-nil after)))) in
      (
        received,
        ap (λ (x : Result (Unit {0}) × Intake). x.0) run ∙ ended,
        ap (λ (x : Result (Unit {0}) × Intake). x.1.retries) run
            ∙ (repeated ∙ ap₂ (λ o i. (o, i) ∷ []) obj idx),
        ap (λ (x : Result (Unit {0}) × Intake). x.1.forwarded) run ∙ forwarded,
        subst (λ y. compare_infos y y [] ≡ ok ((pull id, false) ∷ []))
            (sym (
              ap₂ (λ x y. collect_sync [] (x ++ y)) synced
                (ap (λ (x : Result (Unit {0}) × Intake). x.1.synced) run ∙ sent)
              ∙ sync-all (pos (length (before ++ bad ∷ after))) (before ++ bad ∷ after)
                  (map (message id) before ++ map (message id) after) numbered
                  (Held-sent before after bad (info id (pos (length (before ++ bad ∷ after)))))))
            (compare-Numbered object id (before ++ bad ∷ after) numbered few),
      )
