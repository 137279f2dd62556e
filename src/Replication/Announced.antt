-- ===== src/Replication/Announced.antt =====
-- replication/replication_handler.rs: an object whose chunks are announced and then come, from the responses to the comparison.
use data_proxy.Base.{
  ℕ, suc, ◌+◌, ◌<◌, ◌^◌, ◌%◌, Bool, true, false, List, [], ◌∷◌, ◌++◌, map, append_assoc, append-nil,
  Option, none, some, Text, ◌≡◌, refl, sym, ap, ◌∙◌, arith, length, eq_text, eq_nat, nat_eq,
  nat_eq_iff, contains, Result, ok, if◌then◌else◌,
}
use data_proxy.Base.Int.{ℤ, pos, negsuc, as_u64}
use data_proxy.Base.Map.{Map, get, insert, get-insert}
use data_proxy.Structs.Format.{DieselUlid}
use data_proxy.Replication.Queue.{Direction, pull, eq_direction}
use data_proxy.Replication.{
  ObjectStateStatus, infos, update_state, RcvSync, info, chunk, eq_sync, DataChunk, collect_sync,
  collected, compare_info, compare_infos,
}
use data_proxy.Replication.Runs.{message}
use data_proxy.Replication.Responses.{
  Response, object_info, chunk_message, Request, chunk_ack, info_ack, finish_message, Handling,
  handle_info, enter_info, handle_chunk, handle_response, handle_responses,
}

-- Chunks of one object with the indices from `n` on, whatever they hold.
abbrev pub Numbered : Text → ℕ → List DataChunk → Type 0
Numbered object n [] = Unit
Numbered object n (c ∷ l) =
    (c.object_id ≡ object) × (c.chunk_idx ≡ pos n) × Numbered object (suc n) l

-- Every counted chunk has an index below `n`.
abbrev Below : ℕ → List RcvSync → Type 0
Below n [] = Unit
Below n (info id chunks ∷ l) = Below n l
Below n (chunk id (pos i) ∷ l) = (i < n) × Below n l
Below n (chunk id (negsuc i) ∷ l) = Below n l

Below-fresh :
    (id : DieselUlid) (n : ℕ) (l : List RcvSync) → Below n l → contains l (chunk id (pos n)) ≡ false
Below-fresh id n [] b = refl
Below-fresh id n (info i chunks ∷ l) b = Below-fresh id n l b
Below-fresh id n (chunk i (pos k) ∷ l) b = ground (arith, nat_eq_iff k n, Below-fresh id n l b.1)
Below-fresh id n (chunk i (negsuc k) ∷ l) b = ground (arith, Below-fresh id n l b)

Below-next :
    (id : DieselUlid) (n : ℕ) (l : List RcvSync)
    → Below n l
    → Below (suc n) (l ++ chunk id (pos n) ∷ [])
Below-next id n [] b = (omega arith, tt)
Below-next id n (info i chunks ∷ l) b = Below-next id n l b
Below-next id n (chunk i (pos k) ∷ l) b = (omega (arith, b.0), Below-next id n l b.1)
Below-next id n (chunk i (negsuc k) ∷ l) b = Below-next id n l b

-- Numbered chunks are all kept in the set, and all counted.
pub collect-Numbered :
    (object : Text) (id : DieselUlid) (n : ℕ) (l : List DataChunk) (sync : List RcvSync)
    → Numbered object n l
    → Below n sync
    → collect_sync sync (map (message id) l) ≡ sync ++ map (message id) l
unfolding collect_sync
collect-Numbered object id n [] sync o b = sym (append-nil sync)
collect-Numbered object id n (c ∷ l) sync (named, idx, o) b =
    rw (idx, Below-fresh id n sync b)
      (collect-Numbered object id (suc n) l (sync ++ chunk id (pos n) ∷ []) o
          (Below-next id n sync b)
        ∙ append_assoc sync (chunk id (pos n) ∷ []) (map (message id) l))

collected-message :
    (id : DieselUlid) (l : List DataChunk) → collected id (map (message id) l) ≡ length l
unfolding collected
collected-message id [] = refl
collected-message id (c ∷ l) = ground (arith, nat_eq_iff id id, collected-message id l)

compare_infos-message :
    (finished : List RcvSync) (id : DieselUlid) (l : List DataChunk) (marks : Map Direction Bool)
    → compare_infos finished (map (message id) l) marks ≡ ok marks
unfolding compare_infos
compare_infos-message finished id [] marks = refl
compare_infos-message finished id (c ∷ l) marks = compare_infos-message finished id l marks

-- An object whose numbered chunks were all counted passes the comparison.
pub compare-Numbered :
    (object : Text) (id : DieselUlid) (l : List DataChunk)
    → Numbered object 0 l
    → length l < 2 ^ 64
    → let sync = collect_sync [] (info id (pos (length l)) ∷ map (message id) l) in
      compare_infos sync sync [] ≡ ok ((pull id, false) ∷ [])
unfolding collect_sync compare_infos compare_info collected insert
compare-Numbered object id l o h =
    rw (collect-Numbered object id 0 l (info id (pos (length l)) ∷ []) o tt, collected-message id l)
      (let count : nat_eq (as_u64 (pos (length l))) (length l) ≡ true =
          ground (arith, nat_eq_iff (length l % 2 ^ 64) (length l)) in
        rw count (
          compare_infos-message (info id (pos (length l)) ∷ map (message id) l) id l
            ((pull id, false) ∷ [])))

-- The chunks of an object as responses, what is sent to its channel, and the acknowledgements.
abbrev pub arriving : List DataChunk → List (Option Response)
arriving l = map (λ (c : DataChunk). some (chunk_message c)) l

abbrev pub queued : List DataChunk → List (Text × DataChunk)
queued l = map (λ (c : DataChunk). (c.object_id, c)) l

abbrev acks : List DataChunk → List Request
acks l = map (λ (c : DataChunk). chunk_ack c.object_id c.chunk_idx) l

abbrev after_chunks : DieselUlid → List DataChunk → Handling → Handling
after_chunks id l h = record h {
  chunks = h.chunks ++ queued l;
  synced = h.synced ++ map (message id) l;
  requests = h.requests ++ acks l;
}

module _ (from_str : Text → Result DieselUlid) (object : Text) (id : DieselUlid)
    (named : from_str object ≡ ok id) where
  handle_chunk-known :
      (c : DataChunk) (state : ObjectStateStatus) (h : Handling)
      → c.object_id ≡ object
      → get h.states object ≡ some state
      → handle_chunk from_str c h ≡ (none, after_chunks id (c ∷ []) h)
  unfolding handle_chunk
  handle_chunk-known c state h o known =
      rw (handle_chunk, ap (get h.states) o ∙ known, ap from_str o ∙ named) refl

  after_chunks-cons :
      (c : DataChunk) (l : List DataChunk) (h : Handling)
      → after_chunks id l (after_chunks id (c ∷ []) h) ≡ after_chunks id (c ∷ l) h
  after_chunks-cons c l h = ground (
    arith,
    append_assoc h.chunks ((c.object_id, c) ∷ []) (queued l),
    append_assoc h.synced (message id c ∷ []) (map (message id) l),
    append_assoc h.requests (chunk_ack c.object_id c.chunk_idx ∷ []) (acks l),
  )

  handle_responses-on :
      (r : Option Response) (rest : List (Option Response)) (h t : Handling)
      → handle_response from_str r h ≡ (none, t)
      → handle_responses from_str (r ∷ rest) h ≡ handle_responses from_str rest t
  unfolding handle_responses
  handle_responses-on r rest h t e =
      rw (handle_responses, ap (λ (x : Option (Result (Unit {0})) × Handling). x.0) e)
        (ap (λ (x : Option (Result (Unit {0})) × Handling). handle_responses from_str rest x.1) e)

  handle_arriving :
      (n : ℕ) (l : List DataChunk) (rest : List (Option Response)) (state : ObjectStateStatus)
      (h : Handling)
      → Numbered object n l
      → get h.states object ≡ some state
      → handle_responses from_str (arriving l ++ rest) h
        ≡ handle_responses from_str rest (after_chunks id l h)
  unfolding handle_responses handle_response
  handle_arriving n [] rest state h o known =
      ap (handle_responses from_str rest)
        (ground (arith, append-nil h.chunks, append-nil h.synced, append-nil h.requests))
  handle_arriving n (c ∷ l) rest state h (obj, idx, o) known =
      handle_responses-on (some (chunk_message c)) (arriving l ++ rest) h
        (after_chunks id (c ∷ []) h) (handle_chunk-known c state h obj known)
      ∙ (handle_arriving (suc n) l rest state (after_chunks id (c ∷ []) h) o known
          ∙ ap (handle_responses from_str rest) (after_chunks-cons c l h))

  abbrev announced : ℤ → ℕ → Handling → Handling
  announced size total h =
      let entered = enter_info object (pos total) size (record h { counter = h.counter + 1 }) in
      record entered {
        synced = entered.synced ++ info id (pos total) ∷ [];
        requests = entered.requests ++ info_ack object ∷ [];
        starts = if nat_eq entered.counter 1 then entered.starts + 1 else entered.starts;
      }

  announced-known :
      (size : ℤ) (total : ℕ) (state : ObjectStateStatus) (h : Handling)
      → get h.states object ≡ some state
      → let t = announced size total h in
        (get t.states object ≡ some (infos (pos total) size))
        × (t.chunks ≡ h.chunks)
        × (t.synced ≡ h.synced ++ info id (pos total) ∷ [])
  unfolding enter_info update_state
  announced-known size total state h known =
      rw (enter_info, known)
        (
          get-insert h.states object object (infos (pos total) size)
              ∙ rw ((eq_text.same_iff object object).1 refl) refl,
          refl,
          refl,
        )

  -- The announcement of an object that is to be pulled, its chunks, and the end.
  pub handle_announced :
      (size : ℤ) (l : List DataChunk) (rest : List (Option Response)) (state : ObjectStateStatus)
      (h : Handling)
      → Numbered object 0 l
      → get h.states object ≡ some state
      → h.synced ≡ []
      → h.chunks ≡ []
      → let (r, t) =
          handle_responses from_str
            (some (object_info object (pos (length l)) size)
              ∷ (arriving l ++ some finish_message ∷ rest))
            h in
        (r ≡ ok tt)
        × (t.chunks ≡ queued l)
        × (t.synced ≡ info id (pos (length l)) ∷ map (message id) l)
  unfolding handle_responses handle_response handle_info
  handle_announced size l rest state h o known fresh_s fresh_c =
      let t = announced size (length l) h in
      let (stays, queue, sync) = announced-known size (length l) state h known in
      let e =
        handle_responses-on (some (object_info object (pos (length l)) size))
          (arriving l ++ some finish_message ∷ rest) h t (rw (handle_info, named) refl)
        ∙ handle_arriving 0 l (some finish_message ∷ rest) (infos (pos (length l)) size) t o
            stays in
      (
        ap (λ (x : Result (Unit {0}) × Handling). x.0) e,
        ap (λ (x : Result (Unit {0}) × Handling). x.1.chunks) e
            ∙ ap (λ k. k ++ queued l) (queue ∙ fresh_c),
        ap (λ (x : Result (Unit {0}) × Handling). x.1.synced) e
            ∙ ap (λ k. k ++ map (message id) l)
                (sync ∙ ap (λ k. k ++ info id (pos (length l)) ∷ []) fresh_s),
      )
