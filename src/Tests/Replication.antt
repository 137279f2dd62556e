-- ===== src/Tests/Replication.antt =====
-- The theorems of Replication at concrete inputs.
use data_proxy.Base.{
  List, Bool, ℕ, ◌≤◌, ◌≢◌, ◌≡◌, refl, true, false, some, ok, Result, [], ◌∷◌, ◌++◌, map, Text,
  codes, eq_text, eq_nat, length, arith,
}
use data_proxy.Base.Int.{pos}
use data_proxy.Base.Map.{Map, get, insert}
use data_proxy.Structs.Format.{DieselUlid}
use data_proxy.Replication.Queue.{Direction, pull, eq_direction, without}
use data_proxy.Replication.{
  not_received, RcvSync, info, chunk, eq_sync, DataChunk, new_intake, take_all, collect_sync,
  collected, compare_info, compare_infos,
}
use data_proxy.Replication.Responses.{object_info, finish_message, Handling, handle_responses}
use data_proxy.Replication.Pending.{
  pending, Waits, Event, run_events, received, processed, pending-run_events,
}
use data_proxy.Replication.Intakes.{Ascending, take_all-Ascending}
use data_proxy.Replication.Runs.{complete_run}
use data_proxy.Replication.Accounting.{Accounted, Complete, compare_infos-Accounted}
use data_proxy.Replication.Announced.{arriving}
use data_proxy.Replication.Lost.{lost_chunk}

-- A checksum that is the text itself, and one object.
abbrev md5 : Text → Text
md5 text = text

abbrev from_str : Text → Result DieselUlid
from_str text = ok 7

abbrev part : ℕ → Text → Text → DataChunk
part n bytes checksum = record {
  object_id = codes "o";
  chunk_idx = pos n;
  bytes = bytes;
  checksum = checksum;
}

abbrev first : DataChunk
first = part 0 (codes "a") (codes "a")

abbrev damaged : DataChunk
damaged = part 1 (codes "x") (codes "b")

abbrev last : DataChunk
last = part 2 (codes "c") (codes "c")

-- The second chunk is skipped, and comes with the second try.
take_all-Ascending_example :
    let t = (take_all md5 from_str (pos 3) (first ∷ last ∷ damaged ∷ last ∷ []) new_intake).1 in
    Ascending 0 t.synced × (length t.retries ≤ 6)
take_all-Ascending_example =
    take_all-Ascending md5 from_str (pos 3) (first ∷ last ∷ damaged ∷ last ∷ [])

complete_run_example :
    let (r, t) = take_all md5 from_str (pos 1) (first ∷ last ∷ []) new_intake in
    (r ≡ ok tt) × (t.forwarded ≡ codes "a" ∷ []) × (t.retries ≡ [])
complete_run_example =
    complete_run md5 from_str 1 (codes "o") 7 refl (first ∷ []) (last ∷ []) (refl, refl, refl, tt)
      (omega arith) refl

-- Two objects are asked for, and one is reported as processed.
-- Two directions are asked for, and the first is processed.
abbrev two_pulls : List Event
two_pulls =
    received (record { direction = pull 1; endpoint_id = 5 })
    ∷ received (record { direction = pull 2; endpoint_id = 5 })
    ∷ processed ((5, pull 1 ∷ []) ∷ [])
    ∷ []

one_left : pending (run_events [] two_pulls) 5 ≡ pull 2 ∷ []
unfolding without get data_proxy.Replication.Queue.remove_processed
    data_proxy.Replication.Queue.remove_finished data_proxy.Replication.Queue.enqueue insert
one_left = refl

pending-run_events_example :
    Waits 5 [] two_pulls (pending (run_events [] two_pulls) 5)
    × (get (run_events [] two_pulls) 5 ≢ some [])
pending-run_events_example = pending-run_events two_pulls 5

-- One object is counted, another was marked before.
abbrev announced_two : List RcvSync
announced_two = info 7 (pos 1) ∷ chunk 7 (pos 0) ∷ info 8 (pos 2) ∷ []

compare_infos-Accounted_example :
    ((after : Map Direction Bool)
      → compare_infos announced_two announced_two ((pull 8, true) ∷ []) ≡ ok after
      → Accounted announced_two ((pull 8, true) ∷ []) announced_two)
    × (Complete announced_two announced_two
        → (after : Map Direction Bool) × (compare_infos announced_two announced_two
              ((pull 8, true) ∷ [])
            ≡ ok after))
compare_infos-Accounted_example =
    compare_infos-Accounted announced_two announced_two ((pull 8, true) ∷ [])

two_accounted :
    compare_infos announced_two announced_two ((pull 8, true) ∷ [])
    ≡ ok ((pull 8, true) ∷ (pull 7, false) ∷ [])
unfolding compare_infos compare_info collected get insert
two_accounted = refl

abbrev waiting : Handling
waiting = record {
  states = (codes "o", not_received) ∷ [];
  chunks = [];
  synced = [];
  requests = [];
  counter = 0;
  starts = 0;
}

-- The chunk with the text x is lost.
lost_chunk_example :
    let (answered, t) =
      handle_responses from_str
        (some (object_info (codes "o") (pos 3) (pos 3))
          ∷ (arriving (first ∷ damaged ∷ last ∷ []) ++ some finish_message ∷ []))
        waiting in
    let (ended, s) =
      take_all md5 from_str (pos 3) (map (λ (x : Text × DataChunk). x.1) t.chunks) new_intake in
    let sync = collect_sync [] (t.synced ++ s.synced) in
    (answered ≡ ok tt)
    × (ended ≡ ok tt)
    × (s.retries ≡ (codes "o", pos 1) ∷ [])
    × (s.forwarded ≡ codes "a" ∷ codes "c" ∷ [])
    × (compare_infos sync sync [] ≡ ok ((pull 7, false) ∷ []))
unfolding get
lost_chunk_example =
    lost_chunk md5 from_str (codes "o") 7 refl (pos 3) (first ∷ []) (last ∷ []) damaged not_received
      waiting (refl, refl, refl, tt) refl refl (λ e. ground (arith, e)) (refl, refl, refl, tt)
      (omega arith) (omega arith) refl refl refl
