-- ===== src/Replication/Responses.antt =====
-- replication/replication_handler.rs: the response handler of `process`, a task over the messages that
-- the other proxy sends.
use data_proxy.Base.{
  ℕ, ◌+◌, List, [], ◌∷◌, ◌++◌, Option, none, some, Text, eq_text, nat_eq, Result, ok, err, anyhow,
  if◌then◌else◌,
}
use data_proxy.Base.Int.{ℤ}
use data_proxy.Base.Map.{Map, get, insert}
use data_proxy.Structs.Format.{DieselUlid}
use data_proxy.Replication.{ObjectStateStatus, update_state, RcvSync, info, chunk, DataChunk}

-- The messages of a `PullReplicationResponse`, by the fields that are read.
pub data Response : Type 0 where
  object_info : Text → ℤ → ℤ → Response
  chunk_message : DataChunk → Response
  finish_message : Response

-- What the handler sends back in a `PullReplicationRequest`.
pub data Request : Type 0 where
  info_ack : Text → Request
  chunk_ack : Text → ℤ → Request
  retry_object_id : Text → Request
  abort : Request

-- The objects and their states, the chunks sent to each object's channel, and the messages sent to the
-- comparison, to the other proxy and to start the backend's task.
pub record Handling : Type 0 where
  pub states : Map Text ObjectStateStatus
  pub chunks : List (Text × DataChunk)
  pub synced : List RcvSync
  pub requests : List Request
  pub counter : ℕ
  pub starts : ℕ

-- The announced object's state, or the request to abort; the task goes on in both cases.
unfoldable pub enter_info : Text → ℤ → ℤ → Handling → Handling
unfolding update_state
enter_info object_id max_chunks raw_size h = elim (get h.states object_id) [
  | some state ↦ record h {
    states = insert h.states object_id (update_state state max_chunks raw_size);
  }
  | none ↦ record h { requests = h.requests ++ abort ∷ [] }
]

module _ (from_str : Text → Result DieselUlid) where
  unfoldable pub handle_info : Text → ℤ → ℤ → Handling → Option (Result (Unit {0})) × Handling
  unfolding enter_info
  handle_info object_id max_chunks raw_size h =
      let counted = record h { counter = h.counter + 1 } in
      elim (from_str object_id) [
        | err e ↦ (some (err e), counted)
        | ok id ↦
            let entered = enter_info object_id max_chunks raw_size counted in
            (
              none,
              record entered {
                synced = entered.synced ++ info id max_chunks ∷ [];
                requests = entered.requests ++ info_ack object_id ∷ [];
                starts = if nat_eq entered.counter 1 then entered.starts + 1 else entered.starts;
              },
            )
      ]

  unfoldable pub handle_chunk : DataChunk → Handling → Option (Result (Unit {0})) × Handling
  handle_chunk c h = elim (get h.states c.object_id) [
    | none ↦ (none, record h { requests = h.requests ++ retry_object_id c.object_id ∷ [] })
    | some state ↦
        let sent = record h { chunks = h.chunks ++ (c.object_id, c) ∷ [] } in
        elim (from_str c.object_id) [
          | err e ↦ (some (err e), sent)
          | ok id ↦ (
            none,
            record sent {
              synced = h.synced ++ chunk id c.chunk_idx ∷ [];
              requests = h.requests ++ chunk_ack c.object_id c.chunk_idx ∷ [];
            },
          )
        ]
  ]

  -- A turn of the loop: `some` is a return; a response without a message is an error.
  unfoldable pub handle_response :
      Option Response → Handling → Option (Result (Unit {0})) × Handling
  unfolding handle_info handle_chunk
  handle_response none h = (some (err (anyhow "No message provided in PullReplicationResponse")), h)
  handle_response (some (object_info object_id max_chunks raw_size)) h =
      handle_info object_id max_chunks raw_size h
  handle_response (some (chunk_message c)) h = handle_chunk c h
  handle_response (some finish_message) h = (some (ok tt), h)

  unfoldable pub handle_responses : List (Option Response) → Handling → Result (Unit {0}) × Handling
  handle_responses [] h = (ok tt, h)
  handle_responses (response ∷ rest) h = elim (handle_response response h).0 [
    | some r ↦ (r, (handle_response response h).1)
    | none ↦ handle_responses rest (handle_response response h).1
  ]
