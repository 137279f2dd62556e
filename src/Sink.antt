-- ===== src/Sink.antt =====
-- s3_frontend/utils/buffered_s3_sink.rs: the sink that uploads a stream to the backend, at once or in
-- parts. The backend, the channel for part tags and the notifier are one function that answers each
-- call in view of all calls before it; the sink keeps the calls that it has made.
pub mod Keeps
pub mod Totals
pub mod Completion
use data_proxy.Base.{
  ℕ, ◌+◌, Bool, true, false, not, ◌&&◌, List, [], ◌∷◌, ◌++◌, Option, none, some, Text, length, ltb,
  is_empty, if◌then◌else◌, Result, ok, err, Error, anyhow, ok_or,
}

pub record PartETag : Type 0 where
  pub part_number : ℕ
  pub etag : Text

pub data Call : Type 0 where
  init_multipart_upload : Call
  put_object : Text → Call
  upload_multi_object : Text → Text → ℕ → Call
  finish_multipart_upload : List PartETag → Text → Call
  send_tag : Text → Call
  notify_completed : Call

-- The messages of the pipeline: the one that the sink acts on, and the others.
pub data Message : Type 0 where
  finished other : Message

-- What `try_recv` finds: the messages that wait, and whether the channel is closed behind them.
pub record Inbox : Type 0 where
  pub waiting : List Message
  pub closed : Bool

pub record BufferedS3Sink : Type 0 where
  pub buffer : Text
  pub upload_id : Option Text
  pub part_number : Option ℕ
  pub single_part_upload : Bool
  pub tags : List PartETag
  pub sum : ℕ
  pub has_sender : Bool
  pub has_notifier : Bool
  pub calls : List Call

-- `BufferedS3Sink::new`
unfoldable pub new : Option Text → Option ℕ → Bool → Option (List PartETag) → Bool → BufferedS3Sink
new upload_id part_number single_part_upload tags with_sender = record {
  buffer = [];
  upload_id = upload_id;
  part_number = part_number;
  single_part_upload = single_part_upload;
  tags = elim tags [ none ↦ [] | some t ↦ t ];
  sum = 0;
  has_sender = with_sender;
  has_notifier = false;
  calls = [];
}

-- A method returns its result and the sink that it leaves.
abbrev pub Act : Type 0 → Type 0
Act A = BufferedS3Sink → Result A × BufferedS3Sink

infixl 5 ◌>>=◌ ◌>>◌
abbrev pub ◌>>=◌ : {A B : Type 0} → Act A → (A → Act B) → Act B
◌>>=◌ m next s = elim (m s).0 [ err e ↦ (err e, (m s).1) | ok a ↦ next a (m s).1 ]

abbrev pub ◌>>◌ : {B : Type 0} → Act (Unit {0}) → Act B → Act B
m >> next = m >>= λ done. next

abbrev pub done : Act (Unit {0})
done s = (ok tt, s)

-- The loop of `process_messages`: was `Finished` among the messages that wait?
unfoldable pub drain : List Message → Bool → Result Bool
drain [] true = err (anyhow "Message receiver closed")
drain [] false = ok false
drain (finished ∷ rest) closed = ok true
drain (other ∷ rest) closed = drain rest closed

-- `process_messages`; without a receiver there is none.
unfoldable pub process_messages : Option Inbox → Result Bool
unfolding drain
process_messages none = ok false
process_messages (some inbox) = drain inbox.waiting inbox.closed

-- The limit above which the buffer is sent as a part: 5 MiB.
unfoldable pub exceeds_part : Text → Bool
exceeds_part buffer = ltb 5242880 (length buffer)

module _ (respond : List Call → Call → Result Text) where
  unfoldable pub perform : Call → Act Text
  perform call s = (respond s.calls call, record s { calls = s.calls ++ call ∷ [] })

  unfoldable pub initialize_multipart : Act (Unit {0})
  initialize_multipart s =
      let s' = record s { part_number = some 1 } in
      (perform init_multipart_upload >>= λ id t. (ok tt, record t { upload_id = some id })) s'

  -- The buffer is taken before the call.
  unfoldable pub upload_single : Act (Unit {0})
  upload_single s = (perform (put_object s.buffer) >>= λ reply. done) (record s { buffer = [] })

  -- What follows a part's upload: its tag is sent and kept, and the next part gets the next number.
  unfoldable pub keep_tag : ℕ → Text → Act (Unit {0})
  keep_tag pnumber etag =
      (λ s. if s.has_sender then (perform (send_tag etag) >>= λ sent. done) s else done s) >> λ s. (
        ok tt,
        record s {
          tags = s.tags ++ record { part_number = pnumber; etag = etag } ∷ [];
          part_number = some (pnumber + 1);
        },
      )

  unfoldable pub upload_part : Act (Unit {0})
  upload_part s = elim s.part_number [
    | none ↦ (err (anyhow "PartNumber expected"), s)
    | some pnumber ↦ elim s.upload_id [
      | none ↦ (err (anyhow "Upload ID not found"), s)
      | some up_id ↦
          (perform (upload_multi_object s.buffer up_id pnumber) >>= λ etag. keep_tag pnumber etag)
            (record s { buffer = [] })
    ]
  ]

  unfoldable pub finish_multipart : Act (Unit {0})
  finish_multipart s = elim s.upload_id [
    | none ↦ (err (anyhow "Upload ID not found"), s)
    | some up_id ↦ (perform (finish_multipart_upload s.tags up_id) >>= λ reply. done) s
  ]

  unfoldable pub notify : Act (Unit {0})
  notify s = if s.has_notifier then (perform notify_completed >>= λ reply. done) s else done s

  -- A large buffer is sent as a part, the upload being initialised if it is not yet.
  unfoldable pub flush_large : Act (Unit {0})
  flush_large s =
      if exceeds_part s.buffer
      then ((λ t. elim t.upload_id [ none ↦ initialize_multipart t | some _ ↦ done t ])
            >> upload_part)
          s
      else done s

  -- The end of the stream: the rest goes as one object or as the last part.
  unfoldable pub flush_rest : Bool → Act (Unit {0})
  flush_rest is_finished s =
      if is_finished && not (is_empty s.buffer)
      then elim s.upload_id [
        | none ↦ (upload_single >> notify) s
        | some _ ↦
            (upload_part >> λ t.
            if is_empty t.buffer then (finish_multipart >> notify) t else done t)
              s
      ]
      else done s

  -- The rest of `process_bytes` in the mode for a single part.
  unfoldable pub flush_single_part : Bool → Act (Unit {0})
  flush_single_part is_finished s =
      if is_finished && not (is_empty s.buffer) then (upload_part >> notify) s else done s

  unfoldable pub process_bytes : Option Inbox → Text → Act (Unit {0})
  process_bytes inbox buf s = elim (process_messages inbox) [
    | err e ↦ (err e, s)
    | ok is_finished ↦
        let t = record s { sum = s.sum + length buf; buffer = s.buffer ++ buf } in
        if s.single_part_upload
        then flush_single_part is_finished t
        else (flush_large >> flush_rest is_finished) t
  ]

  -- One call for each buffer that the pipeline hands over; the first error ends the stream.
  unfoldable pub process_all : List (Option Inbox × Text) → Act (Unit {0})
  process_all [] = done
  process_all ((inbox, buf) ∷ rest) = process_bytes inbox buf >> process_all rest
