-- ===== src/Sink/Completion.antt =====
-- s3_frontend/utils/buffered_s3_sink.rs: how the end of a stream completes the upload, with a backend
-- that answers every call.
use data_proxy.Base.{
  ℕ, ◌+◌, ◌<◌, ◌≤◌, true, false, List, [], ◌∷◌, ◌++◌, Option, some, Text, ◌≡◌, ok, arith, length,
  is_empty,
}
use data_proxy.Sink.{
  Call, upload_multi_object, finish_multipart_upload, notify_completed, Inbox, BufferedS3Sink,
  process_messages, process_bytes, perform, upload_part, keep_tag, finish_multipart, notify,
  flush_large, flush_rest, exceeds_part,
}

module _ (reply : List Call → Call → Text) (inbox : Option Inbox) (buf : Text) (s : BufferedS3Sink)
    (up_id : Text) (n : ℕ) where
  -- In an upload in parts, with no receiver of tags and a backend that answers every call: the end
  -- with more than 5242880 bytes buffered makes one call, which uploads the buffer as the next
  -- part; the upload is neither finished nor announced as completed, and the buffer is empty.
  pub large_end :
      process_messages inbox ≡ ok true
      → s.single_part_upload ≡ false
      → s.has_sender ≡ false
      → s.upload_id ≡ some up_id
      → s.part_number ≡ some n
      → 5242880 < length (s.buffer ++ buf)
      → let r = process_bytes (λ calls c. ok (reply calls c)) inbox buf s in
        (r.0 ≡ ok tt)
        × (r.1.calls ≡ s.calls ++ upload_multi_object (s.buffer ++ buf) up_id n ∷ [])
        × (r.1.buffer ≡ [])
        × (r.1.part_number ≡ some (n + 1))
  unfolding process_bytes flush_large flush_rest exceeds_part upload_part keep_tag perform
  large_end read mode sender id number large = ground arith

  -- In an upload in parts, with no receiver of tags, a notifier, and a backend that answers every
  -- call: the end with 1 to 5242880 bytes buffered makes three calls, which upload the buffer as
  -- the next part, finish the upload with the tags of all parts up to this one, and announce the
  -- completion; the buffer is then empty.
  pub small_end :
      process_messages inbox ≡ ok true
      → s.single_part_upload ≡ false
      → s.has_sender ≡ false
      → s.has_notifier ≡ true
      → s.upload_id ≡ some up_id
      → s.part_number ≡ some n
      → length (s.buffer ++ buf) ≤ 5242880
      → is_empty (s.buffer ++ buf) ≡ false
      → let r = process_bytes (λ calls c. ok (reply calls c)) inbox buf s in
        let part = upload_multi_object (s.buffer ++ buf) up_id n in
        let tags = s.tags ++ record { part_number = n; etag = reply s.calls part } ∷ [] in
        (r.0 ≡ ok tt)
        × (r.1.calls
            ≡ ((s.calls ++ part ∷ []) ++ finish_multipart_upload tags up_id ∷ [])
              ++ notify_completed ∷ [])
        × (r.1.buffer ≡ [])
  unfolding process_bytes flush_large flush_rest exceeds_part upload_part keep_tag perform
      finish_multipart notify
  small_end read mode sender notifier id number small filled = ground arith
