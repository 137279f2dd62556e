-- ===== src/Tests/Sink.antt =====
-- The theorems of Sink at concrete inputs.
use data_proxy.Base.{
  ℕ, zero, suc, Option, ◌+◌, ◌<◌, ◌≡◌, refl, true, false, none, some, ok, List, [], ◌∷◌, ◌++◌,
  length, Text, Result, codes, arith, ap,
}
use data_proxy.Sink.{
  Call, Inbox, BufferedS3Sink, upload_multi_object, finished, other, drain, process_messages,
  process_bytes, process_all, exceeds_part, flush_large, flush_rest, upload_single, notify, perform,
}
use data_proxy.Sink.Keeps.{total}
use data_proxy.Sink.Totals.{stream, total-process_all}
use data_proxy.Sink.Completion.{large_end}

abbrev etag_of : List Call → Call → Text
etag_of calls c = codes "tag"

abbrev respond : List Call → Call → Result Text
respond calls c = ok (etag_of calls c)

abbrev at_end : Inbox
at_end = record { waiting = other ∷ finished ∷ []; closed = false }

abbrev fresh_sink : BufferedS3Sink
fresh_sink = record {
  buffer = [];
  upload_id = none;
  part_number = none;
  single_part_upload = false;
  tags = [];
  sum = 0;
  has_sender = false;
  has_notifier = true;
  calls = [];
}

-- A sink in the middle of an upload in parts: the second part is next.
abbrev second_part : BufferedS3Sink
second_part = record fresh_sink {
  upload_id = some (codes "up");
  part_number = some 2;
  tags = record { part_number = 1; etag = codes "first" } ∷ [];
}

at_end_read : process_messages (some at_end) ≡ ok true
unfolding process_messages drain
at_end_read = refl

no_inbox_read : process_messages none ≡ ok false
unfolding process_messages
no_inbox_read = refl

abbrev two_buffers : List (Option Inbox × Text)
two_buffers = (none, codes "ab") ∷ (some at_end, codes "c") ∷ []

both_accepted : (process_all respond two_buffers fresh_sink).0 ≡ ok tt
unfolding process_all process_bytes process_messages drain flush_large flush_rest exceeds_part
    upload_single notify perform
both_accepted = refl

total-process_all_example :
    total (process_all respond two_buffers fresh_sink).1 ≡ total fresh_sink ++ stream two_buffers
total-process_all_example = total-process_all respond two_buffers fresh_sink both_accepted

-- A buffer of the given length.
unfoldable zeros : ℕ → Text
zeros zero = []
zeros (suc n) = 0 ∷ zeros n

length-zeros : (n : ℕ) → length (zeros n) ≡ n
unfolding zeros
length-zeros zero = refl
length-zeros (suc n) = ap suc (length-zeros n)

six_mib_is_large : 5242880 < length (zeros 6291456)
six_mib_is_large = omega (arith, length-zeros 6291456)

large_end_example :
    let r = process_bytes respond (some at_end) (zeros 6291456) second_part in
    (r.0 ≡ ok tt)
    × (r.1.calls ≡ second_part.calls ++ upload_multi_object (zeros 6291456) (codes "up") 2 ∷ [])
    × (r.1.buffer ≡ [])
    × (r.1.part_number ≡ some (2 + 1))
large_end_example =
    large_end etag_of (some at_end) (zeros 6291456) second_part (codes "up") 2 at_end_read refl refl
      refl refl six_mib_is_large
