-- ===== src/Sink/Totals.antt =====
-- s3_frontend/utils/buffered_s3_sink.rs: the bytes of a stream and what becomes of them.
use data_proxy.Base.{
  ◌+◌, length, Bool, true, false, List, [], ◌∷◌, ◌++◌, append_assoc, append-nil, Option, Text, ◌≡◌,
  refl, sym, ◌∙◌, ap, Result, ok, err, if◌then◌else◌,
}
use data_proxy.Sink.{
  Call, Inbox, BufferedS3Sink, Act, ◌>>=◌, ◌>>◌, process_messages, flush_large, flush_rest,
  flush_single_part, process_bytes, process_all,
}
use data_proxy.Sink.Keeps.{
  total, sent, Keeps-then, flush_large-Keeps, flush_rest-Keeps, flush_single_part-Keeps,
}

module _ (respond : List Call → Call → Result Text) where
  mode :
      (is_finished single : Bool) (t : BufferedS3Sink)
      → total
          (if single
            then flush_single_part respond is_finished t
            else (flush_large respond >> flush_rest respond is_finished) t).1
        ≡ total t
  mode is_finished true t = (flush_single_part-Keeps respond is_finished).at t
  mode is_finished false t =
      (Keeps-then (flush_large respond) (flush_rest respond is_finished) (flush_large-Keeps respond)
          (flush_rest-Keeps respond is_finished)).at
        t

  -- When its messages can be read, process_bytes adds exactly its bytes at the end of those handed
  -- to the backend and those buffered, also where the backend refuses a call.
  pub total-process_bytes :
      (inbox : Option Inbox) (buf : Text) (s : BufferedS3Sink) (is_finished : Bool)
      → process_messages inbox ≡ ok is_finished
      → total (process_bytes respond inbox buf s).1 ≡ total s ++ buf
  unfolding process_bytes
  total-process_bytes inbox buf s is_finished read =
      let t = record s { sum = s.sum + length buf; buffer = s.buffer ++ buf } in
      rw (read, process_bytes)
        (mode is_finished s.single_part_upload t ∙ sym (append_assoc (sent s.calls) s.buffer buf))

-- The buffers that the pipeline hands over, joined.
abbrev pub stream : List (Option Inbox × Text) → Text
stream [] = []
stream ((inbox, buf) ∷ rest) = buf ++ stream rest

then-eq-ok :
    (r : Result (Unit {0})) (f : Act (Unit {0})) (t : BufferedS3Sink)
    → (◌>>=◌ (λ x. (r, t)) (λ u. f) t).0 ≡ ok tt
    → (u : Unit {0}) × (r ≡ ok u) × (◌>>=◌ (λ x. (r, t)) (λ u. f) t ≡ f t)
then-eq-ok (ok u) f t h = (u, refl, refl)
then-eq-ok (err e) f t h = cc

read_ok :
    (respond : List Call → Call → Result Text) (inbox : Option Inbox) (buf : Text)
    (s : BufferedS3Sink)
    → (process_bytes respond inbox buf s).0 ≡ ok tt
    → (is_finished : Bool) × (process_messages inbox ≡ ok is_finished)
unfolding process_bytes
read_ok respond inbox buf s h = split (process_messages inbox) refl h
  where
    split :
        (r : Result Bool)
        → process_messages inbox ≡ r
        → (process_bytes respond inbox buf s).0 ≡ ok tt
        → (is_finished : Bool) × (process_messages inbox ≡ ok is_finished)
    split (ok b) e k = (b, e)
    split (err x) e k = cc (rw (e, process_bytes) at k)

-- When a stream of buffers is accepted, the bytes that the calls handed to the backend, in order,
-- followed by the bytes still buffered, are those of before followed by the stream: none is lost,
-- doubled or reordered, whatever the backend answers and at whichever call the end is announced.
pub total-process_all :
    (respond : List Call → Call → Result Text) (l : List (Option Inbox × Text)) (s : BufferedS3Sink)
    → (process_all respond l s).0 ≡ ok tt
    → total (process_all respond l s).1 ≡ total s ++ stream l
unfolding process_all
total-process_all respond [] s h = sym (append-nil (total s))
total-process_all respond ((inbox, buf) ∷ l) s h =
    let (u, handled, rest) =
      then-eq-ok (process_bytes respond inbox buf s).0 (process_all respond l)
        (process_bytes respond inbox buf s).1 h in
    let (is_finished, read) = read_ok respond inbox buf s handled in
    let later =
      total-process_all respond l (process_bytes respond inbox buf s).1
        (ap (λ (r : Result (Unit {0}) × BufferedS3Sink). r.0) (sym rest) ∙ h) in
    ap (λ (r : Result (Unit {0}) × BufferedS3Sink). total r.1) rest
    ∙ (later
        ∙ (ap (λ b. b ++ stream l) (total-process_bytes respond inbox buf s is_finished read)
            ∙ append_assoc (total s) buf (stream l)))
