-- ===== src/Sink/Keeps.antt =====
-- s3_frontend/utils/buffered_s3_sink.rs: the bytes handed to the backend and those that wait, and the
-- steps of the sink that leave them as they are.
use data_proxy.Base.{
  ◌+◌, ◌&&◌, not, anyhow, is_empty, ℕ, Bool, true, false, List, [], ◌∷◌, ◌++◌, append_assoc,
  append-nil, Option, none, some, Text, ◌≡◌, refl, sym, ◌∙◌, Result, ok, err, if◌then◌else◌,
}
use data_proxy.Sink.{
  Call, init_multipart_upload, put_object, upload_multi_object, finish_multipart_upload, send_tag,
  notify_completed, BufferedS3Sink, Act, exceeds_part, ◌>>=◌, ◌>>◌, done, perform,
  initialize_multipart, upload_single, keep_tag, upload_part, finish_multipart, notify, flush_large,
  flush_rest, flush_single_part,
}

abbrev pub bytes_of : Call → Text
bytes_of (put_object bytes) = bytes
bytes_of (upload_multi_object bytes up_id n) = bytes
bytes_of init_multipart_upload = []
bytes_of (finish_multipart_upload tags up_id) = []
bytes_of (send_tag etag) = []
bytes_of notify_completed = []

-- The bytes that the calls hand to the backend, in order.
abbrev pub sent : List Call → Text
sent [] = []
sent (c ∷ cs) = bytes_of c ++ sent cs

-- What was handed to the backend and what waits in the buffer.
abbrev pub total : BufferedS3Sink → Text
total s = sent s.calls ++ s.buffer

sent-append : (xs ys : List Call) → sent (xs ++ ys) ≡ sent xs ++ sent ys
sent-append [] ys = refl
sent-append (x ∷ xs) ys =
    rw (sent-append xs ys) (sym (append_assoc (bytes_of x) (sent xs) (sent ys)))

-- An action, failing or not, keeps the total.
pub record Keeps {A : Type 0} (m : Act A) : Type 0 where
  pub at : (s : BufferedS3Sink) → total (m s).1 ≡ total s

pub Keeps-next :
    {A B : Type 0} (r : Result A) (f : A → Act B)
    → ((a : A) → Keeps (f a))
    → (s : BufferedS3Sink) → total (◌>>=◌ (λ t. (r, t)) f s).1 ≡ total s
Keeps-next (ok a) f k s = (k a).at s
Keeps-next (err e) f k s = refl

pub Keeps-bind :
    {A B : Type 0} (m : Act A) (f : A → Act B) → Keeps m → ((a : A) → Keeps (f a)) → Keeps (m >>= f)
Keeps-bind m f km kf = record { at = λ s. Keeps-next (m s).0 f kf (m s).1 ∙ km.at s }

pub Keeps-then : {B : Type 0} (m : Act (Unit {0})) (n : Act B) → Keeps m → Keeps n → Keeps (m >> n)
Keeps-then m n km kn = Keeps-bind m (λ u. n) km (λ u. kn)

total-option :
    {X : Type 0} (o : Option X) (r : Result (Unit {0}) × BufferedS3Sink)
    (f : X → Result (Unit {0}) × BufferedS3Sink) (s : BufferedS3Sink)
    → total r.1 ≡ total s
    → ((x : X) → total (f x).1 ≡ total s)
    → total (elim o as (λ x. Result (Unit {0}) × BufferedS3Sink) [ none ↦ r | some x ↦ f x ]).1
      ≡ total s
total-option none r f s h k = h
total-option (some x) r f s h k = k x

Keeps-done : Keeps done
Keeps-done = record { at = λ s. refl }

module _ (respond : List Call → Call → Result Text) where
  -- A call that hands over no bytes.
  perform-Keeps : (c : Call) → bytes_of c ≡ [] → Keeps (perform respond c)
  unfolding perform
  perform-Keeps c e = record { at = λ s. rw (sent-append s.calls (c ∷ [])) (rw e (rw append-nil)) }

  -- A call that hands over the buffer, which is emptied.
  total-hand_over :
      (c : Call) (s : BufferedS3Sink)
      → bytes_of c ≡ s.buffer
      → total (perform respond c (record s { buffer = [] })).1 ≡ total s
  unfolding perform
  total-hand_over c s e = rw (sent-append s.calls (c ∷ [])) (rw e (simp append-nil))

  -- A call followed by an action that keeps the total.
  hand_over-then :
      (c : Call) (f : Text → Act (Unit {0})) (s : BufferedS3Sink)
      → bytes_of c ≡ s.buffer
      → ((a : Text) → Keeps (f a))
      → total ((perform respond c >>= f) (record s { buffer = [] })).1 ≡ total s
  hand_over-then c f s e k =
      let t = record s { buffer = [] } in
      Keeps-next (perform respond c t).0 f k (perform respond c t).1 ∙ total-hand_over c s e

  initialize_multipart-Keeps : Keeps (initialize_multipart respond)
  unfolding initialize_multipart
  initialize_multipart-Keeps = record {
    at = λ s.
        (Keeps-bind (perform respond init_multipart_upload)
            (λ id t. (ok tt, record t { upload_id = some id }))
            (perform-Keeps init_multipart_upload refl) (λ id. record { at = λ t. refl })).at
          (record s { part_number = some 1 });
  }

  upload_single-Keeps : Keeps (upload_single respond)
  unfolding upload_single
  upload_single-Keeps = record {
    at = λ s. hand_over-then (put_object s.buffer) (λ reply. done) s refl (λ reply. Keeps-done);
  }

  Keeps-if :
      (b : BufferedS3Sink → Bool) (m : Act (Unit {0}))
      → Keeps m
      → Keeps (λ s. if b s then m s else done s)
  Keeps-if b m k = record { at = λ s. branch (b s) s }
    where
      branch : (c : Bool) (s : BufferedS3Sink) → total (if c then m s else done s).1 ≡ total s
      branch true s = k.at s
      branch false s = refl

  call_done-Keeps : (c : Call) → bytes_of c ≡ [] → Keeps (perform respond c >>= λ reply. done)
  call_done-Keeps c e =
      Keeps-bind (perform respond c) (λ reply. done) (perform-Keeps c e) (λ reply. Keeps-done)

  keep_tag-Keeps : (n : ℕ) (etag : Text) → Keeps (keep_tag respond n etag)
  unfolding keep_tag
  keep_tag-Keeps n etag =
      Keeps-then
        (λ s.
          if s.has_sender then (perform respond (send_tag etag) >>= λ reply. done) s else done s)
        (λ s. (
          ok tt,
          record s {
            tags = s.tags ++ record { part_number = n; etag = etag } ∷ [];
            part_number = some (n + 1);
          },
        ))
        (Keeps-if (λ s. s.has_sender) (perform respond (send_tag etag) >>= λ reply. done)
          (call_done-Keeps (send_tag etag) refl))
        (record { at = λ s. refl })

  upload_part-Keeps : Keeps (upload_part respond)
  unfolding upload_part
  upload_part-Keeps = record {
    at = λ s.
        total-option s.part_number (err (anyhow "PartNumber expected"), s) _ s refl
          λ n.
            total-option s.upload_id (err (anyhow "Upload ID not found"), s) _ s refl
              λ up_id.
                hand_over-then (upload_multi_object s.buffer up_id n)
                  (λ etag. keep_tag respond n etag) s refl (λ etag. keep_tag-Keeps n etag);
  }

  finish_multipart-Keeps : Keeps (finish_multipart respond)
  unfolding finish_multipart
  finish_multipart-Keeps = record {
    at = λ s.
        total-option s.upload_id (err (anyhow "Upload ID not found"), s) _ s refl
          λ up_id. (call_done-Keeps (finish_multipart_upload s.tags up_id) refl).at s;
  }

  notify-Keeps : Keeps (notify respond)
  unfolding notify
  notify-Keeps =
      Keeps-if (λ s. s.has_notifier) (perform respond notify_completed >>= λ reply. done)
        (call_done-Keeps notify_completed refl)

  pub flush_large-Keeps : Keeps (flush_large respond)
  unfolding flush_large
  flush_large-Keeps =
      Keeps-if (λ s. exceeds_part s.buffer)
        ((λ t. elim t.upload_id [ none ↦ initialize_multipart respond t | some _ ↦ done t ])
          >> upload_part respond)
        (Keeps-then
          (λ t. elim t.upload_id [ none ↦ initialize_multipart respond t | some _ ↦ done t ])
          (upload_part respond)
          (record {
            at = λ t.
                total-option t.upload_id (initialize_multipart respond t) _ t
                  (initialize_multipart-Keeps.at t) (λ id. refl);
          })
          upload_part-Keeps)

  pub flush_rest-Keeps : (is_finished : Bool) → Keeps (flush_rest respond is_finished)
  unfolding flush_rest
  flush_rest-Keeps is_finished =
      Keeps-if (λ s. is_finished && not (is_empty s.buffer))
        (λ s. elim s.upload_id [
          | none ↦ (upload_single respond >> notify respond) s
          | some _ ↦
              (upload_part respond >> λ t.
              if is_empty t.buffer then (finish_multipart respond >> notify respond) t else done t)
                s
        ])
        (record {
          at = λ s.
              total-option s.upload_id ((upload_single respond >> notify respond) s) _ s
                ((Keeps-then (upload_single respond) (notify respond) upload_single-Keeps
                    notify-Keeps).at
                  s)
                (λ id.
                  (Keeps-then (upload_part respond)
                      (λ t.
                        if is_empty t.buffer
                        then (finish_multipart respond >> notify respond) t
                        else done t)
                      upload_part-Keeps
                      (Keeps-if (λ t. is_empty t.buffer)
                        (finish_multipart respond >> notify respond)
                        (Keeps-then (finish_multipart respond) (notify respond)
                          finish_multipart-Keeps notify-Keeps))).at
                    s);
        })

  pub flush_single_part-Keeps : (is_finished : Bool) → Keeps (flush_single_part respond is_finished)
  unfolding flush_single_part
  flush_single_part-Keeps is_finished =
      Keeps-if (λ s. is_finished && not (is_empty s.buffer)) (upload_part respond >> notify respond)
        (Keeps-then (upload_part respond) (notify respond) upload_part-Keeps notify-Keeps)
