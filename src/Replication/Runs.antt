-- ===== src/Replication/Runs.antt =====
-- replication/replication_handler.rs: whole runs of the intake of chunks.
use data_proxy.Base.{
  ℕ, suc, ◌+◌, ◌≤◌, ◌<◌, List, [], ◌∷◌, ◌++◌, map, append_assoc, append-nil, subst, Option, none,
  some, Text, ◌≡◌, ◌≢◌, ap, ◌∙◌, arith, length, text_eq_iff, eq_text, nat_eq, Result, ok,
  if◌then◌else◌,
}
use data_proxy.Base.Int.{pos}
use data_proxy.Structs.Format.{DieselUlid}
use data_proxy.Replication.{
  RcvSync, chunk, DataChunk, Intake, new_intake, retry, accept, take_in, take_all,
}

-- The chunks of one object from index `n` on, in order and with their checksums.
abbrev pub InOrder : (Text → Text) → Text → ℕ → List DataChunk → Type 0
InOrder md5 object n [] = Unit
InOrder md5 object n (c ∷ l) =
    (c.object_id ≡ object)
    × (c.chunk_idx ≡ pos n)
    × (md5 c.bytes ≡ c.checksum)
    × InOrder md5 object (suc n) l

abbrev pub bytes_of : List DataChunk → List Text
bytes_of l = map (λ (c : DataChunk). c.bytes) l

abbrev pub message : DieselUlid → DataChunk → RcvSync
message id c = chunk id c.chunk_idx

-- The intake after chunks that were all accepted.
abbrev advance : DieselUlid → List DataChunk → Intake → Intake
advance id l s = record s {
  expected = s.expected + length l;
  forwarded = s.forwarded ++ bytes_of l;
  synced = s.synced ++ map (message id) l;
}

-- The index after `n`, as the intake counts it.
InOrder-next :
    (md5 : Text → Text) (object : Text) (n : ℕ) (l : List DataChunk)
    → InOrder md5 object (suc n) l
    → InOrder md5 object (n + 1) l
InOrder-next md5 object n l o = subst (λ m. InOrder md5 object m l) (omega arith) o

module _ (md5 : Text → Text) (from_str : Text → Result DieselUlid) (total : ℕ) (object : Text)
    (id : DieselUlid) (named : from_str object ≡ ok id) where
  take_in-good :
      (c : DataChunk) (s : Intake)
      → c.object_id ≡ object
      → c.chunk_idx ≡ pos s.expected
      → md5 c.bytes ≡ c.checksum
      → take_in md5 from_str (pos total) c s
        ≡ ((if nat_eq (s.expected + 1) total then some (ok tt) else none), advance id (c ∷ []) s)
  unfolding take_in accept
  take_in-good c s o i h = ground (arith, text_eq_iff (md5 c.bytes) c.checksum)

  -- A turn that goes on, and one that returns.
  take_all-on :
      (c : DataChunk) (l : List DataChunk) (s t : Intake)
      → take_in md5 from_str (pos total) c s ≡ (none, t)
      → take_all md5 from_str (pos total) (c ∷ l) s ≡ take_all md5 from_str (pos total) l t
  unfolding take_all
  take_all-on c l s t e =
      rw (ap (λ (x : Option (Result (Unit {0})) × Intake). x.0) e, take_all)
        (ap (λ (x : Option (Result (Unit {0})) × Intake). take_all md5 from_str (pos total) l x.1)
          e)

  take_all-return :
      (c : DataChunk) (l : List DataChunk) (s t : Intake) (r : Result (Unit {0}))
      → take_in md5 from_str (pos total) c s ≡ (some r, t)
      → take_all md5 from_str (pos total) (c ∷ l) s ≡ (r, t)
  unfolding take_all
  take_all-return c l s t r e =
      rw (ap (λ (x : Option (Result (Unit {0})) × Intake). x.0) e, take_all)
        (ap (λ (x : Option (Result (Unit {0})) × Intake). (r, x.1)) e)

  take_in-on :
      (c : DataChunk) (s : Intake)
      → c.object_id ≡ object
      → c.chunk_idx ≡ pos s.expected
      → md5 c.bytes ≡ c.checksum
      → s.expected + 1 < total
      → take_in md5 from_str (pos total) c s ≡ (none, advance id (c ∷ []) s)
  take_in-on c s o i r h = ground (arith, take_in-good c s o i r)

  take_in-last :
      (c : DataChunk) (s : Intake)
      → c.object_id ≡ object
      → c.chunk_idx ≡ pos s.expected
      → md5 c.bytes ≡ c.checksum
      → s.expected + 1 ≡ total
      → take_in md5 from_str (pos total) c s ≡ (some (ok tt), advance id (c ∷ []) s)
  take_in-last c s o i r h = ground (arith, take_in-good c s o i r)

  advance-cons :
      (c : DataChunk) (l : List DataChunk) (s : Intake)
      → advance id l (advance id (c ∷ []) s) ≡ advance id (c ∷ l) s
  advance-cons c l s = ground (
    arith,
    append_assoc s.forwarded (c.bytes ∷ []) (bytes_of l),
    append_assoc s.synced (message id c ∷ []) (map (message id) l),
  )

  -- Chunks in order that are not the last ones are accepted, and the run goes on.
  run_on :
      (l rest : List DataChunk) (s : Intake)
      → InOrder md5 object s.expected l
      → s.expected + length l < total
      → take_all md5 from_str (pos total) (l ++ rest) s
        ≡ take_all md5 from_str (pos total) rest (advance id l s)
  unfolding take_all
  run_on [] rest s o h =
      ap (take_all md5 from_str (pos total) rest)
        (ground (arith, append-nil s.forwarded, append-nil s.synced))
  run_on (c ∷ l) rest s (obj, idx, right, o) h =
      let t = advance id (c ∷ []) s in
      take_all-on c (l ++ rest) s t (take_in-on c s obj idx right (omega arith))
      ∙ (run_on l rest t (InOrder-next md5 object s.expected l o) (omega arith)
          ∙ ap (take_all md5 from_str (pos total) rest) (advance-cons c l s))

  -- Chunks in order up to the last one end the run.
  run_end :
      (l rest : List DataChunk) (s : Intake)
      → InOrder md5 object s.expected l
      → 0 < length l
      → s.expected + length l ≡ total
      → take_all md5 from_str (pos total) (l ++ rest) s ≡ (ok tt, advance id l s)
  unfolding take_all
  run_end [] rest s o p h = absurd (omega arith)
  run_end (c ∷ []) rest s (obj, idx, right, o) p h =
      take_all-return c rest s (advance id (c ∷ []) s) (ok tt)
        (take_in-last c s obj idx right (omega arith))
  run_end (c ∷ d ∷ l) rest s (obj, idx, right, o) p h =
      let t = advance id (c ∷ []) s in
      take_all-on c ((d ∷ l) ++ rest) s t (take_in-on c s obj idx right (omega arith))
      ∙ (run_end (d ∷ l) rest t (InOrder-next md5 object s.expected (d ∷ l) o) (omega arith)
            (omega arith)
          ∙ ap (λ x. (ok tt, x)) (advance-cons c (d ∷ l) s))

  -- When all chunks of an object come in order with their checksums, and are as many as announced,
  -- at least one, the intake ends without error after the last of them, whatever follows, has
  -- passed on their data in order and has asked for no chunk again.
  pub complete_run :
      (l rest : List DataChunk)
      → InOrder md5 object 0 l
      → 0 < length l
      → length l ≡ total
      → let (r, t) = take_all md5 from_str (pos total) (l ++ rest) new_intake in
        (r ≡ ok tt) × (t.forwarded ≡ bytes_of l) × (t.retries ≡ [])
  complete_run l rest o p h =
      let e = run_end l rest new_intake o p (omega arith) in
      (
        ap (λ (x : Result (Unit {0}) × Intake). x.0) e,
        ap (λ (x : Result (Unit {0}) × Intake). x.1.forwarded) e,
        ap (λ (x : Result (Unit {0}) × Intake). x.1.retries) e,
      )

  -- A chunk of the expected index whose checksum differs is asked for again, and the index is raised.
  take_in-wrong :
      (c : DataChunk) (s : Intake)
      → c.chunk_idx ≡ pos s.expected
      → md5 c.bytes ≢ c.checksum
      → s.retry_counter ≤ 5
      → take_in md5 from_str (pos total) c s ≡ (
        none,
        record s {
          expected = s.expected + 1;
          retry_counter = s.retry_counter + 1;
          retries = s.retries ++ (c.object_id, c.chunk_idx) ∷ [];
        },
      )
  unfolding take_in retry
  take_in-wrong c s i n f = ground (arith, text_eq_iff (md5 c.bytes) c.checksum)

  -- A chunk whose checksum differs is asked for again, but the run ends without it.
  pub corrupted_run :
      (before after rest : List DataChunk) (bad : DataChunk)
      → InOrder md5 object 0 before
      → bad.chunk_idx ≡ pos (length before)
      → md5 bad.bytes ≢ bad.checksum
      → InOrder md5 object (suc (length before)) after
      → 0 < length after
      → length before + 1 + length after ≡ total
      → let (r, t) =
          take_all md5 from_str (pos total) (before ++ bad ∷ (after ++ rest)) new_intake in
        (r ≡ ok tt)
        × (t.forwarded ≡ bytes_of before ++ bytes_of after)
        × (t.synced ≡ map (message id) before ++ map (message id) after)
        × (t.retries ≡ (bad.object_id, bad.chunk_idx) ∷ [])
  corrupted_run before after rest bad o idx wrong p q h =
      let s = advance id before new_intake in
      let t = record s {
        expected = s.expected + 1;
        retry_counter = s.retry_counter + 1;
        retries = s.retries ++ (bad.object_id, bad.chunk_idx) ∷ [];
      } in
      let e =
        run_on before (bad ∷ (after ++ rest)) new_intake o (omega arith)
        ∙ (take_all-on bad (after ++ rest) s t
              (take_in-wrong bad s (rw idx (ground arith)) wrong (omega arith))
            ∙ run_end after rest t (subst (λ n. InOrder md5 object n after) (omega arith) p) q
                (omega arith)) in
      (
        ap (λ (x : Result (Unit {0}) × Intake). x.0) e,
        ap (λ (x : Result (Unit {0}) × Intake). x.1.forwarded) e,
        ap (λ (x : Result (Unit {0}) × Intake). x.1.synced) e,
        ap (λ (x : Result (Unit {0}) × Intake). x.1.retries) e,
      )
