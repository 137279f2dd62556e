-- ===== src/Replication/Pending.antt =====
-- replication/replication_handler.rs: what the queue of `run` holds after any messages and results.
use data_proxy.Base.{
  List, [], ◌∷◌, ◌++◌, Option, none, some, nat_eq, nat_eq_iff, eq_nat, ◌≡◌, ◌≢◌, inl, inr, refl, ap,
  ◌∙◌, arith, if◌then◌else◌, Option-cases, Bool-cases, true, contains, ◌==◌, ◌⊎◌, sym, subst,
}
use data_proxy.Base.Sorting.{In}
use data_proxy.Base.Map.{get, insert, remove, get-insert, get-remove}
use data_proxy.Structs.Format.{DieselUlid}
use data_proxy.Replication.Queue.{
  Direction, eq_direction, ReplicationMessage, Queue, enqueue, without, remove_finished,
  remove_processed,
}

-- What the two tasks of `run` do to the queue: a message came, or a batch was processed.
pub data Event : Type 0 where
  received : ReplicationMessage → Event
  processed : List (DieselUlid × List Direction) → Event

abbrev step : Queue → Event → Queue
step queue (received message) = enqueue queue message
step queue (processed result) = remove_processed queue result

abbrev pub run_events : Queue → List Event → Queue
run_events queue [] = queue
run_events queue (e ∷ rest) = run_events (step queue e) rest

-- The directions that wait for an endpoint.
abbrev pub pending : Queue → DieselUlid → List Direction
pending queue id = elim (get queue id) [ none ↦ [] | some directions ↦ directions ]

-- What is left of a list: those of its directions that are not among the objects, in their order.
abbrev pub Left : List Direction → List Direction → List Direction → Type 0
Left objects [] kept = kept ≡ []
Left objects (dir ∷ l) kept =
    (In dir objects × Left objects l kept)
    ⊎ ((In dir objects → ⊥) × ((rest : List Direction) × (kept ≡ dir ∷ rest) × Left objects l rest))

-- What a batch leaves of the directions that wait for one endpoint.
abbrev pub Processed :
    DieselUlid → List Direction → List (DieselUlid × List Direction) → List Direction → Type 0
Processed id waiting [] kept = kept ≡ waiting
Processed id waiting ((i, objects) ∷ rest) kept =
    ((i ≡ id) × ((next : List Direction) × Left objects waiting next × Processed id next rest kept))
    ⊎ ((i ≢ id) × Processed id waiting rest kept)

-- What waits for one endpoint after the events: a direction that is asked for comes to the end, and
-- those of a batch are taken away.
abbrev pub Waits : DieselUlid → List Direction → List Event → List Direction → Type 0
Waits id waiting [] kept = kept ≡ waiting
Waits id waiting (received m ∷ rest) kept =
    ((m.endpoint_id ≡ id) × Waits id (waiting ++ m.direction ∷ []) rest kept)
    ⊎ ((m.endpoint_id ≢ id) × Waits id waiting rest kept)
Waits id waiting (processed result ∷ rest) kept =
    (next : List Direction) × Processed id waiting result next × Waits id next rest kept

-- The same as functions.
abbrev subtract : DieselUlid → List Direction → List (DieselUlid × List Direction) → List Direction
subtract id waiting [] = waiting
subtract id waiting ((i, objects) ∷ rest) =
    subtract id (if nat_eq i id then without objects waiting else waiting) rest

abbrev waiting_for : DieselUlid → List Direction → List Event → List Direction
waiting_for id waiting [] = waiting
waiting_for id waiting (received m ∷ rest) =
    waiting_for id (if nat_eq m.endpoint_id id then waiting ++ m.direction ∷ [] else waiting) rest
waiting_for id waiting (processed result ∷ rest) = waiting_for id (subtract id waiting result) rest

In-contains :
    (objects : List Direction) (dir : Direction) → contains objects dir ≡ true → In dir objects
In-contains [] dir h = cc
In-contains (d ∷ l) dir h = elim (Bool-cases (d == dir)) [
  | inl e ↦ inl (sym ((eq_direction.same_iff d dir).0 e))
  | inr e ↦ inr (In-contains l dir (ground (arith, e, h)))
]

contains-In :
    (objects : List Direction) (dir : Direction) → In dir objects → contains objects dir ≡ true
contains-In [] dir h = absurd h
contains-In (d ∷ l) dir (inl e) = rw ((eq_direction.same_iff d dir).1 (sym e)) refl
contains-In (d ∷ l) dir (inr i) = ground (arith, contains-In l dir i)

Left-without : (objects l : List Direction) → Left objects l (without objects l)
unfolding without
Left-without objects [] = refl
Left-without objects (dir ∷ l) = elim (Bool-cases (contains objects dir)) [
  | inl e ↦ inl (In-contains objects dir e, rw e (Left-without objects l))
  | inr e ↦ inr (
    (λ i. ground (arith, contains-In objects dir i, e)),
    (without objects l, rw e refl, Left-without objects l),
  )
]

Processed-subtract :
    (id : DieselUlid) (waiting : List Direction) (result : List (DieselUlid × List Direction))
    → Processed id waiting result (subtract id waiting result)
Processed-subtract id waiting [] = refl
Processed-subtract id waiting ((i, objects) ∷ rest) = elim (Bool-cases (nat_eq i id)) [
  | inl e ↦ inl (
    (nat_eq_iff i id).0 e,
    (
      without objects waiting,
      Left-without objects waiting,
      rw e (Processed-subtract id (without objects waiting) rest),
    ),
  )
  | inr e ↦
      inr ((λ s. ground (arith, nat_eq_iff i id, s, e)), rw e (Processed-subtract id waiting rest))
]

Waits-waiting_for :
    (id : DieselUlid) (waiting : List Direction) (events : List Event)
    → Waits id waiting events (waiting_for id waiting events)
Waits-waiting_for id waiting [] = refl
Waits-waiting_for id waiting (received m ∷ rest) = elim (Bool-cases (nat_eq m.endpoint_id id)) [
  | inl e ↦ inl (
    (nat_eq_iff m.endpoint_id id).0 e,
    rw e (Waits-waiting_for id (waiting ++ m.direction ∷ []) rest),
  )
  | inr e ↦ inr (
    (λ s. ground (arith, nat_eq_iff m.endpoint_id id, s, e)),
    rw e (Waits-waiting_for id waiting rest),
  )
]
Waits-waiting_for id waiting (processed result ∷ rest) = (
  subtract id waiting result,
  Processed-subtract id waiting result,
  Waits-waiting_for id (subtract id waiting result) rest,
)

abbrev pub NoEmpty : Queue → Type 0
NoEmpty queue = (id : DieselUlid) → get queue id ≢ some []

-- The value of an endpoint's entry: none for no directions.
abbrev entry : List Direction → Option (List Direction)
entry [] = none
entry (d ∷ rest) = some (d ∷ rest)

at-same :
    (i id : DieselUlid) (x : DieselUlid → Option (List Direction)) (y : Option (List Direction))
    → (if nat_eq i id then x i else y) ≡ (if nat_eq i id then x id else y)
at-same i id x y = elim (Bool-cases (nat_eq i id)) [
  | inl same ↦ ap (λ k. if nat_eq i id then x k else y) ((nat_eq_iff i id).0 same)
  | inr apart ↦ rw apart refl
]

get-enqueue :
    (queue : Queue) (m : ReplicationMessage) (id : DieselUlid)
    → get (enqueue queue m) id ≡ (
        if nat_eq m.endpoint_id id
        then some (pending queue id ++ m.direction ∷ [])
        else get queue id)
unfolding enqueue
get-enqueue queue m id =
    elim (Option-cases (get queue m.endpoint_id)) [
      | inl lacks ↦
          rw (lacks, enqueue, pending) (get-insert queue m.endpoint_id id (m.direction ∷ []))
      | inr (l, e) ↦
          rw (e, enqueue, pending) (get-insert queue m.endpoint_id id (l ++ m.direction ∷ []))
    ]
    ∙ at-same m.endpoint_id id (λ k. some (pending queue k ++ m.direction ∷ [])) (get queue id)

get-remove_finished :
    (queue : Queue) (finished : DieselUlid × List Direction) (id : DieselUlid)
    → get (remove_finished queue finished) id ≡ (
        if nat_eq finished.0 id
        then entry (without finished.1 (pending queue id))
        else get queue id)
unfolding remove_finished without
get-remove_finished queue (i, objects) id =
    elim (Option-cases (get queue i)) [
      | inl lacks ↦ rw (lacks, remove_finished, pending, without) (ground (arith, nat_eq_iff i id))
      | inr (l, e) ↦ rw (e, remove_finished, pending) (left (without objects l))
    ]
    ∙ at-same i id (λ k. entry (without objects (pending queue k))) (get queue id)
  where
    left :
        (kept : List Direction)
        → get
            (elim kept [
              | [] ↦ remove (insert queue i []) i
              | dir ∷ rest ↦ insert queue i (dir ∷ rest)
            ])
            id
          ≡ (if nat_eq i id then entry kept else get queue id)
    left [] = ground (arith, get-remove (insert queue i []) i id, get-insert queue i id [])
    left (d ∷ kept) = get-insert queue i id (d ∷ kept)

-- What `entry` gives is never an empty entry, and reads back as the list.
entry-apart : (l : List Direction) → entry l ≢ some []
entry-apart l = ground arith

pending-finished :
    (queue : Queue) (finished : DieselUlid × List Direction) (id : DieselUlid)
    → pending (remove_finished queue finished) id
      ≡ (if nat_eq finished.0 id then without finished.1 (pending queue id) else pending queue id)
pending-finished queue finished id =
    rw (pending, get-remove_finished queue finished id) (ground arith)

NoEmpty-finished :
    (queue : Queue) (finished : DieselUlid × List Direction)
    → NoEmpty queue
    → NoEmpty (remove_finished queue finished)
NoEmpty-finished queue finished h id e = ground (arith, get-remove_finished queue finished id, h id)

NoEmpty-enqueue :
    (queue : Queue) (m : ReplicationMessage) → NoEmpty queue → NoEmpty (enqueue queue m)
NoEmpty-enqueue queue m h id e = ground (arith, get-enqueue queue m id, h id)

pending-processed :
    (queue : Queue) (result : List (DieselUlid × List Direction)) (id : DieselUlid)
    → pending (remove_processed queue result) id ≡ subtract id (pending queue id) result
unfolding remove_processed
pending-processed queue [] id = refl
pending-processed queue ((i, objects) ∷ rest) id =
    pending-processed (remove_finished queue (i, objects)) rest id
    ∙ ap (λ l. subtract id l rest) (pending-finished queue (i, objects) id)

NoEmpty-processed :
    (queue : Queue) (result : List (DieselUlid × List Direction))
    → NoEmpty queue
    → NoEmpty (remove_processed queue result)
unfolding remove_processed
NoEmpty-processed queue [] h = h
NoEmpty-processed queue (finished ∷ rest) h =
    NoEmpty-processed (remove_finished queue finished) rest (NoEmpty-finished queue finished h)

pending-run :
    (queue : Queue) (events : List Event) (id : DieselUlid)
    → pending (run_events queue events) id ≡ waiting_for id (pending queue id) events
pending-run queue [] id = refl
pending-run queue (received m ∷ rest) id =
    pending-run (enqueue queue m) rest id
    ∙ ap (λ l. waiting_for id l rest) (ground (arith, get-enqueue queue m id))
pending-run queue (processed result ∷ rest) id =
    pending-run (remove_processed queue result) rest id
    ∙ ap (λ l. waiting_for id l rest) (pending-processed queue result id)

NoEmpty-run :
    (queue : Queue) (events : List Event) → NoEmpty queue → NoEmpty (run_events queue events)
NoEmpty-run queue [] h = h
NoEmpty-run queue (received m ∷ rest) h =
    NoEmpty-run (enqueue queue m) rest (NoEmpty-enqueue queue m h)
NoEmpty-run queue (processed result ∷ rest) h =
    NoEmpty-run (remove_processed queue result) rest (NoEmpty-processed queue result h)

-- After any sequence of messages and processed batches, the queue holds for each endpoint exactly
-- the directions that were asked for, in order, less those that batches reported as processed
-- after they came, and it holds no empty entry.
pub pending-run_events :
    (events : List Event) (id : DieselUlid)
    → Waits id [] events (pending (run_events [] events) id)
      × (get (run_events [] events) id ≢ some [])
unfolding get
pending-run_events events id = (
  subst (Waits id [] events) (sym (pending-run [] events id)) (Waits-waiting_for id [] events),
  NoEmpty-run [] events (λ i. ground arith) id,
)
