-- ===== src/Replication/Queue.antt =====
-- replication/replication_handler.rs: the queue of `run`, which holds for each endpoint the directions
-- that are to be processed.
use data_proxy.Base.{
  Bool, true, false, List, [], ◌∷◌, ◌++◌, none, some, nat_eq, eq_nat, Eq, contains, ◌≡◌, ◌↔◌, arith,
  if◌then◌else◌,
}
use data_proxy.Base.Map.{Map, get, insert, remove}
use data_proxy.Structs.Format.{DieselUlid}

pub data Direction : Type 0 where
  push pull : DieselUlid → Direction

abbrev direction_same : Direction → Direction → Bool
direction_same (push i) (push j) = nat_eq i j
direction_same (pull i) (pull j) = nat_eq i j
direction_same _ _ = false

pub direction_same_iff : (x y : Direction) → (direction_same x y ≡ true) ↔ (x ≡ y)
direction_same_iff x y = ground arith

instance abbrev pub eq_direction : Eq Direction
eq_direction = record { same = direction_same; same_iff = direction_same_iff }

pub record ReplicationMessage : Type 0 where
  pub direction : Direction
  pub endpoint_id : DieselUlid

-- The queue of `run`: a message goes to the end of its endpoint's entry.
abbrev pub Queue : Type 0
Queue = Map DieselUlid (List Direction)

unfoldable pub enqueue : Queue → ReplicationMessage → Queue
enqueue queue message = elim (get queue message.endpoint_id) [
  | some objects ↦ insert queue message.endpoint_id (objects ++ message.direction ∷ [])
  | none ↦ insert queue message.endpoint_id (message.direction ∷ [])
]

unfoldable pub without : List Direction → List Direction → List Direction
without objects [] = []
without objects (dir ∷ directions) =
    let rest = without objects directions in if contains objects dir then rest else dir ∷ rest

-- `queue.alter(..)` with what is left, and the removal of an entry that is empty.
unfoldable pub remove_finished : Queue → DieselUlid × List Direction → Queue
unfolding without
remove_finished queue (id, objects) = elim (get queue id) [
  | none ↦ queue
  | some directions ↦ elim (without objects directions) [
    | [] ↦ remove (insert queue id []) id
    | dir ∷ rest ↦ insert queue id (dir ∷ rest)
  ]
]

unfoldable pub remove_processed : Queue → List (DieselUlid × List Direction) → Queue
remove_processed queue [] = queue
remove_processed queue (finished ∷ result) =
    remove_processed (remove_finished queue finished) result
