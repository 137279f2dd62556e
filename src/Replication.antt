-- ===== src/Replication.antt =====
-- replication/replication_handler.rs: the pull of objects from another proxy: the state of an object, the task that takes the chunks of an object in, and the comparison of what was
-- announced with what came. Channels take what is sent; the checksum (`Md5` in hex) and
-- `DieselUlid::from_str` are parameters.
pub mod Queue
pub mod Pending
pub mod Responses
pub mod Intakes
pub mod Runs
pub mod Accounting
pub mod Announced
pub mod Lost
use data_proxy.Base.{
  ℕ, ◌+◌, Bool, true, false, not, ◌&&◌, List, [], ◌∷◌, ◌++◌, map, Option, none, some, Text, nat_eq,
  nat_eq_iff, ltb, eq_nat, eq_text, ◌==◌, Eq, contains, ◌≡◌, ◌↔◌, arith, length, if◌then◌else◌,
  Result, ok, err, Error, anyhow, ◌>>=◌,
}
use data_proxy.Base.Int.{ℤ, pos, negsuc, as_u64, as_i64}
use data_proxy.Base.Map.{Map, get, insert, remove}
use data_proxy.Structs.Format.{DieselUlid, FileFormat, ObjectLocation}
use data_proxy.Replication.Queue.{Direction, push, pull, eq_direction}

-- The messages of the channel for the comparison; `Finish` ends it and is not kept.
pub data RcvSync : Type 0 where
  info chunk : DieselUlid → ℤ → RcvSync

pub record DataChunk : Type 0 where
  pub object_id : Text
  pub chunk_idx : ℤ
  pub bytes : Text
  pub checksum : Text

pub data ObjectStateStatus : Type 0 where
  not_received : ObjectStateStatus
  infos : ℤ → ℤ → ObjectStateStatus

-- `ObjectState::update_state`; the state is all of `ObjectState` but its channel.
unfoldable pub update_state : ObjectStateStatus → ℤ → ℤ → ObjectStateStatus
update_state state max_chunks size = infos max_chunks size

unfoldable pub is_synced : ObjectStateStatus → Bool
is_synced not_received = false
is_synced (infos max_chunks size) = true

unfoldable pub get_size : ObjectStateStatus → Option ℤ
get_size not_received = none
get_size (infos max_chunks size) = some size

abbrev is_positive : ℤ → Bool
is_positive (pos n) = ltb 0 n
is_positive (negsuc n) = false

unfoldable pub get_chunks : ObjectStateStatus → Result ℤ
get_chunks not_received = err (anyhow "Not synced")
get_chunks (infos max_chunks size) =
    if is_positive max_chunks then ok max_chunks else err (anyhow "Invalid max chunks received")

-- `pull` in `process`: the objects of an endpoint's entry that are to be pulled.
unfoldable pub pulls : List Direction → List DieselUlid
pulls [] = []
pulls (pull id ∷ rest) = id ∷ pulls rest
pulls (push id ∷ rest) = pulls rest

-- The task of `load_into_backend`: the next index, the retries, and what it has sent: requests to
-- repeat a chunk, data for the backend, messages for the comparison.
pub record Intake : Type 0 where
  pub expected : ℕ
  pub retry_counter : ℕ
  pub retries : List (Text × ℤ)
  pub forwarded : List Text
  pub synced : List RcvSync

abbrev pub new_intake : Intake
new_intake = record { expected = 0; retry_counter = 0; retries = []; forwarded = []; synced = [] }

abbrev pub int_eq : ℤ → ℤ → Bool
int_eq (pos n) (pos m) = nat_eq n m
int_eq (negsuc n) (negsuc m) = nat_eq n m
int_eq _ _ = false

-- A request to repeat a chunk, or the end with an error once there were more than five.
unfoldable pub retry : Text → ℤ → Error → Intake → Option (Result (Unit {0})) × Intake
retry object_id idx failure intake =
    if ltb 5 intake.retry_counter then (some (err failure), intake) else (
      none,
      record intake {
        retry_counter = intake.retry_counter + 1;
        retries = intake.retries ++ (object_id, idx) ∷ [];
      },
    )

module _ (md5 : Text → Text) (from_str : Text → Result DieselUlid) (max_chunks : ℤ) where
  -- A chunk of the expected index and with the right checksum.
  unfoldable pub accept : DataChunk → Intake → Option (Result (Unit {0})) × Intake
  accept c intake =
      let sent = record intake { forwarded = intake.forwarded ++ c.bytes ∷ [] } in
      elim (from_str c.object_id) [
        | err e ↦ (some (err e), sent)
        | ok id ↦ (
          if int_eq (pos intake.expected) max_chunks then some (ok tt) else none,
          record sent { synced = intake.synced ++ chunk id c.chunk_idx ∷ [] },
        )
      ]

  -- A turn of the loop: `some` is a return. The expected index is raised before the checksum is
  -- compared.
  unfoldable pub take_in : DataChunk → Intake → Option (Result (Unit {0})) × Intake
  unfolding retry accept
  take_in c intake =
      if int_eq c.chunk_idx (pos intake.expected)
      then (let next = record intake { expected = intake.expected + 1 } in
          if md5 c.bytes == c.checksum
          then accept c next
          else retry c.object_id c.chunk_idx
              (anyhow "Exceeded retries for chunk because of differing checksums") next)
      else retry c.object_id (pos intake.expected)
          (anyhow "Exceeded retries for chunk because of skipped chunk") intake

  -- The loop, over the chunks that come until the channel closes.
  unfoldable pub take_all : List DataChunk → Intake → Result (Unit {0}) × Intake
  take_all [] intake = (ok tt, intake)
  take_all (c ∷ rest) intake = elim (take_in c intake).0 [
    | some r ↦ (r, (take_in c intake).1)
    | none ↦ take_all rest (take_in c intake).1
  ]

abbrev sync_same : RcvSync → RcvSync → Bool
sync_same (info i n) (info j m) = nat_eq i j && int_eq n m
sync_same (chunk i n) (chunk j m) = nat_eq i j && int_eq n m
sync_same _ _ = false

pub sync_same_iff : (x y : RcvSync) → (sync_same x y ≡ true) ↔ (x ≡ y)
sync_same_iff (info i n) (info j m) = ground arith
sync_same_iff (info i n) (chunk j m) = ground arith
sync_same_iff (chunk i n) (info j m) = ground arith
sync_same_iff (chunk i n) (chunk j m) = ground arith

instance abbrev pub eq_sync : Eq RcvSync
eq_sync = record { same = sync_same; same_iff = sync_same_iff }

-- The set of messages that came before `Finish`.
unfoldable pub collect_sync : List RcvSync → List RcvSync → List RcvSync
collect_sync sync [] = sync
collect_sync sync (msg ∷ rest) =
    collect_sync (if contains sync msg then sync else sync ++ msg ∷ []) rest

-- How many chunks of an object there are in the set.
unfoldable pub collected : DieselUlid → List RcvSync → ℕ
collected object_id [] = 0
collected object_id (info id n ∷ rest) = collected object_id rest
collected object_id (chunk id idx ∷ rest) =
    let more = collected object_id rest in if nat_eq object_id id then more + 1 else more

-- One `Info` against the set; the map says which directions are done, and which were done before.
unfoldable pub compare_info :
    List RcvSync → DieselUlid → ℤ → Map Direction Bool → Result (Map Direction Bool)
unfolding collected
compare_info finished object_id chunks finished_objects =
    if nat_eq (as_u64 chunks) (collected object_id finished)
    then ok (insert finished_objects (pull object_id) false)
    else elim (get finished_objects (pull object_id)) [
      | some true ↦ ok finished_objects
      | some false ↦ err (anyhow "Not all chunks received, aborting sync")
      | none ↦ err (anyhow "Not all chunks received, aborting sync")
    ]

unfoldable pub compare_infos :
    List RcvSync → List RcvSync → Map Direction Bool → Result (Map Direction Bool)
compare_infos finished [] finished_objects = ok finished_objects
compare_infos finished (info id chunks ∷ rest) finished_objects =
    compare_info finished id chunks finished_objects >>= λ (after : Map Direction Bool).
    compare_infos finished rest after
compare_infos finished (chunk id idx ∷ rest) finished_objects =
    compare_infos finished rest finished_objects

-- What is read of the `Footer` of the stream: the keys, the size and the hash of the file.
pub record Footer : Type 0 where
  pub encryption_keys : Option (List Text)
  pub disk_file_size : ℕ
  pub disk_hash_sha256 : Text

-- The end of `load_into_backend`: the location with what the footer says; `encode` is `hex::encode`.
unfoldable pub close_location : (Text → Text) → Footer → ObjectLocation → Result ObjectLocation
close_location encode footer location = elim footer.encryption_keys [
  | none ↦ err (anyhow "Unable to extract keys")
  | some [] ↦ err (anyhow "Unable to extract key")
  | some (key ∷ more) ↦ ok (record location {
    file_format = FileFormat.pithos key;
    disk_content_len = as_i64 footer.disk_file_size;
    disk_hash = some (encode footer.disk_hash_sha256);
  })
]
