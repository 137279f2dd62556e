-- ===== src/Tests/Client.antt =====
-- The theorems of Client at concrete inputs.
use data_proxy.Base.{
  ℕ, List, [], ◌∷◌, false, Option, none, some, Text, codes, Result, ok, err, anyhow, ◌≡◌, ◌≢◌, refl,
  inl, inr, eq_nat, length,
}
use data_proxy.Base.Map.{get, insert}
use data_proxy.Structs.Format.{DieselUlid}
use data_proxy.Structs.Permission.{PermissionLevel}
use data_proxy.Structs.Object.{ResourceVariant, Status, DataClass, full_sync, id_of, into_option}
use data_proxy.Structs.Messages.{
  GrpcResource, Resource, DataEndpoint, ReplicationStatus, object_from_object, endpoint_of,
  object_from_resource,
}
use data_proxy.Cache.{Cache}
use data_proxy.Cache.Objects.{upsert_object}
use data_proxy.Cache.Graph.{get_parents}
use data_proxy.Cache.Users.{User, Permissions}
use data_proxy.Cache.Accounts.{
  ResourceId, Token, UserAttributes, GrpcUser, user_of, extract_access_key_permissions,
}
use data_proxy.Cache.Accounts.Personal.{user_of-personal}
use data_proxy.Base.Sorting.{In}
use data_proxy.Client
use data_proxy.Client.{GrpcPubkey}
use data_proxy.Client.Base.{World}
use data_proxy.Client.Events.{EventVariant, ResourceEvent, process_resource_event}
use data_proxy.Client.FullSync.{Target, generic_resource, full_sync_endpoint}
use data_proxy.Client.Synced.{Entered, full_sync_endpoint-Entered}
use data_proxy.Client.Refreshed.{Fetched, process_resource_event-Fetched}

-- An identifier is printed as one character.
abbrev pub read : Text → Result DieselUlid
read [] = err (anyhow "empty")
read (c ∷ []) = ok c
read (c ∷ d ∷ s) = err (anyhow "long")

abbrev pub print : DieselUlid → Text
print id = id ∷ []

-- A message without relations.
abbrev pub message : Text → Text → List DataEndpoint → GrpcResource
message id name endpoints = record {
  id = id;
  name = name;
  title = [];
  key_values = [];
  status = Status.available;
  data_class = DataClass.private;
  relations = [];
  metadata_license_tag = [];
  data_license_tag = [];
  dynamic = false;
  endpoints = endpoints;
  created_at = none;
  created_by = print 9;
}

-- A client of a server that answers by the number of the requests so far.
abbrev pub client : (ℕ → GrpcResource) → Client.Env
client answer = record {
  endpoint_id = print 7;
  long_lived_token = codes "t";
  to_string = print;
  from_str = read;
  from_timestamp = λ seconds nanos. none;
  header = λ token. ok tt;
  resource = λ calls. ok (some (answer (length calls)));
  user = λ calls. ok none;
  public_keys = λ calls. ok [];
  finished = λ calls. ok tt;
  transaction = λ o. ok tt;
  rounds = 6;
  deletion = λ id. ok tt;
  delete_data = λ location. ok tt;
  persist = λ write. ok tt;
  delete_pubkeys = ok tt;
  upsert_pubkey = λ key. ok tt;
  from_ed_pem = λ text. ok text;
  queued = λ messages. ok tt;
}

abbrev pub world : Cache → World
world cache = record {
  cache = cache;
  keys = record { users = []; access_keys = [] };
  parts = [];
  pubkeys = [];
  calls = [];
  messages = [];
  finalizing = [];
}

abbrev pub empty : World
empty = world (record { resources = []; bundles = []; paths = [] })

abbrev pub world_of : {A : Type 0} → Option (Result A × World) → World
world_of none = empty
world_of (some (r, w)) = w

abbrev waiting_here : DataEndpoint
waiting_here = record { id = print 7; variant = some full_sync; status = ReplicationStatus.waiting }

abbrev finished_there : DataEndpoint
finished_there = record {
  id = print 8;
  variant = some full_sync;
  status = ReplicationStatus.finished;
}

abbrev spread : GrpcResource
spread = message (print 4) (codes "o") (waiting_here ∷ finished_there ∷ [])

abbrev lonely : GrpcResource
lonely = message (print 4) (codes "o") (waiting_here ∷ [])

abbrev update : ResourceEvent
update = record {
  event_variant = EventVariant.updated;
  resource = some (record { resource_id = print 4; resource_variant = ResourceVariant.object });
  reply = some (codes "r");
}

process_resource_event-Fetched_example :
    (some (codes "r") ≡ some (codes "r"))
    × Fetched
        (client (λ n. spread))
        empty
        (world_of (process_resource_event (client (λ n. spread)) update empty))
        (print 4)
        ResourceVariant.object
unfolding process_resource_event object_from_object endpoint_of upsert_object get_parents get insert
    id_of into_option
process_resource_event-Fetched_example =
    process_resource_event-Fetched (client (λ n. spread)) update
      (record { resource_id = print 4; resource_variant = ResourceVariant.object }) empty (inr refl)
      refl (λ e. cc) refl

abbrev targets : List (Option Target)
targets =
    some (generic_resource (some (Resource.object spread))) ∷ some (generic_resource none) ∷ []

full_sync_endpoint-Entered_example :
    Entered
      (client (λ n. spread))
      (world_of (full_sync_endpoint (client (λ n. spread)) targets empty))
      (Resource.object spread)
unfolding full_sync_endpoint object_from_resource endpoint_of upsert_object get_parents get insert
    id_of into_option
full_sync_endpoint-Entered_example =
    full_sync_endpoint-Entered (client (λ n. spread)) targets empty (Resource.object spread) refl
      (inl refl)

abbrev bare : Token
bare = record { id = print 3; permission = none }

abbrev attributes : UserAttributes
attributes = record {
  personal_permissions =
      record {
        resource_id = some (ResourceId.project_id (print 1));
        permission_level = PermissionLevel.read;
      }
      ∷ [];
  tokens = bare ∷ [];
  data_proxy_attributes = [];
  custom_attributes = [];
  service_account = false;
}

abbrev someone : GrpcUser
someone = record { id = print 2; attributes = some attributes }

abbrev made_up : User
made_up = record {
  user_id = 2;
  personal_permissions = [];
  tokens = [];
  is_service_account = false;
  attributes = [];
}

abbrev keys : List (Text × Permissions)
keys = elim (extract_access_key_permissions read someone) [ ok l ↦ l | err e ↦ [] ]

user_of-personal_example :
    (user_of read someone ≢ ok made_up)
    × ((personal : Permissions) × In (print 2, personal) keys × In (print 3, personal) keys)
unfolding extract_access_key_permissions
user_of-personal_example =
    user_of-personal read bare refl someone attributes made_up {keys = keys} refl (inl refl) refl
