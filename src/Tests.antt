-- ===== src/Tests.antt =====
-- Concrete data and, in the child modules, each theorem at an input that meets its hypotheses.
mod Client
mod Storage
mod Auth
mod Structs
mod Ranges
mod Sink
mod Location
mod Users
mod Messages
mod Listing
mod Replication
mod Packages
mod Graph
mod Parts
use data_proxy.Base.{
  Bool, true, false, [], ◌∷◌, Option, none, some, Text, codes, ◌==◌, eq_text, if◌then◌else◌,
}
use data_proxy.Base.Int.{pos}
use data_proxy.Structs.Format.{FileFormat, ObjectLocation, DieselUlid}
use data_proxy.Structs.Permission.{DbPermissionLevel}
use data_proxy.Structs.Object.{Object, ObjectType, DataClass, Status, Fresh, Endpoint}
use data_proxy.Structs.States.{AccessKeyPermissions}
use data_proxy.Auth.Requests.{Env, Caller}

abbrev pub sample : DieselUlid → Text → ObjectType → DataClass → Object
sample id name t class = record {
  id = id;
  name = name;
  title = [];
  key_values = [];
  object_status = Status.available;
  data_class = class;
  object_type = t;
  hashes = [];
  metadata_license = [];
  data_license = [];
  dynamic = true;
  children = none;
  parents = none;
  versions = none;
  synced = false;
  endpoints = [];
  created_at = none;
  created_by = none;
}

abbrev pub project_p : Object
project_p = sample 1 (codes "p") ObjectType.project DataClass.private

abbrev pub object_o : Object
object_o = sample 4 (codes "o") ObjectType.object DataClass.public

abbrev pub location_of : FileFormat → ObjectLocation
location_of f = record {
  id = 9;
  bucket = codes "b";
  key = codes "k";
  upload_id = none;
  file_format = f;
  raw_content_len = pos 200000;
  disk_content_len = pos 200000;
  disk_hash = none;
  is_temporary = false;
  ref_count = 1;
}

abbrev pub fresh_id : DieselUlid → Fresh
fresh_id id = record { id = id; now = 0 }

-- The key of user 77, with the level Write on the project.
abbrev pub writer : AccessKeyPermissions
writer = record {
  access_key = codes "key";
  user_id = 77;
  secret = codes "secret";
  is_service_account = false;
  permissions = (1, DbPermissionLevel.write) ∷ [];
}

-- A cache with the project "p" and the object "p/o".
abbrev pub cached : Text → Option Object
cached path =
    if path == codes "p"
    then some project_p
    else if path == codes "p/o"
    then some object_o
    else none

-- A proxy over this cache that knows the given caller and whose rules allow everything.
abbrev pub proxy : Option Caller → Env
proxy caller = record {
  Headers = Unit {0};
  Credentials = Unit {0};
  RuleInput = Unit {0};
  self_id = 5;
  ulid_to_string = λ id. id ∷ [];
  get_full_resource_by_path = cached;
  get_location = λ id. none;
  extract_access_key_perms = λ creds. caller;
  project_get_headers = λ o m h. none;
  build = λ m h states c. some tt;
  evaluate_object = λ input. some true;
}
