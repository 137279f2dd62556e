-- ===== src/Tests/Parts.antt =====
-- The theorems of Cache/Parts, Cache/Secrets and Structs/Cors at concrete inputs.
use data_proxy.Base.{
  ℕ, false, [], ◌∷◌, none, some, ok, err, Result, anyhow, Text, codes, eq_text, eq_nat,
}
use data_proxy.Base.Int.{pos}
use data_proxy.Structs.Format.{DieselUlid}
use data_proxy.Structs.Permission.{DbPermissionLevel}
use data_proxy.Structs.Cors.{CorsRule}
use data_proxy.Cache.Users.{User, Keys}
use data_proxy.Cache.Parts.{UploadPart}

abbrev part_of_size : ℕ → UploadPart
part_of_size size = record {
  id = 1;
  object_id = 4;
  upload_id = codes "u";
  part_number = 1;
  raw_size = size;
  size = size;
}

abbrev someone : User
someone = record {
  user_id = 77;
  personal_permissions = (1, DbPermissionLevel.write) ∷ [];
  tokens = (8, (2, DbPermissionLevel.read) ∷ []) ∷ [];
  is_service_account = false;
  attributes = [];
}

abbrev known_keys : Keys
known_keys = record { users = (77, (someone, [])) ∷ []; access_keys = [] }

abbrev one_letter : Text → Result DieselUlid
one_letter [] = err (anyhow "Invalid")
one_letter (c ∷ text) = ok c

abbrev open_rule : CorsRule
open_rule = record {
  id = none;
  allowed_headers = some (codes "content-type" ∷ []);
  allowed_methods = codes "GET" ∷ [];
  allowed_origins = codes "o" ∷ [];
  expose_headers = none;
  max_age_seconds = pos 5;
}
