-- ===== src/Structs/Permission.antt =====
-- structs.rs: `DbPermissionLevel`, its derived order and its conversions; helpers.rs: `is_method_read`.
use data_proxy.Base.{ℕ, Bool, true, false, leb, ◌≡◌, arith, Text}

-- `http::Method`; every method that the program does not name is `other`.
pub data Method : Type 0 where
  get head options post put delete : Method
  other : Text → Method

-- The gRPC enum `PermissionLevel`.
pub data PermissionLevel : Type 0 where
  unspecified none read append write admin : PermissionLevel

pub data DbPermissionLevel : Type 0 where
  deny none read append write admin : DbPermissionLevel

-- The position of a variant, by which the derived `Ord` compares.
unfoldable pub rank : DbPermissionLevel → ℕ
rank DbPermissionLevel.deny = 0
rank DbPermissionLevel.none = 1
rank DbPermissionLevel.read = 2
rank DbPermissionLevel.append = 3
rank DbPermissionLevel.write = 4
rank DbPermissionLevel.admin = 5

-- `held >= required`
unfoldable pub grants : DbPermissionLevel → DbPermissionLevel → Bool
unfolding rank
grants held required = leb (rank required) (rank held)

-- `impl From<&Method> for DbPermissionLevel`
unfoldable pub level_of_method : Method → DbPermissionLevel
level_of_method Method.get = DbPermissionLevel.read
level_of_method Method.options = DbPermissionLevel.read
level_of_method Method.head = DbPermissionLevel.read
level_of_method Method.post = DbPermissionLevel.append
level_of_method Method.put = DbPermissionLevel.append
level_of_method Method.delete = DbPermissionLevel.write
level_of_method (Method.other m) = DbPermissionLevel.admin

-- `impl From<PermissionLevel> for DbPermissionLevel`
unfoldable pub level_of_grpc : PermissionLevel → DbPermissionLevel
level_of_grpc PermissionLevel.unspecified = DbPermissionLevel.none
level_of_grpc PermissionLevel.none = DbPermissionLevel.none
level_of_grpc PermissionLevel.read = DbPermissionLevel.read
level_of_grpc PermissionLevel.append = DbPermissionLevel.append
level_of_grpc PermissionLevel.write = DbPermissionLevel.write
level_of_grpc PermissionLevel.admin = DbPermissionLevel.admin

-- helpers.rs: `is_method_read`
unfoldable pub is_method_read : Method → Bool
is_method_read Method.get = true
is_method_read Method.head = true
is_method_read Method.options = true
is_method_read _ = false

leb_trans : (x y z : ℕ) → leb x y ≡ true → leb y z ≡ true → leb x z ≡ true
leb_trans x y z p q = ground arith

-- The derived order is transitive.
pub grants_trans :
    (a b c : DbPermissionLevel) → grants a b ≡ true → grants b c ≡ true → grants a c ≡ true
unfolding grants
grants_trans a b c h k = leb_trans (rank c) (rank b) (rank a) k h

-- A reading method asks for `Read`.
pub level_of_method-read :
    (m : Method) → is_method_read m ≡ true → level_of_method m ≡ DbPermissionLevel.read
unfolding is_method_read level_of_method
level_of_method-read m h = ground arith
