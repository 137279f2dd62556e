-- ===== src/Structs/Format.antt =====
-- structs.rs: `FileFormat` and `ObjectLocation`.
use data_proxy.Base.{
  ℕ, ◌+◌, ◌/◌, ◌↔◌, ◌||◌, Bool, true, false, Option, none, some, Text, List, ◌≡◌, arith,
  if◌then◌else◌,
}
use data_proxy.Base.Int.{ℤ, as_u64, add_u64}

-- A `[u8; 32]` key.
abbrev pub Key : Type 0
Key = List ℕ

pub data FileFormat : Type 0 where
  raw : FileFormat
  raw_encrypted : Key → FileFormat
  raw_compressed : FileFormat
  raw_encrypted_compressed : Key → FileFormat
  pithos : Key → FileFormat

-- `FileFormat::from_bools`; the random key is an argument.
unfoldable pub from_bools : Key → Bool → Bool → Bool → FileFormat
from_bools enc_key true _ _ = pithos enc_key
from_bools enc_key false true false = raw_encrypted enc_key
from_bools enc_key false false true = raw_compressed
from_bools enc_key false true true = raw_encrypted_compressed enc_key
from_bools enc_key false false false = raw

unfoldable pub is_encrypted : FileFormat → Bool
is_encrypted (raw_encrypted k) = true
is_encrypted (raw_encrypted_compressed k) = true
is_encrypted (pithos k) = true
is_encrypted _ = false

unfoldable pub is_compressed : FileFormat → Bool
is_compressed raw_compressed = true
is_compressed (raw_encrypted_compressed k) = true
is_compressed (pithos k) = true
is_compressed _ = false

unfoldable pub get_encryption_key : FileFormat → Option Key
get_encryption_key (raw_encrypted key) = some key
get_encryption_key (raw_encrypted_compressed key) = some key
get_encryption_key (pithos key) = some key
get_encryption_key _ = none

-- `DieselUlid`: an identifier of 128 bits, which the program compares, copies and prints.
abbrev pub DieselUlid : Type 0
DieselUlid = ℕ

pub record ObjectLocation : Type 0 where
  pub id : DieselUlid
  pub bucket : Text
  pub key : Text
  pub upload_id : Option Text
  pub file_format : FileFormat
  pub raw_content_len : ℤ
  pub disk_content_len : ℤ
  pub disk_hash : Option Text
  pub is_temporary : Bool
  pub ref_count : ℕ

unfoldable pub is_pithos : ObjectLocation → Bool
is_pithos l = elim l.file_format [ pithos _ ↦ true | _ ↦ false ]

-- `ObjectLocation::is_compressed`
unfoldable pub location_is_compressed : ObjectLocation → Bool
location_is_compressed l = elim l.file_format [
  | raw_compressed ↦ true
  | raw_encrypted_compressed _ ↦ true
  | pithos _ ↦ true
  | _ ↦ false
]

-- `ObjectLocation::get_encryption_key`
unfoldable pub location_encryption_key : ObjectLocation → Option Key
unfolding get_encryption_key
location_encryption_key l = get_encryption_key l.file_format

-- The tests of `count_blocks`, on the format and the length.
unfoldable pub blocks : FileFormat → ℤ → ℕ
blocks raw_compressed n = add_u64 (as_u64 n / 65536) 1
blocks raw n = add_u64 (as_u64 n / 65536) 1
blocks (raw_encrypted _) n = add_u64 (add_u64 (as_u64 n) 109 / (65536 + 28)) 1
blocks (raw_encrypted_compressed _) n = add_u64 (add_u64 (as_u64 n) 109 / (65536 + 28)) 1
blocks (pithos _) n = add_u64 (add_u64 (as_u64 n) 109 / (65536 + 28)) 1

-- `ObjectLocation::count_blocks`
unfoldable pub count_blocks : ObjectLocation → ℕ
unfolding blocks
count_blocks l = blocks l.file_format l.raw_content_len

-- The three views of a format agree: a key is held exactly by the encrypted formats.
pub encryption_key_iff : (f : FileFormat) → (is_encrypted f ≡ false) ↔ (get_encryption_key f ≡ none)
unfolding is_encrypted get_encryption_key
encryption_key_iff f = ground arith

-- from_bools gives a format that is encrypted exactly if Pithos or encryption is allowed,
-- compressed exactly if Pithos or compression is allowed, and that holds the given key exactly if
-- it is encrypted.
pub from_bools_features :
    (key : Key) (allow_pithos allow_encryption allow_compression : Bool)
    → let f = from_bools key allow_pithos allow_encryption allow_compression in
      (is_encrypted f ≡ (allow_pithos || allow_encryption))
      × (is_compressed f ≡ (allow_pithos || allow_compression))
      × (get_encryption_key f ≡ (if allow_pithos || allow_encryption then some key else none))
unfolding from_bools is_encrypted is_compressed get_encryption_key
from_bools_features key p e c = ground arith
