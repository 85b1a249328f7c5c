-- ===== src/Services/Ontology.antt =====
-- What services/ uses of the package github.com/ontio/ontology/common, which is not in this
-- repository: an address is its 20 bytes and a hash its 32, and the conversions are parameters.
use ontology_rosetta.Common.{◌≡◌, ◌≢◌, Option, none, some, length}
use ontology_rosetta.Common.Bytes.{Bytes}
use ontology_rosetta.Common.Text.{Text}

abbrev pub Address : Type 0
Address = Bytes

abbrev pub Hash : Type 0
Hash = Bytes

abbrev pub IsAddress : Address → Type 0
IsAddress a = length a ≡ 20

abbrev pub IsHash : Hash → Type 0
IsHash h = length h ≡ 32

pub record Library : Type 0 where
  pub address_from_hex : Text → Option Address
  pub address_to_hex : Address → Text
  pub address_from_base58 : Text → Option Address
  pub address_to_base58 : Address → Text
  pub address_parse : Bytes → Option Address
  pub hash_from_hex : Text → Option Hash
  pub hash_to_hex : Hash → Text
  pub hash_parse : Bytes → Option Hash

-- The documented behaviour that the theorems rely on.
pub record IsLibrary (l : Library) : Type 0 where
  pub parse_some : (b : Bytes) → IsAddress b → l.address_parse b ≡ some b
  pub parse_none : (b : Bytes) → length b ≢ 20 → l.address_parse b ≡ none
  pub from_hex-IsAddress : (t : Text) (a : Address) → l.address_from_hex t ≡ some a → IsAddress a
  pub from_hex-to_hex :
      (a : Address) → IsAddress a → l.address_from_hex (l.address_to_hex a) ≡ some a
  pub from_base58-IsAddress :
      (t : Text) (a : Address) → l.address_from_base58 t ≡ some a → IsAddress a
  pub from_base58-to_base58 :
      (a : Address) → IsAddress a → l.address_from_base58 (l.address_to_base58 a) ≡ some a
  pub hash_parse_some : (b : Bytes) → IsHash b → l.hash_parse b ≡ some b
  pub hash_from_hex-IsHash : (t : Text) (h : Hash) → l.hash_from_hex t ≡ some h → IsHash h
  pub hash_from_hex-to_hex : (h : Hash) → IsHash h → l.hash_from_hex (l.hash_to_hex h) ≡ some h
