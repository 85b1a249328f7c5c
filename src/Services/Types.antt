-- ===== src/Services/Types.antt =====
-- The records of services/services.go and model/model.proto, and those of the Rosetta SDK whose
-- fields the code reads or writes.
use ontology_rosetta.Common.{ℕ, ◌*◌, Bool, Option, List}
use ontology_rosetta.Common.Bytes.{Bytes}
use ontology_rosetta.Common.Int.{ℤ}
use ontology_rosetta.Common.Text.{Text}
use ontology_rosetta.Services.Ontology.{Address, Hash}

-- A value of a JSON map, `interface{}`; numbers are of the type `F` that stands for float64.
pub data Json (F : Type 0) : Type 0 where
  str : Text → Json F
  num : F → Json F
  other : Json F

-- types.Currency; of its metadata the code reads the entry "contract" only.
pub data ContractEntry : Type 0 where
  no_metadata no_contract not_string : ContractEntry
  contract_text : Text → ContractEntry

pub record Currency : Type 0 where
  pub symbol : Text
  pub decimals : ℤ
  pub metadata : ContractEntry

pub record CurrencyInfo : Type 0 where
  pub contract : Address
  pub currency : Currency
  pub wasm : Bool

pub record Oep4Token : Type 0 where
  pub contract : Address
  pub decimals : ℤ
  pub symbol : Text
  pub wasm : Bool

-- The messages of model.proto.
pub record Transfer : Type 0 where
  pub amount : Bytes
  pub contract : Bytes
  pub from : Bytes
  pub is_gas : Bool
  pub to : Bytes

pub record Transaction : Type 0 where
  pub failed : Bool
  pub hash : Bytes
  pub transfers : List Transfer

pub record Block : Type 0 where
  pub timestamp : ℕ
  pub transactions : List Transaction

pub record BalanceChange : Type 0 where
  pub diff : ℤ
  pub key : Bytes
  pub prefix : Bytes

pub record BlockId : Type 0 where
  pub by_height : Bool
  pub hash : Hash
  pub height : ℕ

-- types.BlockIdentifier and types.PartialBlockIdentifier
pub record BlockIdentifier : Type 0 where
  pub hash : Text
  pub index : ℕ

pub record PartialBlockIdentifier : Type 0 where
  pub hash : Option Text
  pub index : Option ℤ

pub record BlockInfo : Type 0 where
  pub block : Block
  pub block_id : BlockIdentifier
  pub height : ℕ
  pub hval : Bytes

-- blockTimestamp
unfoldable pub block_timestamp : BlockInfo → ℕ
block_timestamp info = info.block.timestamp * 1000

pub record BlockState : Type 0 where
  pub block : Block
  pub changes : List BalanceChange
  pub hashes : List Bytes
  pub id : BlockId
  pub synced : ℕ

-- types.Amount; the value is the integer that its decimal text stands for.
pub record Amount : Type 0 where
  pub currency : Currency
  pub value : ℤ

pub record AccountBalanceResponse : Type 0 where
  pub balances : List Amount
  pub block_identifier : BlockIdentifier

-- types.SyncStatus
pub record SyncStatus : Type 0 where
  pub current_index : Option ℕ
  pub synced : Bool
  pub target_index : Option ℕ
