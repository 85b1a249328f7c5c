-- ===== src/Services/Operations.antt =====
-- Operations: appendOperations and transformTransaction of services/block_service.go, and validateOps
-- and validateRelation of services/construction_service.go.
pub mod Validate
pub mod Blocks
use ontology_rosetta.Common.{
  ℕ, Bool, true, false, ◌&&◌, ◌||◌, not, Option, none, some, List, [], ◌∷◌, ◌++◌, if◌then◌else◌,
  length, ◌+◌, ◌-◌,
}
use ontology_rosetta.Common.Bytes.{Bytes, eq_bytes}
use ontology_rosetta.Common.Int.{ℤ, pos, negsuc, neg_ℤ}
use ontology_rosetta.Common.Text.{Text, codes}
use ontology_rosetta.Common.Decimal.{print_ℤ}
use ontology_rosetta.Services.Ontology.{Address, Library}
use ontology_rosetta.Services.Address.{Natives, is_native}
use ontology_rosetta.Services.Types.{Currency}

-- transferInfo
pub record TransferInfo : Type 0 where
  pub amount : ℤ
  pub contract : Address
  pub currency : Currency
  pub from : Address
  pub is_gas : Bool
  pub to : Address

-- types.AccountIdentifier, with the address of its sub-account.
pub record AccountId : Type 0 where
  pub address : Text
  pub sub_account : Option Text

pub record OpAmount : Type 0 where
  pub currency : Option Currency
  pub value : Text

-- types.Operation; of identifiers the index is kept.
pub record Operation : Type 0 where
  pub account : Option AccountId
  pub amount : Option OpAmount
  pub identifier : Option ℤ
  pub related : List (Option ℤ)
  pub status : Option Text
  pub kind : Text

abbrev pub op_burn : Text
op_burn = codes "burn"

abbrev pub op_gas_fee : Text
op_gas_fee = codes "gas_fee"

abbrev pub op_mint : Text
op_mint = codes "mint"

abbrev pub op_transfer : Text
op_transfer = codes "transfer"

abbrev pub status_success : Text
status_success = codes "SUCCESS"

module _ (l : Library) (n : Natives) where
  pub account_of_op : TransferInfo → Address → AccountId
  account_of_op x a = record {
    address = l.address_to_base58 a;
    sub_account = if not (is_native n x.contract) then some (l.address_to_hex x.contract) else none;
  }

  unfoldable pub operation_of :
      TransferInfo → Address → ℤ → ℕ → List (Option ℤ) → Bool → Text → Operation
  unfolding account_of_op
  operation_of x a amount index related set_status kind = record {
    account = some (account_of_op x a);
    amount = some (record { currency = some x.currency; value = print_ℤ amount });
    identifier = some (pos index);
    related = related;
    status = if set_status then some status_success else none;
    kind = kind;
  }

  -- The type of an operation for one side of a transfer, where `special` is the one that a null
  -- address on the other side makes.
  pub kind_of : Text → Address → Bool → Text
  kind_of special other is_gas =
      if eq_bytes other n.null then special else (if is_gas then op_gas_fee else op_transfer)

  unfoldable pub append_from : List Operation → TransferInfo → Bool → List Operation
  unfolding kind_of operation_of
  append_from ops x set_status =
      if not (eq_bytes x.from n.null)
      then ops
        ++ (operation_of x x.from (neg_ℤ x.amount) (length ops) [] set_status
            (kind_of op_burn x.to x.is_gas))
          ∷ []
      else ops

  unfoldable pub append_to : List Operation → TransferInfo → Bool → Bool → List Operation
  unfolding kind_of operation_of
  append_to ops x set_status related =
      if not (eq_bytes x.to n.null)
      then ops
        ++ (operation_of x x.to x.amount (length ops)
            (if related then some (pos (length ops - 1)) ∷ [] else []) set_status
            (kind_of op_mint x.from x.is_gas))
          ∷ []
      else ops

  -- appendOperations
  unfoldable pub append_operations : List Operation → TransferInfo → Bool → List Operation
  unfolding append_from append_to
  append_operations ops x set_status =
      append_to (append_from ops x set_status) x set_status (not (eq_bytes x.from n.null))
