-- ===== src/Services/Construction/Payloads.antt =====
-- ConstructionPreprocess and ConstructionPayloads of services/construction_service.go.
pub mod Agree
pub mod Made
pub mod Reading
pub mod Parsed
pub mod Runs
use ontology_rosetta.Common.{
  ℕ, ◌%◌, ◌^◌, Bool, true, false, not, Option, none, some, List, [], ◌∷◌, ◌++◌, if◌then◌else◌,
}
use ontology_rosetta.Common.Bytes.{Bytes, eq_bytes}
use ontology_rosetta.Common.Big.{bytes_of}
use ontology_rosetta.Common.Result.{Result, ok, err, ◌>>=◌, or_err}
use ontology_rosetta.Common.Text.{Text, codes}
use ontology_rosetta.Services.Ontology.{Address, Hash, Library}
use ontology_rosetta.Services.Address.{Natives, is_native}
use ontology_rosetta.Services.Errors
use ontology_rosetta.Services.Errors.{Api, wrapped}
use ontology_rosetta.Services.Types.{CurrencyInfo}
use ontology_rosetta.Services.Indexer.Decode.{empty_address}
use ontology_rosetta.Services.Operations.{TransferInfo, AccountId, Operation}
use ontology_rosetta.Services.Operations.Validate.{validate_ops}
use ontology_rosetta.Services.Construction.{ConstructOptions, Ledger, construct_transfer}
use ontology_rosetta.Services.Construction.Fields.{
  Metadata, get_uint64_field, get_payer, decode_protobuf, encode_protobuf, hex_encode,
}

-- types.SigningPayload; the signature type is always ed25519.
pub record SigningPayload : Type 0 where
  pub account : AccountId
  pub bytes : Hash

pub record PayloadsView : Type 0 where
  pub payloads : List SigningPayload
  pub unsigned_transaction : Text

-- The options that ConstructionPreprocess makes.
pub options_of : TransferInfo → ℕ → ℕ → ℕ → Address → ConstructOptions
options_of x gas_limit gas_price nonce payer = record {
  amount = bytes_of x.amount;
  contract = x.contract;
  from = x.from;
  gas_limit = gas_limit;
  gas_price = gas_price;
  nonce = nonce % 2 ^ 32;
  payer = if eq_bytes payer empty_address then x.from else payer;
  to = x.to;
}

-- invalidConstructf
require : Bool → Api (Unit {0})
require true = ok tt
require false = err (wrapped Errors.invalid_construct_options)

refuse : Bool → Api (Unit {0})
refuse true = err (wrapped Errors.invalid_request_field)
refuse false = ok tt

module _ (g : Ledger) (l : Library) (n : Natives) (tokens : List (Address × CurrencyInfo)) where
  open g use {Txn, txn_hash, txn_payer, serialize}

  -- ConstructionPreprocess up to the options; `max_fee` and `multiplier` tell whether the request
  -- has these fields.
  gather : Bool → Bool → Metadata g.Float → List (Option Operation) → Api ConstructOptions
  gather max_fee multiplier md ops = do
    _ ← refuse max_fee
    _ ← refuse multiplier
    gas_limit ←
        or_err (get_uint64_field g l md (codes "gas_limit")) (wrapped Errors.invalid_gas_limit)
    gas_price ←
        or_err (get_uint64_field g l md (codes "gas_price")) (wrapped Errors.invalid_gas_price)
    nonce ← or_err (get_uint64_field g l md (codes "nonce")) (wrapped Errors.invalid_nonce)
    payer ← get_payer g l md
    x ← validate_ops l n tokens ops
    ok (options_of x gas_limit gas_price nonce payer)

  -- ConstructionPreprocess
  pub preprocess : Bool → Bool → Metadata g.Float → List (Option Operation) → Api (Metadata g.Float)
  unfolding gather
  preprocess max_fee multiplier md ops =
      gather max_fee multiplier md ops >>= λ o. encode_protobuf g l o

  -- The answer of ConstructionPayloads.
  unfoldable pub payloads_view : TransferInfo → Txn → PayloadsView
  payloads_view x txn =
      let sub : Option Text =
        if not (is_native n x.contract) then some (l.address_to_hex x.contract) else none in
      let own : SigningPayload = record {
        account = record { address = l.address_to_base58 x.from; sub_account = sub };
        bytes = txn_hash txn;
      } in
      record {
        payloads =
            own
            ∷ (if not (eq_bytes (txn_payer txn) x.from)
                then (record {
                  account = record {
                    address = l.address_to_base58 (txn_payer txn);
                    sub_account = sub;
                  };
                  bytes = txn_hash txn;
                })
                  ∷ []
                else []);
        unsigned_transaction = hex_encode (serialize txn);
      }

  pub match_options : ConstructOptions → TransferInfo → Api (Unit {0})
  match_options o x = do
    _ ← require (eq_bytes o.amount (bytes_of x.amount))
    _ ← require (eq_bytes o.contract x.contract)
    _ ← require (eq_bytes o.from x.from)
    require (eq_bytes o.to x.to)

  -- ConstructionPayloads
  pub payloads : Metadata g.Float → List (Option Operation) → Api PayloadsView
  unfolding payloads_view
  payloads md ops = do
    o ← decode_protobuf g l md
    x ← validate_ops l n tokens ops
    _ ← match_options o x
    txn ← or_err (construct_transfer g l n tokens o) (wrapped Errors.invalid_construct_options)
    ok (payloads_view x txn)
