-- ===== src/Services/Operations/Blocks.antt =====
-- The block endpoints of services/block_service.go.
pub mod Transform
pub mod Parents
use ontology_rosetta.Common.{
  ℕ, suc, ◌-◌, Bool, true, false, Option, none, some, List, [], ◌∷◌, if◌then◌else◌, ltb,
}
use ontology_rosetta.Common.Bytes.{Bytes, eq_bytes}
use ontology_rosetta.Common.Int.{ℤ, pos}
use ontology_rosetta.Common.Big.{set_bytes}
use ontology_rosetta.Common.Result.{Result, ok, err, ◌>>=◌, or_err}
use ontology_rosetta.Common.Text.{Text}
use ontology_rosetta.Services.Ontology.{Address, Hash, Library}
use ontology_rosetta.Services.Address.{Natives, SliceError, slice2addr}
use ontology_rosetta.Services.Errors
use ontology_rosetta.Services.Errors.{Failure, Api, wrapped, api}
use ontology_rosetta.Services.Types.{
  Transfer, Transaction, CurrencyInfo, BlockInfo, BlockIdentifier, PartialBlockIdentifier,
  block_timestamp,
}
use ontology_rosetta.Services.Badger.{Badger, Proto}
use ontology_rosetta.Services.Store.{Store, get_currency_info}
use ontology_rosetta.Services.Lookup.{get_block_info, get_block_info_raw, zero_hash}
use ontology_rosetta.Services.Operations.{TransferInfo, Operation, append_operations}

-- The two kinds of errors of transformTransaction: the second result and the third.
pub data TransformError : Type 0 where
  xerr : Failure → TransformError
  inconsistent : TransformError

-- types.Transaction, with the hash of its identifier
pub record TransactionView : Type 0 where
  pub operations : List Operation
  pub hash : Text

pub record BlockView : Type 0 where
  pub block_identifier : BlockIdentifier
  pub parent_identifier : BlockIdentifier
  pub timestamp : ℕ
  pub transactions : List TransactionView

pub address_or : Result SliceError Address → Result TransformError Address
address_or (ok a) = ok a
address_or (err e) = err inconsistent

pub info_or : Api CurrencyInfo → Result TransformError CurrencyInfo
info_or (ok i) = ok i
info_or (err e) = err (xerr e)

-- What the endpoints make of an error of transformTransaction.
settle : Result TransformError TransactionView → Api TransactionView
settle (ok t) = ok t
settle (err (xerr e)) = err e
settle (err inconsistent) = err (wrapped Errors.datastore_consistency)

module _ (l : Library) (n : Natives) (tokens : List (Address × CurrencyInfo)) where
  -- The transfer that the entry of a block stands for.
  pub transfer_info : Transfer → Result TransformError TransferInfo
  unfolding address_or info_or
  transfer_info t = do
    contract ← address_or (slice2addr l n t.contract)
    info ← info_or (get_currency_info tokens contract)
    from ← address_or (slice2addr l n t.from)
    to ← address_or (slice2addr l n t.to)
    ok (record {
      amount = pos (set_bytes t.amount);
      contract = contract;
      currency = info.currency;
      from = from;
      is_gas = t.is_gas;
      to = to;
    })

  pub transform_loop : List Operation → List Transfer → Result TransformError (List Operation)
  transform_loop ops [] = ok ops
  transform_loop ops (t ∷ ts) =
      transfer_info t >>= λ x. transform_loop (append_operations l n ops x true) ts

  -- transformTransaction
  pub transform_transaction : Transaction → Result TransformError TransactionView
  unfolding transform_loop
  transform_transaction t = do
    hash ← or_err (l.hash_parse t.hash) inconsistent
    ops ← transform_loop [] t.transfers
    ok (record { operations = ops; hash = l.hash_to_hex hash })

  pub view_transactions : List Transaction → Api (List TransactionView)
  unfolding settle
  view_transactions [] = ok []
  view_transactions (t ∷ ts) = do
    v ← settle (transform_transaction t)
    vs ← view_transactions ts
    ok (v ∷ vs)

  -- The loop of BlockTransaction.
  find_transaction : Hash → List Transaction → Api TransactionView
  unfolding settle
  find_transaction hash [] = err (api Errors.invalid_transaction_hash)
  find_transaction hash (t ∷ ts) =
      let rest = find_transaction hash ts in
      if eq_bytes t.hash hash then settle (transform_transaction t) else rest

module _ (b : Badger) (p : Proto) (l : Library) (n : Natives) where
  -- The parent's identifier, and the block's own for the first block.
  pub parent_of : Store b → BlockInfo → Api BlockIdentifier
  parent_of s info =
      if ltb 0 info.height
      then (do
        pinfo ←
            get_block_info_raw b p l s
              (record { by_height = true; hash = zero_hash; height = info.height - 1 }) false
        ok pinfo.block_id)
      else ok info.block_id

  -- Block
  pub block_endpoint : Bool → Store b → Option PartialBlockIdentifier → Api BlockView
  unfolding parent_of view_transactions
  block_endpoint true s pid = err (api Errors.offline_mode)
  block_endpoint false s pid = do
    info ← get_block_info b p l s pid true
    parent ← parent_of s info
    txs ← view_transactions l n s.tokens info.block.transactions
    ok (record {
      block_identifier = info.block_id;
      parent_identifier = parent;
      timestamp = block_timestamp info;
      transactions = txs;
    })

  -- BlockTransaction; the arguments are the two identifiers of the request.
  pub block_transaction : Bool → Store b → Option Text → Option (Text × ℤ) → Api TransactionView
  unfolding find_transaction
  block_transaction true s txid bid = err (api Errors.offline_mode)
  block_transaction false s none bid = err (api Errors.invalid_transaction_hash)
  block_transaction false s (some text) bid = do
    hash ← or_err (l.hash_from_hex text) (api Errors.invalid_transaction_hash)
    block ← or_err bid (api Errors.invalid_block_identifier)
    info ← get_block_info b p l s (some (record { hash = some block.0; index = some block.1 })) true
    find_transaction l n s.tokens hash info.block.transactions
