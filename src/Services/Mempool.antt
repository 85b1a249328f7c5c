-- ===== src/Services/Mempool.antt =====
-- services/mempool_service.go, over the transaction pool of the node.
pub mod Same
use ontology_rosetta.Common.{Bool, true, false, Option, none, some, List, [], ◌∷◌, map}
use ontology_rosetta.Common.Result.{Result, ok, err, ◌>>=◌, or_err}
use ontology_rosetta.Common.Text.{Text}
use ontology_rosetta.Chain.Payload.{Vm}
use ontology_rosetta.Services.Ontology.{Address, Hash, Library}
use ontology_rosetta.Services.Address.{Natives}
use ontology_rosetta.Services.Errors
use ontology_rosetta.Services.Errors.{Api, api}
use ontology_rosetta.Services.Types.{CurrencyInfo}
use ontology_rosetta.Services.Operations.{Operation}
use ontology_rosetta.Services.Construction.{Ledger}
use ontology_rosetta.Services.Construction.Wire.{Wire}
use ontology_rosetta.Services.Construction.Parse.{parse_operations}

-- The hashes in the node's pool, and the transaction under a hash; `none` is an error.
pub record Pool (g : Ledger) : Type 0 where
  pub hashes : List Hash
  pub find : Hash → Option g.Txn

pub record MempoolView : Type 0 where
  pub operations : List Operation
  pub hash : Text

module _ (l : Library) where
  -- Mempool
  pub mempool : {g : Ledger} → Bool → Pool g → Api (List Text)
  mempool true pool = err (api Errors.offline_mode)
  mempool false pool = ok (map l.hash_to_hex pool.hashes)

  module _ (vm : Vm) (n : Natives) (tokens : List (Address × CurrencyInfo)) (g : Ledger)
      (w : Wire g) where
    -- MempoolTransaction, for the hash of the request's identifier
    pub mempool_transaction : Bool → Pool g → Option Text → Api MempoolView
    mempool_transaction true pool id = err (api Errors.offline_mode)
    mempool_transaction false pool id = do
      text ← or_err id (api Errors.invalid_transaction_hash)
      hash ← or_err (l.hash_from_hex text) (api Errors.invalid_transaction_hash)
      txn ← or_err (pool.find hash) (api Errors.transaction_not_in_mempool)
      (ops, _) ← parse_operations vm l n tokens (w.payload txn)
      ok (record { operations = ops; hash = text })
