-- ===== src/Services/Construction.antt =====
-- The construction endpoints of services/construction_service.go, over the interface of the ledger's
-- transactions.
pub mod Fields
pub mod Metadata
pub mod Payloads
pub mod Wire
pub mod Signed
pub mod Parse
use ontology_rosetta.Common.{
  ℕ, Bool, true, false, not, Option, none, some, List, [], ◌∷◌, if◌then◌else◌,
}
use ontology_rosetta.Common.Bytes.{Bytes, eq_bytes}
use ontology_rosetta.Common.Big.{set_bytes}
use ontology_rosetta.Common.Result.{Result, ok, err, ◌>>=◌, or_err}
use ontology_rosetta.Services.Ontology.{Address, Hash, Library}
use ontology_rosetta.Services.Address.{Natives, is_native}
use ontology_rosetta.Services.Errors
use ontology_rosetta.Services.Errors.{Api, wrapped}
use ontology_rosetta.Services.Types.{CurrencyInfo}
use ontology_rosetta.Services.Store.{lookup_token}

-- model.ConstructOptions
pub record ConstructOptions : Type 0 where
  pub amount : Bytes
  pub contract : Bytes
  pub from : Bytes
  pub gas_limit : ℕ
  pub gas_price : ℕ
  pub nonce : ℕ
  pub payer : Bytes
  pub to : Bytes

-- ctypes.InvokeNeo and ctypes.InvokeWasm
pub data InvokeKind : Type 0 where
  invoke_neo invoke_wasm : InvokeKind

-- The fields of ctypes.MutableTransaction that constructTransfer sets; it has no signatures.
pub record Mutable : Type 0 where
  pub gas_limit : ℕ
  pub gas_price : ℕ
  pub nonce : ℕ
  pub payer : Address
  pub code : Bytes
  pub kind : InvokeKind

-- What the endpoints use of the ledger's transactions, of the generated protobuf code, and of the
-- type float64.
pub record Ledger : Type 1 where
  pub Txn : Type 0
  pub Float : Type 0
  -- Code for a transfer in the contract, from the first address to the second.
  pub build_native : Address → Address → Address → ℕ → Option Bytes
  pub build_wasm : Address → Address → Address → ℕ → Option Bytes
  pub build_neo : Address → Address → Address → ℕ → Option Bytes
  pub into_immutable : Mutable → Option Txn
  pub txn_hash : Txn → Hash
  pub txn_payer : Txn → Address
  pub serialize : Txn → Bytes
  pub min_gas_limit : ℕ
  pub marshal : ConstructOptions → Option Bytes
  pub unmarshal : Bytes → Option ConstructOptions
  -- The conversion to uint64, and the test `float64(v) != raw`.
  pub to_uint64 : Float → ℕ
  pub differs : ℕ → Float → Bool

module _ (g : Ledger) (l : Library) (n : Natives) (tokens : List (Address × CurrencyInfo)) where
  open g use {Txn}

  -- The choice of the invoke code.
  unfoldable pub invoke_code :
      CurrencyInfo → Address → Address → Address → ℕ → Option Bytes × InvokeKind
  invoke_code info contract from to amount =
      if is_native n info.contract
      then (g.build_native contract from to amount, invoke_neo)
      else (if info.wasm
          then (g.build_wasm contract from to amount, invoke_wasm)
          else (g.build_neo contract from to amount, invoke_neo))

  unfoldable pub finish_transfer :
      ConstructOptions → Address → Option Bytes × InvokeKind → Option Txn
  finish_transfer o payer built = elim built.0 [
    | none ↦ none
    | some code ↦ g.into_immutable (record {
      gas_limit = o.gas_limit;
      gas_price = o.gas_price;
      nonce = o.nonce;
      payer = payer;
      code = code;
      kind = built.1;
    })
  ]

  -- constructTransfer; its callers tell none of its errors apart.
  unfoldable pub construct_transfer : ConstructOptions → Option Txn
  unfolding invoke_code finish_transfer
  construct_transfer o = elim (l.address_parse o.contract) [
    | none ↦ none
    | some contract ↦ elim (l.address_parse o.from) [
      | none ↦ none
      | some from ↦ elim (l.address_parse o.payer) [
        | none ↦ none
        | some payer ↦ elim (l.address_parse o.to) [
          | none ↦ none
          | some to ↦ elim (lookup_token contract tokens) [
            | none ↦ none
            | some info ↦
                finish_transfer o payer (invoke_code info contract from to (set_bytes o.amount))
          ]
        ]
      ]
    ]
  ]
