-- ===== src/Services/Construction/Metadata.antt =====
-- getGasPrice and ConstructionMetadata of services/construction_service.go.
pub mod Gas
pub mod Refined
pub mod Runs
use ontology_rosetta.Common.{
  ℕ, zero, suc, ◌+◌, ◌-◌, ◌/◌, ◌%◌, ◌^◌, ◌≤◌, ◌≡◌, ◌≢◌, Bool, true, false, not, Option, none, some,
  List, [], ◌∷◌, if◌then◌else◌, ltb, leb, ◌==◌, length,
}
use ontology_rosetta.Common.Bytes.{Bytes, eq_bytes}
use ontology_rosetta.Common.Result.{Result, ok, err, ◌>>=◌, or_err}
use ontology_rosetta.Services.Ontology.{Address, Hash, Library}
use ontology_rosetta.Services.Address.{Natives}
use ontology_rosetta.Services.Keys.{uint32}
use ontology_rosetta.Services.Errors
use ontology_rosetta.Services.Errors.{Api, wrapped, api, panic, diverges}
use ontology_rosetta.Services.Types.{CurrencyInfo}
use ontology_rosetta.Services.Badger.{Badger}
use ontology_rosetta.Services.Store.{Store}
use ontology_rosetta.Services.Lookup.{zero_hash}
use ontology_rosetta.Services.Account.{check_unsigned_tx_hash}
use ontology_rosetta.Services.Construction.{ConstructOptions, Ledger, construct_transfer}
use ontology_rosetta.Services.Construction.Fields.{
  Metadata, decode_protobuf, encode_protobuf, default_gas_price,
}

-- The headers' roots of transactions and the gas prices of the blocks' transactions, as the node
-- answers; `none` is an error.
pub record Chain : Type 0 where
  pub root : ℕ → Option Hash
  pub prices : ℕ → Option (List ℕ)

-- How getGasPrice ends.
pub data GasPrice : Type 0 where
  price : ℕ → GasPrice
  no_block divided_by_zero : GasPrice

sum : ℕ → List ℕ → ℕ
sum acc [] = acc
sum acc (p ∷ ps) = sum ((acc + p) % 2 ^ 64) ps

average : Option (List ℕ) → GasPrice
unfolding sum
average none = no_block
average (some []) = divided_by_zero
average (some (p ∷ ps)) = price (sum 0 (p ∷ ps) / length (p ∷ ps))

-- `err == nil && hdr.TransactionsRoot != common.UINT256_EMPTY`
unfoldable pub has_transactions : Option Hash → Bool
has_transactions none = false
has_transactions (some r) = not (eq_bytes r zero_hash)

-- The loop of getGasPrice; the decrement wraps. `none` means that the fuel ran out.
gas_loop : Chain → ℕ → ℕ → ℕ → Option GasPrice
gas_loop c end zero height = none
gas_loop c end (suc f) height =
    let rest = gas_loop c end f ((height + 0xffff_ffff) % 2 ^ 32) in
    if leb end height
    then (if has_transactions (c.root height) then some (average (c.prices height)) else rest)
    else some (price 0)

-- getGasPrice on fuel, for the height that the node has
pub get_gas_price : Chain → ℕ → ℕ → Option GasPrice
unfolding gas_loop
get_gas_price c fuel start = gas_loop c (if ltb 100 start then start - 100 else 0) fuel start

-- The gas price and the gas limit that ConstructionMetadata sets.
pub set_price : Option GasPrice → ConstructOptions → Api ConstructOptions
set_price none o = err diverges
set_price (some divided_by_zero) o = err panic
set_price (some no_block) o =
    if ltb o.gas_price default_gas_price
    then ok (record o { gas_price = default_gas_price })
    else ok o
set_price (some (price p)) o =
    if ltb o.gas_price p
    then ok (record o { gas_price = p })
    else (if ltb o.gas_price default_gas_price
        then ok (record o { gas_price = default_gas_price })
        else ok o)

module _ (g : Ledger) (l : Library) (n : Natives) (tokens : List (Address × CurrencyInfo))
    (b : Badger) (s : Store b) where
  pub set_limit : ConstructOptions → ConstructOptions
  set_limit o =
      if ltb o.gas_limit g.min_gas_limit then record o { gas_limit = g.min_gas_limit } else o

  -- Whether a transaction with the options' unsigned hash was indexed.
  pub is_taken : ConstructOptions → Api Bool
  is_taken o = do
    txn ← or_err (construct_transfer g l n tokens o) (wrapped Errors.invalid_construct_options)
    check_unsigned_tx_hash b n s (g.txn_hash txn)

  -- The nonce of `buf`, where rand.Read filled its 8 bytes.
  pub nonce_of : Option Bytes → Api ℕ
  nonce_of none = err (api Errors.nonce_generation_failed)
  nonce_of (some buf) =
      if not (length buf == 8)
      then err (api Errors.nonce_generation_failed)
      else or_err (uint32 buf) panic

  -- The rounds that are left of the loop; `reads i` is what rand.Read gives in the round `i`.
  pub attempts : (ℕ → Option Bytes) → ℕ → ℕ → ConstructOptions → Api ConstructOptions
  attempts reads zero i o = ok o
  attempts reads (suc f) i o = do
    nonce ← nonce_of (reads i)
    taken ← is_taken (record o { nonce = nonce })
    if taken
        then attempts reads f (i + 1) (record o { nonce = nonce })
        else ok (record o { nonce = nonce })

  pub no_zero_nonce : ConstructOptions → Api ConstructOptions
  no_zero_nonce o = if o.nonce == 0 then err (api Errors.nonce_generation_failed) else ok o

  pub keep_nonce : ConstructOptions → Api ConstructOptions
  keep_nonce o = do taken ← is_taken o; if taken then err (wrapped Errors.invalid_nonce) else ok o

  pub set_nonce : (ℕ → Option Bytes) → ConstructOptions → Api ConstructOptions
  unfolding attempts no_zero_nonce keep_nonce
  set_nonce reads o =
      if o.nonce == 0 then (attempts reads 100 0 o >>= λ o'. no_zero_nonce o') else keep_nonce o

  -- ConstructionMetadata
  pub construction_metadata :
      Bool → Option GasPrice → (ℕ → Option Bytes) → Metadata g.Float → Api (Metadata g.Float)
  construction_metadata true gas reads md = err (api Errors.offline_mode)
  construction_metadata false gas reads md = do
    o ← decode_protobuf g l md
    o1 ← set_price gas o
    o2 ← set_nonce reads (set_limit o1)
    encode_protobuf g l o2
