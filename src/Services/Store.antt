-- ===== src/Services/Store.antt =====
-- The data store of services/store.go, over the interface of the database.
pub mod Tokens
pub mod Latest
pub mod Previous
pub mod Changes
pub mod Update
pub mod Listed
pub mod History
pub mod Blocks
pub mod Runs
pub mod Kept
use ontology_rosetta.Common.{
  ℕ, zero, suc, ◌+◌, ◌^◌, ◌%◌, Bool, true, false, ◌&&◌, ◌||◌, not, Option, none, some, List, [],
  ◌∷◌, ◌++◌, ltb, ◌==◌, if◌then◌else◌,
}
use ontology_rosetta.Common.Bytes.{Bytes, eq_bytes, has_prefix}
use ontology_rosetta.Common.Big.{set_bytes, bytes_of}
use ontology_rosetta.Common.Int.{ℤ, pos, negsuc, ◌+ℤ◌, eq_ℤ}
use ontology_rosetta.Common.Result.{Result, ok, err, ◌>>=◌, or_err}
use ontology_rosetta.Common.Text.{Text}
use ontology_rosetta.Lexinum.{encode_height}
use ontology_rosetta.Services.Ontology.{Address, Hash, Library}
use ontology_rosetta.Services.Address.{Natives, addr2slice, account_key_prefix}
use ontology_rosetta.Services.Keys.{
  put_uint32, block_key, block_hash2height_key, block_height2hash_key, txn_hash_key, height_key,
}
use ontology_rosetta.Services.Errors
use ontology_rosetta.Services.Errors.{Failure, Api, wrapped, api}
use ontology_rosetta.Services.Types.{
  Currency, CurrencyInfo, ContractEntry, contract_text, BalanceChange, BlockState, SyncStatus,
}
use ontology_rosetta.Services.Badger.{Badger, DbError, Proto, other_error}

-- `heightIndexed` and `heightSynced` point at an int64 that a uint32 was converted to. The map of
-- tokens is an association list. The mutex makes each access to the heights one step.
pub record Store (b : Badger) : Type 0 where
  pub db : b.Db
  pub height_indexed : Option ℕ
  pub height_synced : Option ℕ
  pub tokens : List (Address × CurrencyInfo)

unfoldable pub lookup_token : Address → List (Address × CurrencyInfo) → Option CurrencyInfo
lookup_token a [] = none
lookup_token a ((k, info) ∷ ts) = if eq_bytes k a then some info else lookup_token a ts

-- getCurrencyInfo
unfoldable pub get_currency_info : List (Address × CurrencyInfo) → Address → Api CurrencyInfo
get_currency_info tokens addr = or_err (lookup_token addr tokens) (api Errors.currency_not_defined)

-- The checks of validateCurrency behind the lookup, for the text `raw` of the contract.
check_currency : Currency → CurrencyInfo → Api CurrencyInfo
check_currency c info =
    if not (eq_ℤ info.currency.decimals c.decimals)
    then err (wrapped Errors.invalid_currency)
    else (if not (eq_bytes info.currency.symbol c.symbol)
        then err (wrapped Errors.invalid_currency)
        else ok info)

validate_contract :
    Library → List (Address × CurrencyInfo) → Currency → ContractEntry → Api CurrencyInfo
validate_contract l tokens c (contract_text raw) = do
  contract ← or_err (l.address_from_hex raw) (wrapped Errors.invalid_currency)
  info ← or_err (lookup_token contract tokens) (wrapped Errors.currency_not_defined)
  check_currency c info
validate_contract l tokens c _ = err (wrapped Errors.invalid_currency)

-- validateCurrency
pub validate_currency : Library → List (Address × CurrencyInfo) → Option Currency → Api CurrencyInfo
unfolding validate_contract check_currency
validate_currency l tokens none = err (wrapped Errors.invalid_currency)
validate_currency l tokens (some c) = validate_contract l tokens c c.metadata

module _ (b : Badger) where
  open b use {Db, Item, get, item_key, value, seek, next, set, commit}

  -- getHeight
  unfoldable pub get_height : Store b → ℕ
  get_height s = elim s.height_indexed [ none ↦ 0 | some h ↦ h % 2 ^ 32 ]

  -- setHeight
  unfoldable pub set_height : ℕ → ℕ → Store b → Store b
  set_height indexed synced s = record s {
    height_indexed = some indexed;
    height_synced = some synced;
  }

  -- syncStatus; `none` is the panic on a nil `heightIndexed`.
  unfoldable pub sync_status : Store b → Option SyncStatus
  sync_status s = elim s.height_synced [
    | none ↦ some (record { current_index = s.height_indexed; synced = false; target_index = none })
    | some t ↦ elim s.height_indexed [
      | none ↦ none
      | some i ↦ some (record { current_index = some i; synced = i == t; target_index = some t })
    ]
  ]

  -- The value that an item holds, as a number.
  pub read_amount : Item → Result DbError ℕ
  read_amount i = value i >>= λ v. ok (set_bytes v)

  -- The amount under `i`, if its key has the prefix.
  pub read_under : Bytes → Option Item → Result DbError ℕ
  unfolding read_amount
  read_under prefix none = ok 0
  read_under prefix (some i) = if has_prefix prefix (item_key i) then read_amount i else ok 0

  -- The amount before a change: the last entry under the prefix, but for one under the key itself.
  pub prev_at : Db → Bytes → Bytes → Option Item → Result DbError ℕ
  unfolding read_under
  prev_at d key prefix none = ok 0
  prev_at d key prefix (some i) =
      if has_prefix prefix (item_key i) && eq_bytes key (item_key i)
      then read_under prefix (next d i)
      else read_under prefix (some i)

  pub previous : Db → BalanceChange → Result DbError ℕ
  unfolding prev_at
  previous d c = prev_at d c.key c.prefix (seek d c.key)

  pub apply_change : Db → BalanceChange → Result DbError Db
  apply_change d c = do prev ← previous d c; set d c.key (bytes_of (pos prev +ℤ c.diff))

  pub apply_changes : Db → List BalanceChange → Result DbError Db
  apply_changes d [] = ok d
  apply_changes d (c ∷ cs) = apply_change d c >>= λ d'. apply_changes d' cs

  pub set_txn_hashes : Db → List Bytes → Result DbError Db
  set_txn_hashes d [] = ok d
  set_txn_hashes d (h ∷ hs) = set d (txn_hash_key h) [] >>= λ d'. set_txn_hashes d' hs

  -- The function that setBlock gives to db.Update, and the commit.
  pub update_block : BlockState → Bytes → Db → Result DbError Db
  update_block state encoded d = do
    d1 ← apply_changes d state.changes
    d2 ← set d1 (block_key state.id.height) encoded
    d3 ← set d2 (block_hash2height_key state.id.hash) (put_uint32 state.id.height)
    d4 ← set d3 (block_height2hash_key state.id.height) state.id.hash
    d5 ← set_txn_hashes d4 state.hashes
    d6 ← set d5 height_key (put_uint32 state.id.height)
    _ ← commit d6
    ok d6

  -- setBlock: the store after it, and its error. A failed update changes nothing.
  pub set_block : Proto → BlockState → Store b → Result DbError (Store b)
  unfolding set_height
  set_block p state s = do
    encoded ← or_err (p.marshal state.block) other_error
    d ← update_block state encoded s.db
    ok (set_height state.id.height state.synced (record s { db = d }))

  -- The inner loop of IndexBlocks over the heights below `k`, for the block states that it builds.
  unfoldable pub index_chain : Proto → (ℕ → BlockState) → Store b → ℕ → Result DbError (Store b)
  index_chain p chain s zero = ok s
  index_chain p chain s (suc k) = index_chain p chain s k >>= λ s'. set_block p (chain k) s'
