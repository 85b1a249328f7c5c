-- ===== src/Services/Account.antt =====
-- The balances: getBalance and checkUnsignedTxHash of services/store.go, and the endpoints of
-- services/account_service.go.
pub mod Historic
use ontology_rosetta.Common.{
  ℕ, ◌+◌, Bool, true, false, ◌&&◌, ◌||◌, not, Option, none, some, List, [], ◌∷◌, ◌++◌, ltb, ◌==◌,
  if◌then◌else◌,
}
use ontology_rosetta.Common.Bytes.{Bytes, eq_bytes}
use ontology_rosetta.Common.Int.{pos}
use ontology_rosetta.Common.Result.{Result, ok, err, ◌>>=◌, or_err}
use ontology_rosetta.Common.Text.{Text}
use ontology_rosetta.Services.Ontology.{Address, Library}
use ontology_rosetta.Services.Address.{Natives, addr2slice, account_key_prefix}
use ontology_rosetta.Services.Keys.{txn_hash_key}
use ontology_rosetta.Services.Errors
use ontology_rosetta.Services.Errors.{Failure, Api, wrapped, api}
use ontology_rosetta.Services.Types.{
  Currency, CurrencyInfo, Amount, AccountBalanceResponse, BlockInfo, PartialBlockIdentifier,
}
use ontology_rosetta.Services.Badger.{Badger, DbError, Proto, key_not_found, conflict, other_error}
use ontology_rosetta.Services.Store.{Store, validate_currency, get_currency_info, read_under}
use ontology_rosetta.Services.Lookup.{get_block_info}

-- The map `filter` is keyed by the currency's pointer. A token's currency is registered once, with
-- the contract that is its key, so the contract stands for the pointer.
abbrev pub Filter : Type 0
Filter = List Address

in_filter : Address → Filter → Bool
in_filter a [] = false
in_filter a (k ∷ ks) = eq_bytes k a || in_filter a ks

make_filter : Library → List (Address × CurrencyInfo) → List (Option Currency) → Api Filter
make_filter l tokens [] = ok []
make_filter l tokens (c ∷ cs) = do
  info ← validate_currency l tokens c
  rest ← make_filter l tokens cs
  ok (info.contract ∷ rest)

module _ (b : Badger) (n : Natives) where
  open b use {Db, get, seek}

  -- One round of the loop over the contracts: the amount under the account's prefix.
  pub stored_balance : Db → Address → Address → Bytes → Api ℕ
  stored_balance d acct contract hval =
      let prefix = account_key_prefix (addr2slice n acct) (addr2slice n contract) in
      elim (read_under b prefix (seek d (prefix ++ hval))) [
        | err e ↦ err (wrapped Errors.datastore)
        | ok v ↦ ok v
      ]

  pub balance_loop :
      Db
      → List (Address × CurrencyInfo)
      → Bool
      → Filter
      → Address
      → Bytes
      → List Address
      → Api (List Amount)
  unfolding in_filter
  balance_loop d tokens filtered filter acct hval [] = ok []
  balance_loop d tokens filtered filter acct hval (contract ∷ cs) =
      let rest = balance_loop d tokens filtered filter acct hval cs in
      get_currency_info tokens contract >>= λ info.
      if filtered && not (in_filter info.contract filter) then rest else (do
        v ← stored_balance d acct contract hval
        amounts ← rest
        ok ((record { currency = info.currency; value = pos v }) ∷ amounts))

  abbrev is_empty {ℓ} : {A : Type ℓ} → List A → Bool
  is_empty [] = true
  is_empty (x ∷ xs) = false

  -- getBalance
  pub get_balance :
      Proto
      → Library
      → Store b
      → Option PartialBlockIdentifier
      → Address
      → List (Option Currency)
      → List Address
      → Api AccountBalanceResponse
  unfolding make_filter
  get_balance p l s pid acct currencies contracts = do
    info ← get_block_info b p l s pid false
    filter ← make_filter l s.tokens currencies
    balances ←
        balance_loop s.db s.tokens (not (is_empty currencies)) filter acct info.hval contracts
    ok (record { balances = balances; block_identifier = info.block_id })

  -- checkUnsignedTxHash
  unfoldable pub check_unsigned_tx_hash : Store b → Bytes → Api Bool
  check_unsigned_tx_hash s hash = elim (get s.db (txn_hash_key hash)) [
    | ok i ↦ ok true
    | err key_not_found ↦ ok false
    | err conflict ↦ err (wrapped Errors.datastore)
    | err other_error ↦ err (wrapped Errors.datastore)
  ]

  -- AccountBalance; the identifier of the account is its address and that of its sub-account.
  pub account_balance :
      Proto
      → Library
      → Bool
      → Store b
      → Option PartialBlockIdentifier
      → Option (Text × Option Text)
      → List (Option Currency)
      → Api AccountBalanceResponse
  account_balance p l true s pid account currencies = err (api Errors.offline_mode)
  account_balance p l false s pid none currencies = err (api Errors.invalid_account_address)
  account_balance p l false s pid (some (address, none)) currencies = do
    acct ← or_err (l.address_from_base58 address) (api Errors.invalid_account_address)
    get_balance p l s pid acct currencies (n.ont ∷ n.ong ∷ [])
  account_balance p l false s pid (some (address, some sub)) currencies = do
    acct ← or_err (l.address_from_base58 address) (api Errors.invalid_account_address)
    contract ← or_err (l.address_from_hex sub) (api Errors.invalid_contract_address)
    get_balance p l s pid acct currencies (contract ∷ [])

-- AccountCoins
pub account_coins : Bool → Api (Unit {0})
account_coins true = err (api Errors.offline_mode)
account_coins false = err (api Errors.not_implemented)
