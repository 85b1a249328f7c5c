-- ===== src/Services/Opening.antt =====
-- NewStore and Close of services/store.go.
pub mod Table
pub mod Again
pub mod Runs
use ontology_rosetta.Common.{ℕ, Bool, true, false, Option, none, some, List, [], ◌∷◌, if◌then◌else◌}
use ontology_rosetta.Common.Bytes.{eq_bytes}
use ontology_rosetta.Common.Int.{ℤ}
use ontology_rosetta.Common.Result.{Result, ok, err, ◌>>=◌, or_err}
use ontology_rosetta.Common.Text.{Text}
use ontology_rosetta.Services.Ontology.{Address, Library}
use ontology_rosetta.Services.Address.{Natives}
use ontology_rosetta.Services.Keys.{uint32, height_key}
use ontology_rosetta.Services.Types.{Currency, CurrencyInfo, Oep4Token, contract_text}
use ontology_rosetta.Services.Badger.{Badger, DbError, key_not_found, conflict, other_error}
use ontology_rosetta.Services.Store.{Store}

-- How NewStore fails: an error on opening the database or on reading the height, or the panic of
-- Uint32 on a value that is too short.
pub data OpenError : Type 0 where
  open_failed read_failed panicked : OpenError

-- The decimals and the symbols of the native tokens, which are constants of the ledger.
pub record Constants : Type 0 where
  pub ong_decimals : ℤ
  pub ong_symbol : Text
  pub ont_decimals : ℤ
  pub ont_symbol : Text

-- `tokens[contract] = info`
pub put_token :
    Address → CurrencyInfo → List (Address × CurrencyInfo) → List (Address × CurrencyInfo)
put_token a info [] = (a, info) ∷ []
put_token a info ((k, old) ∷ tokens) =
    if eq_bytes k a then (k, info) ∷ tokens else (k, old) ∷ put_token a info tokens

module _ (l : Library) where
  pub info_for : Address → ℤ → Text → Bool → CurrencyInfo
  info_for contract decimals symbol wasm = record {
    contract = contract;
    currency = record {
      symbol = symbol;
      decimals = decimals;
      metadata = contract_text (l.address_to_hex contract);
    };
    wasm = wasm;
  }

  -- The table of the native tokens.
  pub native_table : Natives → Constants → List (Address × CurrencyInfo)
  unfolding put_token info_for
  native_table n c =
      put_token n.ont (info_for n.ont c.ont_decimals c.ont_symbol false)
        (put_token n.ong (info_for n.ong c.ong_decimals c.ong_symbol false) [])

  -- The loop over the configured tokens.
  pub token_table : List Oep4Token → List (Address × CurrencyInfo) → List (Address × CurrencyInfo)
  unfolding put_token info_for
  token_table [] table = table
  token_table (t ∷ ts) table =
      token_table ts (put_token t.contract (info_for t.contract t.decimals t.symbol t.wasm) table)

module _ (b : Badger) where
  open b use {Db, get, value}

  -- The outcome of reading the height: a missing key is none, and so is an error.
  pub height_of : Result DbError b.Item → Result OpenError (Option ℕ)
  height_of (err key_not_found) = ok none
  height_of (err conflict) = err read_failed
  height_of (err other_error) = err read_failed
  height_of (ok item) = elim (value item) [
    | err key_not_found ↦ ok none
    | err conflict ↦ err read_failed
    | err other_error ↦ err read_failed
    | ok val ↦ elim (uint32 val) [ none ↦ err panicked | some height ↦ ok (some height) ]
  ]

  -- NewStore; `db` is none where opening the database fails, and `synced` is the node's height.
  pub new_store :
      Library
      → Natives
      → Constants
      → Option Db
      → List Oep4Token
      → Bool
      → ℕ
      → Result OpenError (Store b)
  unfolding native_table token_table height_of
  new_store l n c db oep4 offline synced = do
    d ← or_err db open_failed
    if offline
        then ok (record {
          db = d;
          height_indexed = none;
          height_synced = none;
          tokens = token_table l oep4 (native_table l n c);
        })
        else (do
          indexed ← height_of (get d height_key)
          ok (record {
            db = d;
            height_indexed = indexed;
            height_synced = some synced;
            tokens = token_table l oep4 (native_table l n c);
          }))
