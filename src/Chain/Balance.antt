-- ===== src/Chain/Balance.antt =====
-- chain/chain.go: the balance that a contract on the ledger answers with.
use ontology_rosetta.Common.{Option, none, some}
use ontology_rosetta.Common.Bytes.{Bytes}
use ontology_rosetta.Common.Int.{ℤ}
use ontology_rosetta.Common.Text.{Text, codes}
use ontology_rosetta.Services.Ontology.{Address}
use ontology_rosetta.Services.Indexer.Decode.{hex_decode}

-- What the package uses of the ledger: the transaction that invokes a contract's method with an
-- account, for the NeoVM and for a native contract, and its execution. The result of one is a text, or
-- `some none` where it is of another type; `none` is an error.
pub record Execution : Type 1 where
  pub Mut : Type 0
  pub Txn : Type 0
  pub new_neovm : Address → Text → Address → Option Mut
  pub new_native : Address → Text → Address → Option Mut
  pub into_immutable : Mut → Option Txn
  pub pre_execute : Txn → Option (Option Text)
  pub int_of_neo : Bytes → ℤ

module _ (x : Execution) where
  -- The steps that Exec and NativeExec share, behind the making of the transaction.
  unfoldable pub run_mut : Option x.Mut → Option (Option Text)
  run_mut made = elim made [
    | none ↦ none
    | some mut ↦ elim (x.into_immutable mut) [ none ↦ none | some txn ↦ x.pre_execute txn ]
  ]

  unfoldable pub exec : Address → Text → Address → Option (Option Text)
  unfolding run_mut
  exec contract method acct = run_mut (x.new_neovm contract method acct)

  unfoldable pub native_exec : Address → Text → Address → Option (Option Text)
  unfolding run_mut
  native_exec contract method acct = run_mut (x.new_native contract method acct)

  -- The reading of a result.
  unfoldable pub amount_in : Option (Option Text) → Option ℤ
  amount_in none = none
  amount_in (some none) = none
  amount_in (some (some raw)) = elim (hex_decode raw) [
    | none ↦ none
    | some val ↦ some (x.int_of_neo val)
  ]

  -- BalanceOf
  unfoldable pub balance_of : Address → Address → Option ℤ
  unfolding exec amount_in
  balance_of acct contract = amount_in (exec contract (codes "balanceOf") acct)

  -- NativeBalanceOf
  unfoldable pub native_balance_of : Address → Address → Option ℤ
  unfolding native_exec amount_in
  native_balance_of acct contract = amount_in (native_exec contract (codes "balanceOfV2") acct)
