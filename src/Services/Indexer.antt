-- ===== src/Services/Indexer.antt =====
-- The balance changes of a block: balanceCal and checkgasVerified of services/store.go, and the
-- nested map `diffs` of IndexBlocks.
pub mod Decode
pub mod Build
pub mod Diffs
pub mod Flow
pub mod Changes
pub mod Reconcile
pub mod Poll
use ontology_rosetta.Common.{
  ℕ, Bool, true, false, ◌&&◌, ◌||◌, not, Option, none, some, List, [], ◌∷◌, ◌++◌, if◌then◌else◌,
}
use ontology_rosetta.Common.Bytes.{Bytes, eq_bytes}
use ontology_rosetta.Common.Int.{ℤ, pos, ◌+ℤ◌, ◌-ℤ◌, neg_ℤ}
use ontology_rosetta.Common.Big.{bytes_of_nat}
use ontology_rosetta.Services.Ontology.{Address}
use ontology_rosetta.Services.Address.{Natives, addr2slice}
use ontology_rosetta.Services.Types.{Transfer}

-- transfer; the decoders give no negative amount.
pub record Xfer : Type 0 where
  pub amount : ℕ
  pub from : Address
  pub is_gas : Bool
  pub to : Address

-- A map by addresses.
unfoldable pub find_in {ℓ} : {A : Type ℓ} → Address → List (Address × A) → Option A
find_in k [] = none
find_in k ((j, v) ∷ m) = if eq_bytes j k then some v else find_in k m

unfoldable pub put_in {ℓ} : {A : Type ℓ} → Address → A → List (Address × A) → List (Address × A)
put_in k v [] = (k, v) ∷ []
put_in k v ((j, w) ∷ m) = if eq_bytes j k then (j, v) ∷ m else (j, w) ∷ put_in k v m

abbrev pub Accounts : Type 0
Accounts = List (Address × ℤ)

abbrev pub Diffs : Type 0
Diffs = List (Address × Accounts)

-- The steps on `diffs` that the two halves of balanceCal share: the entry becomes `f` of it, or
-- `z` where there is none.
unfoldable pub adjust_contract : Address → (ℤ → ℤ) → ℤ → Option Accounts → Accounts
adjust_contract contract f z none = (contract, z) ∷ []
adjust_contract contract f z (some accts) = elim (find_in contract accts) [
  | some balance ↦ put_in contract (f balance) accts
  | none ↦ put_in contract z accts
]

unfoldable pub adjust : Address → Address → (ℤ → ℤ) → ℤ → Diffs → Diffs
adjust acct contract f z diffs =
    put_in acct (adjust_contract contract f z (find_in acct diffs)) diffs

unfoldable pub debit : Natives → Xfer → Address → Diffs → Diffs
debit n x contract diffs =
    if not (eq_bytes x.from n.null)
    then adjust x.from contract (λ balance. balance -ℤ pos x.amount) (neg_ℤ (pos x.amount)) diffs
    else diffs

unfoldable pub credit : Natives → Xfer → Address → Diffs → Diffs
credit n x contract diffs =
    if not (eq_bytes x.to n.null)
    then adjust x.to contract (λ balance. balance +ℤ pos x.amount) (pos x.amount) diffs
    else diffs

-- balanceCal: the entry for the block, and `diffs` after it.
unfoldable pub balance_cal : Natives → Xfer → Address → Diffs → Transfer × Diffs
balance_cal n x contract diffs = (
  record {
    amount = bytes_of_nat x.amount;
    contract = addr2slice n contract;
    from = addr2slice n x.from;
    is_gas = x.is_gas;
    to = addr2slice n x.to;
  },
  credit n x contract (debit n x contract diffs),
)

-- The three results of checkgasVerified.
pub record GasCheck : Type 0 where
  pub verified : Bool
  pub is_gas : Bool
  pub skip : Bool

-- checkgasVerified behind its `if failed`
unfoldable pub check_gas : Address → Address → Bool → Bool → GasCheck
check_gas payer from true is_gas = record { verified = true; is_gas = false; skip = false }
check_gas payer from false true =
    if eq_bytes payer from
    then record { verified = true; is_gas = true; skip = false }
    else record { verified = false; is_gas = false; skip = false }
check_gas payer from false false = record { verified = false; is_gas = false; skip = false }

unfoldable pub checkgas_verified :
    Natives → Address → Address → Address → Bool → Bool → Bool → GasCheck
unfolding check_gas
checkgas_verified n contract payer from failed gas_verified is_gas =
    if failed && (not (eq_bytes contract n.ong) || gas_verified)
    then record { verified = false; is_gas = false; skip = true }
    else check_gas payer from gas_verified is_gas
