-- ===== src/Services/Operations/Validate.antt =====
-- validateOps and validateRelation of services/construction_service.go.
pub mod Sound
pub mod Runs
pub mod RoundTrip
use ontology_rosetta.Common.{
  ℕ, zero, suc, Bool, true, false, ◌&&◌, ◌||◌, not, Option, none, some, List, [], ◌∷◌,
  if◌then◌else◌, ltb, ◌^◌, ◌*◌,
}
use ontology_rosetta.Common.Bytes.{Bytes, eq_bytes}
use ontology_rosetta.Common.Int.{ℤ, pos, negsuc, ◌+ℤ◌, ◌-ℤ◌, eq_ℤ, neg_ℤ}
use ontology_rosetta.Common.Result.{Result, ok, err, ◌>>=◌, or_err}
use ontology_rosetta.Common.Text.{Text}
use ontology_rosetta.Common.Decimal.{parse_ℤ}
use ontology_rosetta.Services.Ontology.{Address, Library}
use ontology_rosetta.Services.Address.{Natives, is_native}
use ontology_rosetta.Services.Errors
use ontology_rosetta.Services.Errors.{Failure, Api, wrapped, panic}
use ontology_rosetta.Services.Types.{CurrencyInfo}
use ontology_rosetta.Services.Store.{validate_currency}
use ontology_rosetta.Services.Indexer.Decode.{empty_address}
use ontology_rosetta.Services.Operations.{TransferInfo, AccountId, OpAmount, Operation, op_transfer}

-- invalidOpsf
abbrev pub invalid_ops {ℓ} : {A : Type ℓ} → Api A
invalid_ops = err (wrapped Errors.invalid_ops_intent)

-- What the loop of validateOps finds in an operation.
pub record Checked : Type 0 where
  pub addr : Address
  pub amount : ℤ
  pub token : CurrencyInfo
  pub index : ℤ
  pub related : List (Option ℤ)

-- A difference of two int64.
wrap_int64 : ℤ → ℤ
wrap_int64 (pos a) =
    if ltb a 0x8000_0000_0000_0000 then pos a else pos a -ℤ pos 0x1_0000_0000_0000_0000
wrap_int64 (negsuc a) =
    if ltb a 0x8000_0000_0000_0000 then negsuc a else negsuc a +ℤ pos 0x1_0000_0000_0000_0000

-- validateRelation, for the operation that has related operations and the other one
unfoldable pub validate_relation : Checked → Checked → Api (Unit {0})
unfolding wrap_int64
validate_relation from to = elim to.related [
  | r ∷ rs ↦ invalid_ops
  | [] ↦ elim from.related [
    | [] ↦ err panic
    | none ∷ rels ↦ invalid_ops
    | some rel ∷ rels ↦
        if not (eq_ℤ rel to.index)
        then invalid_ops
        else (if not (eq_ℤ (wrap_int64 (from.index -ℤ to.index)) (pos 1))
            then invalid_ops
            else ok tt)
  ]
]

-- The `switch` on the related operations.
pub relate : Checked → Checked → Api (Unit {0})
relate c0 c1 = elim c0.related [
  | r ∷ rs ↦ validate_relation c0 c1
  | [] ↦ elim c1.related [ r ∷ rs ↦ validate_relation c1 c0 | [] ↦ invalid_ops ]
]

pub no_zero : ℤ → Api ℤ
no_zero (pos zero) = invalid_ops
no_zero (pos (suc n)) = ok (pos (suc n))
no_zero (negsuc n) = ok (negsuc n)

pub no_null : TransferInfo → Api TransferInfo
no_null x = if eq_bytes x.from empty_address then invalid_ops else ok x

-- The `switch` on the sign of the first amount.
pub direct : Checked → Checked → ℤ → Api TransferInfo
unfolding no_null
direct c0 c1 (pos zero) = invalid_ops
direct c0 c1 (pos (suc n)) = no_null (record {
  amount = c0.amount;
  contract = c0.token.contract;
  currency = c0.token.currency;
  from = c1.addr;
  is_gas = false;
  to = c0.addr;
})
direct c0 c1 (negsuc n) = no_null (record {
  amount = c1.amount;
  contract = c0.token.contract;
  currency = c0.token.currency;
  from = c0.addr;
  is_gas = false;
  to = c1.addr;
})

module _ (l : Library) (n : Natives) (tokens : List (Address × CurrencyInfo)) where
  pub check_sub_account : CurrencyInfo → Option Text → Api (Unit {0})
  check_sub_account token none = if is_native n token.contract then ok tt else invalid_ops
  check_sub_account token (some sub) = if is_native n token.contract then invalid_ops else (do
    caddr ← or_err (l.address_from_hex sub) (wrapped Errors.invalid_ops_intent)
    if not (eq_bytes token.contract caddr) then invalid_ops else ok tt)

  -- `cinfo`, a pointer into the store's tokens: the contract stands for it, the key of the token.
  pub check_token : Option CurrencyInfo → CurrencyInfo → Api (Unit {0})
  check_token none token = ok tt
  check_token (some cinfo) token =
      if not (eq_bytes cinfo.contract token.contract) then invalid_ops else ok tt

  -- One round of the loop of validateOps; a nil operation is a panic.
  pub check_op : Option CurrencyInfo → Option Operation → Api Checked
  unfolding check_sub_account check_token no_zero
  check_op cinfo none = err panic
  check_op cinfo (some op) = do
    account ← or_err op.account (wrapped Errors.invalid_ops_intent)
    addr ← or_err (l.address_from_base58 account.address) (wrapped Errors.invalid_ops_intent)
    amount ← or_err op.amount (wrapped Errors.invalid_ops_intent)
    raw ← or_err (parse_ℤ amount.value) (wrapped Errors.invalid_ops_intent)
    value ← no_zero raw
    token ← validate_currency l tokens amount.currency
    _ ← check_sub_account token account.sub_account
    _ ← check_token cinfo token
    index ← or_err op.identifier (wrapped Errors.invalid_ops_intent)
    if not (eq_bytes op.kind op_transfer)
        then invalid_ops
        else ok (record {
          addr = addr;
          amount = value;
          token = token;
          index = index;
          related = op.related;
        })

  -- validateOps
  unfoldable pub validate_ops : List (Option Operation) → Api TransferInfo
  validate_ops (o0 ∷ o1 ∷ []) = do
    c0 ← check_op none o0
    c1 ← check_op (some c0.token) o1
    _ ← relate c0 c1
    if not (eq_ℤ (c0.amount +ℤ c1.amount) (pos 0)) then invalid_ops else direct c0 c1 c0.amount
  validate_ops _ = invalid_ops
