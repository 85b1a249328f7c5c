-- ===== src/Services/Construction/Parse.antt =====
-- parsePayload and ConstructionParse of services/construction_service.go.
pub mod Signers
use ontology_rosetta.Common.{
  ℕ, Bool, true, false, not, Option, none, some, List, [], ◌∷◌, if◌then◌else◌, length, ◌==◌,
}
use ontology_rosetta.Common.Bytes.{Bytes}
use ontology_rosetta.Common.Result.{Result, ok, err, ◌>>=◌, or_err}
use ontology_rosetta.Common.Text.{Text}
use ontology_rosetta.Chain.Payload
use ontology_rosetta.Chain.Payload.{Vm, Parse, Fault, failed, bad_index, parse_payload}
use ontology_rosetta.Services.Ontology.{Address, Library}
use ontology_rosetta.Services.Address.{Natives, is_native}
use ontology_rosetta.Services.Errors
use ontology_rosetta.Services.Errors.{Api, wrapped, api, panic}
use ontology_rosetta.Services.Types.{CurrencyInfo}
use ontology_rosetta.Services.Store.{get_currency_info}
use ontology_rosetta.Services.Operations.{TransferInfo, AccountId, Operation, append_operations}
use ontology_rosetta.Services.Construction.{Ledger}
use ontology_rosetta.Services.Construction.Wire.{
  Wire, TxPayload, no_payload, nil_invoke, other_payload, invoke,
}
use ontology_rosetta.Services.Construction.Signed.{guard, decode_transaction}

-- types.ConstructionParseResponse, with the four entries of its metadata.
pub record ParseView : Type 0 where
  pub signers : List AccountId
  pub gas_limit : ℕ
  pub gas_price : ℕ
  pub nonce : ℕ
  pub payer : Text
  pub operations : List Operation

-- An error of ParsePayload is wrapped.
unfoldable pub payload_error {ℓ} : {A : Type ℓ} → Parse A → Api A
payload_error (ok a) = ok a
payload_error (err failed) = err (wrapped Errors.invalid_transaction_payload)
payload_error (err bad_index) = err panic

module _ (vm : Vm) (l : Library) (n : Natives) (tokens : List (Address × CurrencyInfo)) where
  unfoldable pub info_of : CurrencyInfo → Address → Payload.Transfer → TransferInfo
  info_of info contract x = record {
    amount = x.amount;
    contract = contract;
    currency = info.currency;
    from = x.from;
    is_gas = false;
    to = x.to;
  }

  -- The loop of parsePayload.
  unfoldable pub append_each :
      CurrencyInfo → Address → List Operation → List Payload.Transfer → List Operation
  unfolding info_of
  append_each info contract ops [] = ops
  append_each info contract ops (x ∷ xs) =
      append_each info contract (append_operations l n ops (info_of info contract x) false) xs

  -- parsePayload
  unfoldable pub parse_operations : TxPayload → Api (List Operation × CurrencyInfo)
  unfolding append_each payload_error
  parse_operations no_payload = err (api Errors.invalid_transaction_payload)
  parse_operations nil_invoke = err (api Errors.invalid_transaction_payload)
  parse_operations other_payload = err (api Errors.invalid_transaction_payload)
  parse_operations (invoke code) = do
    (xfers, contract) ← payload_error (parse_payload vm l code)
    info ← get_currency_info tokens contract
    ok (append_each info contract [] xfers, info)

  -- The test of the first operation, where an empty value and a positive one are refused.
  unfoldable pub is_outgoing : Operation → Bool
  is_outgoing op = elim op.amount [
    | none ↦ false
    | some amount ↦ elim amount.value [ [] ↦ false | c ∷ cs ↦ c == b'-' ]
  ]

  unfoldable pub first_outgoing : List Operation → Bool
  unfolding is_outgoing
  first_outgoing [] = false
  first_outgoing (op ∷ ops) = is_outgoing op

  module _ (g : Ledger) (w : Wire g) where
    pub signer_of : CurrencyInfo → Bytes → AccountId
    signer_of info key = record {
      address = l.address_to_base58 (w.address_from_key key);
      sub_account =
          if not (is_native n info.contract) then some (l.address_to_hex info.contract) else none;
    }

    -- The account of the one key of a signature.
    pub one_key : CurrencyInfo → List Bytes → Api AccountId
    unfolding signer_of
    one_key info (key ∷ []) = ok (signer_of info key)
    one_key info _ = err (wrapped Errors.invalid_transaction_payload)

    -- The loop over the signatures.
    pub signers_of : CurrencyInfo → List w.RawSig → Api (List AccountId)
    unfolding one_key
    signers_of info [] = ok []
    signers_of info (raw ∷ raws) = do
      keys ← or_err (w.get_sig raw) (wrapped Errors.invalid_transaction_payload)
      acct ← one_key info keys
      accts ← signers_of info raws
      ok (acct ∷ accts)

    unfoldable pub read_signers : Bool → CurrencyInfo → List w.RawSig → Api (List AccountId)
    unfolding signers_of
    read_signers false info raws = ok []
    read_signers true info [] = err (wrapped Errors.invalid_transaction_payload)
    read_signers true info (raw ∷ raws) = signers_of info (raw ∷ raws)

    -- ConstructionParse behind decodeTransaction
    unfoldable pub parse_view : Bool → g.Txn → Api ParseView
    unfolding read_signers first_outgoing
    parse_view signed txn = do
      (ops, info) ← parse_operations (w.payload txn)
      _ ← guard (length ops == 2) (wrapped Errors.internal)
      _ ← guard (first_outgoing ops) (wrapped Errors.internal)
      signers ← read_signers signed info (w.raw_sigs txn)
      ok (record {
        signers = signers;
        gas_limit = w.gas_limit txn;
        gas_price = w.gas_price txn;
        nonce = w.nonce txn;
        payer = l.address_to_base58 (g.txn_payer txn);
        operations = ops;
      })

    -- ConstructionParse
    unfoldable pub construction_parse : Bool → Text → Api ParseView
    construction_parse signed text = do txn ← decode_transaction g w l text; parse_view signed txn
