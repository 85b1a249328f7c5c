-- ===== src/Services/Errors.antt =====
-- services/errors.go: the errors that the endpoints return, and their registration.
pub mod Register
use ontology_rosetta.Common.Result.{Result}

-- The error values of the package. What fmt.Errorf writes into `Details` is not modelled: `wrapped`
-- tells that there is a detail.
pub data ErrorKind : Type 0 where
  not_implemented offline_mode currency_not_defined : ErrorKind
  datastore datastore_conflict datastore_consistency internal : ErrorKind
  nonce_generation_failed protobuf : ErrorKind
  invalid_account_address invalid_block_hash invalid_block_identifier : ErrorKind
  invalid_block_index invalid_construct_options invalid_contract_address : ErrorKind
  invalid_currency invalid_gas_limit invalid_gas_price invalid_nonce : ErrorKind
  invalid_ops_intent invalid_payer_address invalid_public_key : ErrorKind
  invalid_request_field invalid_signature invalid_transaction_hash : ErrorKind
  invalid_transaction_payload broadcast_failed transaction_not_in_mempool : ErrorKind
  unknown_block_hash unknown_block_index : ErrorKind

-- How an endpoint fails: with an error for the client, that of wrapErr among them, or not at all
-- normally. `diverges` is a loop that does not end.
pub data Failure : Type 0 where
  api : ErrorKind → Failure
  wrapped : ErrorKind → Failure
  panic diverges : Failure

abbrev pub Api {ℓ} : Type ℓ → Type ℓ
Api A = Result Failure A
