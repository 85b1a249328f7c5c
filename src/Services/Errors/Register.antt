-- ===== src/Services/Errors/Register.antt =====
-- newError of services/errors.go and the errors that the package registers when it is loaded.
use ontology_rosetta.Common.{
  ℕ, ◌≡◌, sym, ap, ◌∙◌, Bool, true, false, Option, none, some, List, [], ◌∷◌, ◌++◌, append_assoc,
  append-nil, ◌==◌, if◌then◌else◌,
}
use ontology_rosetta.Common.Result.{ok, err, ◌>>=◌}
use ontology_rosetta.Services.Errors.{
  ErrorKind, Api, panic, not_implemented, offline_mode, currency_not_defined, datastore,
  datastore_conflict, datastore_consistency, internal, nonce_generation_failed, protobuf,
  invalid_account_address, invalid_block_hash, invalid_block_identifier, invalid_block_index,
  invalid_construct_options, invalid_contract_address, invalid_currency, invalid_gas_limit,
  invalid_gas_price, invalid_nonce, invalid_ops_intent, invalid_payer_address, invalid_public_key,
  invalid_request_field, invalid_signature, invalid_transaction_hash, invalid_transaction_payload,
  broadcast_failed, transaction_not_in_mempool, unknown_block_hash, unknown_block_index,
}

-- types.Error; the kind stands for its message.
pub record ServerError : Type 0 where
  pub code : ℕ
  pub kind : ErrorKind
  pub retriable : Bool

-- errorCodes and serverErrors
pub record Registry : Type 0 where
  pub error_codes : List (ℕ × ServerError)
  pub server_errors : List ServerError

-- `errorCodes[code]`
unfoldable pub registered : ℕ → List (ℕ × ServerError) → Option ServerError
registered code [] = none
registered code ((k, e) ∷ codes) = if k == code then some e else registered code codes

-- newError
pub new_error : ServerError → Registry → Api (ServerError × Registry)
unfolding registered
new_error e r = elim (registered e.code r.error_codes) [
  | some prev ↦ err panic
  | none ↦ ok (e, record r { server_errors = r.server_errors ++ e ∷ [] })
]

-- The variables of a package are initialised one after the other.
pub declare_each : List ServerError → Registry → Api Registry
declare_each [] r = ok r
declare_each (e ∷ es) r = do (_, r') ← new_error e r; declare_each es r'

abbrev pub nothing_registered : Registry
nothing_registered = record { error_codes = []; server_errors = [] }

abbrev error_with : ℕ → ErrorKind → Bool → ServerError
error_with code kind retriable = record { code = code; kind = kind; retriable = retriable }

-- The errors of the package, in their order.
unfoldable pub declared : List ServerError
declared =
    error_with 101 not_implemented false
    ∷ error_with 102 offline_mode false
    ∷ error_with 201 currency_not_defined true
    ∷ error_with 301 datastore true
    ∷ error_with 302 datastore_conflict true
    ∷ error_with 303 datastore_consistency true
    ∷ error_with 304 internal true
    ∷ error_with 305 nonce_generation_failed true
    ∷ error_with 306 protobuf false
    ∷ error_with 401 invalid_account_address false
    ∷ error_with 402 invalid_block_hash false
    ∷ error_with 403 invalid_block_identifier false
    ∷ error_with 404 invalid_block_index false
    ∷ error_with 405 invalid_construct_options false
    ∷ error_with 406 invalid_contract_address false
    ∷ error_with 407 invalid_currency false
    ∷ error_with 408 invalid_gas_limit false
    ∷ error_with 409 invalid_gas_price false
    ∷ error_with 410 invalid_nonce false
    ∷ error_with 411 invalid_ops_intent false
    ∷ error_with 412 invalid_payer_address false
    ∷ error_with 413 invalid_public_key false
    ∷ error_with 414 invalid_request_field false
    ∷ error_with 415 invalid_signature false
    ∷ error_with 416 invalid_transaction_hash false
    ∷ error_with 417 invalid_transaction_payload false
    ∷ error_with 501 broadcast_failed true
    ∷ error_with 502 transaction_not_in_mempool true
    ∷ error_with 503 unknown_block_hash true
    ∷ error_with 504 unknown_block_index true
    ∷ []

abbrev with_errors : List ServerError → Registry
with_errors l = record { error_codes = []; server_errors = l }

appended : (es l : List ServerError) → declare_each es (with_errors l) ≡ ok (with_errors (l ++ es))
unfolding declare_each new_error registered
appended [] l = λ i. ok (with_errors (sym (append-nil l) i))
appended (x ∷ es) l =
    appended es (l ++ x ∷ [])
    ∙ ap (λ (m : List ServerError). ok (with_errors m)) (append_assoc l (x ∷ []) es)

-- Whatever errors are declared, newError registers all of them, in their order, two with one code
-- among them; its test for a code that is taken never fails.
pub declare_each-all :
    (es : List ServerError)
    → declare_each es nothing_registered ≡ ok (record nothing_registered { server_errors = es })
declare_each-all es = appended es []
