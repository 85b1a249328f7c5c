-- ===== src/Services/Construction/Signed.antt =====
-- decodeTransaction, ConstructionCombine, ConstructionDerive, ConstructionHash and
-- ConstructionSubmit of services/construction_service.go.
pub mod Combine
pub mod Panics
pub mod Runs
use ontology_rosetta.Common.{
  ℕ, Bool, true, false, not, Option, none, some, List, [], ◌∷◌, ◌++◌, if◌then◌else◌, length, ◌==◌,
}
use ontology_rosetta.Common.Bytes.{Bytes, eq_bytes}
use ontology_rosetta.Common.Result.{Result, ok, err, ◌>>=◌, or_err}
use ontology_rosetta.Common.Text.{Text}
use ontology_rosetta.Services.Ontology.{Address, Hash, Library}
use ontology_rosetta.Services.Errors
use ontology_rosetta.Services.Errors.{Api, wrapped, api, panic}
use ontology_rosetta.Services.Types.{CurrencyInfo}
use ontology_rosetta.Services.Operations.{AccountId}
use ontology_rosetta.Services.Indexer.Decode.{hex_decode}
use ontology_rosetta.Services.Construction.{Ledger}
use ontology_rosetta.Services.Construction.Fields.{Metadata, get_contract, hex_encode}
use ontology_rosetta.Services.Construction.Wire.{Wire, Sig}

-- types.PublicKey
pub record PublicKey : Type 0 where
  pub bytes : Bytes
  pub curve_type : Text

-- types.Signature; of its signing payload the code reads the bytes.
pub record Signature : Type 0 where
  pub signing_payload : Option Bytes
  pub public_key : Option PublicKey
  pub signature_type : Text
  pub bytes : Bytes

-- The test that an early return makes.
unfoldable pub guard : Bool → Errors.Failure → Api (Unit {0})
guard true e = ok tt
guard false e = err e

module _ (g : Ledger) (w : Wire g) (l : Library) where
  open g use {Txn}

  -- decodeTransaction
  pub decode_transaction : Text → Api Txn
  decode_transaction [] = err (api Errors.invalid_transaction_payload)
  decode_transaction (c ∷ text) = do
    raw ← or_err (hex_decode (c ∷ text)) (wrapped Errors.invalid_transaction_payload)
    txn ← or_err (w.from_raw raw) (wrapped Errors.invalid_transaction_payload)
    or_err txn (wrapped Errors.invalid_transaction_payload)

  -- The checks of the key in ConstructionCombine.
  pub check_key : PublicKey → Api (Unit {0})
  unfolding guard
  check_key key = do
    _ ← guard (eq_bytes key.curve_type w.edwards25519) (wrapped Errors.invalid_public_key)
    guard (length key.bytes == 32) (wrapped Errors.invalid_public_key)

  -- The text of the error for another signature type is made of a field of the signing payload,
  -- before the test that there is one.
  pub check_type : Signature → Api (Unit {0})
  check_type sig =
      if eq_bytes sig.signature_type w.ed25519 then ok tt else elim sig.signing_payload [
        | none ↦ err panic
        | some b ↦ err (wrapped Errors.invalid_signature)
      ]

  -- One round of the loop of ConstructionCombine, for the hash of the transaction.
  pub check_signature : Hash → Option Signature → Api Sig
  unfolding check_key check_type guard
  check_signature hash none = err panic
  check_signature hash (some sig) = do
    key ← or_err sig.public_key (api Errors.invalid_public_key)
    _ ← check_key key
    _ ← check_type sig
    message ← or_err sig.signing_payload (wrapped Errors.invalid_signature)
    _ ← guard (eq_bytes message hash) (wrapped Errors.invalid_signature)
    _ ← guard (w.verify key.bytes message sig.bytes) (api Errors.invalid_signature)
    osig ← or_err (w.serialize_sig sig.bytes) (wrapped Errors.invalid_signature)
    ok (record { keys = key.bytes ∷ []; sig_data = osig ∷ [] })

  pub check_signatures : Hash → List (Option Signature) → Api (List Sig)
  check_signatures hash [] = ok []
  check_signatures hash (sig ∷ sigs) = do
    s ← check_signature hash sig
    ss ← check_signatures hash sigs
    ok (s ∷ ss)

  pub is_empty {ℓ} : {A : Type ℓ} → List A → Bool
  is_empty [] = true
  is_empty (x ∷ xs) = false

  -- ConstructionCombine
  pub combine : Text → List (Option Signature) → Api Text
  unfolding guard is_empty
  combine unsigned sigs = do
    txn ← decode_transaction unsigned
    mut ← or_err (w.into_mutable txn) (wrapped Errors.invalid_transaction_payload)
    _ ← guard (is_empty (w.mut_sigs mut)) (wrapped Errors.invalid_transaction_payload)
    _ ← guard (not (is_empty sigs)) (api Errors.invalid_signature)
    ss ← check_signatures (w.mut_hash mut) sigs
    signed ← or_err (w.seal (w.with_sigs mut (w.mut_sigs mut ++ ss))) (wrapped Errors.internal)
    ok (hex_encode (g.serialize signed))

  -- ConstructionDerive
  pub derive : List (Address × CurrencyInfo) → Option PublicKey → Metadata g.Float → Api AccountId
  unfolding check_key
  derive tokens public_key md = do
    key ← or_err public_key (api Errors.invalid_public_key)
    _ ← check_key key
    contract ← get_contract g l tokens md
    ok (record {
      address = l.address_to_base58 (w.address_from_key key.bytes);
      sub_account = if is_empty contract then none else some contract;
    })

  -- ConstructionHash, and txhash2response
  unfoldable pub construction_hash : Text → Api Text
  construction_hash text = do txn ← decode_transaction text; ok (l.hash_to_hex (g.txn_hash txn))

  -- ConstructionSubmit
  unfoldable pub submit : Bool → Text → Api Text
  submit true text = err (api Errors.offline_mode)
  submit false text = do
    txn ← decode_transaction text
    if w.append_to_pool txn
        then ok (l.hash_to_hex (g.txn_hash txn))
        else err (wrapped Errors.broadcast_failed)
