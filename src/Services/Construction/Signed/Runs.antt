-- ===== src/Services/Construction/Signed/Runs.antt =====
-- ConstructionCombine and ConstructionSubmit on a concrete transaction.
use ontology_rosetta.Common.{◌≡◌, refl, false, none, some, [], ◌∷◌}
use ontology_rosetta.Common.Bytes.{eq_bytes}
use ontology_rosetta.Common.Result.{ok, err}
use ontology_rosetta.Common.Text.{codes}
use ontology_rosetta.Services.Errors.{panic}
use ontology_rosetta.Services.Indexer.Decode.{hex_decode, hex_digit}
use ontology_rosetta.Services.Construction.Fields.{hex_encode, hex_char}
use ontology_rosetta.Services.Construction.Signed.{
  PublicKey, Signature, guard, decode_transaction, check_key, check_type, check_signature,
  check_signatures, is_empty, combine, submit,
}
use ontology_rosetta.Services.Examples.Names.{names}
use ontology_rosetta.Services.Examples.Chain.{hash_at}
use ontology_rosetta.Services.Examples.Signing.{ledger, wire, the_key, is_own}

abbrev pub the_public_key : PublicKey
the_public_key = record { bytes = the_key; curve_type = codes "edwards25519" }

abbrev pub the_signature : Signature
the_signature = record {
  signing_payload = some (hash_at 3);
  public_key = some the_public_key;
  signature_type = codes "ed25519";
  bytes = 9 ∷ [];
}

pub combine_8 :
    combine (ledger 8) (wire 8) names (hex_encode (1 ∷ [])) (some the_signature ∷ [])
    ≡ ok (hex_encode (2 ∷ []))
unfolding combine decode_transaction check_signatures check_signature check_key check_type guard
    is_empty hex_decode hex_digit hex_encode hex_char eq_bytes is_own
combine_8 = refl

pub submit_8 : submit (ledger 8) (wire 8) names false (hex_encode (1 ∷ [])) ≡ ok (hash_at 3)
unfolding submit decode_transaction hex_decode hex_digit hex_encode hex_char
submit_8 = refl

-- A signature of another type, without a signing payload.
abbrev pub other_signature : Signature
other_signature = record the_signature { signing_payload = none; signature_type = codes "ecdsa" }

pub combine_other :
    combine
      (ledger 8)
      (wire 8)
      names
      (hex_encode (1 ∷ []))
      (some the_signature ∷ some other_signature ∷ [])
    ≡ err panic
unfolding combine decode_transaction check_signatures check_signature check_key check_type guard
    is_empty hex_decode hex_digit hex_encode hex_char eq_bytes is_own
combine_other = refl
