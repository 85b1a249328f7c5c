-- ===== src/Services/Examples/BuildRuns.antt =====
-- The theorems on the construction endpoints at the ledger of Transactions.
use ontology_rosetta.Common.{◌≡◌, ◌≢◌, refl, false, none, some, arith}
use ontology_rosetta.Common.Result.{ok, ◌>>=◌, or_err}
use ontology_rosetta.Services.Errors
use ontology_rosetta.Services.Errors.{wrapped}
use ontology_rosetta.Services.Store.Runs.{validate_ont}
use ontology_rosetta.Services.Operations.{TransferInfo}
use ontology_rosetta.Services.Operations.Validate.{validate_ops}
use ontology_rosetta.Services.Operations.Validate.RoundTrip.{validate_ops-append_operations}
use ontology_rosetta.Services.Construction.{ConstructOptions, construct_transfer}
use ontology_rosetta.Services.Construction.Fields.{decode_protobuf, encode_protobuf}
use ontology_rosetta.Services.Construction.Fields.Hex.{decode_protobuf-encode_protobuf}
use ontology_rosetta.Services.Construction.Payloads.{payloads, payloads_view}
use ontology_rosetta.Services.Construction.Payloads.Agree.{payloads-preprocess}
use ontology_rosetta.Services.Construction.Payloads.Runs.{preprocess-carried, encode_sample}
use ontology_rosetta.Services.Construction.Metadata.{
  Chain, no_block, get_gas_price, has_transactions,
}
use ontology_rosetta.Services.Construction.Metadata.Gas.{get_gas_price-ends, get_gas_price-diverges}
use ontology_rosetta.Services.Construction.Metadata.Refined.{
  IsRefined, construction_metadata-IsRefined,
}
use ontology_rosetta.Services.Construction.Metadata.Runs.{metadata_carried}
use ontology_rosetta.Services.Examples.Healthy.{disk}
use ontology_rosetta.Services.Examples.Names.{names, names-IsLibrary, natives, address_ne}
use ontology_rosetta.Services.Examples.Chain.{fresh, ont_info}
use ontology_rosetta.Services.Examples.Transactions.{
  transactions, transactions-IsMarshal, sample, carried, request, wanted, wanted_ops,
}

valid : validate_ops names natives fresh.tokens wanted_ops ≡ ok wanted
valid =
    validate_ops-append_operations names natives fresh.tokens names-IsLibrary wanted ont_info
      validate_ont refl (omega arith) 29 false refl refl refl (omega arith) (omega arith)
      (address_ne 9 0 (omega arith)) (address_ne 8 0 (omega arith)) (address_ne 9 0 (omega arith))

decoded : decode_protobuf transactions names carried ≡ ok sample
decoded =
    decode_protobuf-encode_protobuf transactions names transactions-IsMarshal sample carried
      encode_sample

decode_protobuf-encode_protobuf_example : decode_protobuf transactions names carried ≡ ok sample
decode_protobuf-encode_protobuf_example =
    decode_protobuf-encode_protobuf transactions names transactions-IsMarshal sample carried
      encode_sample

payloads-preprocess_example :
    (o : ConstructOptions) × (x : TransferInfo) × (decode_protobuf transactions names carried
      ≡ ok o)
    × (validate_ops names natives fresh.tokens wanted_ops ≡ ok x)
    × (payloads transactions names natives fresh.tokens carried wanted_ops ≡ (
        or_err
          (construct_transfer transactions names natives fresh.tokens o)
          (wrapped Errors.invalid_construct_options)
        >>= λ txn. ok (payloads_view transactions names natives fresh.tokens x txn)))
payloads-preprocess_example =
    payloads-preprocess transactions names natives fresh.tokens transactions-IsMarshal false false
      request carried wanted_ops (preprocess-carried valid)

construction_metadata-IsRefined_example :
    (o o' : ConstructOptions) × (decode_protobuf transactions names carried ≡ ok o)
    × (encode_protobuf transactions names o' ≡ ok carried)
    × IsRefined transactions names natives fresh.tokens disk fresh (some no_block) o o'
construction_metadata-IsRefined_example =
    construction_metadata-IsRefined transactions names natives fresh.tokens disk fresh
      (some no_block) (λ i. none) carried carried (metadata_carried decoded)

-- A node whose blocks have no transactions.
abbrev quiet : Chain
quiet = record { root = λ h. none; prices = λ h. none }

get_gas_price-ends_example : get_gas_price quiet 102 5000 ≢ none
get_gas_price-ends_example = get_gas_price-ends quiet 5000 (omega arith) (omega arith)

get_gas_price-diverges_example : get_gas_price quiet 1000 100 ≡ none
unfolding has_transactions
get_gas_price-diverges_example = get_gas_price-diverges quiet 1000 100 (omega arith) (λ h. refl)
