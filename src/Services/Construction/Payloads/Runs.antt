-- ===== src/Services/Construction/Payloads/Runs.antt =====
-- ConstructionPreprocess and ConstructionPayloads on concrete requests.
use ontology_rosetta.Common.{ℕ, ◌≡◌, refl, false, List, Option}
use ontology_rosetta.Common.Bytes.{eq_bytes}
use ontology_rosetta.Common.Big.{bytes_of, bytes_of_nat, bytes_loop, set_bytes}
use ontology_rosetta.Common.Result.{ok, ◌>>=◌}
use ontology_rosetta.Services.Operations.Validate.{validate_ops}
use ontology_rosetta.Services.Construction.Fields.{
  field_of, check_field, get_uint64_field, get_payer, encode_protobuf, hex_encode, hex_char,
  decode_protobuf,
}
use ontology_rosetta.Services.Operations.{Operation}
use ontology_rosetta.Services.Construction.{construct_transfer, invoke_code, finish_transfer}
use ontology_rosetta.Services.Construction.Payloads.{
  PayloadsView, options_of, refuse, gather, preprocess, require, match_options, payloads,
  payloads_view,
}
use ontology_rosetta.Services.Examples.Signing.{ledger, sent, unsigned, is_call, is_made}
use ontology_rosetta.Services.Address.{is_native}
use ontology_rosetta.Services.Store.{lookup_token}
use ontology_rosetta.Services.Examples.Names.{of_length}
use ontology_rosetta.Services.Indexer.Decode.{hex_decode, hex_digit}
use ontology_rosetta.Services.Examples.Names.{names, natives}
use ontology_rosetta.Services.Examples.Chain.{fresh}
use ontology_rosetta.Services.Examples.Transactions.{
  transactions, request, carried, wanted, wanted_ops, is_sample, sample,
}

pub preprocess-carried :
    validate_ops names natives fresh.tokens wanted_ops ≡ ok wanted
    → preprocess transactions names natives fresh.tokens false false request wanted_ops ≡ ok carried
unfolding preprocess gather refuse options_of field_of check_field get_uint64_field get_payer
    encode_protobuf hex_encode hex_char is_sample eq_bytes bytes_of bytes_of_nat bytes_loop
preprocess-carried v = rw (v, ◌>>=◌) refl

pub encode_sample : encode_protobuf transactions names sample ≡ ok carried
unfolding encode_protobuf hex_encode hex_char is_sample eq_bytes
encode_sample = refl

abbrev pub sent_view : ℕ → PayloadsView
sent_view r = payloads_view (ledger r) names natives fresh.tokens (sent r) unsigned

pub payloads_8 :
    (ops : List (Option Operation))
    → validate_ops names natives fresh.tokens ops ≡ ok (sent 8)
    → payloads (ledger 8) names natives fresh.tokens carried ops ≡ ok (sent_view 8)
unfolding payloads match_options require decode_protobuf field_of eq_bytes bytes_of bytes_of_nat
    construct_transfer invoke_code finish_transfer is_call is_made lookup_token is_native of_length
    hex_decode hex_digit set_bytes
payloads_8 ops v = rw (v, ◌>>=◌) refl

pub payloads_null :
    (ops : List (Option Operation))
    → validate_ops names natives fresh.tokens ops ≡ ok (sent 0)
    → payloads (ledger 0) names natives fresh.tokens carried ops ≡ ok (sent_view 0)
unfolding payloads match_options require decode_protobuf field_of eq_bytes bytes_of bytes_of_nat
    construct_transfer invoke_code finish_transfer is_call is_made lookup_token is_native of_length
    hex_decode hex_digit set_bytes
payloads_null ops v = rw (v, ◌>>=◌) refl
