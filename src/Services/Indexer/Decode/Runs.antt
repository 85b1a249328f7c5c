-- ===== src/Services/Indexer/Decode/Runs.antt =====
-- decodeTransfer on concrete events.
use ontology_rosetta.Common.{◌≡◌, refl, some}
use ontology_rosetta.Common.Result.{ok}
use ontology_rosetta.Common.Text.{codes}
use ontology_rosetta.Common.Bytes.{eq_bytes}
use ontology_rosetta.Common.Decimal.{
  parse_int64, parse_ℤ, parse_nat, parse_loop, digit, signed, in_int64,
}
use ontology_rosetta.Services.Indexer.Decode.{
  decode_event, decode_transfer, decode_states, native_transfer, string_of, amount_of, int_of,
  value_of, is_gas_fee,
}
use ontology_rosetta.Services.Examples.Names.{names, natives, of_length}
use ontology_rosetta.Services.Examples.Node.{ledger, event_of, xfer_of}

pub decode_mint :
    decode_event names natives ledger 0 (event_of 0 9 (codes "100"))
    ≡ ok (some (xfer_of 0 9 100_000_000_000))
unfolding decode_event decode_transfer decode_states native_transfer string_of amount_of int_of
    value_of is_gas_fee parse_int64 parse_ℤ parse_nat parse_loop digit signed in_int64 eq_bytes
    of_length
decode_mint = refl

pub decode_move :
    decode_event names natives ledger 0 (event_of 9 8 (codes "30"))
    ≡ ok (some (xfer_of 9 8 30_000_000_000))
unfolding decode_event decode_transfer decode_states native_transfer string_of amount_of int_of
    value_of is_gas_fee parse_int64 parse_ℤ parse_nat parse_loop digit signed in_int64 eq_bytes
    of_length
decode_move = refl
