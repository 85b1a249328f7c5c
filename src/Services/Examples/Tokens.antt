-- ===== src/Services/Examples/Tokens.antt =====
-- The constants of the native tokens, and a configured token.
use ontology_rosetta.Common.{false}
use ontology_rosetta.Common.Int.{pos}
use ontology_rosetta.Common.Text.{codes}
use ontology_rosetta.Services.Types.{Oep4Token}
use ontology_rosetta.Services.Opening.{Constants}
use ontology_rosetta.Services.Examples.Names.{address}

abbrev pub constants : Constants
constants = record {
  ong_decimals = pos 18;
  ong_symbol = codes "ONG";
  ont_decimals = pos 9;
  ont_symbol = codes "ONT";
}

abbrev pub token : Oep4Token
token = record { contract = address 40; decimals = pos 8; symbol = codes "TKN"; wasm = false }
