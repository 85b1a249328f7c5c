-- ===== src/Model/Runs.antt =====
-- Construct options as text.
use mathlib.Core.List.{reverse}
use ontology_rosetta.Common.{◌≡◌, refl, [], ◌∷◌, ◌++◌}
use ontology_rosetta.Common.Big.{set_bytes}
use ontology_rosetta.Common.Decimal.{print_nat}
use ontology_rosetta.Common.Text.{codes}
use ontology_rosetta.Services.Construction.{ConstructOptions}
use ontology_rosetta.Services.Construction.Fields.{hex_encode, hex_char}
use ontology_rosetta.Model.{format_options}
use ontology_rosetta.Model.Fields.{intercalate, present, fields_of, format_options-fields_of}

abbrev few : ConstructOptions
few = record {
  amount = 1 ∷ 0 ∷ [];
  contract = [];
  from = [];
  gas_limit = 0;
  gas_price = 2500;
  nonce = 0;
  payer = [];
  to = 0x1f ∷ 2 ∷ [];
}

few_text : format_options reverse few ≡ codes "{amount: 256, gas_price: 2500, to: 021f}"
unfolding format_options print_nat set_bytes hex_encode hex_char
few_text = refl

format_options-fields_of_example :
    format_options reverse few
    ≡ codes "{" ++ (intercalate (present (fields_of reverse few)) ++ codes "}")
format_options-fields_of_example = format_options-fields_of reverse few
