-- ===== src/Services/Store/Runs.antt =====
-- validateCurrency on a registered currency.
use ontology_rosetta.Common.{◌≡◌, refl, some}
use ontology_rosetta.Common.Bytes.{eq_bytes}
use ontology_rosetta.Common.Int.{eq_ℤ}
use ontology_rosetta.Common.Result.{ok}
use ontology_rosetta.Services.Store.{
  lookup_token, validate_contract, check_currency, validate_currency,
}
use ontology_rosetta.Services.Examples.Names.{names, of_length}
use ontology_rosetta.Services.Examples.Chain.{fresh, ont_info}

pub validate_ont : validate_currency names fresh.tokens (some ont_info.currency) ≡ ok ont_info
unfolding validate_currency validate_contract check_currency lookup_token eq_bytes eq_ℤ of_length
validate_ont = refl
