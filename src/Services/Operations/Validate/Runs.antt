-- ===== src/Services/Operations/Validate/Runs.antt =====
-- validateOps on concrete operations.
use ontology_rosetta.Common.{◌≡◌, refl}
use ontology_rosetta.Common.Bytes.{eq_bytes}
use ontology_rosetta.Common.Int.{◌+ℤ◌, ◌-ℤ◌, eq_ℤ, neg_ℤ}
use ontology_rosetta.Common.Decimal.{
  print_nat, print_ℤ, digit, parse_loop, parse_nat, signed, parse_ℤ,
}
use ontology_rosetta.Common.Result.{ok, ◌>>=◌}
use ontology_rosetta.Services.Address.{is_native}
use ontology_rosetta.Services.Store.Runs.{validate_ont}
use ontology_rosetta.Services.Operations.{operation_of, account_of_op}
use ontology_rosetta.Services.Operations.Validate.{
  check_op, check_sub_account, check_token, no_zero, relate, validate_relation, wrap_int64, direct,
  no_null, validate_ops,
}
use ontology_rosetta.Services.Examples.Names.{names, natives, of_length}
use ontology_rosetta.Services.Examples.Chain.{fresh}
use ontology_rosetta.Services.Examples.Signing.{sent, sent_ops}

pub sent_8 : validate_ops names natives fresh.tokens (sent_ops 8) ≡ ok (sent 8)
unfolding validate_ops sent_ops operation_of account_of_op check_op check_sub_account check_token
    no_zero relate validate_relation wrap_int64 direct no_null eq_bytes ◌+ℤ◌ ◌-ℤ◌ eq_ℤ neg_ℤ
    print_nat print_ℤ digit parse_loop parse_nat signed parse_ℤ is_native of_length
sent_8 = rw (validate_ont, ◌>>=◌) refl

pub sent_null : validate_ops names natives fresh.tokens (sent_ops 0) ≡ ok (sent 0)
unfolding validate_ops sent_ops operation_of account_of_op check_op check_sub_account check_token
    no_zero relate validate_relation wrap_int64 direct no_null eq_bytes ◌+ℤ◌ ◌-ℤ◌ eq_ℤ neg_ℤ
    print_nat print_ℤ digit parse_loop parse_nat signed parse_ℤ is_native of_length
sent_null = rw (validate_ont, ◌>>=◌) refl
