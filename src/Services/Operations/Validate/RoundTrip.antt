-- ===== src/Services/Operations/Validate/RoundTrip.antt =====
-- What appendOperations makes of a transfer, validateOps accepts and reads back.
use ontology_rosetta.Common.{
  ℕ, suc, ◌≡◌, ◌≢◌, refl, sym, ap, ◌∙◌, inl, inr, Bool, true, false, Option, none, some, List, [],
  ◌∷◌, map, arith, Bool-cases,
}
use ontology_rosetta.Common.Bytes.{eq_bytes, eq_bytes_ne, eq_bytes_refl}
use ontology_rosetta.Common.Int.{ℤ, pos, negsuc, ◌+ℤ◌, ◌-ℤ◌, neg_ℤ, eq_ℤ}
use ontology_rosetta.Common.Result.{ok, ◌>>=◌}
use ontology_rosetta.Common.Decimal.{parse_ℤ-print_ℤ}
use ontology_rosetta.Services.Ontology.{Address, IsAddress, Library, IsLibrary}
use ontology_rosetta.Services.Address.{Natives, is_native}
use mathlib.Core.Path.{ap₂}
use ontology_rosetta.Services.Types.{Currency, CurrencyInfo}
use ontology_rosetta.Services.Store.{validate_currency}
use ontology_rosetta.Services.Indexer.Decode.{empty_address}
use ontology_rosetta.Services.Operations.{
  TransferInfo, Operation, operation_of, op_transfer, append_operations, append_from, append_to,
  kind_of, account_of_op,
}
use ontology_rosetta.Services.Operations.Validate.{
  Checked, check_op, check_token, check_sub_account, no_zero, relate, validate_relation, wrap_int64,
  direct, no_null, validate_ops,
}

module _ (l : Library) (n : Natives) (tokens : List (Address × CurrencyInfo)) (lib : IsLibrary l)
    (x : TransferInfo) (info : CurrencyInfo)
    (known : validate_currency l tokens (some x.currency) ≡ ok info)
    (same : info.contract ≡ x.contract) (lc : IsAddress x.contract) where
  check_sub_account_ok :
      (a : Address) → check_sub_account l n tokens info (account_of_op l n x a).sub_account ≡ ok tt
  unfolding account_of_op check_sub_account
  check_sub_account_ok a = elim (Bool-cases (is_native n x.contract)) [
    | inl t ↦ rw (t, same) (rw t)
    | inr f ↦
        rw (f, same)
          (rw (f, lib.from_hex-to_hex x.contract lc, ◌>>=◌) (rw (eq_bytes_refl x.contract)))
  ]

  check_op_ok :
      (cinfo : Option CurrencyInfo) (a : Address) (z : ℤ) (index : ℕ) (related : List (Option ℤ))
      (s : Bool)
      → IsAddress a
      → no_zero z ≡ ok z
      → check_token l n tokens cinfo info ≡ ok tt
      → check_op l n tokens cinfo (some (operation_of l n x a z index related s op_transfer))
        ≡ ok (record { addr = a; amount = z; token = info; index = pos index; related = related })
  unfolding check_op operation_of eq_bytes
  check_op_ok cinfo a z index related s la nz ct =
      rw (lib.from_base58-to_base58 a la, ◌>>=◌)
        (rw (parse_ℤ-print_ℤ z, ◌>>=◌)
          (rw (nz, ◌>>=◌)
            (rw (known, ◌>>=◌) (rw (check_sub_account_ok a, ◌>>=◌) (rw (ct, ◌>>=◌) refl)))))

  module _ (s : Bool) (nf : x.from ≢ n.null) (nt : x.to ≢ n.null) (eg : x.is_gas ≡ false) where
    abbrev pub the_from : Operation
    the_from = operation_of l n x x.from (neg_ℤ x.amount) 0 [] s op_transfer

    abbrev pub the_to : Operation
    the_to = operation_of l n x x.to x.amount 1 (some (pos 0) ∷ []) s op_transfer

    pub two_operations : append_operations l n [] x s ≡ the_from ∷ the_to ∷ []
    unfolding append_operations append_from append_to kind_of
    two_operations = rw (eq_bytes_ne x.from n.null nf, eq_bytes_ne x.to n.null nt, eg) refl

  abbrev checked_from : Checked
  checked_from = record {
    addr = x.from;
    amount = neg_ℤ x.amount;
    token = info;
    index = pos 0;
    related = [];
  }

  abbrev checked_to : Checked
  checked_to = record {
    addr = x.to;
    amount = x.amount;
    token = info;
    index = pos 1;
    related = some (pos 0) ∷ [];
  }

  check_token_same : check_token l n tokens (some info) info ≡ ok tt
  unfolding check_token
  check_token_same = rw (eq_bytes_refl info.contract)

  relate_ok : relate checked_from checked_to ≡ ok tt
  unfolding relate validate_relation wrap_int64 ◌-ℤ◌ eq_ℤ
  relate_ok = refl

  module _ (k : ℕ) (ea : x.amount ≡ pos (suc k)) where
    neg_amount : neg_ℤ x.amount ≡ negsuc k
    unfolding neg_ℤ
    neg_amount = rw ea (ground arith)

    from_no_zero : no_zero (neg_ℤ x.amount) ≡ ok (neg_ℤ x.amount)
    unfolding no_zero
    from_no_zero = rw neg_amount refl

    to_no_zero : no_zero x.amount ≡ ok x.amount
    unfolding no_zero
    to_no_zero = rw ea refl

    sum_zero : eq_ℤ (neg_ℤ x.amount +ℤ x.amount) (pos 0) ≡ true
    unfolding ◌+ℤ◌ eq_ℤ
    sum_zero = rw (neg_amount, ea) (ground arith)

    direct_ok :
        x.is_gas ≡ false
        → info.currency ≡ x.currency
        → x.from ≢ empty_address
        → direct checked_from checked_to (neg_ℤ x.amount) ≡ ok x
    unfolding direct no_null
    direct_ok eg ec ne =
        rw (neg_amount, eq_bytes_ne x.from empty_address ne)
          (ap₂
              (λ (c : Address) (u : Currency). ok (record {
                amount = x.amount;
                contract = c;
                currency = u;
                from = x.from;
                is_gas = false;
                to = x.to;
              }))
              same ec
            ∙ ap (λ (g : Bool). ok (record x { is_gas = g })) (sym eg))

  -- For a transfer of a positive amount of a registered token between two accounts that are not
  -- null, the two operations that appendOperations makes of it pass validateOps, which reads the
  -- same transfer from them.
  pub validate_ops-append_operations :
      (k : ℕ) (s : Bool)
      → x.amount ≡ pos (suc k)
      → x.is_gas ≡ false
      → info.currency ≡ x.currency
      → IsAddress x.from
      → IsAddress x.to
      → x.from ≢ n.null
      → x.to ≢ n.null
      → x.from ≢ empty_address
      → validate_ops l n tokens (map some (append_operations l n [] x s)) ≡ ok x
  unfolding validate_ops
  validate_ops-append_operations k s ea eg ec lf lt nf nt ne = rw (two_operations s nf nt eg) (
      rw
        (
          check_op_ok none x.from (neg_ℤ x.amount) 0 [] s lf (from_no_zero k ea)
              (unfold check_token in refl),
          ◌>>=◌,
        )
        (rw
          (
            check_op_ok (some info) x.to x.amount 1 (some (pos 0) ∷ []) s lt (to_no_zero k ea)
                check_token_same,
            ◌>>=◌,
          )
          (rw (relate_ok, ◌>>=◌) (rw (sum_zero k ea) (direct_ok k ea eg ec ne)))))
