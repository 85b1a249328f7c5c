-- ===== src/Services/Construction/Payloads/Agree.antt =====
-- The two endpoints agree on the options.
use ontology_rosetta.Common.{ℕ, ◌≡◌, refl, Bool, Option, List, subst}
use ontology_rosetta.Common.Bytes.{eq_bytes_refl}
use ontology_rosetta.Common.Big.{bytes_of}
use ontology_rosetta.Common.Result.{ok, ◌>>=◌, or_err, bind-ok}
use ontology_rosetta.Common.Text.{codes}
use ontology_rosetta.Services.Ontology.{Address, Library}
use ontology_rosetta.Services.Address.{Natives}
use ontology_rosetta.Services.Errors
use ontology_rosetta.Services.Errors.{wrapped}
use ontology_rosetta.Services.Types.{CurrencyInfo}
use ontology_rosetta.Services.Operations.{TransferInfo, Operation}
use ontology_rosetta.Services.Operations.Validate.{validate_ops}
use ontology_rosetta.Services.Construction.{ConstructOptions, Ledger, construct_transfer}
use ontology_rosetta.Services.Construction.Fields.{
  Metadata, get_uint64_field, get_payer, decode_protobuf,
}
use ontology_rosetta.Services.Construction.Fields.Hex.{IsMarshal, decode_protobuf-encode_protobuf}
use ontology_rosetta.Services.Construction.Payloads.{
  options_of, require, refuse, gather, preprocess, payloads, payloads_view, match_options,
}

module _ (g : Ledger) (l : Library) (n : Natives) (tokens : List (Address × CurrencyInfo)) where
  match_options_own :
      (x : TransferInfo) (gas_limit gas_price nonce : ℕ) (payer : Address)
      → match_options g l n tokens (options_of x gas_limit gas_price nonce payer) x ≡ ok tt
  unfolding match_options require options_of
  match_options_own x gas_limit gas_price nonce payer =
      rw
        (
          eq_bytes_refl (bytes_of x.amount),
          eq_bytes_refl x.contract,
          eq_bytes_refl x.from,
          eq_bytes_refl x.to,
        )
        refl

  gather_ok :
      (f m : Bool) (md : Metadata g.Float) (ops : List (Option Operation)) (o : ConstructOptions)
      → gather g l n tokens f m md ops ≡ ok o
      → (x : TransferInfo) × (validate_ops l n tokens ops ≡ ok x)
        × (match_options g l n tokens o x ≡ ok tt)
  unfolding gather
  gather_ok f m md ops o e =
      let (_, _, e1) = bind-ok (refuse f) _ o e in
      let (_, _, e2) = bind-ok (refuse m) _ o e1 in
      let (gas_limit, _, e3) =
        bind-ok
          (or_err (get_uint64_field g l md (codes "gas_limit")) (wrapped Errors.invalid_gas_limit))
          _ o e2 in
      let (gas_price, _, e4) =
        bind-ok
          (or_err (get_uint64_field g l md (codes "gas_price")) (wrapped Errors.invalid_gas_price))
          _ o e3 in
      let (nonce, _, e5) =
        bind-ok (or_err (get_uint64_field g l md (codes "nonce")) (wrapped Errors.invalid_nonce)) _
          o e4 in
      let (payer, _, e6) = bind-ok (get_payer g l md) _ o e5 in
      let (x, v, e7) = bind-ok (validate_ops l n tokens ops) _ o e6 in
      let s : options_of x gas_limit gas_price nonce payer ≡ o = cc e7 in
      (
        x,
        v,
        subst (λ (p : ConstructOptions). match_options g l n tokens p x ≡ ok tt) s
            (match_options_own x gas_limit gas_price nonce payer),
      )

  payloads_lem :
      (md : Metadata g.Float) (ops : List (Option Operation)) (o : ConstructOptions)
      (x : TransferInfo)
      → decode_protobuf g l md ≡ ok o
      → validate_ops l n tokens ops ≡ ok x
      → match_options g l n tokens o x ≡ ok tt
      → payloads g l n tokens md ops ≡ (
          or_err (construct_transfer g l n tokens o) (wrapped Errors.invalid_construct_options)
          >>= λ txn. ok (payloads_view g l n tokens x txn))
  unfolding payloads
  payloads_lem md ops o x d v w = rw (d, ◌>>=◌) (rw (v, ◌>>=◌) (rw (w, ◌>>=◌) refl))

  -- When the preprocess request answers with options, the payloads request with these options and
  -- the same operations never finds that they do not match: it answers with the transaction that
  -- constructTransfer makes of the options, for the transfer that validateOps reads from the
  -- operations, or with the error of constructTransfer.
  pub payloads-preprocess :
      IsMarshal g
      → (max_fee multiplier : Bool) (md md' : Metadata g.Float) (ops : List (Option Operation))
      → preprocess g l n tokens max_fee multiplier md ops ≡ ok md'
      → (o : ConstructOptions) × (x : TransferInfo) × (decode_protobuf g l md' ≡ ok o)
        × (validate_ops l n tokens ops ≡ ok x)
        × (payloads g l n tokens md' ops ≡ (
            or_err (construct_transfer g l n tokens o) (wrapped Errors.invalid_construct_options)
            >>= λ txn. ok (payloads_view g l n tokens x txn)))
  unfolding preprocess
  payloads-preprocess good f m md md' ops e =
      let (o, q, r) = bind-ok (gather g l n tokens f m md ops) _ md' e in
      let (x, v, w) = gather_ok f m md ops o q in
      let d = decode_protobuf-encode_protobuf g l good o md' r in
      (o, x, d, v, payloads_lem md' ops o x d v w)
