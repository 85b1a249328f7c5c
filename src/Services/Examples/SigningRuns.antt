-- ===== src/Services/Examples/SigningRuns.antt =====
-- The theorems on signed transactions, on the code of transactions and on the mempool, at the ledger
-- of Signing.
use ontology_rosetta.Common.{
  ◌≡◌, ◌≢◌, refl, ◌↔◌, inl, inr, Bool-cases, true, false, some, List, [], ◌∷◌, map, arith,
}
use ontology_rosetta.Common.Bytes.{eq_bytes, eq_bytes→eq}
use ontology_rosetta.Common.Result.{ok, err}
use ontology_rosetta.Chain.Payload.{bad_index, parse_transfers, parse_payload}
use ontology_rosetta.Chain.Payload.Calls.{the_transfer}
use ontology_rosetta.Chain.Payload.Pointwise.{Pointwise, parse_transfers-Pointwise}
use ontology_rosetta.Chain.Payload.Total.{HasRead, parse_payload-ne-bad_index}
use ontology_rosetta.Services.Errors
use ontology_rosetta.Services.Errors.{wrapped, panic}
use ontology_rosetta.Services.Types.{CurrencyInfo}
use ontology_rosetta.Services.Store.{lookup_token}
use ontology_rosetta.Services.Store.Tokens.{IsRegistered}
use ontology_rosetta.Services.Operations.{AccountId, append_operations}
use ontology_rosetta.Services.Operations.Validate.{validate_ops}
use ontology_rosetta.Services.Operations.Validate.Runs.{sent_8, sent_null}
use ontology_rosetta.Services.Construction.{ConstructOptions}
use ontology_rosetta.Services.Construction.Fields.{decode_protobuf, hex_encode}
use ontology_rosetta.Services.Construction.Signed.{decode_transaction, construction_hash}
use ontology_rosetta.Services.Construction.Signed.Combine.{
  Signs, combine-Signs, decode_transaction-serialize,
}
use ontology_rosetta.Services.Construction.Signed.Panics.{FirstFatal, combine-FirstFatal}
use ontology_rosetta.Services.Construction.Signed.Runs.{
  other_signature, combine_other, the_signature, combine_8, submit_8,
}
use ontology_rosetta.Services.Construction.Parse.{ParseView, construction_parse}
use ontology_rosetta.Services.Construction.Parse.Signers.{AreSigners, construction_parse-combine}
use ontology_rosetta.Services.Construction.Payloads.Parsed.{
  construction_parse-payloads, construction_parse-payloads_null,
}
use ontology_rosetta.Services.Construction.Payloads.{payloads_view}
use ontology_rosetta.Services.Construction.Payloads.Runs.{sent_view, payloads_8, payloads_null}
use ontology_rosetta.Services.Mempool.{Pool, mempool_transaction}
use ontology_rosetta.Services.Mempool.Same.{mempool_transaction-submit}
use ontology_rosetta.Services.Examples.Names.{names, names-IsLibrary, natives, address, address_ne}
use ontology_rosetta.Services.Examples.Chain.{fresh, ont_info, hash_at}
use ontology_rosetta.Services.Examples.Transactions.{carried}
use ontology_rosetta.Services.Examples.Signing.{
  Tx, unsigned, xfer, ledger, wire, machine, at_syscall, sent, sent_ops,
}
use ontology_rosetta.Services.Examples.SigningLaws.{
  wire-IsCodec, wire-IsSealed, wire-IsMade, machine-IsBuilder,
}

fresh-IsRegistered : IsRegistered names fresh.tokens
unfolding lookup_token
fresh-IsRegistered = record {
  own_key = λ a info h. elim (Bool-cases (eq_bytes natives.ont a)) [
    | inl own ↦
        let e : natives.ont ≡ a = eq_bytes→eq natives.ont a own in
        let i : ont_info ≡ info = cc (rw own at h) in rw (← i) (rw (← e) (refl, omega arith, refl))
    | inr other ↦ absurd (cc (rw other at h))
  ];
}

construction_parse-payloads_example :
    (o : ConstructOptions) × (r : ParseView) × (decode_protobuf (ledger 8) names carried ≡ ok o)
    × (construction_parse
          (machine 8)
          names
          natives
          fresh.tokens
          (ledger 8)
          (wire 8)
          false
          (sent_view 8).unsigned_transaction
        ≡ ok r)
    × (r.operations ≡ append_operations names natives [] (sent 8) false)
    × (validate_ops names natives fresh.tokens (map some r.operations) ≡ ok (sent 8))
    × (r.gas_limit ≡ o.gas_limit)
    × (r.gas_price ≡ o.gas_price)
    × (r.nonce ≡ o.nonce)
    × (r.signers ≡ [])
unfolding lookup_token eq_bytes
construction_parse-payloads_example =
    construction_parse-payloads (ledger 8) (wire 8) (machine 8) names natives fresh.tokens
      names-IsLibrary fresh-IsRegistered (wire-IsCodec 8) (wire-IsMade 8) (machine-IsBuilder 8) refl
      carried (sent_ops 8) (sent_view 8) (sent 8) ont_info (payloads_8 (sent_ops 8) sent_8) sent_8
      refl refl (address_ne 1 0 (omega arith)) (address_ne 8 0 (omega arith))

construction_parse-payloads_null_example :
    construction_parse
      (machine 0)
      names
      natives
      fresh.tokens
      (ledger 0)
      (wire 0)
      true
      (sent_view 0).unsigned_transaction
    ≡ err (wrapped Errors.internal)
unfolding lookup_token eq_bytes
construction_parse-payloads_null_example =
    construction_parse-payloads_null (ledger 0) (wire 0) (machine 0) names natives fresh.tokens
      names-IsLibrary fresh-IsRegistered (wire-IsCodec 0) (wire-IsMade 0) (machine-IsBuilder 0) refl
      carried (sent_ops 0) (sent_view 0) (sent 0) ont_info (payloads_null (sent_ops 0) sent_null)
      sent_null refl refl (address_ne 1 0 (omega arith)) refl true

-- What ConstructionParse reads from the unsigned transaction.
parsed_8 :
    (r : ParseView) × (construction_parse
        (machine 8)
        names
        natives
        fresh.tokens
        (ledger 8)
        (wire 8)
        false
        (hex_encode (1 ∷ []))
      ≡ ok r)
unfolding lookup_token eq_bytes payloads_view
parsed_8 =
    let (o, r, d, p, _, _, _, _, _, _) =
      construction_parse-payloads (ledger 8) (wire 8) (machine 8) names natives fresh.tokens
        names-IsLibrary fresh-IsRegistered (wire-IsCodec 8) (wire-IsMade 8) (machine-IsBuilder 8)
        refl carried (sent_ops 8) (sent_view 8) (sent 8) ont_info (payloads_8 (sent_ops 8) sent_8)
        sent_8 refl refl (address_ne 1 0 (omega arith)) (address_ne 8 0 (omega arith)) in
    (r, p)

combine-Signs_example :
    (t : Tx) × (t' : Tx) × (decode_transaction (ledger 8) (wire 8) names (hex_encode (1 ∷ []))
      ≡ ok t)
    × (decode_transaction (ledger 8) (wire 8) names (hex_encode (2 ∷ [])) ≡ ok t')
    × Signs (ledger 8) (wire 8) names (some the_signature ∷ []) t t'
combine-Signs_example =
    combine-Signs (ledger 8) (wire 8) names (wire-IsCodec 8) (wire-IsSealed 8) (hex_encode (1 ∷ []))
      (some the_signature ∷ []) (hex_encode (2 ∷ [])) combine_8

combine-FirstFatal_example :
    (t : Tx) × (m : (wire 8).Mut) × (decode_transaction
        (ledger 8)
        (wire 8)
        names
        (hex_encode (1 ∷ []))
      ≡ ok t)
    × ((wire 8).into_mutable t ≡ some m)
    × FirstFatal
        (ledger 8)
        (wire 8)
        names
        ((wire 8).mut_hash m)
        (some the_signature ∷ some other_signature ∷ [])
combine-FirstFatal_example =
    combine-FirstFatal (ledger 8) (wire 8) names (hex_encode (1 ∷ []))
      (some the_signature ∷ some other_signature ∷ []) combine_other

construction_parse-combine_example :
    (info : CurrencyInfo) × (accts : List AccountId) × AreSigners
      (machine 8)
      names
      natives
      fresh.tokens
      (ledger 8)
      (wire 8)
      info
      (some the_signature ∷ [])
      accts
    × (construction_parse
          (machine 8)
          names
          natives
          fresh.tokens
          (ledger 8)
          (wire 8)
          true
          (hex_encode (2 ∷ []))
        ≡ ok (record (parsed_8.0) { signers = accts }))
construction_parse-combine_example =
    construction_parse-combine (machine 8) names natives fresh.tokens (ledger 8) (wire 8)
      (wire-IsCodec 8) (wire-IsSealed 8) (hex_encode (1 ∷ [])) (some the_signature ∷ [])
      (hex_encode (2 ∷ [])) parsed_8.0 parsed_8.1 combine_8

abbrev pool : Pool (ledger 8)
pool = record { hashes = hash_at 3 ∷ []; find = λ h. some unsigned }

mempool_transaction-submit_example :
    (construction_hash (ledger 8) (wire 8) names (hex_encode (1 ∷ [])) ≡ ok (hash_at 3))
    × (mempool_transaction names
          (machine 8)
          natives
          fresh.tokens
          (ledger 8)
          (wire 8)
          false
          pool
          (some (hash_at 3))
        ≡ ok (record { operations = parsed_8.0.operations; hash = hash_at 3 }))
mempool_transaction-submit_example =
    mempool_transaction-submit (machine 8) names natives fresh.tokens (ledger 8) (wire 8)
      names-IsLibrary pool false (hex_encode (1 ∷ [])) (hash_at 3) unsigned parsed_8.0
      (decode_transaction-serialize (ledger 8) (wire 8) names (wire-IsCodec 8) unsigned)
      (omega arith) refl parsed_8.1 submit_8

parse_transfers-Pointwise_example :
    (parse_transfers (machine 8) names (xfer (address 9) (address 8) 30 ∷ [])
      ≡ ok (the_transfer (machine 8) names (address 9) (address 8) 30 ∷ []))
    ↔ Pointwise
        (machine 8)
        names
        (xfer (address 9) (address 8) 30 ∷ [])
        (the_transfer (machine 8) names (address 9) (address 8) 30 ∷ [])
parse_transfers-Pointwise_example =
    parse_transfers-Pointwise (machine 8) names (xfer (address 9) (address 8) 30 ∷ [])
      (the_transfer (machine 8) names (address 9) (address 8) 30 ∷ [])

machine-HasRead : HasRead (machine 8) names
machine-HasRead = record {
  one_read = λ c e h. let q : at_syscall 8 ≡ e = cc h in rw (← q) (omega arith);
  inside = λ c e h. let q : at_syscall 8 ≡ e = cc h in rw (← q) (omega arith);
}

parse_payload-ne-bad_index_example : parse_payload (machine 8) names (7 ∷ []) ≢ err bad_index
parse_payload-ne-bad_index_example =
    parse_payload-ne-bad_index (machine 8) names machine-HasRead (7 ∷ [])
