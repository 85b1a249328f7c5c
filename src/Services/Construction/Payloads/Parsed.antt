-- ===== src/Services/Construction/Payloads/Parsed.antt =====
-- ConstructionParse on the unsigned transaction that ConstructionPayloads answers with.
use ontology_rosetta.Common.{◌≡◌, ◌≢◌, refl, Bool, false, Option, some, List, [], map, subst}
use ontology_rosetta.Common.Bytes.{Bytes}
use ontology_rosetta.Common.Big.{bytes_of, set_bytes}
use ontology_rosetta.Common.Result.{ok, err, ◌>>=◌}
use ontology_rosetta.Chain.Payload.{Vm, nil_addr}
use ontology_rosetta.Services.Ontology.{Address, IsAddress, Library, IsLibrary}
use ontology_rosetta.Services.Address.{Natives}
use ontology_rosetta.Services.Errors
use ontology_rosetta.Services.Errors.{wrapped}
use ontology_rosetta.Services.Types.{CurrencyInfo}
use ontology_rosetta.Services.Store.{lookup_token}
use ontology_rosetta.Services.Store.Tokens.{IsRegistered}
use ontology_rosetta.Services.Indexer.Decode.{empty_address}
use ontology_rosetta.Services.Operations.{TransferInfo, Operation, append_operations}
use ontology_rosetta.Services.Operations.Validate.{validate_ops}
use ontology_rosetta.Services.Operations.Validate.Sound.{IsRead, validate_ops-IsRead}
use ontology_rosetta.Services.Construction.{ConstructOptions, Ledger}
use ontology_rosetta.Services.Construction.Fields.{Metadata, decode_protobuf}
use ontology_rosetta.Services.Construction.Wire.{Wire, invoke, IsCodec, IsMade}
use ontology_rosetta.Services.Construction.Signed.{decode_transaction}
use ontology_rosetta.Services.Construction.Signed.Combine.{decode_transaction-serialize}
use ontology_rosetta.Services.Construction.Parse.{ParseView, construction_parse}
use ontology_rosetta.Services.Construction.Payloads.{PayloadsView, payloads, payloads_view}
use ontology_rosetta.Services.Construction.Payloads.Made.{
  Matches, payloads-Answered, Coded, construct_transfer-Made,
}
use ontology_rosetta.Services.Construction.Payloads.Reading.{
  IsBuilder, read_back, parse_view_own, parse_view_null,
}

module _ (g : Ledger) (w : Wire g) (vm : Vm) (l : Library) (n : Natives)
    (tokens : List (Address × CurrencyInfo)) (lib : IsLibrary l) (reg : IsRegistered l tokens)
    (codec : IsCodec g w) (made : IsMade g w) (builder : IsBuilder g vm l)
    (null_eq : n.null ≡ empty_address) where
  -- The transaction of an answer, with its code and the fields of the options.
  record Own (md : Metadata g.Float) (x : TransferInfo) (view : PayloadsView) : Type 0 where
    options : ConstructOptions
    txn : g.Txn
    code : Bytes
    options_eq : decode_protobuf g l md ≡ ok options
    text_eq : decode_transaction g w l view.unsigned_transaction ≡ ok txn
    payload_eq : w.payload txn ≡ invoke code
    coded : Coded g l n tokens x (set_bytes (bytes_of x.amount)) code
    gas_limit_eq : w.gas_limit txn ≡ options.gas_limit
    gas_price_eq : w.gas_price txn ≡ options.gas_price
    nonce_eq : w.nonce txn ≡ options.nonce

  module _ (md : Metadata g.Float) (ops : List (Option Operation)) (view : PayloadsView)
      (x : TransferInfo) (info : CurrencyInfo) (answered : payloads g l n tokens md ops ≡ ok view)
      (validated : validate_ops l n tokens ops ≡ ok x)
      (found : lookup_token x.contract tokens ≡ some info) (neo : info.wasm ≡ false)
      (ne : x.contract ≢ nil_addr) where
    abbrev read : IsRead l n tokens x
    read = validate_ops-IsRead l n tokens lib reg ops x validated

    abbrev lc : IsAddress x.contract
    lc = (reg.own_key x.contract info found).1

    own : Own md x view
    unfolding payloads_view
    own =
        let a = payloads-Answered g l n tokens md ops view answered in
        let same : a.xfer ≡ x = cc (a.validated, validated) in
        let matched : Matches a.options x =
          subst (λ (y : TransferInfo). Matches a.options y) same a.matched in
        let m =
          construct_transfer-Made g l n tokens lib a.options x info a.txn matched found lc
            read.from_len read.to_len neo a.constructed in
        let (p, gl, gp, nn, _) = made.made _ a.txn m.made in
        record {
          options = a.options;
          txn = a.txn;
          code = m.code;
          options_eq = a.decoded;
          text_eq =
              subst
                (λ (v : PayloadsView). decode_transaction g w l v.unsigned_transaction ≡ ok a.txn)
                a.view_eq (decode_transaction-serialize g w l codec a.txn);
          payload_eq = p;
          coded =
              subst (λ (b : Bytes). Coded g l n tokens x (set_bytes b) m.code) matched.amount_eq
                m.coded;
          gas_limit_eq = gl;
          gas_price_eq = gp;
          nonce_eq = nn;
        }

    -- What ConstructionPayloads answers with for a transfer of a registered token that is no WASM
    -- contract and not at the nil address, to an account that is not null, ConstructionParse reads
    -- back: the operations that appendOperations makes of the transfer, from which validateOps reads
    -- it again, with the gas limit, the gas price and the nonce of the request's options and without
    -- signers.
    pub construction_parse-payloads :
        x.to ≢ n.null
        → (o : ConstructOptions) × (r : ParseView) × (decode_protobuf g l md ≡ ok o)
          × (construction_parse vm l n tokens g w false view.unsigned_transaction ≡ ok r)
          × (r.operations ≡ append_operations l n [] x false)
          × (validate_ops l n tokens (map some r.operations) ≡ ok x)
          × (r.gas_limit ≡ o.gas_limit)
          × (r.gas_price ≡ o.gas_price)
          × (r.nonce ≡ o.nonce)
          × (r.signers ≡ [])
    unfolding construction_parse
    construction_parse-payloads nt = (
      own.options,
      record {
        signers = [];
        gas_limit = w.gas_limit own.txn;
        gas_price = w.gas_price own.txn;
        nonce = w.nonce own.txn;
        payer = l.address_to_base58 (g.txn_payer own.txn);
        operations = append_operations l n [] x false;
      },
      own.options_eq,
      rw (own.text_eq, ◌>>=◌)
          (parse_view_own g w vm l n tokens lib reg builder null_eq x read lc ne nt own.txn own.code
            own.payload_eq own.coded),
      refl,
      read_back g w vm l n tokens lib reg builder null_eq x read lc ne nt,
      own.gas_limit_eq,
      own.gas_price_eq,
      own.nonce_eq,
      refl,
    )

    -- For a transfer of such a token to the null address ConstructionPayloads answers all the same,
    -- and ConstructionParse refuses the transaction with an internal error, signed or not.
    pub construction_parse-payloads_null :
        x.to ≡ n.null
        → (s : Bool)
        → construction_parse vm l n tokens g w s view.unsigned_transaction
          ≡ err (wrapped Errors.internal)
    unfolding construction_parse
    construction_parse-payloads_null e s =
        rw (own.text_eq, ◌>>=◌)
          (parse_view_null g w vm l n tokens lib reg builder null_eq x read lc ne e s own.txn
            own.code own.payload_eq own.coded)
