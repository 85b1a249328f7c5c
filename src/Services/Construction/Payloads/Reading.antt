-- ===== src/Services/Construction/Payloads/Reading.antt =====
-- What ConstructionParse reads from a transaction whose code the library built for a transfer.
use ontology_rosetta.Common.{
  ℕ, suc, ◌≡◌, ◌≢◌, refl, sym, ap, ◌∙◌, Bool, true, false, some, List, [], ◌∷◌, map, length, ◌==◌,
  subst, arith,
}
use ontology_rosetta.Common.Bytes.{Bytes, eq_bytes_refl, eq_bytes_ne}
use ontology_rosetta.Common.Big.{bytes_of, set_bytes, set_bytes-bytes_of_nat}
use ontology_rosetta.Common.Int.{pos, negsuc, neg_ℤ}
use ontology_rosetta.Common.Decimal.{print_ℤ}
use ontology_rosetta.Common.Result.{ok, err, ◌>>=◌}
use ontology_rosetta.Chain.Payload.{Vm, nil_addr, parse_payload}
use ontology_rosetta.Chain.Payload.Calls.{
  NativeCall, NeoCall, the_transfer, parse_payload-NativeCall, parse_payload-NeoCall,
}
use ontology_rosetta.Services.Ontology.{Address, IsAddress, Library, IsLibrary}
use ontology_rosetta.Services.Address.{Natives}
use ontology_rosetta.Services.Errors
use ontology_rosetta.Services.Errors.{wrapped}
use ontology_rosetta.Services.Types.{Currency, CurrencyInfo}
use ontology_rosetta.Services.Store.{get_currency_info, validate_currency}
use ontology_rosetta.Services.Store.Tokens.{IsRegistered, validate_currency-own}
use ontology_rosetta.Services.Indexer.Decode.{empty_address}
use ontology_rosetta.Services.Operations.{
  TransferInfo, append_operations, append_from, append_to, operation_of,
}
use ontology_rosetta.Services.Operations.Validate.{validate_ops}
use ontology_rosetta.Services.Operations.Validate.Sound.{IsRead}
use ontology_rosetta.Services.Operations.Validate.RoundTrip.{
  two_operations, the_from, the_to, validate_ops-append_operations,
}
use ontology_rosetta.Services.Construction.{Ledger}
use ontology_rosetta.Services.Construction.Wire.{Wire, invoke}
use ontology_rosetta.Services.Construction.Signed.{guard}
use ontology_rosetta.Services.Construction.Parse.{
  payload_error, info_of, append_each, parse_operations, first_outgoing, is_outgoing, parse_view,
  read_signers,
}
use ontology_rosetta.Services.Construction.Payloads.Made.{Coded, native_code, neo_code}

-- The code that the library builds for a transfer calls the contract's method on the machine.
pub record IsBuilder (g : Ledger) (vm : Vm) (l : Library) : Type 0 where
  pub native_call :
      (contract from to : Address) (amount : ℕ) (code : Bytes)
      → g.build_native contract from to amount ≡ some code
      → NativeCall vm l code contract from to amount
  pub neo_call :
      (contract from to : Address) (amount : ℕ) (code : Bytes)
      → contract ≢ nil_addr
      → g.build_neo contract from to amount ≡ some code
      → NeoCall vm l code contract from to amount
  pub calls_differ : vm.app_call ≢ vm.sys_call

module _ (g : Ledger) (w : Wire g) (vm : Vm) (l : Library) (n : Natives)
    (tokens : List (Address × CurrencyInfo)) (lib : IsLibrary l) (reg : IsRegistered l tokens)
    (builder : IsBuilder g vm l) (null_eq : n.null ≡ empty_address) where
  Coded-parse :
      (x : TransferInfo) (amount : ℕ) (code : Bytes)
      → Coded g l n tokens x amount code
      → IsAddress x.contract
      → IsAddress x.from
      → IsAddress x.to
      → x.contract ≢ nil_addr
      → parse_payload vm l code ≡ ok (the_transfer vm l x.from x.to amount ∷ [], x.contract)
  Coded-parse x amount code (native_code e) lc lf lt ne =
      parse_payload-NativeCall vm l lib x.contract x.from x.to amount lf lt builder.calls_differ lc
        code (builder.native_call x.contract x.from x.to amount code e)
  Coded-parse x amount code (neo_code e) lc lf lt ne =
      parse_payload-NeoCall vm l lib x.contract x.from x.to amount lf lt ne code
        (builder.neo_call x.contract x.from x.to amount code ne e)

  module _ (x : TransferInfo) (read : IsRead l n tokens x) (lc : IsAddress x.contract)
      (ne : x.contract ≢ nil_addr) where
    amount_back : pos (set_bytes (bytes_of x.amount)) ≡ x.amount
    unfolding bytes_of
    amount_back = rw read.amount_eq (ap pos (set_bytes-bytes_of_nat (suc read.less_one)))

    info_of_own :
        info_of vm l n tokens read.info x.contract
          (the_transfer vm l x.from x.to (set_bytes (bytes_of x.amount)))
        ≡ x
    unfolding info_of
    info_of_own = λ i. record x {
      amount = amount_back i;
      currency = sym read.currency_eq i;
      is_gas = sym read.not_gas i;
    }

    parse_operations_own :
        (code : Bytes)
        → Coded g l n tokens x (set_bytes (bytes_of x.amount)) code
        → parse_operations vm l n tokens (invoke code)
          ≡ ok (append_operations l n [] x false, read.info)
    unfolding parse_operations payload_error append_each get_currency_info
    parse_operations_own code c =
        rw
          (
            Coded-parse x (set_bytes (bytes_of x.amount)) code c lc read.from_len read.to_len ne,
            ◌>>=◌,
          )
          (rw (read.found, ◌>>=◌)
            (ap (λ (y : TransferInfo). ok (append_operations l n [] y false, read.info))
              info_of_own))

    known : validate_currency l tokens (some x.currency) ≡ ok read.info
    known =
        subst (λ (c : Currency). validate_currency l tokens (some c) ≡ ok read.info)
          (sym read.currency_eq)
          (validate_currency-own l tokens reg lib x.contract read.info read.found)

    own_contract : read.info.contract ≡ x.contract
    own_contract = (reg.own_key x.contract read.info read.found).0

    not_null : x.from ≢ n.null
    not_null e = read.from_ne (e ∙ null_eq)

    pub read_back :
        x.to ≢ n.null → validate_ops l n tokens (map some (append_operations l n [] x false)) ≡ ok x
    read_back nt =
        validate_ops-append_operations l n tokens lib x read.info known own_contract lc
          read.less_one false read.amount_eq read.not_gas (sym read.currency_eq) read.from_len
          read.to_len not_null nt read.from_ne

    module _ (nt : x.to ≢ n.null) where
      pair :
          append_operations l n [] x false
          ≡ the_from l n tokens lib x read.info known own_contract lc false not_null nt read.not_gas
            ∷ the_to l n tokens lib x read.info known own_contract lc false not_null nt read.not_gas
            ∷ []
      pair =
          two_operations l n tokens lib x read.info known own_contract lc false not_null nt
            read.not_gas

      two : (length (append_operations l n [] x false) == 2) ≡ true
      two = rw pair refl

      negative : neg_ℤ x.amount ≡ negsuc read.less_one
      unfolding neg_ℤ
      negative = rw read.amount_eq (ground arith)

      outgoing : first_outgoing vm l n tokens (append_operations l n [] x false) ≡ true
      unfolding first_outgoing is_outgoing operation_of print_ℤ
      outgoing = rw pair (rw (negative, is_outgoing) refl)

      pub parse_view_own :
          (t : g.Txn) (code : Bytes)
          → w.payload t ≡ invoke code
          → Coded g l n tokens x (set_bytes (bytes_of x.amount)) code
          → parse_view vm l n tokens g w false t
            ≡ ok (record {
              signers = [];
              gas_limit = w.gas_limit t;
              gas_price = w.gas_price t;
              nonce = w.nonce t;
              payer = l.address_to_base58 (g.txn_payer t);
              operations = append_operations l n [] x false;
            })
      unfolding parse_view guard read_signers
      parse_view_own t code p c =
          rw (p, parse_operations_own code c, ◌>>=◌) (rw (two, ◌>>=◌) (rw (outgoing, ◌>>=◌) refl))

    lone : x.to ≡ n.null → length (append_operations l n [] x false) ≡ 1
    unfolding append_operations append_from append_to
    lone e = rw (eq_bytes_ne x.from n.null not_null) (rw (e, eq_bytes_refl n.null) refl)

    pub parse_view_null :
        x.to ≡ n.null
        → (s : Bool) (t : g.Txn) (code : Bytes) → w.payload t ≡ invoke code
        → Coded g l n tokens x (set_bytes (bytes_of x.amount)) code
        → parse_view vm l n tokens g w s t ≡ err (wrapped Errors.internal)
    unfolding parse_view guard
    parse_view_null e s t code p c =
        rw (p, parse_operations_own code c, ◌>>=◌) (rw (lone e, ◌>>=◌) refl)
