-- ===== src/Services/Construction/Payloads/Made.antt =====
-- The transaction in the answer of ConstructionPayloads.
use ontology_rosetta.Common.{
  ℕ, ◌≡◌, refl, false, inl, inr, Bool-cases, Option-cases, Option, none, some, List,
}
use ontology_rosetta.Common.Bytes.{Bytes, eq_bytes, eq_bytes→eq}
use ontology_rosetta.Common.Big.{bytes_of, set_bytes}
use ontology_rosetta.Common.Result.{ok, or_err, bind-ok, or_err-some}
use ontology_rosetta.Services.Ontology.{Address, IsAddress, Library, IsLibrary}
use ontology_rosetta.Services.Address.{Natives, is_native}
use ontology_rosetta.Services.Types.{CurrencyInfo}
use ontology_rosetta.Services.Store.{lookup_token}
use ontology_rosetta.Services.Operations.{TransferInfo, Operation}
use ontology_rosetta.Services.Operations.Validate.{validate_ops}
use ontology_rosetta.Services.Construction.{
  ConstructOptions, Ledger, InvokeKind, invoke_neo, invoke_code, finish_transfer,
  construct_transfer,
}
use ontology_rosetta.Services.Construction.Fields.{Metadata, decode_protobuf}
use ontology_rosetta.Services.Construction.Payloads.{
  PayloadsView, require, match_options, payloads, payloads_view,
}

require-eq : (xs ys : Bytes) (u : Unit {0}) → require (eq_bytes xs ys) ≡ ok u → xs ≡ ys
unfolding require
require-eq xs ys u h = elim (Bool-cases (eq_bytes xs ys)) [
  | inl t ↦ eq_bytes→eq xs ys t
  | inr f ↦ absurd (cc (rw f at h))
]

-- The options are those of a transfer.
pub record Matches (o : ConstructOptions) (x : TransferInfo) : Type 0 where
  pub amount_eq : o.amount ≡ bytes_of x.amount
  pub contract_eq : o.contract ≡ x.contract
  pub from_eq : o.from ≡ x.from
  pub to_eq : o.to ≡ x.to

module _ (g : Ledger) (l : Library) (n : Natives) (tokens : List (Address × CurrencyInfo)) where
  match_options-Matches :
      (o : ConstructOptions) (x : TransferInfo)
      → match_options g l n tokens o x ≡ ok tt
      → Matches o x
  unfolding match_options
  match_options-Matches o x h =
      let (u, a, h1) = bind-ok (require (eq_bytes o.amount (bytes_of x.amount))) _ tt h in
      let (v, c, h2) = bind-ok (require (eq_bytes o.contract x.contract)) _ tt h1 in
      let (w, f, h3) = bind-ok (require (eq_bytes o.from x.from)) _ tt h2 in
      record {
        amount_eq = require-eq o.amount _ u a;
        contract_eq = require-eq o.contract _ v c;
        from_eq = require-eq o.from _ w f;
        to_eq = require-eq o.to x.to tt h3;
      }

  -- What a successful run of ConstructionPayloads went through.
  pub record Answered (md : Metadata g.Float) (ops : List (Option Operation)) (view : PayloadsView)
      : Type 0 where
    pub options : ConstructOptions
    pub xfer : TransferInfo
    pub txn : g.Txn
    pub decoded : decode_protobuf g l md ≡ ok options
    pub validated : validate_ops l n tokens ops ≡ ok xfer
    pub matched : Matches options xfer
    pub constructed : construct_transfer g l n tokens options ≡ some txn
    pub view_eq : payloads_view g l n tokens xfer txn ≡ view

  pub payloads-Answered :
      (md : Metadata g.Float) (ops : List (Option Operation)) (view : PayloadsView)
      → payloads g l n tokens md ops ≡ ok view
      → Answered md ops view
  unfolding payloads
  payloads-Answered md ops view h =
      let (o, p, h1) = bind-ok (decode_protobuf g l md) _ view h in
      let (x, v, h2) = bind-ok (validate_ops l n tokens ops) _ view h1 in
      let (_, m, h3) = bind-ok (match_options g l n tokens o x) _ view h2 in
      let (t, c, h4) = bind-ok (or_err (construct_transfer g l n tokens o) _) _ view h3 in
      record {
        options = o;
        xfer = x;
        txn = t;
        decoded = p;
        validated = v;
        matched = match_options-Matches o x m;
        constructed = or_err-some _ _ t c;
        view_eq = cc h4;
      }

  -- The invoke code of a transfer of a token that is not a WASM contract.
  pub data Coded (x : TransferInfo) (amount : ℕ) (code : Bytes) : Type 0 where
    native_code : g.build_native x.contract x.from x.to amount ≡ some code → Coded x amount code
    neo_code : g.build_neo x.contract x.from x.to amount ≡ some code → Coded x amount code

  -- The transaction was made of that code and the options' limits and nonce.
  pub record Made (o : ConstructOptions) (x : TransferInfo) (amount : ℕ) (t : g.Txn) : Type 0 where
    pub code : Bytes
    pub coded : Coded x amount code
    pub payer : Address
    pub kind : InvokeKind
    pub made :
        g.into_immutable (record {
          gas_limit = o.gas_limit;
          gas_price = o.gas_price;
          nonce = o.nonce;
          payer = payer;
          code = code;
          kind = kind;
        })
        ≡ some t

  finish-Made :
      (o : ConstructOptions) (x : TransferInfo) (amount : ℕ) (t : g.Txn) (payer : Address)
      (built : Option Bytes) (kind : InvokeKind)
      → ((code : Bytes) → built ≡ some code → Coded x amount code)
      → finish_transfer g l n tokens o payer (built, kind) ≡ some t
      → Made o x amount t
  unfolding finish_transfer
  finish-Made o x amount t payer none kind c h = absurd (cc h)
  finish-Made o x amount t payer (some code) kind c h = record {
    code = code;
    coded = c code refl;
    payer = payer;
    kind = kind;
    made = h;
  }

  module _ (lib : IsLibrary l) (o : ConstructOptions) (x : TransferInfo) (info : CurrencyInfo)
      (t : g.Txn) (m : Matches o x) (found : lookup_token x.contract tokens ≡ some info)
      (lc : IsAddress x.contract) (lf : IsAddress x.from) (lt : IsAddress x.to)
      (neo : info.wasm ≡ false) where
    finished-Made :
        (payer : Address) (amount : ℕ)
        → finish_transfer g l n tokens o payer
            (invoke_code g l n tokens info x.contract x.from x.to amount)
          ≡ some t
        → Made o x amount t
    unfolding invoke_code
    finished-Made payer amount h = elim (Bool-cases (is_native n info.contract)) [
      | inl b ↦
          finish-Made o x amount t payer (g.build_native x.contract x.from x.to amount) invoke_neo
            (λ code e. native_code e) (rw b at h)
      | inr b ↦
          finish-Made o x amount t payer (g.build_neo x.contract x.from x.to amount) invoke_neo
            (λ code e. neo_code e) (rw (b, neo) at h)
    ]

    pub construct_transfer-Made :
        construct_transfer g l n tokens o ≡ some t → Made o x (set_bytes o.amount) t
    unfolding construct_transfer
    construct_transfer-Made h =
        let e1 = rw (m.contract_eq, construct_transfer) at h in
        let e2 = rw (lib.parse_some x.contract lc, construct_transfer) at e1 in
        let e3 = rw (m.from_eq, construct_transfer) at e2 in
        let e4 = rw (lib.parse_some x.from lf, construct_transfer) at e3 in
        elim (Option-cases (l.address_parse o.payer)) [
          | inl none_parsed ↦ absurd (cc (rw (none_parsed, construct_transfer) at e4))
          | inr (payer, p) ↦
              let e5 = rw (p, construct_transfer) at e4 in
              let e6 = rw (m.to_eq, construct_transfer) at e5 in
              let e7 = rw (lib.parse_some x.to lt, construct_transfer) at e6 in
              finished-Made payer (set_bytes o.amount) (rw (found, construct_transfer) at e7)
        ]
