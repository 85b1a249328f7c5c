-- ===== src/Services/Examples/Transactions.antt =====
-- A ledger whose transactions are the fields that they were made of, and whose options have one
-- encoded value.
use ontology_rosetta.Common.{
  ℕ, ◌≡◌, sym, ap, inl, inr, Bool, true, false, not, ◌&&◌, Option, none, some, List, [], ◌∷◌, ◌++◌,
  map, ◌==◌, ==_iff, &&_iff, Bool-cases, if◌then◌else◌, arith,
}
use ontology_rosetta.Common.Bytes.{eq_bytes, eq_bytes→eq}
use ontology_rosetta.Common.Int.{pos}
use ontology_rosetta.Common.Text.{codes}
use ontology_rosetta.Services.Types.{num, str}
use ontology_rosetta.Services.Operations.{TransferInfo, Operation, append_operations}
use ontology_rosetta.Services.Construction.{ConstructOptions, Ledger, Mutable}
use ontology_rosetta.Services.Construction.Fields.{Metadata}
use ontology_rosetta.Services.Construction.Fields.Hex.{IsMarshal}
use ontology_rosetta.Services.Examples.Names.{names, natives, address}
use ontology_rosetta.Services.Examples.Chain.{hash_at, ont_info}

abbrev pub sample : ConstructOptions
sample = record {
  amount = 30 ∷ [];
  contract = natives.ont;
  from = address 9;
  gas_limit = 20000;
  gas_price = 2500;
  nonce = 5;
  payer = address 9;
  to = address 8;
}

unfoldable pub is_sample : ConstructOptions → Bool
is_sample o =
    (eq_bytes o.amount sample.amount && eq_bytes o.contract sample.contract)
    && ((eq_bytes o.from sample.from && eq_bytes o.payer sample.payer)
        && (eq_bytes o.to sample.to
            && (o.gas_limit == sample.gas_limit
                && (o.gas_price == sample.gas_price && o.nonce == sample.nonce))))

is_sample-eq : (o : ConstructOptions) → is_sample o ≡ true → o ≡ sample
unfolding is_sample
is_sample-eq o h =
    let (h1, h2) = (&&_iff _ _).0 h in
    let (a, c) = (&&_iff (eq_bytes o.amount sample.amount) _).0 h1 in
    let (h3, h4) = (&&_iff _ _).0 h2 in
    let (f, p) = (&&_iff (eq_bytes o.from sample.from) _).0 h3 in
    let (t, h5) = (&&_iff (eq_bytes o.to sample.to) _).0 h4 in
    let (gl, h6) = (&&_iff (o.gas_limit == 20000) _).0 h5 in
    let (gp, nn) = (&&_iff (o.gas_price == 2500) _).0 h6 in
    cc (
      eq_bytes→eq o.amount sample.amount a,
      eq_bytes→eq o.contract sample.contract c,
      eq_bytes→eq o.from sample.from f,
      eq_bytes→eq o.payer sample.payer p,
      eq_bytes→eq o.to sample.to t,
      (==_iff o.gas_limit 20000).0 gl,
      (==_iff o.gas_price 2500).0 gp,
      (==_iff o.nonce 5).0 nn,
    )

abbrev pub transactions : Ledger
transactions = record {
  Txn = Mutable;
  Float = ℕ;
  build_native = λ contract from to amount. some (contract ++ from ++ to ++ amount ∷ []);
  build_wasm = λ contract from to amount. none;
  build_neo = λ contract from to amount. none;
  into_immutable = λ m. some m;
  txn_hash = λ m. hash_at m.nonce;
  txn_payer = λ m. m.payer;
  serialize = λ m. m.code;
  min_gas_limit = 20000;
  marshal = λ o. if is_sample o then some (1 ∷ []) else none;
  unmarshal = λ e. some sample;
  to_uint64 = λ x. x;
  differs = λ v x. not (v == x);
}

pub transactions-IsMarshal : IsMarshal transactions
transactions-IsMarshal = record {
  marshalled = λ o e q. elim (Bool-cases (is_sample o)) [
    | inl t ↦
        let s : 1 ∷ [] ≡ e = cc (rw t at q) in
        (rw (← s) (omega arith, tt), ap some (sym (is_sample-eq o t)))
    | inr f ↦ cc (rw f at q)
  ];
}

abbrev pub request : Metadata ℕ
request = (codes "gas_limit", num 20000) ∷ (codes "gas_price", num 1) ∷ (codes "nonce", num 5) ∷ []

-- The options in the hex text of the one byte.
abbrev pub carried : Metadata ℕ
carried = (codes "protobuf", str (codes "01")) ∷ []

abbrev pub wanted : TransferInfo
wanted = record {
  amount = pos 30;
  contract = natives.ont;
  currency = ont_info.currency;
  from = address 9;
  is_gas = false;
  to = address 8;
}

abbrev pub wanted_ops : List (Option Operation)
wanted_ops = map some (append_operations names natives [] wanted false)
