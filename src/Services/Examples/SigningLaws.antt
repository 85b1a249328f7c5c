-- ===== src/Services/Examples/SigningLaws.antt =====
-- The laws of the ledger, of its transactions and of the machine of Signing.
use ontology_rosetta.Common.{
  ℕ, ◌<◌, ◌≡◌, ◌≢◌, refl, sym, ap, inl, inr, true, some, List, [], ◌∷◌, map, ◌==◌, ==_iff, &&_iff,
  Bool-cases, arith, All, subst,
}
use ontology_rosetta.Common.Bytes.{Bytes, eq_bytes, eq_bytes→eq}
use ontology_rosetta.Common.Int.{pos}
use ontology_rosetta.Chain.Payload.{opcode_of}
use ontology_rosetta.Chain.Payload.Calls.{NativeCall}
use ontology_rosetta.Services.Ontology.{Address}
use ontology_rosetta.Services.Construction.{Mutable, InvokeKind, invoke_neo, invoke_wasm}
use ontology_rosetta.Services.Construction.Wire.{invoke, Sig, IsCodec, IsSealed, IsMade}
use ontology_rosetta.Services.Construction.Payloads.Reading.{IsBuilder}
use ontology_rosetta.Services.Examples.Names.{names, natives, address}
use ontology_rosetta.Services.Examples.Signing.{
  Tx, unsigned, signed, is_neo, the_key, own_keys, is_own, raw, int, xfer, is_made, the_mutable,
  is_call, ledger, of_byte, wire, at_syscall, machine,
}

is_neo-eq : (k : InvokeKind) → is_neo k ≡ true → k ≡ invoke_neo
is_neo-eq invoke_neo h = refl
is_neo-eq invoke_wasm h = absurd (cc h)

own_keys-eq : (ks : List Bytes) → own_keys ks ≡ true → ks ≡ the_key ∷ []
unfolding own_keys
own_keys-eq [] h = absurd (cc h)
own_keys-eq (k ∷ []) h = ap (λ (x : Bytes). x ∷ []) (eq_bytes→eq k the_key h)
own_keys-eq (k ∷ j ∷ ks) h = absurd (cc h)

is_own-eq :
    (ss : List Sig)
    → is_own ss ≡ true
    → map (λ (s : Sig). some s.keys) ss ≡ some (the_key ∷ []) ∷ []
unfolding is_own
is_own-eq [] h = absurd (cc h)
is_own-eq (s ∷ []) h = ap (λ (x : List Bytes). some x ∷ []) (own_keys-eq s.keys h)
is_own-eq (s ∷ u ∷ ss) h = absurd (cc h)

module _ (r : ℕ) where
  some_written : (t : Tx) → (ledger r).serialize t ≢ []
  some_written unsigned = λ e. cc e
  some_written signed = λ e. cc e

  bytes_written : (t : Tx) → All (λ b. b < 256) ((ledger r).serialize t)
  bytes_written unsigned = (omega arith, tt)
  bytes_written signed = (omega arith, tt)

  read_back : (t : Tx) → (of_byte r) ((ledger r).serialize t) ≡ some (some t)
  read_back unsigned = refl
  read_back signed = refl

  pub wire-IsCodec : IsCodec (ledger r) (wire r)
  wire-IsCodec = record {
    some_bytes = some_written;
    bytes = bytes_written;
    from_raw-serialize = read_back;
  }

  sealed :
      (t' : Tx) (ss : List Sig)
      → (wire r).seal ss ≡ some t'
      → map (wire r).get_sig ((wire r).raw_sigs t') ≡ map (λ (s : Sig). some s.keys) ss
  sealed t' ss h = elim (Bool-cases (is_own ss)) [
    | inl own ↦
        let e : signed ≡ t' = cc (rw own at h) in
        subst
          (λ (u : Tx).
            map (wire r).get_sig ((wire r).raw_sigs u) ≡ map (λ (s : Sig). some s.keys) ss)
          e (sym (is_own-eq ss own))
    | inr other ↦ absurd (cc (rw other at h))
  ]

  pub wire-IsSealed : IsSealed (ledger r) (wire r)
  wire-IsSealed = record {
    mutable_hash = λ t m h. refl;
    sealed_hash = λ t t' m ss h k. refl;
    sealed_fields = λ t t' m ss h k. (refl, refl, refl, refl, refl);
    sealed_sigs = λ t t' m ss h k. sealed t' ss k;
  }

  is_made-eq : (m : Mutable) → (is_made r) m ≡ true → m ≡ (the_mutable r)
  unfolding is_made
  is_made-eq m h =
      let (h1, h2) = (&&_iff _ _).0 h in
      let (gl, gp) = (&&_iff (m.gas_limit == 20000) _).0 h1 in
      let (h3, h4) = (&&_iff _ _).0 h2 in
      let (nn, p) = (&&_iff (m.nonce == 5) _).0 h3 in
      let (c, k) = (&&_iff (eq_bytes m.code (7 ∷ [])) _).0 h4 in
      cc (
        (==_iff m.gas_limit 20000).0 gl,
        (==_iff m.gas_price 2500).0 gp,
        (==_iff m.nonce 5).0 nn,
        eq_bytes→eq m.payer (address 9) p,
        eq_bytes→eq m.code (7 ∷ []) c,
        is_neo-eq m.kind k,
      )

  made_fields :
      (m : Mutable) (t : Tx)
      → (ledger r).into_immutable m ≡ some t
      → ((wire r).payload t ≡ invoke m.code)
        × ((wire r).gas_limit t ≡ m.gas_limit)
        × ((wire r).gas_price t ≡ m.gas_price)
        × ((wire r).nonce t ≡ m.nonce)
        × ((ledger r).txn_payer t ≡ m.payer)
  made_fields m t h = elim (Bool-cases ((is_made r) m)) [
    | inl made ↦
        let e = is_made-eq m made in
        (
          ap (λ (x : Mutable). invoke x.code) (sym e),
          ap (λ (x : Mutable). x.gas_limit) (sym e),
          ap (λ (x : Mutable). x.gas_price) (sym e),
          ap (λ (x : Mutable). x.nonce) (sym e),
          ap (λ (x : Mutable). x.payer) (sym e),
        )
    | inr other ↦ absurd (cc (rw other at h))
  ]

  pub wire-IsMade : IsMade (ledger r) (wire r)
  wire-IsMade = record { made = made_fields }

  record IsCall (contract from to : Address) (amount : ℕ) : Type 0 where
    contract_eq : contract ≡ natives.ont
    from_eq : from ≡ address 9
    to_eq : to ≡ address r
    amount_eq : amount ≡ 30

  is_call-IsCall :
      (contract from to : Address) (amount : ℕ)
      → (is_call r) contract from to amount ≡ true
      → IsCall contract from to amount
  unfolding is_call
  is_call-IsCall contract from to amount h =
      let (h1, h2) = (&&_iff _ _).0 h in
      let (c, f) = (&&_iff (eq_bytes contract natives.ont) _).0 h1 in
      let (t, a) = (&&_iff (eq_bytes to (address r)) _).0 h2 in
      record {
        contract_eq = eq_bytes→eq contract natives.ont c;
        from_eq = eq_bytes→eq from (address 9) f;
        to_eq = eq_bytes→eq to (address r) t;
        amount_eq = (==_iff amount 30).0 a;
      }

  the_call : (c : Bytes) → NativeCall (machine r) names c natives.ont (address 9) (address r) 30
  unfolding opcode_of
  the_call c = record {
    at_call = (at_syscall r);
    executed = refl;
    opcode = refl;
    version = 0 ∷ [];
    s1 = _;
    s2 = _;
    s3 = _;
    s4 = [];
    pop_version = refl;
    pop_contract = refl;
    pop_method = refl;
    param = xfer (address 9) (address r) 30;
    pop_params = refl;
    fields = record {
      from_value = raw (address 9);
      to_value = raw (address r);
      amount_value = int (pos 30);
      from_bytes = refl;
      to_bytes = refl;
      amount_int = refl;
    };
    struct = refl;
  }

  native_call :
      (contract from to : Address) (amount : ℕ) (c : Bytes)
      → (ledger r).build_native contract from to amount ≡ some c
      → NativeCall (machine r) names c contract from to amount
  native_call contract from to amount c h =
      elim (Bool-cases ((is_call r) contract from to amount)) [
        | inl called ↦
            let e = is_call-IsCall contract from to amount called in
            rw (e.contract_eq, e.from_eq, e.to_eq, e.amount_eq) (the_call c)
        | inr other ↦ absurd (cc (rw other at h))
      ]

  pub machine-IsBuilder : IsBuilder (ledger r) (machine r) names
  machine-IsBuilder = record {
    native_call = native_call;
    neo_call = λ contract from to amount c ne h. absurd (cc h);
    calls_differ = λ e. omega (arith, e);
  }
