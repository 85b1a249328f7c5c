-- ===== src/Services/Construction/Metadata/Refined.antt =====
-- What ConstructionMetadata changes in the options.
use ontology_rosetta.Common.{
  ℕ, zero, suc, ◌+◌, ◌≤◌, ◌≡◌, ◌≢◌, refl, sym, ap, ◌∙◌, inl, inr, Bool, true, false, Option, none,
  some, List, ◌⊎◌, arith, Bool-cases, if◌then◌else◌, ltb, ◌==◌, ==_iff, subst,
}
use ontology_rosetta.Common.Bytes.{Bytes}
use ontology_rosetta.Common.Result.{ok, err, bind-ok}
use ontology_rosetta.Services.Ontology.{Address, Library}
use ontology_rosetta.Services.Address.{Natives}
use ontology_rosetta.Services.Errors
use ontology_rosetta.Services.Errors.{Api, wrapped}
use ontology_rosetta.Services.Types.{CurrencyInfo}
use ontology_rosetta.Services.Badger.{Badger}
use ontology_rosetta.Services.Store.{Store}
use ontology_rosetta.Services.Construction.{ConstructOptions, Ledger}
use ontology_rosetta.Services.Construction.Fields.{
  Metadata, decode_protobuf, encode_protobuf, default_gas_price,
}
use ontology_rosetta.Services.Construction.Metadata.{
  GasPrice, price, no_block, divided_by_zero, set_price, set_limit, is_taken, nonce_of, attempts,
  no_zero_nonce, set_nonce, construction_metadata,
}

-- The transfer and its payer are the same.
pub record IsSameTransfer (o o' : ConstructOptions) : Type 0 where
  pub amount_eq : o'.amount ≡ o.amount
  pub contract_eq : o'.contract ≡ o.contract
  pub from_eq : o'.from ≡ o.from
  pub payer_eq : o'.payer ≡ o.payer
  pub to_eq : o'.to ≡ o.to

module _ (g : Ledger) (l : Library) (n : Natives) (tokens : List (Address × CurrencyInfo))
    (b : Badger) (s : Store b) where
  -- The same transfer, with a nonce, at no lower gas limit and gas price, of which the limit is not
  -- below the minimum and the price is not below the default but where it is the network's.
  pub record IsRefined (gas : Option GasPrice) (o o' : ConstructOptions) : Type 0 where
    pub same : IsSameTransfer o o'
    pub price_from : (default_gas_price ≤ o'.gas_price) ⊎ (gas ≡ some (price o'.gas_price))
    pub price_up : o.gas_price ≤ o'.gas_price
    pub limit_low : g.min_gas_limit ≤ o'.gas_limit
    pub limit_up : o.gas_limit ≤ o'.gas_limit
    pub nonce_ne : o'.nonce ≢ 0
    pub nonce_kept : o.nonce ≢ 0 → o'.nonce ≡ o.nonce

  pub record IsPriced (gas : Option GasPrice) (o o' : ConstructOptions) : Type 0 where
    pub p : ℕ
    pub priced_eq : o' ≡ record o { gas_price = p }
    pub from : (default_gas_price ≤ p) ⊎ (gas ≡ some (price p))
    pub up : o.gas_price ≤ p

  default_price :
      (gas : Option GasPrice) (o o' : ConstructOptions)
      → ◌≡◌ {A = Api ConstructOptions}
          (if ltb o.gas_price default_gas_price
            then ok (record o { gas_price = default_gas_price })
            else ok o)
          (ok o')
      → IsPriced gas o o'
  default_price gas o o' e = elim (Bool-cases (ltb o.gas_price default_gas_price)) [
    | inl t ↦ record {
      p = default_gas_price;
      priced_eq = sym (cc (rw t at e));
      from = inl (omega arith);
      up = ground arith;
    }
    | inr f ↦ record {
      p = o.gas_price;
      priced_eq = sym (cc (rw f at e));
      from = inl (ground arith);
      up = omega arith;
    }
  ]

  set_price-IsPriced :
      (gas : Option GasPrice) (o o' : ConstructOptions)
      → set_price gas o ≡ ok o'
      → IsPriced gas o o'
  unfolding set_price
  set_price-IsPriced none o o' e = absurd (cc e)
  set_price-IsPriced (some divided_by_zero) o o' e = absurd (cc e)
  set_price-IsPriced (some no_block) o o' e = default_price (some no_block) o o' e
  set_price-IsPriced (some (price q)) o o' e = elim (Bool-cases (ltb o.gas_price q)) [
    | inl t ↦ record { p = q; priced_eq = sym (cc (rw t at e)); from = inr refl; up = ground arith }
    | inr f ↦ default_price (some (price q)) o o' (rw f at e)
  ]

  pub record IsLimited (o o' : ConstructOptions) : Type 0 where
    pub q : ℕ
    pub limited_eq : o' ≡ record o { gas_limit = q }
    pub low : g.min_gas_limit ≤ q
    pub up : o.gas_limit ≤ q

  set_limit-IsLimited : (o : ConstructOptions) → IsLimited o (set_limit g l n tokens b s o)
  unfolding set_limit
  set_limit-IsLimited o = elim (Bool-cases (ltb o.gas_limit g.min_gas_limit)) [
    | inl t ↦
        rw t
          (record { q = g.min_gas_limit; limited_eq = refl; low = omega arith; up = ground arith })
    | inr f ↦
        rw f (record { q = o.gas_limit; limited_eq = refl; low = ground arith; up = omega arith })
  ]

  abbrev HasNonce : ConstructOptions → ConstructOptions → Type 0
  HasNonce o o' = (k : ℕ) × (o' ≡ record o { nonce = k })

  attempts-HasNonce :
      (reads : ℕ → Option Bytes) (f i : ℕ) (o o' : ConstructOptions)
      → attempts g l n tokens b s reads f i o ≡ ok o'
      → HasNonce o o'
  unfolding attempts
  attempts-HasNonce reads zero i o o' e = (o.nonce, sym (cc e))
  attempts-HasNonce reads (suc f) i o o' e =
      let (k, _, e1) = bind-ok (nonce_of g l n tokens b s (reads i)) _ o' e in
      let (taken, _, e2) = bind-ok (is_taken g l n tokens b s (record o { nonce = k })) _ o' e1 in
      tried k taken (λ q. attempts-HasNonce reads f (i + 1) (record o { nonce = k }) o' q) e2
    where
      tried :
          (k : ℕ) (taken : Bool)
          → (attempts g l n tokens b s reads f (i + 1) (record o { nonce = k }) ≡ ok o'
              → HasNonce (record o { nonce = k }) o')
          → (if taken
              then attempts g l n tokens b s reads f (i + 1) (record o { nonce = k })
              else ok (record o { nonce = k }))
            ≡ ok o'
          → HasNonce o o'
      tried k true more r = let (j, q) = more r in (j, q)
      tried k false more r = (k, sym (cc r))

  no_zero_nonce_ok :
      (o o' : ConstructOptions)
      → no_zero_nonce g l n tokens b s o ≡ ok o'
      → (o ≡ o') × (o'.nonce ≢ 0)
  unfolding no_zero_nonce
  no_zero_nonce_ok o o' r = elim (Bool-cases (o.nonce == 0)) [
    | inl z ↦ cc (rw z at r)
    | inr z ↦
        let q : o ≡ o' = cc (rw z at r) in
        let ne : o.nonce ≢ 0 = λ h. cc (z, (==_iff o.nonce 0).1 h) in
        (q, subst (λ (x : ConstructOptions). x.nonce ≢ 0) q ne)
  ]

  refined :
      (gas : Option GasPrice) (o o1 o2 o3 : ConstructOptions)
      → IsPriced gas o o1
      → IsLimited o1 o2
      → (k : ℕ) → o3 ≡ record o2 { nonce = k }
      → o3.nonce ≢ 0
      → (o2.nonce ≢ 0 → o3.nonce ≡ o2.nonce)
      → IsRefined gas o o3
  refined gas o o1 o2 o3 a c k e ne kept =
      let two : o2 ≡ record o { gas_price = a.p; gas_limit = c.q } =
        c.limited_eq ∙ ap (λ (x : ConstructOptions). record x { gas_limit = c.q }) a.priced_eq in
      let full : o3 ≡ record o { gas_price = a.p; gas_limit = c.q; nonce = k } =
        e ∙ ap (λ (x : ConstructOptions). record x { nonce = k }) two in
      let old : o2.nonce ≡ o.nonce = ap (λ (x : ConstructOptions). x.nonce) two in
      let new : o3.nonce ≡ k = ap (λ (x : ConstructOptions). x.nonce) e in
      let limit : o1.gas_limit ≡ o.gas_limit =
        ap (λ (x : ConstructOptions). x.gas_limit) a.priced_eq in
      subst (IsRefined gas o) (sym full) (record {
        same = record {
          amount_eq = refl;
          contract_eq = refl;
          from_eq = refl;
          payer_eq = refl;
          to_eq = refl;
        };
        price_from = a.from;
        price_up = a.up;
        limit_low = c.low;
        limit_up = omega (arith, c.up, limit);
        nonce_ne = λ q. ne (new ∙ q);
        nonce_kept = λ q. sym new ∙ kept (λ z. q (sym old ∙ z)) ∙ old;
      })

  set_nonce-HasNonce :
      (reads : ℕ → Option Bytes) (o o' : ConstructOptions)
      → set_nonce g l n tokens b s reads o ≡ ok o'
      → HasNonce o o' × (o'.nonce ≢ 0) × (o.nonce ≢ 0 → o'.nonce ≡ o.nonce)
  unfolding set_nonce
  set_nonce-HasNonce reads o o' e = elim (Bool-cases (o.nonce == 0)) [
    | inl z ↦
        let (o1, a, e1) = bind-ok (attempts g l n tokens b s reads 100 0 o) _ o' (rw z at e) in
        let (same, ne) = no_zero_nonce_ok o1 o' e1 in
        let h : HasNonce o o1 = attempts-HasNonce reads 100 0 o o1 a in
        (subst (HasNonce o) same h, ne, λ q. absurd (q (ground arith)))
    | inr z ↦
        let (taken, _, e1) = bind-ok (is_taken g l n tokens b s o) _ o' (rw z at e) in
        let same : o ≡ o' = free taken e1 in
        let ne : o.nonce ≢ 0 = λ q. cc (z, (==_iff o.nonce 0).1 q) in
        (
          (o.nonce, sym same),
          subst (λ (x : ConstructOptions). x.nonce ≢ 0) same ne,
          λ q. ap (λ (x : ConstructOptions). x.nonce) (sym same),
        )
  ]
    where
      free :
          (taken : Bool)
          → (if taken then err (wrapped Errors.invalid_nonce) else ok o) ≡ ok o'
          → o ≡ o'
      free true r = absurd (cc r)
      free false r = cc r

  -- When the metadata request answers, with the transaction hashes of the store and whatever the
  -- random numbers are, its options are for the same transfer and payer as those of the request.
  -- They have no lower gas limit and gas price; the limit is not below the minimum, and the price
  -- is not below the default but where it is the network's. The nonce is not zero, and is the
  -- request's where that has one.
  pub construction_metadata-IsRefined :
      (gas : Option GasPrice) (reads : ℕ → Option Bytes) (md md' : Metadata g.Float)
      → construction_metadata g l n tokens b s false gas reads md ≡ ok md'
      → (o o' : ConstructOptions) × (decode_protobuf g l md ≡ ok o)
        × (encode_protobuf g l o' ≡ ok md')
        × IsRefined gas o o'
  unfolding construction_metadata
  construction_metadata-IsRefined gas reads md md' e =
      let (o, d, e1) = bind-ok (decode_protobuf g l md) _ md' e in
      let (o1, p, e2) = bind-ok (set_price gas o) _ md' e1 in
      let (o2, q, e3) =
        bind-ok (set_nonce g l n tokens b s reads (set_limit g l n tokens b s o1)) _ md' e2 in
      let priced = set_price-IsPriced gas o o1 p in
      let limited = set_limit-IsLimited o1 in
      let ((k, nonced), ne, kept) = set_nonce-HasNonce reads (set_limit g l n tokens b s o1) o2 q in
      (
        o,
        o2,
        d,
        e3,
        refined gas o o1 (set_limit g l n tokens b s o1) o2 priced limited k nonced ne kept,
      )
