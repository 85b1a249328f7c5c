-- ===== src/Chain/Payload/Pointwise.antt =====
-- parseTransfers against a relation between the values on the stack and the transfers.
use ontology_rosetta.Common.{◌≡◌, refl, sym, ap, ◌↔◌, some, List, [], ◌∷◌, length, ◌==◌, arith}
use ontology_rosetta.Common.Bytes.{Bytes}
use ontology_rosetta.Common.Result.{ok, ◌>>=◌, or_err, bind-ok, or_err-some}
use ontology_rosetta.Services.Ontology.{Address, Library}
use ontology_rosetta.Chain.Payload.{
  Vm, Transfer, failed, nil_addr, at, expect, address_field, parse_transfer_fields, parse_transfer,
  parse_transfers,
}

module _ (vm : Vm) (l : Library) where
  open vm use {Value}

  -- The bytes of a value are an address.
  pub record Holds (v : Value) (a : Address) : Type 0 where
    pub raw : Bytes
    pub bytes_eq : vm.as_bytes v ≡ some raw
    pub parse_eq : l.address_parse raw ≡ some a

  -- Three values are the sender, the receiver and the amount of a transfer.
  pub record AreFields (from to amount : Value) (x : Transfer) : Type 0 where
    pub holds_from : Holds from x.from
    pub holds_to : Holds to x.to
    pub amount_eq : vm.as_big_int amount ≡ some x.amount

  -- A value is a struct of the three fields, and no payer is read.
  pub record IsTransfer (v : Value) (x : Transfer) : Type 0 where
    pub from : Value
    pub to : Value
    pub amount : Value
    pub struct_eq : vm.as_struct v ≡ some (from ∷ to ∷ amount ∷ [])
    pub fields : AreFields from to amount x
    pub no_payer : x.payer ≡ nil_addr

  pub data Pointwise : List Value → List Transfer → Type 0 where
    none_left : Pointwise [] []
    one_more :
        {v : Value} {x : Transfer} {vs : List Value} {xs : List Transfer}
        → IsTransfer v x
        → Pointwise vs xs
        → Pointwise (v ∷ vs) (x ∷ xs)

  address_field-Holds : (v : Value) (a : Address) → address_field vm l v ≡ ok a → Holds v a
  unfolding address_field
  address_field-Holds v a h =
      let (raw, p, q) = bind-ok (or_err (vm.as_bytes v) failed) _ a h in
      record {
        raw = raw;
        bytes_eq = or_err-some (vm.as_bytes v) failed raw p;
        parse_eq = or_err-some (l.address_parse raw) failed a q;
      }

  pub Holds-address_field : (v : Value) (a : Address) → Holds v a → address_field vm l v ≡ ok a
  unfolding address_field
  Holds-address_field v a h = rw (h.bytes_eq, ◌>>=◌) (rw h.parse_eq refl)

  pub AreFields-parse :
      (from to amount : Value) (x : Transfer)
      → AreFields from to amount x
      → parse_transfer_fields vm l (from ∷ to ∷ amount ∷ []) ≡ ok (record x { payer = nil_addr })
  unfolding parse_transfer_fields at
  AreFields-parse from to amount x f =
      rw (Holds-address_field from x.from f.holds_from, ◌>>=◌)
        (rw (Holds-address_field to x.to f.holds_to, ◌>>=◌) (rw (f.amount_eq, ◌>>=◌) refl))

  parse_transfer_fields-AreFields :
      (from to amount : Value) (x : Transfer)
      → parse_transfer_fields vm l (from ∷ to ∷ amount ∷ []) ≡ ok x
      → AreFields from to amount x × (x.payer ≡ nil_addr)
  unfolding parse_transfer_fields at
  parse_transfer_fields-AreFields from to amount x h =
      let (a, p, h1) = bind-ok (address_field vm l from) _ x h in
      let (b, q, h2) = bind-ok (address_field vm l to) _ x h1 in
      let (z, r, h3) = bind-ok (or_err (vm.as_big_int amount) failed) _ x h2 in
      let e : record { payer = nil_addr; from = a; to = b; amount = z } ≡ x = cc h3 in
      rw (← e) (
        record {
          holds_from = address_field-Holds from a p;
          holds_to = address_field-Holds to b q;
          amount_eq = or_err-some (vm.as_big_int amount) failed z r;
        },
        refl,
      )

  three_values :
      (vs : List Value)
      → expect (length vs == 3) ≡ ok tt
      → (a : Value) × (b : Value) × (c : Value) × (vs ≡ a ∷ b ∷ c ∷ [])
  unfolding expect
  three_values [] h = absurd (cc h)
  three_values (a ∷ []) h = absurd (cc h)
  three_values (a ∷ b ∷ []) h = absurd (cc h)
  three_values (a ∷ b ∷ c ∷ []) h = (a, b, c, refl)
  three_values (a ∷ b ∷ c ∷ d ∷ vs) h = absurd (ground (arith, h))

  parse_transfer-IsTransfer :
      (v : Value) (x : Transfer) → parse_transfer vm l v ≡ ok x → IsTransfer v x
  unfolding parse_transfer
  parse_transfer-IsTransfer v x h =
      let (fields, p, h1) = bind-ok (or_err (vm.as_struct v) failed) _ x h in
      let (u, q, h2) = bind-ok (expect (length fields == 3)) _ x h1 in
      let (a, b, c, e) = three_values fields q in
      let (f, n) = parse_transfer_fields-AreFields a b c x (rw e at h2) in
      record {
        from = a;
        to = b;
        amount = c;
        struct_eq = or_err-some (vm.as_struct v) failed _ (rw e at p);
        fields = f;
        no_payer = n;
      }

  IsTransfer-parse_transfer :
      (v : Value) (x : Transfer) → IsTransfer v x → parse_transfer vm l v ≡ ok x
  unfolding parse_transfer expect
  IsTransfer-parse_transfer v x t =
      rw (t.struct_eq, ◌>>=◌)
        (rw (AreFields-parse t.from t.to t.amount x t.fields)
          (ap (λ (p : Address). ok (record x { payer = p })) (sym t.no_payer)))

  sound : (vs : List Value) (xs : List Transfer) → parse_transfers vm l vs ≡ ok xs → Pointwise vs xs
  unfolding parse_transfers
  sound [] [] h = none_left
  sound [] (x ∷ xs) h = absurd (cc h)
  sound (v ∷ vs) xs h =
      let (x, p, h1) = bind-ok (parse_transfer vm l v) _ xs h in
      let (rest, q, h2) = bind-ok (parse_transfers vm l vs) _ xs h1 in
      let e : x ∷ rest ≡ xs = cc h2 in
      rw (← e) (one_more (parse_transfer-IsTransfer v x p) (sound vs rest q))

  complete :
      (vs : List Value) (xs : List Transfer) → Pointwise vs xs → parse_transfers vm l vs ≡ ok xs
  unfolding parse_transfers
  complete _ _ none_left = refl
  complete _ _ (one_more {v} {x} {vs} {xs} t r) =
      rw (IsTransfer-parse_transfer v x t, ◌>>=◌) (rw (complete vs xs r, ◌>>=◌) refl)

  -- The loop of parseTransfers returns a list of transfers exactly when the values are, one by one,
  -- structs of three fields that hold the sender, the receiver and the amount of its transfers, in
  -- the same order and without a payer.
  pub parse_transfers-Pointwise :
      (vs : List Value) (xs : List Transfer) → (parse_transfers vm l vs ≡ ok xs) ↔ Pointwise vs xs
  parse_transfers-Pointwise vs xs = (sound vs xs, complete vs xs)
