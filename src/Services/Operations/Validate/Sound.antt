-- ===== src/Services/Operations/Validate/Sound.antt =====
-- What holds of the transfer that validateOps returns.
use ontology_rosetta.Common.{
  ℕ, zero, suc, ◌≡◌, ◌≢◌, refl, sym, ◌∙◌, Bool, true, false, not, inl, inr, Bool-cases, Option,
  none, some, List, [], ◌∷◌, subst, arith, if◌then◌else◌,
}
use ontology_rosetta.Common.Bytes.{eq_bytes, eq_bytes_refl}
use ontology_rosetta.Common.Int.{ℤ, pos, negsuc, ◌+ℤ◌, eq_ℤ}
use ontology_rosetta.Common.Result.{ok, or_err, bind-ok, or_err-some}
use ontology_rosetta.Common.Decimal.{parse_ℤ}
use ontology_rosetta.Services.Ontology.{Address, IsAddress, Library, IsLibrary}
use ontology_rosetta.Services.Address.{Natives}
use ontology_rosetta.Services.Types.{CurrencyInfo}
use ontology_rosetta.Services.Store.{lookup_token, validate_currency}
use ontology_rosetta.Services.Store.Tokens.{IsRegistered, validate_currency-found}
use ontology_rosetta.Services.Indexer.Decode.{empty_address}
use ontology_rosetta.Services.Operations.{TransferInfo, Operation, op_transfer}
use ontology_rosetta.Services.Operations.Validate.{
  Checked, invalid_ops, check_op, check_sub_account, check_token, no_zero, relate, direct, no_null,
  validate_ops,
}

module _ (l : Library) (n : Natives) (tokens : List (Address × CurrencyInfo)) where
  -- A transfer of a positive amount of a registered token, from an account that is not null.
  pub record IsRead (x : TransferInfo) : Type 0 where
    pub info : CurrencyInfo
    pub found : lookup_token x.contract tokens ≡ some info
    pub currency_eq : x.currency ≡ info.currency
    pub less_one : ℕ
    pub amount_eq : x.amount ≡ pos (suc less_one)
    pub not_gas : x.is_gas ≡ false
    pub from_len : IsAddress x.from
    pub to_len : IsAddress x.to
    pub from_ne : x.from ≢ empty_address

  last-Checked : (b : Bool) (r c : Checked) → (if b then invalid_ops else ok r) ≡ ok c → r ≡ c
  last-Checked true r c h = absurd (cc h)
  last-Checked false r c h = cc h

  no_null-same : (x y : TransferInfo) → no_null x ≡ ok y → (x ≡ y) × (x.from ≢ empty_address)
  unfolding no_null
  no_null-same x y h = elim (Bool-cases (eq_bytes x.from empty_address)) [
    | inl t ↦ absurd (cc (rw t at h))
    | inr f ↦ (
      cc (rw f at h),
      λ e. let q : true ≡ false = sym (eq_bytes_refl empty_address) ∙ rw e at f in cc q,
    )
  ]

  -- Two amounts that sum to zero, the first of which is negative.
  opposite : (k : ℕ) (b : ℤ) → eq_ℤ (negsuc k +ℤ b) (pos 0) ≡ true → b ≡ pos (suc k)
  unfolding eq_ℤ ◌+ℤ◌
  opposite k (pos m) h = ground (arith, h)
  opposite k (negsuc m) h = absurd (ground (arith, h))

  module _ (lib : IsLibrary l) (reg : IsRegistered l tokens) where
    check_op_sound :
        (cinfo : Option CurrencyInfo) (op : Option Operation) (c : Checked)
        → check_op l n tokens cinfo op ≡ ok c
        → IsAddress c.addr × (lookup_token c.token.contract tokens ≡ some c.token)
    unfolding check_op
    check_op_sound cinfo none c h = absurd (cc h)
    check_op_sound cinfo (some op) c h =
        let (account, p1, h1) = bind-ok (or_err op.account _) _ c h in
        let (addr, p2, h2) = bind-ok (or_err (l.address_from_base58 account.address) _) _ c h1 in
        let (amount, p3, h3) = bind-ok (or_err op.amount _) _ c h2 in
        let (raw, p4, h4) = bind-ok (or_err (parse_ℤ amount.value) _) _ c h3 in
        let (value, p5, h5) = bind-ok (no_zero raw) _ c h4 in
        let (token, p6, h6) = bind-ok (validate_currency l tokens amount.currency) _ c h5 in
        let (_, p7, h7) = bind-ok (check_sub_account l n tokens token account.sub_account) _ c h6 in
        let (_, p8, h8) = bind-ok (check_token l n tokens cinfo token) _ c h7 in
        let (index, p9, h9) = bind-ok (or_err op.identifier _) _ c h8 in
        let len = lib.from_base58-IsAddress account.address addr (or_err-some _ _ addr p2) in
        let found = validate_currency-found l tokens reg amount.currency token p6 in
        let r : Checked = record {
          addr = addr;
          amount = value;
          token = token;
          index = index;
          related = op.related;
        } in
        subst
          (λ (d : Checked).
            IsAddress d.addr × (lookup_token d.token.contract tokens ≡ some d.token))
          (last-Checked (not (eq_bytes op.kind op_transfer)) r c h9) (len, found)

    direct-IsRead :
        (c0 c1 : Checked) (z : ℤ) (x : TransferInfo)
        → IsAddress c0.addr
        → IsAddress c1.addr
        → lookup_token c0.token.contract tokens ≡ some c0.token
        → c0.amount ≡ z
        → eq_ℤ (c0.amount +ℤ c1.amount) (pos 0) ≡ true
        → direct c0 c1 z ≡ ok x
        → IsRead x
    unfolding direct
    direct-IsRead c0 c1 (pos zero) x la lb f e s h = absurd (cc h)
    direct-IsRead c0 c1 (pos (suc k)) x la lb f e s h =
        let (q, ne) = no_null-same _ x h in
        subst IsRead q (record {
          info = c0.token;
          found = f;
          currency_eq = refl;
          less_one = k;
          amount_eq = e;
          not_gas = refl;
          from_len = lb;
          to_len = la;
          from_ne = ne;
        })
    direct-IsRead c0 c1 (negsuc k) x la lb f e s h =
        let (q, ne) = no_null-same _ x h in
        subst IsRead q (record {
          info = c0.token;
          found = f;
          currency_eq = refl;
          less_one = k;
          amount_eq = opposite k c1.amount (rw e at s);
          not_gas = refl;
          from_len = la;
          to_len = lb;
          from_ne = ne;
        })

    summed :
        (c0 c1 : Checked) (b : Bool) (x : TransferInfo)
        → eq_ℤ (c0.amount +ℤ c1.amount) (pos 0) ≡ b
        → (if not b then invalid_ops else direct c0 c1 c0.amount) ≡ ok x
        → (b ≡ true) × (direct c0 c1 c0.amount ≡ ok x)
    summed c0 c1 true x e h = (refl, h)
    summed c0 c1 false x e h = absurd (cc h)

    -- A transfer that validateOps returns is of a positive amount of a registered token, in its
    -- currency, and between addresses of which the sender is not null.
    pub validate_ops-IsRead :
        (ops : List (Option Operation)) (x : TransferInfo)
        → validate_ops l n tokens ops ≡ ok x
        → IsRead x
    unfolding validate_ops
    validate_ops-IsRead [] x h = absurd (cc h)
    validate_ops-IsRead (o ∷ []) x h = absurd (cc h)
    validate_ops-IsRead (o0 ∷ o1 ∷ []) x h =
        let (c0, p0, h0) = bind-ok (check_op l n tokens none o0) _ x h in
        let (c1, p1, h1) = bind-ok (check_op l n tokens (some c0.token) o1) _ x h0 in
        let (_, p2, h2) = bind-ok (relate c0 c1) _ x h1 in
        let (la, f) = check_op_sound none o0 c0 p0 in
        let (lb, _) = check_op_sound (some c0.token) o1 c1 p1 in
        let (s, d) = summed c0 c1 _ x refl h2 in direct-IsRead c0 c1 c0.amount x la lb f refl s d
    validate_ops-IsRead (o0 ∷ o1 ∷ o2 ∷ os) x h = absurd (cc h)
