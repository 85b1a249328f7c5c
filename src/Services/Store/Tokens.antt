-- ===== src/Services/Store/Tokens.antt =====
-- The registered tokens, as NewStore registers them and validateCurrency looks them up.
use ontology_rosetta.Common.{◌≡◌, refl, sym, true, Option, none, some, List, subst, arith}
use ontology_rosetta.Common.Bytes.{eq_bytes_refl}
use ontology_rosetta.Common.Int.{ℤ, pos, negsuc, eq_ℤ}
use ontology_rosetta.Common.Result.{ok, ◌>>=◌, or_err, bind-ok, or_err-some}
use ontology_rosetta.Services.Ontology.{Address, IsAddress, Library, IsLibrary}
use ontology_rosetta.Services.Types.{
  Currency, CurrencyInfo, ContractEntry, no_metadata, no_contract, not_string, contract_text,
}
use ontology_rosetta.Services.Store.{
  lookup_token, check_currency, validate_contract, validate_currency,
}

-- Each entry of the table is under its own contract, which its currency names.
pub record IsRegistered (l : Library) (tokens : List (Address × CurrencyInfo)) : Type 0 where
  pub own_key :
      (a : Address) (info : CurrencyInfo)
      → lookup_token a tokens ≡ some info
      → (info.contract ≡ a)
        × IsAddress a
        × (info.currency.metadata ≡ contract_text (l.address_to_hex a))

check_currency-same :
    (c : Currency) (info info' : CurrencyInfo) → check_currency c info ≡ ok info' → info ≡ info'
unfolding check_currency
check_currency-same c info info' h = ground (arith, h)

eq_ℤ_refl : (z : ℤ) → eq_ℤ z z ≡ true
unfolding eq_ℤ
eq_ℤ_refl (pos n) = ground arith
eq_ℤ_refl (negsuc n) = ground arith

module _ (l : Library) (tokens : List (Address × CurrencyInfo)) (reg : IsRegistered l tokens) where
  entry-found :
      (c : Currency) (m : ContractEntry) (info : CurrencyInfo)
      → validate_contract l tokens c m ≡ ok info
      → lookup_token info.contract tokens ≡ some info
  unfolding validate_contract
  entry-found c no_metadata info h = absurd (cc h)
  entry-found c no_contract info h = absurd (cc h)
  entry-found c not_string info h = absurd (cc h)
  entry-found c (contract_text raw) info h =
      let (a, p, h1) = bind-ok (or_err (l.address_from_hex raw) _) _ info h in
      let (i, q, h2) = bind-ok (or_err (lookup_token a tokens) _) _ info h1 in
      let e : i ≡ info = check_currency-same c i info h2 in
      let f : lookup_token a tokens ≡ some info =
        subst (λ (j : CurrencyInfo). lookup_token a tokens ≡ some j) e
          (or_err-some (lookup_token a tokens) _ i q) in
      let (own, _, _) = reg.own_key a info f in
      subst (λ (b : Address). lookup_token b tokens ≡ some info) (sym own) f

  -- What validateCurrency returns is registered under its contract.
  pub validate_currency-found :
      (c : Option Currency) (info : CurrencyInfo)
      → validate_currency l tokens c ≡ ok info
      → lookup_token info.contract tokens ≡ some info
  unfolding validate_currency
  validate_currency-found none info h = absurd (cc h)
  validate_currency-found (some c) info h = entry-found c c.metadata info h

  -- The currency of a registered token passes validateCurrency.
  pub validate_currency-own :
      IsLibrary l
      → (a : Address) (info : CurrencyInfo) → lookup_token a tokens ≡ some info
      → validate_currency l tokens (some info.currency) ≡ ok info
  unfolding validate_currency validate_contract check_currency
  validate_currency-own lib a info f =
      let (own, len, named) = reg.own_key a info f in
      subst (λ (m : ContractEntry). validate_contract l tokens info.currency m ≡ ok info)
        (sym named)
        (rw (lib.from_hex-to_hex a len, ◌>>=◌)
          (rw (f, ◌>>=◌)
            (rw (eq_ℤ_refl info.currency.decimals, eq_bytes_refl info.currency.symbol) refl)))
