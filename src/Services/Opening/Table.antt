-- ===== src/Services/Opening/Table.antt =====
-- The tokens of an opened store.
use ontology_rosetta.Common.{
  ℕ, ◌≡◌, refl, sym, ap, ◌∙◌, Bool, true, false, Option, none, some, List, [], ◌∷◌, inl, inr,
  Bool-cases, if◌then◌else◌, subst, All,
}
use ontology_rosetta.Common.Bytes.{eq_bytes, eq_bytes→eq}
use ontology_rosetta.Common.Int.{ℤ}
use ontology_rosetta.Common.Result.{ok, bind-ok}
use ontology_rosetta.Common.Text.{Text}
use ontology_rosetta.Services.Ontology.{Address, IsAddress, Library}
use ontology_rosetta.Services.Address.{Natives, IsNatives}
use ontology_rosetta.Services.Keys.{height_key}
use ontology_rosetta.Services.Types.{CurrencyInfo, Oep4Token, contract_text}
use ontology_rosetta.Services.Badger.{Badger}
use ontology_rosetta.Services.Store.{Store, lookup_token}
use ontology_rosetta.Services.Store.Tokens.{IsRegistered}
use ontology_rosetta.Services.Opening.{
  Constants, put_token, info_for, native_table, token_table, height_of, new_store,
}

-- What a lookup finds after an assignment.
pub lookup_token-put_token :
    (a k : Address) (info : CurrencyInfo) (tokens : List (Address × CurrencyInfo))
    → lookup_token a (put_token k info tokens)
      ≡ (if eq_bytes k a then some info else lookup_token a tokens)
unfolding lookup_token put_token
lookup_token-put_token a k info [] = refl
lookup_token-put_token a k info ((j, old) ∷ tokens) = elim (Bool-cases (eq_bytes j k)) [
  | inl t ↦
      rw (t, lookup_token)
        (rw (eq_bytes→eq j k t)
          (elim (Bool-cases (eq_bytes k a)) [ inl q ↦ rw q refl | inr q ↦ rw q refl ]))
  | inr f ↦
      rw (f, lookup_token)
        (rw (lookup_token-put_token a k info tokens) (elim (Bool-cases (eq_bytes k a)) [
          | inl q ↦
              let e : k ≡ a = eq_bytes→eq k a q in
              let g : eq_bytes j a ≡ false = subst (λ (x : Address). eq_bytes j x ≡ false) e f in
              rw (q, g) refl
          | inr q ↦ rw q refl
        ]))
]

module _ (l : Library) where
  put_token-IsRegistered :
      (k : Address) (decimals : ℤ) (symbol : Text) (wasm : Bool)
      (tokens : List (Address × CurrencyInfo))
      → IsAddress k
      → IsRegistered l tokens
      → IsRegistered l (put_token k (info_for l k decimals symbol wasm) tokens)
  unfolding info_for
  put_token-IsRegistered k decimals symbol wasm tokens len reg = record {
    own_key = λ a info e.
        let e' = sym (lookup_token-put_token a k (info_for l k decimals symbol wasm) tokens) ∙ e in
        elim (Bool-cases (eq_bytes k a)) [
          | inl q ↦
              let s : k ≡ a = eq_bytes→eq k a q in
              let i : info_for l k decimals symbol wasm ≡ info = cc (rw q at e') in
              (
                ap (λ (x : CurrencyInfo). x.contract) (sym i) ∙ s,
                subst IsAddress s len,
                ap (λ (x : CurrencyInfo). x.currency.metadata) (sym i)
                    ∙ ap (λ (x : Address). contract_text (l.address_to_hex x)) s,
              )
          | inr q ↦ reg.own_key a info (rw q at e')
        ];
  }

  nothing-IsRegistered : IsRegistered l []
  unfolding lookup_token
  nothing-IsRegistered = record { own_key = λ a info e. absurd (cc e) }

  native_table-IsRegistered :
      (n : Natives) (c : Constants) → IsNatives n → IsRegistered l (native_table l n c)
  unfolding native_table
  native_table-IsRegistered n c nat =
      put_token-IsRegistered n.ont c.ont_decimals c.ont_symbol false _ nat.ont_len (
        put_token-IsRegistered n.ong c.ong_decimals c.ong_symbol false [] nat.ong_len
          nothing-IsRegistered)

  pub token_table-IsRegistered :
      (ts : List Oep4Token) (table : List (Address × CurrencyInfo))
      → All (λ t. IsAddress t.contract) ts
      → IsRegistered l table
      → IsRegistered l (token_table l ts table)
  unfolding token_table
  token_table-IsRegistered [] table a reg = reg
  token_table-IsRegistered (t ∷ ts) table (h, a) reg =
      token_table-IsRegistered ts _ a
        (put_token-IsRegistered t.contract t.decimals t.symbol t.wasm table h reg)

-- The tokens of a store that NewStore returns are the native ones with the configured ones on top.
new_store-tokens :
    (b : Badger) (l : Library) (n : Natives) (c : Constants) (db : Option b.Db)
    (oep4 : List Oep4Token) (offline : Bool) (synced : ℕ) (s : Store b)
    → new_store b l n c db oep4 offline synced ≡ ok s
    → s.tokens ≡ token_table l oep4 (native_table l n c)
unfolding new_store
new_store-tokens b l n c none oep4 offline synced s h = absurd (cc h)
new_store-tokens b l n c (some d) oep4 true synced s h =
    let e : record {
      db = d;
      height_indexed = none;
      height_synced = none;
      tokens = token_table l oep4 (native_table l n c);
    }
        ≡ s =
      cc h in
    ap (λ (x : Store b). x.tokens) (sym e)
new_store-tokens b l n c (some d) oep4 false synced s h =
    let (i, p, q) = bind-ok (height_of b (b.get d height_key)) _ s h in
    let e : record {
      db = d;
      height_indexed = i;
      height_synced = some synced;
      tokens = token_table l oep4 (native_table l n c);
    }
        ≡ s =
      cc q in
    ap (λ (x : Store b). x.tokens) (sym e)

-- The table of a store that NewStore returns for tokens at addresses of 20 bytes has each entry under
-- its own contract, which its currency names.
pub new_store-IsRegistered :
    (b : Badger) (l : Library) (n : Natives) (c : Constants) (db : Option b.Db)
    (oep4 : List Oep4Token) (offline : Bool) (synced : ℕ) (s : Store b)
    → IsNatives n
    → All (λ u. IsAddress u.contract) oep4
    → new_store b l n c db oep4 offline synced ≡ ok s
    → IsRegistered l s.tokens
new_store-IsRegistered b l n c db oep4 offline synced s nat len h =
    subst (IsRegistered l) (sym (new_store-tokens b l n c db oep4 offline synced s h)) (
      token_table-IsRegistered l oep4 (native_table l n c) len
        (native_table-IsRegistered l n c nat))
