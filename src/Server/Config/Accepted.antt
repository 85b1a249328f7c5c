-- ===== src/Server/Config/Accepted.antt =====
-- What an accepted configuration guarantees, and the store that is opened with it.
use ontology_rosetta.Common.{
  ℕ, ◌*◌, ◌^◌, ◌≤◌, ◌<◌, ◌≡◌, ◌≢◌, refl, Bool, true, false, Option, none, some, List, [], ◌∷◌, ltb,
  arith, All, subst,
}
use ontology_rosetta.Common.Int.{ℤ, pos, negsuc}
use ontology_rosetta.Common.Result.{ok, or_err, bind-ok, or_err-some}
use ontology_rosetta.Common.Text.{Text}
use ontology_rosetta.Services.Ontology.{IsAddress, Library, IsLibrary}
use ontology_rosetta.Services.Address.{Natives, IsNatives}
use ontology_rosetta.Services.Types.{Oep4Token}
use ontology_rosetta.Services.Badger.{Badger}
use ontology_rosetta.Services.Store.{Store}
use ontology_rosetta.Services.Store.Tokens.{IsRegistered}
use ontology_rosetta.Services.Opening.{Constants, new_store}
use ontology_rosetta.Services.Opening.Table.{new_store-IsRegistered}
use ontology_rosetta.Server.Config.{
  fatal, Token, RawConfig, ServerConfig, reject, is_negative, is_blank, wait_of, load_token,
  load_tokens, load_config,
}

-- A configured token, and what is made of it.
pub record IsLoaded (l : Library) (raw : Option Token) (t : Oep4Token) : Type 0 where
  pub given : Token
  pub raw_eq : raw ≡ some given
  pub contract_eq : l.address_from_hex given.contract ≡ some t.contract
  pub contract_len : IsAddress t.contract
  pub decimals : ℕ
  pub decimals_eq : t.decimals ≡ pos decimals
  pub same_decimals : t.decimals ≡ given.decimals
  pub symbol_ne : t.symbol ≢ []
  pub symbol_eq : t.symbol ≡ given.symbol
  pub wasm_eq : t.wasm ≡ given.wasm

pub data AreLoaded (l : Library) : List (Option Token) → List Oep4Token → Type 0 where
  none_left : AreLoaded l [] []
  one_more :
      {raw : Option Token} {t : Oep4Token} {raws : List (Option Token)} {ts : List Oep4Token}
      → IsLoaded l raw t
      → AreLoaded l raws ts
      → AreLoaded l (raw ∷ raws) (t ∷ ts)

reject-ok : (b : Bool) (u : Unit {0}) → reject b ≡ ok u → b ≡ false
unfolding reject
reject-ok true u h = absurd (cc h)
reject-ok false u h = refl

not_negative : (z : ℤ) → is_negative z ≡ false → (n : ℕ) × (z ≡ pos n)
unfolding is_negative
not_negative (pos n) h = (n, refl)
not_negative (negsuc n) h = absurd (cc h)

not_blank : (t : Text) → is_blank t ≡ false → t ≢ []
unfolding is_blank
not_blank [] h = absurd (cc h)
not_blank (c ∷ cs) h = λ e. cc e

module _ (l : Library) (lib : IsLibrary l) where
  load_token-IsLoaded :
      (raw : Option Token) (t : Oep4Token) → load_token l raw ≡ ok t → IsLoaded l raw t
  unfolding load_token
  load_token-IsLoaded none t h = absurd (cc h)
  load_token-IsLoaded (some g) t h =
      let (u, _, h1) = bind-ok (reject (is_blank g.contract)) _ t h in
      let (a, p, h2) = bind-ok (or_err (l.address_from_hex g.contract) fatal) _ t h1 in
      let (v, q, h3) = bind-ok (reject (is_negative g.decimals)) _ t h2 in
      let (w, r, h4) = bind-ok (reject (is_blank g.symbol)) _ t h3 in
      let e : record { contract = a; decimals = g.decimals; symbol = g.symbol; wasm = g.wasm } ≡ t =
        cc h4 in
      let f = or_err-some (l.address_from_hex g.contract) fatal a p in
      let (n, d) = not_negative g.decimals (reject-ok _ v q) in
      subst (IsLoaded l (some g)) e (record {
        given = g;
        raw_eq = refl;
        contract_eq = f;
        contract_len = lib.from_hex-IsAddress g.contract a f;
        decimals = n;
        decimals_eq = d;
        same_decimals = refl;
        symbol_ne = not_blank g.symbol (reject-ok _ w r);
        symbol_eq = refl;
        wasm_eq = refl;
      })

  load_tokens-AreLoaded :
      (raws : List (Option Token)) (ts : List Oep4Token)
      → load_tokens l raws ≡ ok ts
      → AreLoaded l raws ts
  unfolding load_tokens
  load_tokens-AreLoaded [] [] h = none_left
  load_tokens-AreLoaded [] (t ∷ ts) h = absurd (cc h)
  load_tokens-AreLoaded (raw ∷ raws) ts h =
      let (t, p, h1) = bind-ok (load_token l raw) _ ts h in
      let (rest, q, h2) = bind-ok (load_tokens l raws) _ ts h1 in
      let e : t ∷ rest ≡ ts = cc h2 in
      subst (AreLoaded l (raw ∷ raws)) e
        (one_more (load_token-IsLoaded raw t p) (load_tokens-AreLoaded raws rest q))

  addresses :
      (raws : List (Option Token)) (ts : List Oep4Token)
      → AreLoaded l raws ts
      → All (λ t. IsAddress t.contract) ts
  addresses _ _ none_left = tt
  addresses _ _ (one_more {raw} {t} {raws} {ts} x xs) = (x.contract_len, addresses raws ts xs)

  wait_bounds : (w : ℕ) → w < 2 ^ 32 → (1 ≤ wait_of w) × (wait_of w * 1000000000 < 2 ^ 63)
  unfolding wait_of
  wait_bounds w h = ground arith

  -- What initServerConfig returns for a decoded file.
  pub record IsAccepted (raw : RawConfig) (cfg : ServerConfig) : Type 0 where
    pub tokens : AreLoaded l raw.oep4_tokens cfg.tokens
    pub port_eq : cfg.port ≡ raw.port
    pub port_le : cfg.port ≤ 65535
    pub second : 1000000000 ≤ cfg.wait_time
    pub fits : cfg.wait_time < 2 ^ 63

  load_config-IsAccepted :
      (raw : RawConfig) (cfg : ServerConfig)
      → raw.block_wait < 2 ^ 32
      → load_config l (some raw) ≡ ok cfg
      → IsAccepted raw cfg
  unfolding load_config
  load_config-IsAccepted raw cfg u h =
      let (ts, p, h1) = bind-ok (load_tokens l raw.oep4_tokens) _ cfg h in
      let (v, q, h2) = bind-ok (reject (ltb 65535 raw.port)) _ cfg h1 in
      let e : record {
        block_wait = wait_of raw.block_wait;
        port = raw.port;
        tokens = ts;
        wait_time = wait_of raw.block_wait * 1000000000;
      }
          ≡ cfg =
        cc h2 in
      let inside = reject-ok (ltb 65535 raw.port) v q in
      let (low, high) = wait_bounds raw.block_wait u in
      subst (IsAccepted raw) e (record {
        tokens = load_tokens-AreLoaded raw.oep4_tokens ts p;
        port_eq = refl;
        port_le = ground (arith, inside);
        second = omega (arith, low);
        fits = high;
      })

  -- When initServerConfig accepts a decoded file, whose waiting time is a uint32, its result has the
  -- tokens of the file in their order, each at the address of its text, with a symbol and decimals
  -- that are not negative; a port of 16 bits; and a waiting time of a second at least that an int64
  -- holds. A store that NewStore opens with these tokens has each entry of its table under its own
  -- contract, which the entry's currency names.
  pub load_config-new_store :
      (b : Badger) (n : Natives) (c : Constants) (db : Option b.Db) (offline : Bool) (synced : ℕ)
      (raw : RawConfig) (cfg : ServerConfig) (s : Store b)
      → IsNatives n
      → raw.block_wait < 2 ^ 32
      → load_config l (some raw) ≡ ok cfg
      → new_store b l n c db cfg.tokens offline synced ≡ ok s
      → IsAccepted raw cfg × IsRegistered l s.tokens
  load_config-new_store b n c db offline synced raw cfg s nat u h o =
      let a = load_config-IsAccepted raw cfg u h in
      (
        a,
        new_store-IsRegistered b l n c db cfg.tokens offline synced s nat
            (addresses raw.oep4_tokens cfg.tokens a.tokens) o,
      )
