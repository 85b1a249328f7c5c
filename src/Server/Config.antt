-- ===== src/Server/Config.antt =====
-- initServerConfig of main.go. The file and its JSON are read by the standard library.
pub mod Accepted
pub mod Runs
use ontology_rosetta.Common.{
  ℕ, ◌*◌, Bool, true, false, Option, none, some, List, [], ◌∷◌, if◌then◌else◌, ltb, ◌==◌,
}
use ontology_rosetta.Common.Int.{ℤ, pos, negsuc}
use ontology_rosetta.Common.Result.{Result, ok, err, ◌>>=◌, or_err}
use ontology_rosetta.Common.Text.{Text}
use ontology_rosetta.Services.Ontology.{Library}
use ontology_rosetta.Services.Types.{Oep4Token}

-- The process ends by log.Fatalf, or panics on a null among the tokens.
pub data Halted : Type 0 where
  fatal nil_token : Halted

-- token
pub record Token : Type 0 where
  pub contract : Text
  pub decimals : ℤ
  pub symbol : Text
  pub wasm : Bool

-- The fields of serverConfig that the JSON has.
pub record RawConfig : Type 0 where
  pub block_wait : ℕ
  pub oep4_tokens : List (Option Token)
  pub port : ℕ

-- serverConfig behind initServerConfig; the time is in nanoseconds.
pub record ServerConfig : Type 0 where
  pub block_wait : ℕ
  pub port : ℕ
  pub tokens : List Oep4Token
  pub wait_time : ℕ

-- A test that ends the process where it holds.
pub reject : Bool → Result Halted (Unit {0})
reject true = err fatal
reject false = ok tt

pub is_negative : ℤ → Bool
is_negative (pos n) = false
is_negative (negsuc n) = true

pub is_blank : Text → Bool
is_blank [] = true
is_blank (c ∷ cs) = false

-- `if cfg.BlockWait == 0 { cfg.BlockWait = 1 }`
pub wait_of : ℕ → ℕ
wait_of w = if w == 0 then 1 else w

module _ (l : Library) where
  -- One round of the loop over the tokens.
  pub load_token : Option Token → Result Halted Oep4Token
  unfolding reject is_negative is_blank
  load_token none = err nil_token
  load_token (some t) = do
    _ ← reject (is_blank t.contract)
    contract ← or_err (l.address_from_hex t.contract) fatal
    _ ← reject (is_negative t.decimals)
    _ ← reject (is_blank t.symbol)
    ok (record { contract = contract; decimals = t.decimals; symbol = t.symbol; wasm = t.wasm })

  pub load_tokens : List (Option Token) → Result Halted (List Oep4Token)
  load_tokens [] = ok []
  load_tokens (t ∷ ts) = do token ← load_token t; tokens ← load_tokens ts; ok (token ∷ tokens)

  -- initServerConfig, for what opening, reading and decoding the file gave
  pub load_config : Option RawConfig → Result Halted ServerConfig
  unfolding reject wait_of
  load_config decoded = do
    raw ← or_err decoded fatal
    tokens ← load_tokens raw.oep4_tokens
    _ ← reject (ltb 65535 raw.port)
    ok (record {
      block_wait = wait_of raw.block_wait;
      port = raw.port;
      tokens = tokens;
      wait_time = wait_of raw.block_wait * 1000000000;
    })
