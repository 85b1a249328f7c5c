-- ===== src/Server/Config/Runs.antt =====
-- initServerConfig on a concrete file.
use ontology_rosetta.Common.{◌≡◌, refl, false, some, [], ◌∷◌}
use ontology_rosetta.Common.Int.{pos}
use ontology_rosetta.Common.Result.{ok}
use ontology_rosetta.Common.Text.{codes}
use ontology_rosetta.Server.Config.{
  RawConfig, ServerConfig, reject, is_negative, is_blank, wait_of, load_token, load_tokens,
  load_config,
}
use ontology_rosetta.Services.Examples.Names.{names, address, of_length}
use ontology_rosetta.Services.Examples.Tokens.{token}

abbrev pub raw_config : RawConfig
raw_config = record {
  block_wait = 0;
  oep4_tokens =
      some (record { contract = address 40; decimals = pos 8; symbol = codes "TKN"; wasm = false })
      ∷ [];
  port = 9090;
}

abbrev pub server_config : ServerConfig
server_config = record { block_wait = 1; port = 9090; tokens = token ∷ []; wait_time = 1000000000 }

pub loaded : load_config names (some raw_config) ≡ ok server_config
unfolding load_config load_tokens load_token reject is_negative is_blank wait_of of_length
loaded = refl
