-- ===== src/Services/Examples/OpenRuns.antt =====
-- The theorems on the network status, on opening the store and on the configuration.
use ontology_rosetta.Common.{◌≡◌, refl, false, true, some, [], ◌∷◌, arith}
use ontology_rosetta.Common.Result.{ok}
use ontology_rosetta.Common.Text.{codes}
use ontology_rosetta.Services.Errors.Register.{
  declared, declare_each, nothing_registered, declare_each-all,
}
use ontology_rosetta.Services.Store.{Store, index_chain, get_height}
use ontology_rosetta.Services.Store.Tokens.{IsRegistered}
use ontology_rosetta.Services.Store.History.{IsIndexed, index_chain-IsIndexed}
use ontology_rosetta.Services.Operations.Blocks.Parents.{identifier}
use ontology_rosetta.Services.Network.{network_status}
use ontology_rosetta.Services.Network.Status.{network_status-IsIndexed}
use ontology_rosetta.Services.Opening.{new_store}
use ontology_rosetta.Services.Opening.Again.{new_store-index_chain}
use ontology_rosetta.Services.Opening.Runs.{opened, opened_ok}
use ontology_rosetta.Server.Config.Accepted.{IsAccepted, load_config-new_store}
use ontology_rosetta.Server.Config.Runs.{raw_config, server_config, loaded}
use ontology_rosetta.Services.Examples.Healthy.{disk, disk-IsHealthy, disk-IsEmpty}
use ontology_rosetta.Services.Examples.Names.{names, names-IsLibrary, natives, natives-IsNatives}
use ontology_rosetta.Services.Examples.Codec.{codec, codec-IsProto}
use ontology_rosetta.Services.Examples.Chain.{chain, chain-IsChain, chain-IsHashed, fresh}
use ontology_rosetta.Services.Examples.Tokens.{constants, token}

-- The store that indexing two blocks leaves, after a poll at the height 7.
pub two_blocks :
    (s : Store disk) × IsIndexed disk disk-IsHealthy natives chain chain-IsChain codec 2 s.db
    × (s.height_indexed ≡ some 1)
    × (s.height_synced ≡ some 7)
two_blocks =
    let (s', e, ix, top, t) =
      index_chain-IsIndexed disk disk-IsHealthy natives chain chain-IsChain codec codec-IsProto
        chain-IsHashed fresh disk-IsEmpty 1 (omega arith) in
    (record s' { height_synced = some 7 }, ix, top, refl)

network_status-IsIndexed_example :
    network_status disk codec names false two_blocks.0 (codes "self") []
    ≡ ok (record {
      current_block_identifier =
          identifier disk disk-IsHealthy natives chain chain-IsChain chain-IsHashed codec names 1;
      current_block_timestamp = 1600000001000;
      genesis_block_identifier =
          identifier disk disk-IsHealthy natives chain chain-IsChain chain-IsHashed codec names 0;
      peers = [];
      sync_status = record { current_index = some 1; synced = false; target_index = some 7 };
    })
network_status-IsIndexed_example =
    network_status-IsIndexed disk disk-IsHealthy natives chain chain-IsChain chain-IsHashed codec
      names two_blocks.0 1 7 (codes "self") [] two_blocks.1 two_blocks.2 two_blocks.3 (omega arith)

new_store-index_chain_example :
    (s' : Store disk) × (index_chain disk codec chain fresh 2 ≡ ok s')
    × (again : Store disk) × (new_store disk names natives constants
          (some s'.db)
          (token ∷ [])
          false
          9
        ≡ ok again)
    × IsIndexed disk disk-IsHealthy natives chain chain-IsChain codec 2 again.db
    × (again.height_indexed ≡ some 1)
    × (again.height_synced ≡ some 9)
    × (get_height disk again ≡ 1)
new_store-index_chain_example =
    new_store-index_chain disk disk-IsHealthy natives chain chain-IsChain codec codec-IsProto
      chain-IsHashed fresh disk-IsEmpty 1 (omega arith) names constants (token ∷ []) 9

load_config-new_store_example :
    IsAccepted names names-IsLibrary raw_config server_config × IsRegistered names opened.tokens
load_config-new_store_example =
    load_config-new_store names names-IsLibrary disk natives constants (some []) true 0 raw_config
      server_config opened natives-IsNatives (omega arith) loaded opened_ok

declare_each-all_example :
    declare_each declared nothing_registered
    ≡ ok (record nothing_registered { server_errors = declared })
declare_each-all_example = declare_each-all declared
