-- ===== src/Services/Network/Status.antt =====
-- The network status on an indexed chain.
use ontology_rosetta.Common.{ℕ, suc, ◌*◌, ◌≡◌, refl, true, false, some, List, map, ◌==◌, arith}
use ontology_rosetta.Common.Result.{ok, ◌>>=◌}
use ontology_rosetta.Common.Text.{Text}
use ontology_rosetta.Lexinum.{IsU32}
use ontology_rosetta.Services.Ontology.{Library}
use ontology_rosetta.Services.Address.{Natives}
use ontology_rosetta.Services.Types.{BlockState, block_timestamp}
use ontology_rosetta.Services.Badger.{Badger, IsHealthy, Proto}
use ontology_rosetta.Services.Store.{Store, get_height, sync_status}
use ontology_rosetta.Services.Store.Blocks.{IsHashed}
use ontology_rosetta.Services.Store.History.{IsChain, IsIndexed}
use ontology_rosetta.Services.Lookup.Raw.{get_block_info_raw-found}
use ontology_rosetta.Services.Operations.Blocks.Parents.{identifier}
use ontology_rosetta.Services.Network.{Neighbour, peer_of, network_status}

module _ (b : Badger) (healthy : IsHealthy b) (n : Natives) (chain : ℕ → BlockState)
    (ic : IsChain n chain) (ih : IsHashed chain) (p : Proto) (l : Library) where
  height_ok : (s : Store b) (k : ℕ) → s.height_indexed ≡ some k → IsU32 k → get_height b s ≡ k
  unfolding get_height
  height_ok s k top u = rw (top, get_height) (omega arith)

  sync_ok :
      (s : Store b) (k t : ℕ)
      → s.height_indexed ≡ some k
      → s.height_synced ≡ some t
      → sync_status b s
        ≡ some (record { current_index = some k; synced = k == t; target_index = some t })
  unfolding sync_status
  sync_ok s k t top last = rw (last, sync_status) (rw (top, sync_status) refl)

  -- On a store that holds the blocks of a chain up to the height `k`, with the height `t` of the
  -- last poll, the network status shows the block at `k` with its time as the current one, the first
  -- block as the genesis, and the store as synced exactly where `t` is `k`.
  pub network_status-IsIndexed :
      (s : Store b) (k t : ℕ) (self : Text) (neighbours : List Neighbour)
      → IsIndexed b healthy n chain ic p (suc k) s.db
      → s.height_indexed ≡ some k
      → s.height_synced ≡ some t
      → IsU32 k
      → network_status b p l false s self neighbours
        ≡ ok (record {
          current_block_identifier = identifier b healthy n chain ic ih p l k;
          current_block_timestamp = (chain k).block.timestamp * 1000;
          genesis_block_identifier = identifier b healthy n chain ic ih p l 0;
          peers = map (peer_of self) neighbours;
          sync_status = record { current_index = some k; synced = k == t; target_index = some t };
        })
  unfolding network_status block_timestamp
  network_status-IsIndexed s k t self neighbours ix top last u =
      let cur =
        get_block_info_raw-found b healthy n p chain s.db k (ix.blocks k (omega arith))
          (ih.hash_len k) l s true refl u in
      let genesis =
        get_block_info_raw-found b healthy n p chain s.db 0 (ix.blocks 0 (omega arith))
          (ih.hash_len 0) l s false refl (omega arith) in
      rw (height_ok s k top u)
        (rw (cur.0, ◌>>=◌) (rw (genesis.0, ◌>>=◌) (rw (sync_ok s k t top last, ◌>>=◌) refl)))
