-- ===== src/Services/Opening/Again.antt =====
-- Opening the data store again when a chain was indexed.
use ontology_rosetta.Common.{ℕ, suc, ◌^◌, ◌≤◌, ◌≡◌, refl, false, none, some, List, arith}
use ontology_rosetta.Common.Bytes.{Bytes}
use ontology_rosetta.Common.Result.{ok, ◌>>=◌}
use ontology_rosetta.Lexinum.{IsU32}
use ontology_rosetta.Services.Ontology.{Library}
use ontology_rosetta.Services.Address.{Natives}
use ontology_rosetta.Services.Keys.{put_uint32, uint32-put_uint32, height_key}
use ontology_rosetta.Services.Types.{BlockState, Oep4Token}
use ontology_rosetta.Services.Badger.{Badger, IsHealthy, Proto, IsProto}
use ontology_rosetta.Services.Store.{Store, index_chain, get_height}
use ontology_rosetta.Services.Store.Blocks.{IsHashed}
use ontology_rosetta.Services.Store.History.{IsChain, IsIndexed, index_chain-IsIndexed}
use ontology_rosetta.Services.Opening.{Constants, native_table, token_table, height_of, new_store}

module _ (b : Badger) (healthy : IsHealthy b) (n : Natives) (chain : ℕ → BlockState)
    (ic : IsChain n chain) (p : Proto) where
  open healthy use {view, get_some}

  height_of-marked :
      (d : b.Db) (k : ℕ)
      → view d height_key ≡ some (put_uint32 k)
      → IsU32 k
      → height_of b (b.get d height_key) ≡ ok (some k)
  unfolding height_of
  height_of-marked d k m u =
      let (i, g, v) = get_some d height_key (put_uint32 k) m in
      rw (g, height_of) (rw (v, height_of) (rw (uint32-put_uint32 k u, height_of) refl))

  -- From an empty database, let the blocks of a chain up to the height `k` be indexed. When NewStore
  -- opens what this leaves, online, it returns a store on the same database that has the height `k`,
  -- so that the store holds again the blocks up to it and IndexBlocks goes on behind it.
  pub new_store-index_chain :
      IsProto p
      → IsHashed chain
      → (s : Store b) → ((j : Bytes) → view s.db j ≡ none)
      → (k : ℕ) → suc k ≤ 2 ^ 32
      → (l : Library) (c : Constants) (oep4 : List Oep4Token) (synced : ℕ)
      → (s' : Store b) × (index_chain b p chain s (suc k) ≡ ok s')
        × (again : Store b) × (new_store b l n c (some s'.db) oep4 false synced ≡ ok again)
        × IsIndexed b healthy n chain ic p (suc k) again.db
        × (again.height_indexed ≡ some k)
        × (again.height_synced ≡ some synced)
        × (get_height b again ≡ k)
  unfolding new_store get_height
  new_store-index_chain proto ih s empty k le l c oep4 synced =
      let (s', e, ix, top, t) =
        index_chain-IsIndexed b healthy n chain ic p proto ih s empty k le in
      (
        s',
        e,
        record {
          db = s'.db;
          height_indexed = some k;
          height_synced = some synced;
          tokens = token_table l oep4 (native_table l n c);
        },
        rw (height_of-marked s'.db k (ix.marked k refl) (omega arith), ◌>>=◌) refl,
        ix,
        refl,
        refl,
        omega arith,
      )
