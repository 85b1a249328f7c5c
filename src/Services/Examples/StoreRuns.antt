-- ===== src/Services/Examples/StoreRuns.antt =====
-- The theorems on the data store at a chain of two blocks and an empty database.
use ontology_rosetta.Common.{◌≡◌, refl, true, false, some, [], ◌∷◌, ◌++◌, arith}
use ontology_rosetta.Common.Bytes.{Bytes, eq_bytes}
use ontology_rosetta.Common.Int.{pos, ◌+ℤ◌}
use ontology_rosetta.Common.Result.{ok}
use ontology_rosetta.Services.Address.{slice2addr, decompress_addr, addr2slice, account_key_prefix}
use ontology_rosetta.Services.Address.Compress.{slice2addr-addr2slice}
use ontology_rosetta.Services.Address.Prefix.{account_key_prefix-append}
use ontology_rosetta.Services.Store.{Store, index_chain, lookup_token, get_currency_info}
use ontology_rosetta.Services.Store.History.{total, IsIndexed, index_chain-IsIndexed}
use ontology_rosetta.Services.Store.{apply_changes, update_block}
use ontology_rosetta.Services.Store.Changes.{IsKeyedAll, Applied, apply_changes-Applied}
use ontology_rosetta.Services.Store.Update.{Updated, update_block-Updated}
use ontology_rosetta.Services.Store.Blocks.{HasBlock}
use ontology_rosetta.Services.Lookup.{get_block_info_raw, zero_hash}
use ontology_rosetta.Services.Lookup.Raw.{get_block_info_raw-found, info_of, id_of}
use ontology_rosetta.Services.Account.{get_balance}
use ontology_rosetta.Services.Account.Historic.{
  prefix_of, at_index, get_balance-index_chain, get_balance-overdrawn,
}
use ontology_rosetta.Services.Examples.Disk.{Entries}
use ontology_rosetta.Services.Examples.Healthy.{disk, disk-IsHealthy, disk-IsEmpty}
use ontology_rosetta.Services.Examples.Names.{names, names-IsLibrary, natives, address}
use ontology_rosetta.Services.Examples.Codec.{codec, codec-IsProto}
use ontology_rosetta.Services.Examples.Chain.{
  chain, solvent, overdrawn, overdrawn-IsChain, overdrawn-IsHashed, chain-IsChain, chain-IsHashed,
  fresh, ont_info, hash_at,
}

slice2addr-addr2slice_example :
    (slice2addr names natives (addr2slice natives (address 7)) ≡ ok (address 7))
    × (decompress_addr names natives (addr2slice natives (address 7)) ≡ some (address 7))
slice2addr-addr2slice_example =
    slice2addr-addr2slice names natives (address 7) names-IsLibrary (omega arith)

index_chain-IsIndexed_example :
    (s' : Store disk) × (index_chain disk codec chain fresh 2 ≡ ok s')
    × IsIndexed disk disk-IsHealthy natives chain chain-IsChain codec 2 s'.db
    × (s'.height_indexed ≡ some 1)
    × (s'.tokens ≡ fresh.tokens)
index_chain-IsIndexed_example =
    index_chain-IsIndexed disk disk-IsHealthy natives chain chain-IsChain codec codec-IsProto
      chain-IsHashed fresh disk-IsEmpty 1 (omega arith)

get_balance-index_chain_example :
    (s' : Store disk) × (index_chain disk codec chain fresh 2 ≡ ok s')
    × (get_balance disk natives codec names s'
          (at_index disk disk-IsHealthy natives chain 1)
          (address 9)
          []
          (natives.ont ∷ [])
        ≡ ok (record {
          balances = (record { currency = ont_info.currency; value = pos 70_000_000_000 }) ∷ [];
          block_identifier = record { hash = hash_at 1; index = 1 };
        }))
unfolding total ◌+ℤ◌ eq_bytes addr2slice account_key_prefix lookup_token get_currency_info
get_balance-index_chain_example =
    get_balance-index_chain disk disk-IsHealthy natives chain chain-IsChain chain-IsHashed codec
      names codec-IsProto fresh disk-IsEmpty 1 1 (omega arith) (omega arith) (address 9) natives.ont
      ont_info (omega arith) (omega arith) refl
      (λ j lj. solvent (prefix_of natives (address 9) natives.ont) j)

get_balance-overdrawn_example :
    (s' : Store disk) × (index_chain disk codec overdrawn fresh 1 ≡ ok s')
    × (get_balance disk natives codec names s'
          (at_index disk disk-IsHealthy natives overdrawn 0)
          (address 9)
          []
          (natives.ont ∷ [])
        ≡ ok (record {
          balances = (record { currency = ont_info.currency; value = pos 5 }) ∷ [];
          block_identifier = record { hash = hash_at 0; index = 0 };
        }))
unfolding total ◌+ℤ◌ eq_bytes addr2slice account_key_prefix lookup_token get_currency_info
get_balance-overdrawn_example =
    get_balance-overdrawn disk disk-IsHealthy natives overdrawn overdrawn-IsChain overdrawn-IsHashed
      codec names codec-IsProto fresh disk-IsEmpty 0 0 (omega arith) (omega arith) (address 9)
      natives.ont ont_info (omega arith) (omega arith) refl
      (λ j lj. let z : j ≡ 0 = omega arith in rw z (omega arith)) 4 refl

nothing_keyed : IsKeyedAll disk disk-IsHealthy natives 0 (omega arith) []
nothing_keyed p ia rest v e = cc (e, disk-IsEmpty (p ++ rest))

apply_changes-Applied_example :
    (d' : Entries) × (apply_changes disk [] (chain 0).changes ≡ ok d')
    × Applied disk disk-IsHealthy natives 0 (omega arith) [] (chain 0).changes d'
apply_changes-Applied_example =
    apply_changes-Applied disk disk-IsHealthy natives 0 (omega arith) [] (chain 0).changes
      nothing_keyed (chain-IsChain.changes 0) (chain-IsChain.distinct 0)

update_block-Updated_example :
    (d' : Entries) × (update_block disk (chain 0) (1 ∷ 2 ∷ []) [] ≡ ok d')
    × Updated disk disk-IsHealthy natives (chain 0) (omega arith) [] (1 ∷ 2 ∷ []) d'
update_block-Updated_example =
    update_block-Updated disk disk-IsHealthy natives (chain 0) (omega arith) [] (1 ∷ 2 ∷ [])
      nothing_keyed (chain-IsChain.changes 0) (chain-IsChain.distinct 0)

-- The blocks of the chain in the store that indexing them leaves.
indexed_chain :
    (s' : Store disk) × (index_chain disk codec chain fresh 2 ≡ ok s')
    × IsIndexed disk disk-IsHealthy natives chain chain-IsChain codec 2 s'.db
    × (s'.height_indexed ≡ some 1)
    × (s'.tokens ≡ fresh.tokens)
indexed_chain =
    index_chain-IsIndexed disk disk-IsHealthy natives chain chain-IsChain codec codec-IsProto
      chain-IsHashed fresh disk-IsEmpty 1 (omega arith)

indexed : Store disk
indexed = indexed_chain.0

block_there : HasBlock disk disk-IsHealthy natives codec chain indexed.db 1
unfolding indexed indexed_chain
block_there = indexed_chain.2.blocks 1 (omega arith)

get_block_info_raw-found_example :
    (get_block_info_raw disk codec names indexed
        (id_of disk disk-IsHealthy natives codec chain indexed.db 1 block_there
          (chain-IsHashed.hash_len 1)
          true
          zero_hash)
        true
      ≡ ok (
          info_of disk disk-IsHealthy natives codec chain indexed.db 1 block_there
            (chain-IsHashed.hash_len 1)
            names
            true))
    × (get_block_info_raw disk codec names indexed
          (record { by_height = false; hash = hash_at 1; height = 0 })
          true
        ≡ ok (
            info_of disk disk-IsHealthy natives codec chain indexed.db 1 block_there
              (chain-IsHashed.hash_len 1)
              names
              true))
get_block_info_raw-found_example =
    get_block_info_raw-found disk disk-IsHealthy natives codec chain indexed.db 1 block_there
      (chain-IsHashed.hash_len 1) names indexed true refl (omega arith)

account_key_prefix-append_example :
    (address 9 ≡ address 9) × (natives.ont ≡ natives.ont) × (◌≡◌ {A = Bytes} (5 ∷ []) (5 ∷ []))
account_key_prefix-append_example =
    account_key_prefix-append natives (address 9) (address 9) natives.ont natives.ont (5 ∷ [])
      (5 ∷ []) (omega arith) (omega arith) (omega arith) (omega arith) refl
