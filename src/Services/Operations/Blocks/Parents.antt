-- ===== src/Services/Operations/Blocks/Parents.antt =====
-- The /block endpoint on an indexed chain.
use ontology_rosetta.Common.{
  ℕ, suc, ◌-◌, ◌*◌, ◌≤◌, ◌≡◌, refl, ap, true, false, some, ltb, arith, inl, inr, Bool-cases,
}
use ontology_rosetta.Common.Result.{ok, ◌>>=◌}
use ontology_rosetta.Lexinum.{IsU32}
use ontology_rosetta.Services.Ontology.{Library}
use ontology_rosetta.Services.Address.{Natives}
use ontology_rosetta.Services.Types.{BlockIdentifier, BlockState, block_timestamp}
use ontology_rosetta.Services.Badger.{Badger, IsHealthy, Proto}
use ontology_rosetta.Services.Store.{Store}
use ontology_rosetta.Services.Store.Blocks.{IsHashed}
use ontology_rosetta.Services.Store.History.{IsChain, IsIndexed}
use ontology_rosetta.Services.Lookup.Raw.{get_block_info_raw-found, info_of}
use ontology_rosetta.Services.Account.Historic.{at_index, get_block_info_at}
use ontology_rosetta.Services.Operations.Blocks.{block_endpoint, parent_of, view_transactions}

module _ (b : Badger) (healthy : IsHealthy b) (n : Natives) (chain : ℕ → BlockState)
    (ic : IsChain n chain) (ih : IsHashed chain) (p : Proto) (l : Library) where
  abbrev pub identifier : ℕ → BlockIdentifier
  identifier m = record { hash = l.hash_to_hex (chain m).id.hash; index = m }

  module _ (s : Store b) (k m : ℕ) (ix : IsIndexed b healthy n chain ic p (suc k) s.db)
      (top : s.height_indexed ≡ some k) (u : IsU32 k) (le : m ≤ k) where
    parent_lem :
        parent_of b p l n s
          (info_of b healthy n p chain s.db m (ix.blocks m (omega arith)) (ih.hash_len m) l true)
        ≡ ok (identifier (m - 1))
    unfolding parent_of
    parent_lem = elim (Bool-cases (ltb 0 m)) [
      | inl t ↦ rw t (
          rw
            (
              (get_block_info_raw-found b healthy n p chain s.db (m - 1)
                  (ix.blocks (m - 1) (omega arith)) (ih.hash_len (m - 1)) l s false refl
                  (omega arith)).0,
              ◌>>=◌,
            )
            refl)
      | inr f ↦ let z : m ≡ m - 1 = ground arith in rw f (ap (λ (j : ℕ). ok (identifier j)) z)
    ]

    -- On a store that holds the blocks of a chain up to the height `k`, the /block request at the
    -- index `m` of any of them answers with the identifier and the time of that block, with the
    -- identifier of the block before it as the parent (its own for the first block), and with the
    -- transactions of the block or the error that showing them meets.
    pub block_endpoint-IsIndexed : block_endpoint b p l n false s (at_index b healthy n chain m) ≡ (
        view_transactions l n s.tokens (chain m).block.transactions >>= λ txs. ok (record {
          block_identifier = identifier m;
          parent_identifier = identifier (m - 1);
          timestamp = (chain m).block.timestamp * 1000;
          transactions = txs;
        }))
    unfolding block_endpoint block_timestamp
    block_endpoint-IsIndexed =
        rw (get_block_info_at b healthy n chain ic ih p l s k m ix top u le true, ◌>>=◌)
          (rw (parent_lem, ◌>>=◌) refl)
