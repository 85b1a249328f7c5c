-- ===== src/Services/Indexer/Reconcile.antt =====
-- From the node's blocks to the balance endpoint.
use ontology_rosetta.Common.{ℕ, zero, suc, ◌^◌, ◌≤◌, ◌≡◌, ◌≢◌, refl, ap, ◌∙◌, none, List, [], ◌∷◌}
use ontology_rosetta.Common.Bytes.{Bytes}
use ontology_rosetta.Common.Int.{ℤ, pos, ◌+ℤ◌, ◌≤ℤ◌}
use ontology_rosetta.Common.Result.{ok}
use ontology_rosetta.Lexinum.Encode.{form}
use ontology_rosetta.Services.Ontology.{Address, IsAddress, IsHash, Library, IsLibrary}
use ontology_rosetta.Services.Address.{Natives}
use ontology_rosetta.Services.Types.{BlockState, CurrencyInfo}
use ontology_rosetta.Services.Badger.{Badger, IsHealthy, Proto, IsProto}
use ontology_rosetta.Services.Store.{Store, index_chain, get_currency_info}
use ontology_rosetta.Services.Store.Blocks.{IsHashed}
use ontology_rosetta.Services.Store.History.{total, net, IsChain}
use ontology_rosetta.Services.Account.{get_balance}
use ontology_rosetta.Services.Account.Historic.{prefix_of, at_index, get_balance-index_chain}
use ontology_rosetta.Services.Indexer.Decode.{Events}
use ontology_rosetta.Services.Indexer.Decode.Parties.{IsEvents}
use ontology_rosetta.Services.Indexer.Build.{SrcBlock, EventsAt, Totals, totals_of, block_state}
use ontology_rosetta.Services.Indexer.Build.Ledger.{block_flow}
use ontology_rosetta.Services.Indexer.Build.Books.{
  IsEventsAt, IsConsistent, block_state-IsConsistent,
}

-- What the transfers recorded in the blocks below `k` move into an account, less what they move
-- out.
pub recorded : Natives → (ℕ → BlockState) → Address → Address → ℕ → ℤ
recorded n chain a c zero = pos 0
recorded n chain a c (suc k) =
    recorded n chain a c k +ℤ block_flow n a c (chain k).block.transactions

pub total-recorded :
    (n : Natives) (chain : ℕ → BlockState)
    → ((k : ℕ) → IsConsistent n k (chain k))
    → (a c : Address) → IsAddress a
    → IsAddress c
    → a ≢ n.null
    → (k : ℕ) → total chain (prefix_of n a c) k ≡ recorded n chain a c k
unfolding total recorded
total-recorded n chain ok_at a c la lc ne zero = refl
total-recorded n chain ok_at a c la lc ne (suc k) =
    ap (λ (z : ℤ). z +ℤ net (chain k).changes (prefix_of n a c))
      (total-recorded n chain ok_at a c la lc ne k)
    ∙ ap (λ (z : ℤ). recorded n chain a c k +ℤ z) ((ok_at k).flow a c la lc ne)

-- A node's chain: its blocks and events, and the height that it had when each was read.
pub record Node : Type 0 where
  pub block : ℕ → SrcBlock
  pub events : ℕ → EventsAt
  pub latest : ℕ → ℕ

module _ (l : Library) (n : Natives) (ev : Events) (tokens : List (Address × CurrencyInfo)) where
  -- The states that IndexBlocks builds, for the totals of each block.
  abbrev pub states : Node → (ℕ → Totals) → ℕ → BlockState
  states node totals k =
      block_state l n ev tokens (node.block k) k (node.latest k) (form k) (totals k)

  -- A node whose blocks have events that all decode, and distinct hashes.
  pub record IsNode (node : Node) (totals : ℕ → Totals) : Type 0 where
    pub events_ok : (k : ℕ) → IsEventsAt (node.events k)
    pub totals_ok : (k : ℕ) → totals_of l n ev tokens (node.block k) (node.events k) ≡ ok (totals k)
    pub hash_len : (k : ℕ) → IsHash (node.block k).hash
    pub hash_ne : (i j : ℕ) → i ≢ j → (node.block i).hash ≢ (node.block j).hash

  module _ (lib : IsLibrary l) (good : IsEvents ev) (node : Node) (totals : ℕ → Totals)
      (is_node : IsNode node totals) where
    pub consistent : (k : ℕ) → IsConsistent n k (states node totals k)
    consistent k =
        block_state-IsConsistent l n ev tokens lib good (node.block k) (node.events k) k
          (node.latest k) (totals k) (is_node.events_ok k) (is_node.totals_ok k)

    pub states-IsChain : IsChain n (states node totals)
    unfolding block_state
    states-IsChain = record {
      numbered = λ k. refl;
      changes = λ k. (consistent k).changes;
      distinct = λ k. (consistent k).distinct;
    }

    pub states-IsHashed : IsHashed (states node totals)
    unfolding block_state
    states-IsHashed = record { hash_len = is_node.hash_len; hash_ne = is_node.hash_ne }

    -- From an empty data store, let the blocks of a node up to the height `k` be indexed, their
    -- events decoded as IndexBlocks does. For an account other than the null address, and a
    -- registered contract, let what the transfers recorded in these blocks move into the account,
    -- less what they move out, not fall below zero up to the block `m`. Then the balance request for
    -- them at the index `m` is answered with that amount, up to and with that block.
    pub get_balance-recorded :
        (b : Badger) (healthy : IsHealthy b) (p : Proto) (proto : IsProto p) (s : Store b)
        → ((j : Bytes) → healthy.view s.db j ≡ none)
        → (k m : ℕ) → suc k ≤ 2 ^ 32
        → m ≤ k
        → (a c : Address) (info : CurrencyInfo) → IsAddress a
        → IsAddress c
        → a ≢ n.null
        → get_currency_info s.tokens c ≡ ok info
        → ((j : ℕ) → j ≤ suc m → pos 0 ≤ℤ recorded n (states node totals) a c j)
        → (s' : Store b) × (index_chain b p (states node totals) s (suc k) ≡ ok s')
          × (get_balance b n p l s' (at_index b healthy n (states node totals) m) a [] (c ∷ [])
              ≡ ok (record {
                balances =
                    (record {
                      currency = info.currency;
                      value = recorded n (states node totals) a c (suc m);
                    })
                    ∷ [];
                block_identifier = record { hash = l.hash_to_hex (node.block m).hash; index = m };
              }))
    unfolding block_state
    get_balance-recorded b healthy p proto s e k m le lm a c info la lc ne known solvent =
        let same = total-recorded n (states node totals) consistent a c la lc ne in
        let (s', q, r) =
          get_balance-index_chain b healthy n (states node totals) states-IsChain states-IsHashed p
            l proto s e k m le lm a c info la lc known (λ j lj. rw (same j) (solvent j lj)) in
        (s', q, rw (← same (suc m)) r)
