-- ===== src/Services/Examples/NodeRuns.antt =====
-- The theorems on the indexer at the node of Node.
use ontology_rosetta.Common.{ℕ, zero, suc, ◌≡◌, ◌≢◌, refl, ap, ◌∙◌, List, [], ◌∷◌, some, arith}
use ontology_rosetta.Common.Bytes.{Bytes, eq_bytes}
use ontology_rosetta.Common.Int.{ℤ, pos, ◌+ℤ◌, ◌≤ℤ◌}
use ontology_rosetta.Common.Result.{ok}
use ontology_rosetta.Services.Types.{BlockState}
use ontology_rosetta.Services.Store.{Store, index_chain, lookup_token, get_currency_info}
use ontology_rosetta.Services.Store.History.{total, index_chain-IsIndexed, net}
use ontology_rosetta.Services.Account.{get_balance}
use ontology_rosetta.Services.Account.Historic.{prefix_of, at_index}
use ontology_rosetta.Services.Indexer.Flow.{flow, balance_cal-flow}
use ontology_rosetta.Services.Indexer.{balance_cal}
use ontology_rosetta.Services.Indexer.Diffs.{entry}
use ontology_rosetta.Services.Indexer.Build.{account_changes, changes_of, block_state}
use ontology_rosetta.Services.Indexer.Build.Books.{
  IsEventsAt, IsConsistent, build_state-IsConsistent, build_state-block_state,
}
use ontology_rosetta.Services.Indexer.Build.Runs.{totals_eq}
use ontology_rosetta.Services.Indexer.Reconcile.{
  recorded, states, IsNode, get_balance-recorded, states-IsChain, states-IsHashed, total-recorded,
  consistent,
}
use ontology_rosetta.Services.Indexer.Poll.{Answers, poll}
use ontology_rosetta.Services.Indexer.Poll.Round.{IsAnswered, poll-index_chain}
use ontology_rosetta.Services.Examples.Healthy.{disk, disk-IsHealthy, disk-IsEmpty}
use ontology_rosetta.Services.Examples.Names.{names, names-IsLibrary, natives, address, address_ne}
use ontology_rosetta.Services.Examples.Codec.{codec, codec-IsProto}
use ontology_rosetta.Services.Examples.Chain.{
  chain, changes_at, solvent, chain-IsHashed, fresh, ont_info, hash_at,
}
use ontology_rosetta.Services.Examples.Node.{ledger, ledger-IsEvents, node, totals, events, xfer_of}

abbrev node_states : ℕ → BlockState
node_states k = states names natives ledger fresh.tokens node totals k

built_changes : (k : ℕ) → (node_states k).changes ≡ changes_at k
unfolding block_state changes_of account_changes
built_changes zero = refl
built_changes (suc zero) = refl
built_changes (suc (suc k)) = refl

node_states-total : (p : Bytes) (k : ℕ) → total node_states p k ≡ total chain p k
unfolding total
node_states-total p zero = refl
node_states-total p (suc k) =
    ap (λ (z : ℤ). z +ℤ net (node_states k).changes p) (node_states-total p k)
    ∙ ap (λ (cs : List _). total chain p k +ℤ net cs p) (built_changes k)

events_ok : (k : ℕ) → IsEventsAt (events k)
events_ok zero = ((omega arith, tt), tt)
events_ok (suc zero) = ((omega arith, tt), tt)
events_ok (suc (suc k)) = tt

node-IsNode : IsNode names natives ledger fresh.tokens node totals
node-IsNode = record {
  events_ok = events_ok;
  totals_ok = totals_eq;
  hash_len = chain-IsHashed.hash_len;
  hash_ne = chain-IsHashed.hash_ne;
}

not_null : address 9 ≢ natives.null
not_null = address_ne 9 0 (omega arith)

node-solvent : (j : ℕ) → pos 0 ≤ℤ recorded natives node_states (address 9) natives.ont j
node-solvent j =
    rw
      (
        ← total-recorded natives node_states
            (consistent names natives ledger fresh.tokens names-IsLibrary ledger-IsEvents node
              totals node-IsNode)
            (address 9) natives.ont (omega arith) (omega arith) not_null j,
        node_states-total (prefix_of natives (address 9) natives.ont) j,
      )
      (solvent (prefix_of natives (address 9) natives.ont) j)

get_balance-recorded_example :
    (s' : Store disk) × (index_chain disk codec node_states fresh 2 ≡ ok s')
    × (get_balance disk natives codec names s'
          (at_index disk disk-IsHealthy natives node_states 1)
          (address 9)
          []
          (natives.ont ∷ [])
        ≡ ok (record {
          balances =
              (record {
                currency = ont_info.currency;
                value = recorded natives node_states (address 9) natives.ont 2;
              })
              ∷ [];
          block_identifier = record { hash = hash_at 1; index = 1 };
        }))
unfolding lookup_token get_currency_info eq_bytes
get_balance-recorded_example =
    get_balance-recorded names natives ledger fresh.tokens names-IsLibrary ledger-IsEvents node
      totals node-IsNode disk disk-IsHealthy codec codec-IsProto fresh disk-IsEmpty 1 1
      (omega arith) (omega arith) (address 9) natives.ont ont_info (omega arith) (omega arith)
      not_null refl (λ j lj. node-solvent j)

build_state-IsConsistent_example : IsConsistent natives 1 (node_states 1)
build_state-IsConsistent_example =
    build_state-IsConsistent names natives ledger fresh.tokens names-IsLibrary ledger-IsEvents
      (node.block 1) (events 1) 1 1 (node_states 1) (events_ok 1) (omega arith)
      (build_state-block_state names natives ledger fresh.tokens names-IsLibrary ledger-IsEvents
        (node.block 1) (events 1) 1 1 (totals 1) (omega arith) (totals_eq 1))

balance_cal-flow_example :
    entry (address 8) natives.ont (balance_cal natives (xfer_of 9 8 30) natives.ont []).1
    ≡ entry (address 8) natives.ont []
      +ℤ flow natives
          (address 8)
          natives.ont
          (balance_cal natives (xfer_of 9 8 30) natives.ont []).0
balance_cal-flow_example =
    balance_cal-flow natives (xfer_of 9 8 30) natives.ont (address 8) natives.ont [] (omega arith)
      (omega arith) (omega arith) (omega arith) (omega arith) (address_ne 8 0 (omega arith))

abbrev answers : Answers
answers = record { latest = 1; block = λ i. some (node.block i); events = node.events }

answers-IsAnswered :
    IsAnswered disk codec names natives ledger fresh.tokens names-IsLibrary ledger-IsEvents node
      totals totals_eq 1 answers
answers-IsAnswered = record {
  latest_eq = refl;
  block_eq = λ i le. refl;
  events_eq = λ i. refl;
  synced_eq = λ i. refl;
}

-- The store that indexing the node's two blocks leaves.
node_store : (s' : Store disk) × (index_chain disk codec node_states fresh 2 ≡ ok s')
node_store =
    let (s', e, _, _, _) =
      index_chain-IsIndexed disk disk-IsHealthy natives node_states
        (states-IsChain names natives ledger fresh.tokens names-IsLibrary ledger-IsEvents node
          totals node-IsNode)
        codec codec-IsProto
        (states-IsHashed names natives ledger fresh.tokens names-IsLibrary ledger-IsEvents node
          totals node-IsNode)
        fresh disk-IsEmpty 1 (omega arith) in
    (s', e)

poll-index_chain_example : poll disk codec names natives ledger answers 3 fresh ≡ ok node_store.0
poll-index_chain_example =
    poll-index_chain disk codec names natives ledger fresh.tokens names-IsLibrary ledger-IsEvents
      node totals totals_eq 1 answers (omega arith) answers-IsAnswered fresh node_store.0
      node_store.1 refl refl
