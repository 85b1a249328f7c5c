-- ===== src/Services/Examples/Node.antt =====
-- The node whose blocks are those of Chain: 100 ONT are minted by an event of the block 0, and an event
-- of the block 1 moves 30 of them.
use ontology_rosetta.Common.{ℕ, zero, suc, none, some, List, [], ◌∷◌, false}
use ontology_rosetta.Common.Int.{pos, negsuc}
use ontology_rosetta.Common.Big.{bytes_of_nat}
use ontology_rosetta.Common.Text.{Text, codes}
use ontology_rosetta.Services.Types.{Transfer, Transaction}
use ontology_rosetta.Services.Indexer.{Xfer}
use ontology_rosetta.Services.Indexer.Decode.{Event, Events, text, number}
use ontology_rosetta.Services.Indexer.Decode.Parties.{IsEvents}
use ontology_rosetta.Services.Indexer.Build.{
  SrcTxn, SrcBlock, EventsAt, events_at, not_found, Totals,
}
use ontology_rosetta.Services.Indexer.Reconcile.{Node}
use ontology_rosetta.Services.Examples.Names.{natives, address}
use ontology_rosetta.Services.Examples.Chain.{hash_at}

abbrev pub ledger : Events
ledger = record {
  Log = Unit {0};
  log_address = λ x. [];
  evm_log = λ e. none;
  unpack_transfer = λ x. none;
  eth_address = λ t. [];
  neo_int = λ b. pos 0;
  gwei = 1_000_000_000;
}

pub ledger-IsEvents : IsEvents ledger
ledger-IsEvents = record { parties = λ x tf e. cc e }

abbrev pub event_of : ℕ → ℕ → Text → Event
event_of from to amount = record {
  contract = natives.ont;
  states =
      some (text (codes "transfer") ∷ text (address from) ∷ text (address to) ∷ number amount ∷ []);
}

abbrev pub xfer_of : ℕ → ℕ → ℕ → Xfer
xfer_of from to amount = record {
  amount = amount;
  from = address from;
  is_gas = false;
  to = address to;
}

abbrev pub txn_at : ℕ → SrcTxn
txn_at k = record { hash = hash_at k; unsigned_hash = hash_at (suc k); payer = address 9 }

abbrev pub notify_at : ℕ → Event → EventsAt
notify_at k e =
    events_at
      ((record { tx_hash = hash_at k; failed = false; gas_consumed = 0; events = e ∷ [] }) ∷ [])

abbrev pub events : ℕ → EventsAt
events zero = notify_at 0 (event_of 0 9 (codes "100"))
events (suc zero) = notify_at 1 (event_of 9 8 (codes "30"))
events (suc (suc k)) = not_found

abbrev pub block : ℕ → SrcBlock
block k = record { hash = hash_at k; timestamp = 1600000000; transactions = txn_at k ∷ [] }

abbrev pub node : Node
node = record { block = block; events = events; latest = λ k. 1 }

abbrev pub moved_by : ℕ → List Transfer → List Transaction
moved_by k ts = (record { failed = false; hash = hash_at k; transfers = ts }) ∷ []

abbrev pub totals : ℕ → Totals
totals zero = record {
  transactions = moved_by 0 (
      (record {
        amount = bytes_of_nat 100_000_000_000;
        contract = 1 ∷ 1 ∷ [];
        from = 1 ∷ 0 ∷ [];
        is_gas = false;
        to = 0 ∷ address 9;
      })
      ∷ []);
  diffs = (address 9, (natives.ont, pos 100_000_000_000) ∷ []) ∷ [];
}
totals (suc zero) = record {
  transactions = moved_by 1 (
      (record {
        amount = bytes_of_nat 30_000_000_000;
        contract = 1 ∷ 1 ∷ [];
        from = 0 ∷ address 9;
        is_gas = false;
        to = 0 ∷ address 8;
      })
      ∷ []);
  diffs =
      (address 9, (natives.ont, negsuc 29_999_999_999) ∷ [])
      ∷ (address 8, (natives.ont, pos 30_000_000_000) ∷ [])
      ∷ [];
}
totals (suc (suc k)) = record { transactions = moved_by (suc (suc k)) []; diffs = [] }
