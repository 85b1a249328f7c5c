-- ===== src/Services/Indexer/Build.antt =====
-- The state that IndexBlocks of services/store.go builds from a block and its events, and the rounds
-- of its two loops.
pub mod Ledger
pub mod Books
pub mod Runs
use ontology_rosetta.Common.{
  ℕ, zero, suc, ◌+◌, ◌-◌, ◌≤◌, Bool, true, false, Option, none, some, List, [], ◌∷◌, ◌++◌, map,
  get_elem?, if◌then◌else◌, ◌==◌, ltb, length,
}
use ontology_rosetta.Common.Bytes.{Bytes, eq_bytes}
use ontology_rosetta.Common.Int.{ℤ}
use ontology_rosetta.Common.Result.{Result, ok, err, ◌>>=◌}
use ontology_rosetta.Lexinum.{encode_height}
use ontology_rosetta.Services.Ontology.{Address, Hash, Library}
use ontology_rosetta.Services.Address.{Natives, addr2slice, account_key_prefix}
use ontology_rosetta.Services.Types.{
  Transfer, Transaction, Block, BalanceChange, BlockState, BlockId, CurrencyInfo,
}
use ontology_rosetta.Services.Badger.{Badger, Proto, DbError}
use ontology_rosetta.Services.Store.{Store, lookup_token, set_block, get_height}
use ontology_rosetta.Services.Indexer.{
  Xfer, Diffs, Accounts, balance_cal, checkgas_verified, GasCheck,
}
use ontology_rosetta.Services.Indexer.Decode.{Event, Events, Halt, panics, exits, decode_event}

-- What IndexBlocks reads of a transaction; `unsigned_hash` is the hash of its mutable copy without
-- signatures.
pub record SrcTxn : Type 0 where
  pub hash : Hash
  pub unsigned_hash : Hash
  pub payer : Address

pub record SrcBlock : Type 0 where
  pub hash : Hash
  pub timestamp : ℕ
  pub transactions : List SrcTxn

-- event.ExecuteNotify
pub record Notify : Type 0 where
  pub tx_hash : Hash
  pub failed : Bool
  pub gas_consumed : ℕ
  pub events : List Event

-- The answer of actor.GetEventNotifyByHeight: `not_found` is store.ErrNotFound.
pub data EventsAt : Type 0 where
  events_at : List Notify → EventsAt
  not_found failure : EventsAt

-- `offsets`: the index of the last transaction with the hash, and 0 for an unknown one.
pub offset_loop : Hash → ℕ → ℕ → List SrcTxn → ℕ
offset_loop hash i acc [] = acc
offset_loop hash i acc (t ∷ ts) =
    offset_loop hash (i + 1) (if eq_bytes t.hash hash then i else acc) ts

unfoldable pub offset_of : List SrcTxn → Hash → ℕ
unfolding offset_loop
offset_of ts hash = offset_loop hash 0 0 ts

-- The fields of a transaction that the loop over the events sets, through its pointer.
pub set_transaction : ℕ → Bool → List Transfer → List Transaction → List Transaction
set_transaction i failed new [] = []
set_transaction zero failed new (t ∷ ts) =
    (record t { failed = failed; transfers = t.transfers ++ new }) ∷ ts
set_transaction (suc i) failed new (t ∷ ts) = t ∷ set_transaction i failed new ts

-- The variables of the loop over the events of a transaction; `transfers` are those it adds.
pub record Progress : Type 0 where
  pub gas_verified : Bool
  pub transfers : List Transfer
  pub diffs : Diffs

-- The transactions of the block, and `diffs`.
pub record Totals : Type 0 where
  pub transactions : List Transaction
  pub diffs : Diffs

-- The changes of an account, and those of all. A map is ranged over in no fixed order; here it is
-- the order in which the entries came.
unfoldable pub account_changes : Natives → Bytes → Address → Accounts → List BalanceChange
account_changes n hval addr [] = []
account_changes n hval addr ((contract, diff) ∷ accts) =
    let prefix = account_key_prefix (addr2slice n addr) (addr2slice n contract) in
    (record { diff = diff; key = prefix ++ hval; prefix = prefix })
    ∷ account_changes n hval addr accts

unfoldable pub changes_of : Natives → Bytes → Diffs → List BalanceChange
changes_of n hval [] = []
changes_of n hval ((addr, accts) ∷ diffs) =
    account_changes n hval addr accts ++ changes_of n hval diffs

module _ (l : Library) (n : Natives) (ev : Events) (tokens : List (Address × CurrencyInfo)) where
  pub record_xfer : Address → Address → Bool → Progress → Xfer → Progress
  record_xfer contract payer failed p x =
      let g = checkgas_verified n contract payer x.from failed p.gas_verified x.is_gas in
      let b = balance_cal n (record x { is_gas = g.is_gas }) contract p.diffs in
      if g.skip
      then p
      else record { gas_verified = g.verified; transfers = p.transfers ++ (b.0 ∷ []); diffs = b.1 }

  -- One event of a transaction.
  pub index_event : Address → Bool → ℕ → Progress → Event → Result Halt Progress
  unfolding record_xfer
  index_event payer failed gas p e = elim (lookup_token e.contract tokens) [
    | none ↦ ok p
    | some info ↦ decode_event l n ev gas e >>= λ o. elim o [
      | none ↦ ok p
      | some x ↦ ok (record_xfer e.contract payer failed p x)
    ]
  ]

  pub index_events : Address → Bool → ℕ → Progress → List Event → Result Halt Progress
  unfolding index_event
  index_events payer failed gas p [] = ok p
  index_events payer failed gas p (e ∷ es) =
      index_event payer failed gas p e >>= λ p'. index_events payer failed gas p' es

  -- The events of a transaction; the panic is that of `src.Transactions[offset]`.
  pub index_notify : List SrcTxn → Totals → Notify → Result Halt Totals
  unfolding index_events set_transaction
  index_notify src t info = elim (get_elem? src (offset_of src info.tx_hash)) [
    | none ↦ err panics
    | some ori ↦ do
      p ←
          index_events ori.payer info.failed info.gas_consumed
            (record { gas_verified = false; transfers = []; diffs = t.diffs }) info.events
      ok (record {
        transactions =
            set_transaction (offset_of src info.tx_hash) info.failed p.transfers t.transactions;
        diffs = p.diffs;
      })
  ]

  pub index_notifies : List SrcTxn → Totals → List Notify → Result Halt Totals
  unfolding index_notify
  index_notifies src t [] = ok t
  index_notifies src t (i ∷ is) = index_notify src t i >>= λ t'. index_notifies src t' is

  pub new_transaction : SrcTxn → Transaction
  new_transaction t = record { failed = false; hash = t.hash; transfers = [] }

  pub totals_of : SrcBlock → EventsAt → Result Halt Totals
  unfolding index_notifies new_transaction
  totals_of src failure = err exits
  totals_of src not_found =
      ok (record { transactions = map new_transaction src.transactions; diffs = [] })
  totals_of src (events_at infos) =
      index_notifies src.transactions
        (record { transactions = map new_transaction src.transactions; diffs = [] }) infos

  unfoldable pub block_state : SrcBlock → ℕ → ℕ → Bytes → Totals → BlockState
  block_state src height latest henc t = record {
    block = record { timestamp = src.timestamp; transactions = t.transactions };
    changes = changes_of n henc t.diffs;
    hashes = map (λ x. x.unsigned_hash) src.transactions;
    id = record { by_height = false; hash = src.hash; height = height };
    synced = latest;
  }

  -- The body of the inner loop up to setBlock. EncodeHeight comes first; `none` is that it does not
  -- end.
  pub build_state : SrcBlock → EventsAt → ℕ → ℕ → Option (Result Halt BlockState)
  unfolding totals_of block_state
  build_state src evts height latest = elim (encode_height height) [
    | none ↦ none
    | some henc ↦ some (totals_of src evts >>= λ t. ok (block_state src height latest henc t))
  ]
