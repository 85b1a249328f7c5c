-- ===== src/Services/Indexer/Build/Runs.antt =====
-- The totals of the blocks of Services/Examples/Node.
use ontology_rosetta.Common.{ℕ, zero, suc, ◌≡◌, refl}
use ontology_rosetta.Common.Result.{ok}
use ontology_rosetta.Common.Bytes.{eq_bytes}
use ontology_rosetta.Common.Int.{◌+ℤ◌, ◌-ℤ◌, neg_ℤ}
use ontology_rosetta.Services.Address.{addr2slice}
use ontology_rosetta.Services.Store.{lookup_token}
use ontology_rosetta.Services.Indexer.{
  find_in, put_in, adjust_contract, adjust, debit, credit, balance_cal, checkgas_verified,
}
use ontology_rosetta.Services.Indexer.Build.{
  offset_loop, offset_of, set_transaction, record_xfer, index_event, index_events, index_notify,
  index_notifies, new_transaction, totals_of,
}
use ontology_rosetta.Services.Indexer.Decode.Runs.{decode_mint, decode_move}
use ontology_rosetta.Services.Examples.Names.{names, natives}
use ontology_rosetta.Services.Examples.Chain.{fresh}
use ontology_rosetta.Services.Examples.Node.{ledger, node, totals}

pub totals_eq :
    (k : ℕ)
    → totals_of names natives ledger fresh.tokens (node.block k) (node.events k) ≡ ok (totals k)
unfolding totals_of index_notifies index_notify index_events index_event record_xfer new_transaction
    set_transaction offset_of offset_loop lookup_token eq_bytes addr2slice find_in put_in
    adjust_contract adjust debit credit balance_cal checkgas_verified ◌+ℤ◌ ◌-ℤ◌ neg_ℤ
totals_eq zero = rw decode_mint refl
totals_eq (suc zero) = rw decode_move refl
totals_eq (suc (suc k)) = refl
