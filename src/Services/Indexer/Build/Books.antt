-- ===== src/Services/Indexer/Build/Books.antt =====
-- The block states that IndexBlocks builds: their changes are in order, and agree with the transfers
-- of their blocks.
use ontology_rosetta.Common.{
  ℕ, ◌<◌, ◌≡◌, ◌≢◌, refl, sym, ap, ◌∙◌, inl, inr, Bool, false, some, List, [], ◌∷◌, map, arith,
  Option-cases, All, length, get_elem?, subst,
}
use ontology_rosetta.Common.Int.{ℤ, pos, ◌+ℤ◌}
use ontology_rosetta.Common.Result.{ok, err, ◌>>=◌, Result-cases}
use ontology_rosetta.Lexinum.{IsU32}
use ontology_rosetta.Lexinum.Encode.{form, encode_height-eq-form}
use ontology_rosetta.Services.Ontology.{Address, IsAddress, Library, IsLibrary}
use ontology_rosetta.Services.Address.{Natives}
use ontology_rosetta.Services.Types.{CurrencyInfo, BlockState}
use ontology_rosetta.Services.Store.Changes.{IsChange, IsDistinct}
use ontology_rosetta.Services.Store.History.{net, +ℤ-zero}
use ontology_rosetta.Services.Account.Historic.{prefix_of}
use ontology_rosetta.Services.Indexer.{Diffs, find_in}
use ontology_rosetta.Services.Indexer.Diffs.{IsTable, entry}
use ontology_rosetta.Services.Indexer.Changes.{
  net-changes_of, changes_of-IsChange, changes_of-IsDistinct,
}
use ontology_rosetta.Services.Indexer.Decode.{Events}
use ontology_rosetta.Services.Indexer.Decode.Parties.{IsEvents}
use ontology_rosetta.Services.Indexer.Build.{
  SrcTxn, SrcBlock, Notify, EventsAt, events_at, not_found, failure, Progress, Totals, offset_of,
  set_transaction, index_events, index_notify, index_notifies, new_transaction, totals_of,
  block_state, build_state,
}
use ontology_rosetta.Services.Indexer.Build.Ledger.{
  flows, block_flow, block_flow-set_transaction, block_flow-new_transaction, length-set_transaction,
  length-map, get_elem?-lt, IsNotify, IsBalanced, Kept, index_events-Kept,
}

-- The changes of a block state are in order and agree with the transfers of its block.
pub record IsConsistent (n : Natives) (h : ℕ) (state : BlockState) : Type 0 where
  pub changes : All (IsChange n h) state.changes
  pub distinct : IsDistinct state.changes
  pub flow :
      (a c : Address)
      → IsAddress a
      → IsAddress c
      → a ≢ n.null
      → net state.changes (prefix_of n a c) ≡ block_flow n a c state.block.transactions

-- The events that the node has for a block.
abbrev pub IsEventsAt : EventsAt → Type 0
IsEventsAt (events_at is) = All IsNotify is
IsEventsAt not_found = Unit
IsEventsAt failure = Unit

module _ (l : Library) (n : Natives) (ev : Events) (tokens : List (Address × CurrencyInfo))
    (lib : IsLibrary l) (good : IsEvents ev) where
  start : Diffs → Progress
  start d = record { gas_verified = false; transfers = []; diffs = d }

  start-Kept : (d : Diffs) → IsTable d → Kept n d (start d)
  unfolding start
  start-Kept d it = record { table = it; moved = λ a c la lc ne. sym (+ℤ-zero (entry a c d)) }

  set-IsBalanced :
      (src : List SrcTxn) (t : Totals) (k : ℕ) (f : Bool) (p : Progress)
      → k < length src
      → IsBalanced n src t
      → Kept n t.diffs p
      → IsBalanced n src (record {
        transactions = set_transaction k f p.transfers t.transactions;
        diffs = p.diffs;
      })
  set-IsBalanced src t k f p lt b kept = record {
    table = kept.table;
    len = length-set_transaction k f p.transfers t.transactions ∙ b.len;
    balanced = λ a c la lc ne.
        kept.moved a c la lc ne
        ∙ ap (λ (z : ℤ). z +ℤ flows n a c p.transfers) (b.balanced a c la lc ne)
        ∙ sym (
            block_flow-set_transaction n a c k f p.transfers t.transactions (omega (arith, b.len)));
  }

  index_notify-IsBalanced :
      (src : List SrcTxn) (t t' : Totals) (i : Notify)
      → IsNotify i
      → index_notify l n ev tokens src t i ≡ ok t'
      → IsBalanced n src t
      → IsBalanced n src t'
  unfolding index_notify start
  index_notify-IsBalanced src t t' i a q b =
      elim (Option-cases (get_elem? src (offset_of src i.tx_hash))) [
        | inl f ↦ cc (rw (f, index_notify) at q)
        | inr (ori, f) ↦
            elim (Result-cases (
              index_events l n ev tokens ori.payer i.failed i.gas_consumed (start t.diffs)
                i.events)) [
                  | inr (h, r) ↦
                      let s : index_notify l n ev tokens src t i ≡ err h =
                        rw (f, index_notify) (rw (r, ◌>>=◌) refl) in
                      cc (s, q)
                  | inl (p, r) ↦
                      let k = offset_of src i.tx_hash in
                      let t1 : Totals = record {
                        transactions = set_transaction k i.failed p.transfers t.transactions;
                        diffs = p.diffs;
                      } in
                      let s : index_notify l n ev tokens src t i ≡ ok t1 =
                        rw (f, index_notify) (rw (r, ◌>>=◌) refl) in
                      let e : t1 ≡ t' = cc (s, q) in
                      subst (IsBalanced n src) e (
                        set-IsBalanced src t k i.failed p (get_elem?-lt src k ori f) b (
                          index_events-Kept l n ev tokens lib good t.diffs ori.payer i.failed
                            i.gas_consumed i.events (start t.diffs) p a r
                            (start-Kept t.diffs b.table)))
                ]
      ]

  index_notifies-IsBalanced :
      (src : List SrcTxn) (t t' : Totals) (is : List Notify)
      → All IsNotify is
      → index_notifies l n ev tokens src t is ≡ ok t'
      → IsBalanced n src t
      → IsBalanced n src t'
  unfolding index_notifies
  index_notifies-IsBalanced src t t' [] a q b =
      let e : t ≡ t' = cc q in subst (IsBalanced n src) e b
  index_notifies-IsBalanced src t t' (i ∷ is) (ni, a) q b =
      elim (Result-cases (index_notify l n ev tokens src t i)) [
        | inr (h, f) ↦ cc (rw (f, ◌>>=◌) at q)
        | inl (t1, f) ↦
            index_notifies-IsBalanced src t1 t' is a (rw (f, ◌>>=◌) at q)
              (index_notify-IsBalanced src t t1 i ni f b)
      ]

  fresh_totals : SrcBlock → Totals
  fresh_totals src = record {
    transactions = map (new_transaction l n ev tokens) src.transactions;
    diffs = [];
  }

  fresh-IsBalanced : (src : SrcBlock) → IsBalanced n src.transactions (fresh_totals src)
  unfolding fresh_totals
  fresh-IsBalanced src = record {
    table = (tt, tt);
    len = length-map (new_transaction l n ev tokens) src.transactions;
    balanced = λ a c la lc ne.
        nothing a c ∙ sym (block_flow-new_transaction n a c l ev tokens src.transactions);
  }
    where
      nothing : (a c : Address) → entry a c [] ≡ pos 0
      nothing a c = unfold find_in in refl

  pub totals_of-IsBalanced :
      (src : SrcBlock) (evts : EventsAt) (t : Totals)
      → IsEventsAt evts
      → totals_of l n ev tokens src evts ≡ ok t
      → IsBalanced n src.transactions t
  unfolding totals_of fresh_totals
  totals_of-IsBalanced src failure t a q = absurd (cc q)
  totals_of-IsBalanced src not_found t a q =
      let e : fresh_totals src ≡ t = cc q in
      subst (IsBalanced n src.transactions) e (fresh-IsBalanced src)
  totals_of-IsBalanced src (events_at is) t a q =
      index_notifies-IsBalanced src.transactions (fresh_totals src) t is a q (fresh-IsBalanced src)

  pub block_state-IsConsistent :
      (src : SrcBlock) (evts : EventsAt) (height latest : ℕ) (t : Totals)
      → IsEventsAt evts
      → totals_of l n ev tokens src evts ≡ ok t
      → IsConsistent n height (block_state l n ev tokens src height latest (form height) t)
  unfolding block_state
  block_state-IsConsistent src evts height latest t ie q =
      let b = totals_of-IsBalanced src evts t ie q in
      record {
        changes = changes_of-IsChange n height t.diffs b.table;
        distinct = changes_of-IsDistinct n (form height) t.diffs b.table;
        flow = λ a c la lc ne.
            net-changes_of n (form height) a c la lc t.diffs b.table ∙ b.balanced a c la lc ne;
      }

  pub build_state-block_state :
      (src : SrcBlock) (evts : EventsAt) (height latest : ℕ) (t : Totals)
      → IsU32 height
      → totals_of l n ev tokens src evts ≡ ok t
      → build_state l n ev tokens src evts height latest
        ≡ some (ok (block_state l n ev tokens src height latest (form height) t))
  unfolding build_state
  build_state-block_state src evts height latest t u f =
      rw (encode_height-eq-form height u, build_state) (rw (f, ◌>>=◌) refl)

  -- For any block and events for which IndexBlocks comes to setBlock, at a height below 2^32, the
  -- changes that it hands on are for different accounts and under keys of that height, and for each
  -- account but the null address the change in a contract is what the transfers that are recorded
  -- in the block move into the account, less what they move out.
  pub build_state-IsConsistent :
      (src : SrcBlock) (evts : EventsAt) (height latest : ℕ) (state : BlockState)
      → IsEventsAt evts
      → IsU32 height
      → build_state l n ev tokens src evts height latest ≡ some (ok state)
      → IsConsistent n height state
  unfolding build_state
  build_state-IsConsistent src evts height latest state ie u q =
      elim (Result-cases (totals_of l n ev tokens src evts)) [
        | inr (h, f) ↦
            let s : build_state l n ev tokens src evts height latest ≡ some (err h) =
              rw (encode_height-eq-form height u, build_state) (rw (f, ◌>>=◌) refl) in
            cc (s, q)
        | inl (t, f) ↦
            let s = build_state-block_state src evts height latest t u f in
            let e : block_state l n ev tokens src height latest (form height) t ≡ state =
              cc (s, q) in
            subst (IsConsistent n height) e (block_state-IsConsistent src evts height latest t ie f)
      ]
