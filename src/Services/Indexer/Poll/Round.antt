-- ===== src/Services/Indexer/Poll/Round.antt =====
-- A round on a fresh store indexes the node's chain.
use ontology_rosetta.Common.{
  ℕ, zero, suc, ◌+◌, ◌%◌, ◌^◌, ◌≤◌, ◌≡◌, refl, ap, ◌∙◌, true, false, none, some, List, arith, leb,
  ltb, if◌then◌else◌, subst,
}
use ontology_rosetta.Common.Result.{ok}
use ontology_rosetta.Lexinum.{IsU32}
use ontology_rosetta.Services.Ontology.{Address, Library, IsLibrary}
use ontology_rosetta.Services.Address.{Natives}
use ontology_rosetta.Services.Types.{CurrencyInfo, BlockState}
use ontology_rosetta.Services.Badger.{Badger, Proto}
use ontology_rosetta.Services.Store.Kept.{set_block-tokens, index_chain-suc, index_chain-prefix}
use ontology_rosetta.Services.Store.{Store, set_block, get_height, index_chain}
use ontology_rosetta.Services.Indexer.Decode.{Events}
use ontology_rosetta.Services.Indexer.Decode.Parties.{IsEvents}
use ontology_rosetta.Services.Indexer.Build.{SrcBlock, Totals, totals_of, build_state}
use ontology_rosetta.Services.Indexer.Build.Books.{build_state-block_state}
use ontology_rosetta.Services.Indexer.Reconcile.{Node, states}
use ontology_rosetta.Services.Indexer.Poll.{
  Answers, poll_loop, poll, next_height, store_block, built,
}

start_lem : (b : Badger) (s : Store b) → s.height_indexed ≡ none → next_height (get_height b s) ≡ 0
unfolding get_height
start_lem b s h =
    let z : get_height b s ≡ 0 = rw (h, get_height) refl in
    ap (λ (x : ℕ). if ltb 0 x then (x + 1) % 2 ^ 32 else x) z

poll_step :
    (b : Badger) (p : Proto) (l : Library) (n : Natives) (ev : Events) (q : Answers) (f height : ℕ)
    (t t' : Store b) (src : SrcBlock) (state : BlockState)
    → leb height q.latest ≡ true
    → q.block height ≡ some src
    → build_state l n ev t.tokens src (q.events height) height q.latest ≡ some (ok state)
    → set_block b p state t ≡ ok t'
    → poll_loop b p l n ev q (suc f) height t ≡ poll_loop b p l n ev q f ((height + 1) % 2 ^ 32) t'
unfolding poll_loop
poll_step b p l n ev q f height t t' src state low bl bs sb =
    rw low (rw (bl, poll_loop) (rw (bs, built) (rw (sb, store_block) refl)))

module _ (b : Badger) (p : Proto) (l : Library) (n : Natives) (ev : Events)
    (tokens : List (Address × CurrencyInfo)) (lib : IsLibrary l) (good : IsEvents ev) (node : Node)
    (totals : ℕ → Totals)
    (totals_ok : (i : ℕ)
      → totals_of l n ev tokens (node.block i) (node.events i) ≡ ok (totals i)) where
  -- The node answers with its chain up to the height `k`, which it has during the round.
  pub record IsAnswered (k : ℕ) (q : Answers) : Type 0 where
    pub latest_eq : q.latest ≡ k
    pub block_eq : (i : ℕ) → i ≤ k → q.block i ≡ some (node.block i)
    pub events_eq : (i : ℕ) → q.events i ≡ node.events i
    pub synced_eq : (i : ℕ) → node.latest i ≡ k

  module _ (k : ℕ) (q : Answers) (u : IsU32 (suc k)) (a : IsAnswered k q) (s s' : Store b)
      (all : index_chain b p (states l n ev tokens node totals) s (suc k) ≡ ok s') where
    build_lem :
        (i : ℕ) (t : Store b)
        → i ≤ k
        → t.tokens ≡ tokens
        → build_state l n ev t.tokens (node.block i) (q.events i) i q.latest
          ≡ some (ok (states l n ev tokens node totals i))
    build_lem i t le e =
        rw (e, a.events_eq i, a.latest_eq, ← a.synced_eq i)
          (build_state-block_state l n ev tokens lib good (node.block i) (node.events i) i
            (node.latest i) (totals i) (omega arith) (totals_ok i))

    round_lem :
        (r i : ℕ) (t : Store b)
        → i + r ≡ suc k
        → t.tokens ≡ tokens
        → index_chain b p (states l n ev tokens node totals) s i ≡ ok t
        → poll_loop b p l n ev q (suc r) i t ≡ ok s'
    unfolding poll_loop
    round_lem zero i t h e f =
        let z : i ≡ suc k = omega arith in
        let low : leb (suc k) k ≡ false = ground arith in
        let same : t ≡ s' = cc (f, z, all) in rw (z, a.latest_eq) (rw low (ap ok same))
    round_lem (suc r) i t h e f =
        let le : i ≤ k = omega arith in
        let low : leb i k ≡ true = ground arith in
        let (t', f') =
          index_chain-prefix b p (states l n ev tokens node totals) s s' (suc k) (suc i)
            (omega arith) all in
        let (t1, f1, g) = index_chain-suc b p (states l n ev tokens node totals) s t' i f' in
        let same : t1 ≡ t = cc (f, f1) in
        let g' : set_block b p (states l n ev tokens node totals i) t ≡ ok t' =
          subst (λ (x : Store b). set_block b p (states l n ev tokens node totals i) x ≡ ok t') same
            g in
        let next : (i + 1) % 2 ^ 32 ≡ suc i = omega arith in
        poll_step b p l n ev q (suc r) i t t' (node.block i) (states l n ev tokens node totals i)
          (rw a.latest_eq low) (a.block_eq i le) (build_lem i t le e) g'
        ∙ ap (λ (x : ℕ). poll_loop b p l n ev q (suc r) x t') next
        ∙ round_lem r (suc i) t' (omega arith)
            (set_block-tokens b p (states l n ev tokens node totals i) t t' g' ∙ e) f'

    -- One round of IndexBlocks on a store without a height does what indexing the node's chain block
    -- by block does: when the node answers with its chain up to the height `k`, below 2^32 - 1, that
    -- it has during the round, the round ends within `k + 2` tests of the loop, with the same store.
    pub poll-index_chain :
        s.height_indexed ≡ none → s.tokens ≡ tokens → poll b p l n ev q (suc (suc k)) s ≡ ok s'
    unfolding poll index_chain
    poll-index_chain h e =
        ap (λ (x : ℕ). poll_loop b p l n ev q (suc (suc k)) x s) (start_lem b s h)
        ∙ round_lem (suc k) 0 s (omega arith) e refl
