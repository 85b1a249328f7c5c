-- ===== src/Services/Store/Update.antt =====
-- What setBlock writes to the database beside the amounts, and what it leaves.
use ontology_rosetta.Common.{
  ℕ, ◌≡◌, ◌≢◌, refl, sym, ap, ◌∙◌, inl, inr, false, some, List, [], ◌∷◌, ◌++◌, arith, subst,
  Bool-cases, All,
}
use ontology_rosetta.Common.Bytes.{Bytes, eq_bytes, eq_bytes→eq, eq_bytes_iff, eq_bytes_ne}
use ontology_rosetta.Common.Result.{ok, ◌>>=◌}
use ontology_rosetta.Lexinum.{IsU32}
use ontology_rosetta.Lexinum.Encode.{form}
use ontology_rosetta.Services.Address.{Natives, account_key_prefix}
use ontology_rosetta.Services.Keys.{
  put_uint32, block_key, block_hash2height_key, block_height2hash_key, txn_hash_key, height_key,
}
use ontology_rosetta.Services.Types.{BlockState}
use ontology_rosetta.Services.Badger.{Badger, IsHealthy}
use ontology_rosetta.Services.Store.{update_block, set_txn_hashes}
use ontology_rosetta.Services.Store.Latest.{held_at}
use ontology_rosetta.Services.Store.Changes.{
  IsAccount, IsChange, IsDistinct, IsKeyedAll, after, Applied, apply_changes-Applied,
}

pub head_ne : (x y : ℕ) (s t : Bytes) → x ≢ y → ◌≢◌ {A = Bytes} (x ∷ s) (y ∷ t)
head_ne x y s t ne e = ne (cc e)

pub account_ne :
    {n : Natives} (p s k : Bytes) (x : ℕ)
    → IsAccount n p
    → x ≢ b'a'
    → ◌≢◌ {A = Bytes} (x ∷ k) (p ++ s)
unfolding account_key_prefix
account_ne p s k x ia ne e = let q = e ∙ ap (λ (y : Bytes). y ++ s) ia.prefix_eq in ne (cc q)

-- The keys of accounts begin with `a`, and no other key does.
pub account_other :
    {n : Natives} (p s k : Bytes) (x : ℕ)
    → IsAccount n p
    → x ≢ b'a'
    → eq_bytes (x ∷ k) (p ++ s) ≡ false
account_other p s k x ia ne = eq_bytes_ne (x ∷ k) (p ++ s) (account_ne p s k x ia ne)

pub txn_ne :
    (x : ℕ) (k : Bytes) (hs : List Bytes) → b'e' ≢ x → All (λ h. txn_hash_key h ≢ (x ∷ k)) hs
txn_ne x k [] ne = tt
txn_ne x k (h ∷ hs) ne = ((λ e. ne (unfold txn_hash_key in cc e)), txn_ne x k hs ne)

mark_ne_txn : (h : Bytes) → height_key ≢ txn_hash_key h
unfolding txn_hash_key height_key
mark_ne_txn h = head_ne _ _ _ _ (omega arith)

txn_ne_account :
    {n : Natives} (p s : Bytes) (hs : List Bytes)
    → IsAccount n p
    → All (λ h. txn_hash_key h ≢ p ++ s) hs
txn_ne_account p s [] ia = tt
txn_ne_account p s (h ∷ hs) ia =
    (unfold txn_hash_key in account_ne p s _ b'e' ia (omega arith), txn_ne_account p s hs ia)

-- The keys of the block's own entries are none of `j`.
pub record IsElsewhere (state : BlockState) (j : Bytes) : Type 0 where
  pub no_change : All (λ c. c.key ≢ j) state.changes
  pub no_block : block_key state.id.height ≢ j
  pub no_hash : block_hash2height_key state.id.hash ≢ j
  pub no_height : block_height2hash_key state.id.height ≢ j
  pub no_txn : All (λ x. txn_hash_key x ≢ j) state.hashes
  pub no_mark : height_key ≢ j

module _ (b : Badger) (healthy : IsHealthy b) where
  open b use {Db, set, commit}
  open healthy use {view, set_view, commit_ok}

  pub record Wrote (d : Db) (k v : Bytes) (d' : Db) : Type 0 where
    pub set_eq : set d k v ≡ ok d'
    pub at_key : view d' k ≡ some v
    pub frame : (j : Bytes) → k ≢ j → view d' j ≡ view d j

  pub set-Wrote : (d : Db) (k v : Bytes) → (d' : Db) × Wrote d k v d'
  set-Wrote d k v =
      let (d', e, f) = set_view d k v in
      (
        d',
        record {
          set_eq = e;
          at_key = f k ∙ rw ((eq_bytes_iff k k).1 refl);
          frame = λ j ne. f j ∙ rw (eq_bytes_ne k j ne);
        },
      )

  pub record WroteHashes (d : Db) (hs : List Bytes) (d' : Db) : Type 0 where
    pub set_eq : set_txn_hashes b d hs ≡ ok d'
    pub at_keys : All (λ x. view d' (txn_hash_key x) ≡ some []) hs
    pub stays : (j : Bytes) → view d j ≡ some [] → view d' j ≡ some []
    pub frame : (j : Bytes) → All (λ x. txn_hash_key x ≢ j) hs → view d' j ≡ view d j

  Wrote-stays :
      (d d' : Db) (k j : Bytes) → Wrote d k [] d' → view d j ≡ some [] → view d' j ≡ some []
  Wrote-stays d d' k j w e = elim (Bool-cases (eq_bytes k j)) [
    | inl t ↦ subst (λ (x : Bytes). view d' x ≡ some []) (eq_bytes→eq k j t) w.at_key
    | inr f ↦ w.frame j (λ q. cc (f, (eq_bytes_iff k j).1 q)) ∙ e
  ]

  pub set_txn_hashes-WroteHashes : (d : Db) (hs : List Bytes) → (d' : Db) × WroteHashes d hs d'
  unfolding set_txn_hashes
  set_txn_hashes-WroteHashes d [] =
      (d, record { set_eq = refl; at_keys = tt; stays = λ j e. e; frame = λ j a. refl })
  set_txn_hashes-WroteHashes d (x ∷ hs) =
      let (d1, w) = set-Wrote d (txn_hash_key x) [] in
      let (d', ws) = set_txn_hashes-WroteHashes d1 hs in
      (
        d',
        record {
          set_eq = rw (w.set_eq, ◌>>=◌) ws.set_eq;
          at_keys = (ws.stays (txn_hash_key x) w.at_key, ws.at_keys);
          stays = λ j e. ws.stays j (Wrote-stays d d1 (txn_hash_key x) j w e);
          frame = λ j a. ws.frame j a.1 ∙ w.frame j a.0;
        },
      )

  txns_kept :
      (d d' : Db) (hs : List Bytes)
      → ((j : Bytes) → height_key ≢ j → view d' j ≡ view d j)
      → All (λ x. view d (txn_hash_key x) ≡ some []) hs
      → All (λ x. view d' (txn_hash_key x) ≡ some []) hs
  txns_kept d d' [] frame a = tt
  txns_kept d d' (x ∷ hs) frame (e, a) =
      (frame (txn_hash_key x) (mark_ne_txn x) ∙ e, txns_kept d d' hs frame a)

  module _ (n : Natives) (state : BlockState) (u : IsU32 state.id.height) where
    -- The database after a block: the amounts, the four kinds of entries about the block, and
    -- everything else as it was.
    pub record Updated (d : Db) (encoded : Bytes) (d' : Db) : Type 0 where
      pub keyed : IsKeyedAll b healthy n state.id.height u d'
      pub amounts :
          (p : Bytes) (j : ℕ)
          → IsAccount n p
          → IsU32 j
          → held_at b healthy d' p j ≡ after b healthy n state.id.height u d state.changes p j
      pub block_at : view d' (block_key state.id.height) ≡ some encoded
      pub height_at :
          view d' (block_hash2height_key state.id.hash) ≡ some (put_uint32 state.id.height)
      pub hash_at : view d' (block_height2hash_key state.id.height) ≡ some state.id.hash
      pub txns_at : All (λ x. view d' (txn_hash_key x) ≡ some []) state.hashes
      pub mark_at : view d' height_key ≡ some (put_uint32 state.id.height)
      pub frame : (j : Bytes) → IsElsewhere state j → view d' j ≡ view d j

    module _ (d d1 d2 d3 d4 d5 d6 : Db) (encoded : Bytes)
        (a : Applied b healthy n state.id.height u d state.changes d1)
        (w2 : Wrote d1 (block_key state.id.height) encoded d2)
        (w3 : Wrote d2 (block_hash2height_key state.id.hash) (put_uint32 state.id.height) d3)
        (w4 : Wrote d3 (block_height2hash_key state.id.height) state.id.hash d4)
        (w5 : WroteHashes d4 state.hashes d5)
        (w6 : Wrote d5 height_key (put_uint32 state.id.height) d6) where
      behind_changes :
          (j : Bytes)
          → block_key state.id.height ≢ j
          → block_hash2height_key state.id.hash ≢ j
          → block_height2hash_key state.id.height ≢ j
          → All (λ x. txn_hash_key x ≢ j) state.hashes
          → height_key ≢ j
          → view d6 j ≡ view d1 j
      behind_changes j nb nc nd ne nm =
          w6.frame j nm ∙ w5.frame j ne ∙ w4.frame j nd ∙ w3.frame j nc ∙ w2.frame j nb

      at_account : (p s : Bytes) → IsAccount n p → view d6 (p ++ s) ≡ view d1 (p ++ s)
      unfolding block_key block_hash2height_key block_height2hash_key height_key
      at_account p s ia =
          behind_changes (p ++ s) (account_ne p s _ b'b' ia (omega arith))
            (account_ne p s _ b'c' ia (omega arith)) (account_ne p s _ b'd' ia (omega arith))
            (txn_ne_account p s state.hashes ia) (account_ne p s _ b'h' ia (omega arith))

      all_Updated : Updated d encoded d6
      unfolding block_key block_hash2height_key block_height2hash_key height_key txn_hash_key
      all_Updated = record {
        keyed = λ p ia rest v e. a.keyed p ia rest v (sym (at_account p rest ia) ∙ e);
        amounts = λ p j ia uj. at_account p (form j) ia ∙ a.amounts p j ia uj;
        block_at =
            w6.frame _ (head_ne _ _ _ _ (omega arith))
            ∙ w5.frame _ (txn_ne b'b' _ state.hashes (omega arith))
            ∙ w4.frame _ (head_ne _ _ _ _ (omega arith))
            ∙ w3.frame _ (head_ne _ _ _ _ (omega arith))
            ∙ w2.at_key;
        height_at =
            w6.frame _ (head_ne _ _ _ _ (omega arith))
            ∙ w5.frame _ (txn_ne b'c' _ state.hashes (omega arith))
            ∙ w4.frame _ (head_ne _ _ _ _ (omega arith))
            ∙ w3.at_key;
        hash_at =
            w6.frame _ (head_ne _ _ _ _ (omega arith))
            ∙ w5.frame _ (txn_ne b'd' _ state.hashes (omega arith))
            ∙ w4.at_key;
        txns_at = txns_kept d5 d6 state.hashes w6.frame w5.at_keys;
        mark_at = w6.at_key;
        frame = λ j z.
            behind_changes j z.no_block z.no_hash z.no_height z.no_txn z.no_mark
            ∙ a.others j z.no_change;
      }

    -- The update for a block, whose changes are for different accounts at its height, succeeds: it
    -- writes the new balances, the block under its height, the height under its hash and its hash
    -- under the height, every transaction's hash and the indexed height, and leaves each other
    -- entry as it was.
    pub update_block-Updated :
        (d : Db) (encoded : Bytes)
        → IsKeyedAll b healthy n state.id.height u d
        → All (IsChange n state.id.height) state.changes
        → IsDistinct state.changes
        → (d' : Db) × (update_block b state encoded d ≡ ok d') × Updated d encoded d'
    unfolding update_block
    update_block-Updated d encoded keyed ics ds =
        let (d1, e1, a) =
          apply_changes-Applied b healthy n state.id.height u d state.changes keyed ics ds in
        let (d2, w2) = set-Wrote d1 (block_key state.id.height) encoded in
        let (d3, w3) =
          set-Wrote d2 (block_hash2height_key state.id.hash) (put_uint32 state.id.height) in
        let (d4, w4) = set-Wrote d3 (block_height2hash_key state.id.height) state.id.hash in
        let (d5, w5) = set_txn_hashes-WroteHashes d4 state.hashes in
        let (d6, w6) = set-Wrote d5 height_key (put_uint32 state.id.height) in
        (
          d6,
          rw (e1, w2.set_eq, w3.set_eq, w4.set_eq, w5.set_eq, w6.set_eq, commit_ok d6, ◌>>=◌),
          all_Updated d d1 d2 d3 d4 d5 d6 encoded a w2 w3 w4 w5 w6,
        )
