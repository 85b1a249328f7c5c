-- ===== src/Services/Store/History.antt =====
-- Indexing a chain of blocks in order: the store as a ledger.
use ontology_rosetta.Common.{
  ℕ, zero, suc, ◌+◌, ◌^◌, ◌≤◌, ◌<◌, ◌≡◌, refl, sym, ap, ◌∙◌, Option, none, some, List, ◌++◌, arith,
  subst, All,
}
use ontology_rosetta.Common.Bytes.{Bytes}
use ontology_rosetta.Common.Big.{set_bytes-bytes_of}
use ontology_rosetta.Common.Int.{ℤ, pos, negsuc, ◌+ℤ◌, ◌≤ℤ◌, pos_part, neg_part, int_laws}
use ontology_rosetta.Common.Result.{ok, ◌>>=◌}
use ontology_rosetta.Lexinum.{IsU32}
use ontology_rosetta.Lexinum.Encode.{form}
use ontology_rosetta.Services.Address.{Natives}
use ontology_rosetta.Services.Keys.{height_key, put_uint32}
use ontology_rosetta.Services.Types.{BalanceChange, BlockState}
use ontology_rosetta.Services.Badger.{Badger, IsHealthy, Proto, IsProto}
use ontology_rosetta.Services.Store.{Store, set_block, index_chain}
use ontology_rosetta.Services.Store.Listed.{IsListed, chain_keys, IsListed-empty, IsListed-step}
use ontology_rosetta.Services.Store.Latest.{
  before, before_congr, before_skip, before_found, held_at, IsKeyed,
}
use ontology_rosetta.Services.Store.Blocks.{HasBlock, IsHashed, HasBlock_step, HasBlock_own}
use native.Mathlib.Decide.{dec_lt}
use ontology_rosetta.Services.Store.{set_height}
use ontology_rosetta.Services.Store.Update.{Updated, update_block-Updated}
use ontology_rosetta.Services.Store.Changes.{IsAccount, IsChange, IsDistinct, find_change, changed}

-- The change of an account in a block.
abbrev pub net_of : Option BalanceChange → ℤ
net_of none = pos 0
net_of (some c) = c.diff

abbrev pub net : List BalanceChange → Bytes → ℤ
net cs p = net_of (find_change p cs)

-- The balance of an account before the block at height `n`.
unfoldable pub total : (ℕ → BlockState) → Bytes → ℕ → ℤ
total chain p zero = pos 0
total chain p (suc n) = total chain p n +ℤ net (chain n).changes p

-- A number without its sign, as setBlock stores it.
abbrev pub magnitude : ℤ → ℕ
magnitude z = pos_part z + neg_part z

-- What is stored for an account before the block at height `n`: each block adds its change to what is
-- stored, and drops the sign of the sum.
unfoldable pub booked : (ℕ → BlockState) → Bytes → ℕ → ℕ
booked chain p zero = 0
booked chain p (suc n) = magnitude (pos (booked chain p n) +ℤ net (chain n).changes p)

pub magnitude-nonneg : (z : ℤ) → pos 0 ≤ℤ z → pos (magnitude z) ≡ z
magnitude-nonneg (pos n) h = ap pos (omega arith)
magnitude-nonneg (negsuc n) h = absurd (omega arith)

-- As long as no sum falls below zero, the sum is stored.
pub booked-total :
    (chain : ℕ → BlockState) (p : Bytes) (n : ℕ)
    → ((j : ℕ) → j ≤ n → pos 0 ≤ℤ total chain p j)
    → pos (booked chain p n) ≡ total chain p n
unfolding booked total
booked-total chain p zero h = refl
booked-total chain p (suc n) h =
    ap (λ (z : ℤ). pos (magnitude (z +ℤ net (chain n).changes p)))
      (booked-total chain p n (λ j le. h j (omega arith)))
    ∙ magnitude-nonneg (total chain p (suc n)) (h (suc n) (omega arith))

-- The first sum below zero is stored as what it falls short by.
pub booked-below :
    (chain : ℕ → BlockState) (p : Bytes) (n v : ℕ)
    → ((j : ℕ) → j ≤ n → pos 0 ≤ℤ total chain p j)
    → total chain p (suc n) ≡ negsuc v
    → booked chain p (suc n) ≡ suc v
unfolding booked total
booked-below chain p n v h e =
    ap (λ (z : ℤ). magnitude (z +ℤ net (chain n).changes p)) (booked-total chain p n h)
    ∙ ap magnitude e
    ∙ omega arith

pub +ℤ-zero : (z : ℤ) → z +ℤ pos 0 ≡ z
+ℤ-zero z = omega int_laws

module _ (b : Badger) (healthy : IsHealthy b) (n : Natives) where
  open healthy use {view}

  abbrev held : b.Db → Bytes → ℕ → Option Bytes
  held d p j = held_at b healthy d p j

  module _ (state : BlockState) (u : IsU32 state.id.height) (d d' : b.Db) (encoded : Bytes)
      (up : Updated b healthy n state u d encoded d') (p : Bytes) (ia : IsAccount n p) where
    -- Earlier balances stay.
    before_kept : (m : ℕ) → m ≤ state.id.height → before (held d' p) m ≡ before (held d p) m
    before_kept m le =
        before_congr (held d' p) (held d p) m
          (λ j lt. up.amounts p j ia (omega arith) ∙ ground arith)

    later_kept : (j : ℕ) → IsU32 j → state.id.height < j → held d p j ≡ none → held d' p j ≡ none
    later_kept j uj lt e = up.amounts p j ia uj ∙ ground arith

    own_height :
        held d' p state.id.height
        ≡ changed
            (find_change p state.changes)
            (before (held d p) state.id.height)
            (held d p state.id.height)
    own_height = up.amounts p state.id.height ia u ∙ ground arith

    -- The new balance is the old one with the change, without its sign.
    balance_after :
        held d p state.id.height ≡ none
        → before (held d' p) (suc state.id.height)
          ≡ magnitude (pos (before (held d p) state.id.height) +ℤ net state.changes p)
    balance_after e = go (find_change p state.changes) own_height
      where
        go :
            (o : Option BalanceChange)
            → held d' p state.id.height
              ≡ changed o (before (held d p) state.id.height) (held d p state.id.height)
            → before (held d' p) (suc state.id.height)
              ≡ magnitude (pos (before (held d p) state.id.height) +ℤ net_of o)
        go none f =
            before_skip (held d' p) state.id.height (f ∙ e)
            ∙ before_kept _ (omega arith)
            ∙ sym (ap magnitude (+ℤ-zero (pos (before (held d p) state.id.height))) ∙ omega arith)
        go (some c) f =
            before_found (held d' p) state.id.height _ f
            ∙ set_bytes-bytes_of (pos (before (held d p) state.id.height) +ℤ c.diff)

-- A chain of blocks as IndexBlocks hands them to setBlock.
pub record IsChain (n : Natives) (chain : ℕ → BlockState) : Type 0 where
  pub numbered : (k : ℕ) → (chain k).id.height ≡ k
  pub changes : (k : ℕ) → All (IsChange n k) (chain k).changes
  pub distinct : (k : ℕ) → IsDistinct (chain k).changes

module _ (b : Badger) (healthy : IsHealthy b) (n : Natives) (chain : ℕ → BlockState) where
  open healthy use {view}

  -- The store after the blocks below `k`.
  pub record IsLedger (k : ℕ) (d : b.Db) : Type 0 where
    pub keyed : (p : Bytes) → IsAccount n p → IsKeyed b healthy d p
    pub balances :
        (p : Bytes)
        → IsAccount n p
        → (m : ℕ) → m ≤ k
        → before (held_at b healthy d p) m ≡ booked chain p m
    pub later :
        (p : Bytes) → IsAccount n p → (j : ℕ) → IsU32 j → k ≤ j → held_at b healthy d p j ≡ none

  pub IsLedger-empty : (d : b.Db) → ((j : Bytes) → view d j ≡ none) → IsLedger 0 d
  unfolding booked before
  IsLedger-empty d e = record {
    keyed = λ p ia rest v f. absurd (none_some (view d (p ++ rest)) (e (p ++ rest)) f);
    balances = λ p ia m le. let q : m ≡ 0 = omega arith in rw q;
    later = λ p ia j uj le. e (p ++ form j);
  }
    where
      none_some : (o : Option Bytes) {v : Bytes} → o ≡ none → o ≡ some v → ⊥
      none_some o f g = cc

  module _ (ic : IsChain n chain) where
    IsLedger-step :
        (k : ℕ) (d d' : b.Db) (encoded : Bytes) (u : IsU32 (chain k).id.height)
        → Updated b healthy n (chain k) u d encoded d'
        → IsLedger k d
        → IsLedger (suc k) d'
    unfolding booked
    IsLedger-step k d d' encoded u up led = record {
      keyed = up.keyed;
      balances = λ p ia m le. elim (dec_lt k m) [
        | no q ↦
            before_kept b healthy n (chain k) u d d' encoded up p ia m
              (omega (arith, ic.numbered k))
            ∙ led.balances p ia m (omega arith)
        | yes q ↦
            let e : m ≡ suc k = omega arith in
            let h : (chain k).id.height ≡ k = ic.numbered k in
            let now =
              balance_after b healthy n (chain k) u d d' encoded up p ia
                (led.later p ia (chain k).id.height u (omega arith)) in
            let old : before (held_at b healthy d p) (chain k).id.height ≡ booked chain p k =
              rw h (led.balances p ia k (omega arith)) in
            rw e (
              subst (λ (x : ℕ). before (held_at b healthy d' p) (suc x) ≡ booked chain p (suc k)) h
                (now ∙ ap (λ (x : ℕ). magnitude (pos x +ℤ net (chain k).changes p)) old))
      ];
      later = λ p ia j uj le.
          later_kept b healthy n (chain k) u d d' encoded up p ia j uj
            (omega (arith, ic.numbered k)) (led.later p ia j uj (omega arith));
    }

    -- The store after the blocks below `k`: the balances, the entries of each block, the mark of the
    -- last height, and the keys of accounts.
    pub record IsIndexed (p : Proto) (k : ℕ) (d : b.Db) : Type 0 where
      pub ledger : IsLedger k d
      pub blocks : (m : ℕ) → m < k → HasBlock b healthy n p chain d m
      pub marked : (m : ℕ) → k ≡ suc m → view d height_key ≡ some (put_uint32 m)
      pub listed : IsListed b healthy n (chain_keys chain k) d

    module _ (p : Proto) (proto : IsProto p) (ih : IsHashed chain) where
      IsIndexed_step :
          (k : ℕ) (d d' : b.Db) (encoded : Bytes) (u : IsU32 (chain k).id.height)
          → All (IsChange n (chain k).id.height) (chain k).changes
          → p.unmarshal encoded ≡ some (chain k).block
          → Updated b healthy n (chain k) u d encoded d'
          → IsIndexed p k d
          → IsIndexed p (suc k) d'
      unfolding chain_keys
      IsIndexed_step k d d' encoded u ics dec up ix = record {
        ledger = IsLedger-step k d d' encoded u up ix.ledger;
        blocks = λ m lt. elim (dec_lt m k) [
          | yes q ↦
              HasBlock_step b healthy n p chain k m d d' encoded u ih (ic.numbered k) ics up q
                (ix.blocks m q)
          | no q ↦
              let e : k ≡ m = omega arith in
              subst (HasBlock b healthy n p chain d') e
                (HasBlock_own b healthy n p chain k d d' encoded u (ic.numbered k) dec up)
        ];
        marked = λ m e.
            let h : (chain k).id.height ≡ m = ic.numbered k ∙ omega (arith, e) in
            subst (λ (x : ℕ). view d' height_key ≡ some (put_uint32 x)) h up.mark_at;
        listed =
            IsListed-step b healthy n (chain k) u d d' encoded up ics (chain_keys chain k)
              ix.listed;
      }

      pub set_block-IsIndexed :
          (k : ℕ) (s : Store b)
          → IsU32 k
          → IsIndexed p k s.db
          → (s' : Store b) × (set_block b p (chain k) s ≡ ok s')
            × IsIndexed p (suc k) s'.db
            × (s'.height_indexed ≡ some k)
            × (s'.tokens ≡ s.tokens)
      unfolding set_block set_height
      set_block-IsIndexed k s v ix =
          let h : (chain k).id.height ≡ k = ic.numbered k in
          let u : IsU32 (chain k).id.height = omega arith in
          let ics =
            subst (λ (x : ℕ). All (IsChange n x) (chain k).changes) (sym h) (ic.changes k) in
          let (encoded, m, dec) = proto.unmarshal-marshal (chain k).block in
          let (d', e, up) =
            update_block-Updated b healthy n (chain k) u s.db encoded ix.ledger.keyed ics
              (ic.distinct k) in
          (
            set_height b (chain k).id.height (chain k).synced (record s { db = d' }),
            rw (m, e, ◌>>=◌),
            IsIndexed_step k s.db d' encoded u ics dec up ix,
            ap some h,
            refl,
          )

      -- From an empty database, indexing the blocks of a chain in order succeeds: each block is then
      -- found by its height and its hash; the balance that is stored for an account before a height
      -- is what its changes below it make of zero, where each is added to the stored balance and the
      -- sign of the sum is dropped; the last height is marked, and each key that begins with `a` is
      -- that of a change.
      pub index_chain-IsIndexed :
          (s : Store b)
          → ((j : Bytes) → view s.db j ≡ none)
          → (k : ℕ) → suc k ≤ 2 ^ 32
          → (s' : Store b) × (index_chain b p chain s (suc k) ≡ ok s')
            × IsIndexed p (suc k) s'.db
            × (s'.height_indexed ≡ some k)
            × (s'.tokens ≡ s.tokens)
      unfolding index_chain chain_keys
      index_chain-IsIndexed s e zero le = set_block-IsIndexed zero s (omega arith) (record {
        ledger = IsLedger-empty s.db e;
        blocks = λ m lt. absurd (omega arith);
        marked = λ m e'. absurd (omega (arith, e'));
        listed = IsListed-empty b healthy n s.db e;
      })
      index_chain-IsIndexed s e (suc k) le =
          let (s1, e1, ix, _, t1) = index_chain-IsIndexed s e k (omega arith) in
          let (s2, e2, ix2, h2, t2) = set_block-IsIndexed (suc k) s1 (omega arith) ix in
          (s2, rw (e1, ◌>>=◌) e2, ix2, h2, t2 ∙ t1)
