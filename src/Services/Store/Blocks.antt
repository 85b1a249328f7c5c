-- ===== src/Services/Store/Blocks.antt =====
-- The entries of the indexed blocks: each block is found by its height and by its hash.
use ontology_rosetta.Common.{
  ℕ, zero, suc, ◌<◌, ◌≡◌, ◌≢◌, refl, sym, ap, ◌∙◌, some, List, [], ◌∷◌, arith, subst, All, length,
}
use ontology_rosetta.Common.Bytes.{Bytes}
use ontology_rosetta.Lexinum.{IsU32}
use ontology_rosetta.Lexinum.Encode.{form}
use ontology_rosetta.Services.Ontology.{IsHash}
use ontology_rosetta.Services.Address.{Natives}
use ontology_rosetta.Services.Keys.{
  put_uint32, uint32, uint32-put_uint32, copy_into, block_key, block_hash2height_key,
  block_height2hash_key, txn_hash_key, height_key,
}
use ontology_rosetta.Services.Types.{BalanceChange, BlockState}
use ontology_rosetta.Services.Badger.{Badger, IsHealthy, Proto}
use ontology_rosetta.Services.Store.Changes.{IsChange}
use ontology_rosetta.Services.Store.Update.{Updated, IsElsewhere, account_ne, head_ne, txn_ne}

pub copy_into_all : (n : ℕ) (h : Bytes) → length h ≡ n → copy_into n h ≡ h
unfolding copy_into
copy_into_all zero [] e = refl
copy_into_all zero (x ∷ h) e = absurd (omega arith)
copy_into_all (suc n) [] e = absurd (omega arith)
copy_into_all (suc n) (x ∷ h) e = ap (λ (t : Bytes). x ∷ t) (copy_into_all n h (omega arith))

pub put_uint32_inj : (i j : ℕ) → IsU32 i → IsU32 j → put_uint32 i ≡ put_uint32 j → i ≡ j
put_uint32_inj i j ui uj e = cc (uint32-put_uint32 i ui, uint32-put_uint32 j uj, ap uint32 e)

changes_ne :
    (n : Natives) (h x : ℕ) (k : Bytes) (cs : List BalanceChange)
    → All (IsChange n h) cs
    → x ≢ b'a'
    → All (λ c. c.key ≢ (x ∷ k)) cs
changes_ne n h x k [] a ne = tt
changes_ne n h x k (c ∷ cs) (ic, a) ne = (
  (λ e. account_ne c.prefix (form h) k x ic.account ne (sym e ∙ ic.key_eq)),
  changes_ne n h x k cs a ne,
)

-- The hashes of the blocks are 32 bytes each, and differ.
pub record IsHashed (chain : ℕ → BlockState) : Type 0 where
  pub hash_len : (k : ℕ) → IsHash (chain k).id.hash
  pub hash_ne : (i j : ℕ) → i ≢ j → (chain i).id.hash ≢ (chain j).id.hash

module _ (n : Natives) (state : BlockState) (m : ℕ) (hash : Bytes)
    (ics : All (IsChange n state.id.height) state.changes) (u : IsU32 state.id.height)
    (um : IsU32 m) (ne : state.id.height ≢ m) (len : IsHash hash) (slen : IsHash state.id.hash)
    (hne : state.id.hash ≢ hash) where
  block_key-IsElsewhere : IsElsewhere state (block_key m)
  unfolding block_key block_hash2height_key block_height2hash_key txn_hash_key height_key
  block_key-IsElsewhere = record {
    no_change = changes_ne n _ _ _ state.changes ics (omega arith);
    no_block = λ e. ne (put_uint32_inj _ m u um (cc e));
    no_hash = head_ne _ _ _ _ (omega arith);
    no_height = head_ne _ _ _ _ (omega arith);
    no_txn = txn_ne _ _ state.hashes (omega arith);
    no_mark = head_ne _ _ _ _ (omega arith);
  }

  hash_key-IsElsewhere : IsElsewhere state (block_height2hash_key m)
  unfolding block_key block_hash2height_key block_height2hash_key txn_hash_key height_key
  hash_key-IsElsewhere = record {
    no_change = changes_ne n _ _ _ state.changes ics (omega arith);
    no_block = head_ne _ _ _ _ (omega arith);
    no_hash = head_ne _ _ _ _ (omega arith);
    no_height = λ e. ne (put_uint32_inj _ m u um (cc e));
    no_txn = txn_ne _ _ state.hashes (omega arith);
    no_mark = head_ne _ _ _ _ (omega arith);
  }

  height_key-IsElsewhere : IsElsewhere state (block_hash2height_key hash)
  unfolding block_key block_hash2height_key block_height2hash_key txn_hash_key height_key
  height_key-IsElsewhere = record {
    no_change = changes_ne n _ _ _ state.changes ics (omega arith);
    no_block = head_ne _ _ _ _ (omega arith);
    no_hash = λ e.
        hne (sym (copy_into_all 32 state.id.hash slen) ∙ tail_eq e ∙ copy_into_all 32 hash len);
    no_height = head_ne _ _ _ _ (omega arith);
    no_txn = txn_ne _ _ state.hashes (omega arith);
    no_mark = head_ne _ _ _ _ (omega arith);
  }
    where
      tail_eq : {x : ℕ} {s t : Bytes} → ◌≡◌ {A = Bytes} (x ∷ s) (x ∷ t) → s ≡ t
      tail_eq e = cc e

module _ (b : Badger) (healthy : IsHealthy b) (n : Natives) (p : Proto)
    (chain : ℕ → BlockState) where
  open healthy use {view}

  -- The entries of the block at height `m`.
  pub record HasBlock (d : b.Db) (m : ℕ) : Type 0 where
    pub hash_at : view d (block_height2hash_key m) ≡ some (chain m).id.hash
    pub height_at : view d (block_hash2height_key (chain m).id.hash) ≡ some (put_uint32 m)
    pub encoded : Bytes
    pub block_at : view d (block_key m) ≡ some encoded
    pub decodes : p.unmarshal encoded ≡ some (chain m).block

  pub HasBlock_step :
      (k m : ℕ) (d d' : b.Db) (encoded : Bytes) (u : IsU32 (chain k).id.height)
      → IsHashed chain
      → (chain k).id.height ≡ k
      → All (IsChange n (chain k).id.height) (chain k).changes
      → Updated b healthy n (chain k) u d encoded d'
      → m < k
      → HasBlock d m
      → HasBlock d' m
  HasBlock_step k m d d' encoded u ih e ics up lt hb =
      let um : IsU32 m = omega arith in
      let ne : (chain k).id.height ≢ m = omega arith in
      let hne : (chain k).id.hash ≢ (chain m).id.hash = ih.hash_ne k m (omega arith) in
      record {
        hash_at =
            up.frame _
              (hash_key-IsElsewhere n (chain k) m _ ics u um ne (ih.hash_len m) (ih.hash_len k) hne)
            ∙ hb.hash_at;
        height_at =
            up.frame _ (
              height_key-IsElsewhere n (chain k) m _ ics u um ne (ih.hash_len m) (ih.hash_len k)
                hne)
            ∙ hb.height_at;
        encoded = hb.encoded;
        block_at =
            up.frame _ (
              block_key-IsElsewhere n (chain k) m _ ics u um ne (ih.hash_len m) (ih.hash_len k) hne)
            ∙ hb.block_at;
        decodes = hb.decodes;
      }

  pub HasBlock_own :
      (k : ℕ) (d d' : b.Db) (encoded : Bytes) (u : IsU32 (chain k).id.height)
      → (chain k).id.height ≡ k
      → p.unmarshal encoded ≡ some (chain k).block
      → Updated b healthy n (chain k) u d encoded d'
      → HasBlock d' k
  HasBlock_own k d d' encoded u e dec up = record {
    hash_at =
        subst (λ (x : ℕ). view d' (block_height2hash_key x) ≡ some (chain k).id.hash) e up.hash_at;
    height_at =
        subst (λ (x : ℕ). view d' (block_hash2height_key (chain k).id.hash) ≡ some (put_uint32 x)) e
          up.height_at;
    encoded = encoded;
    block_at = subst (λ (x : ℕ). view d' (block_key x) ≡ some encoded) e up.block_at;
    decodes = dec;
  }
