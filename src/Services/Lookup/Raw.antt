-- ===== src/Services/Lookup/Raw.antt =====
-- The lookups on an indexed store: a block is found by its height and by its hash.
use ontology_rosetta.Common.{ℕ, ◌≡◌, refl, ap, ◌∙◌, true, false, none, [], ◌∷◌, arith, length, Bool}
use ontology_rosetta.Common.Bytes.{Bytes, eq_bytes}
use ontology_rosetta.Common.Result.{ok}
use ontology_rosetta.Lexinum.{IsU32}
use ontology_rosetta.Lexinum.Encode.{form, encode_height-eq-form}
use ontology_rosetta.Services.Ontology.{Hash, IsHash, Library}
use ontology_rosetta.Services.Keys.{
  put_uint32, uint32-put_uint32, block_height2hash_key, block_key, block_hash2height_key,
}
use ontology_rosetta.Services.Address.{Natives}
use ontology_rosetta.Services.Types.{Block, BlockId, BlockInfo, BlockState}
use ontology_rosetta.Services.Badger.{Badger, IsHealthy, Proto}
use ontology_rosetta.Services.Store.{Store}
use ontology_rosetta.Services.Store.Blocks.{HasBlock}
use ontology_rosetta.Services.Lookup.{
  zero_hash, copy, empty_block, read_block, view_block, block_info, get_block_info_raw, Found,
  unmarshal_to, after_value, check_height,
}

pub copy_all : (dst src : Bytes) → length src ≡ length dst → copy dst src ≡ src
unfolding copy
copy_all [] [] e = refl
copy_all [] (y ∷ src) e = absurd (omega arith)
copy_all (x ∷ dst) [] e = absurd (omega arith)
copy_all (x ∷ dst) (y ∷ src) e = ap (λ (t : Bytes). y ∷ t) (copy_all dst src (omega arith))

module _ (b : Badger) (healthy : IsHealthy b) (n : Natives) (p : Proto) (chain : ℕ → BlockState)
    (d : b.Db) (m : ℕ) (hb : HasBlock b healthy n p chain d m)
    (len : IsHash (chain m).id.hash) where
  open healthy use {get_some}

  abbrev pub the_block : Bool → Block
  the_block true = (chain m).block
  the_block false = empty_block b

  abbrev pub id_of : Bool → Hash → BlockId
  id_of by_height hash = record { by_height = by_height; hash = hash; height = m }

  abbrev pub found : Bool → BlockId → Found b
  found w id = record {
    xerr = none;
    failed = false;
    panicked = false;
    id = id;
    block = the_block w;
  }

  read_block_lem :
      (w by_height : Bool) (hash : Hash)
      → read_block b p d w none (id_of by_height hash) ≡ found w (id_of by_height hash)
  unfolding read_block
  read_block_lem false by_height hash = refl
  read_block_lem true by_height hash =
      let (i, g, v) = get_some d (block_key m) hb.encoded hb.block_at in
      rw (g, read_block) (rw (v, unmarshal_to) (rw (hb.decodes, unmarshal_to)))

  -- By the height alone, or with the zero hash.
  view_by_height :
      (w : Bool)
      → view_block b p d (id_of true zero_hash) w ≡ found w (id_of true (chain m).id.hash)
  unfolding view_block eq_bytes
  view_by_height w =
      let (i, g, v) = get_some d (block_height2hash_key m) (chain m).id.hash hb.hash_at in
      rw (g, view_block)
        (rw (v, after_value)
          (rw (copy_all zero_hash (chain m).id.hash len) (read_block_lem w true (chain m).id.hash)))

  view_by_hash :
      (w : Bool)
      → IsU32 m
      → view_block b p d (record { by_height = false; hash = (chain m).id.hash; height = 0 }) w
        ≡ found w (id_of false (chain m).id.hash)
  unfolding view_block
  view_by_hash w u =
      let (i, g, v) =
        get_some d (block_hash2height_key (chain m).id.hash) (put_uint32 m) hb.height_at in
      rw (g, view_block)
        (rw (v, after_value)
          (rw (uint32-put_uint32 m u, check_height) (read_block_lem w false (chain m).id.hash)))

  module _ (l : Library) where
    -- What the store returns for the block at height `m`.
    abbrev pub info_of : Bool → BlockInfo
    info_of w = record {
      block = the_block w;
      block_id = record { hash = l.hash_to_hex (chain m).id.hash; index = m };
      height = m;
      hval = form m;
    }

    block_info-found :
        (w by_height : Bool)
        → IsU32 m
        → block_info b l (found w (id_of by_height (chain m).id.hash)) ≡ ok (info_of w)
    unfolding block_info
    block_info-found w by_height u = rw (encode_height-eq-form m u)

  -- An indexed block is found by its height and by its hash, as the same block, under its own
  -- identifier and with the lexicographic encoding of its height.
  pub get_block_info_raw-found :
      (l : Library) (s : Store b) (w : Bool)
      → s.db ≡ d
      → IsU32 m
      → (get_block_info_raw b p l s (id_of true zero_hash) w ≡ ok (info_of l w))
        × (get_block_info_raw b p l s
              (record { by_height = false; hash = (chain m).id.hash; height = 0 })
              w
            ≡ ok (info_of l w))
  unfolding get_block_info_raw
  get_block_info_raw-found l s w e u =
      let hash_only : BlockId = record {
        by_height = false;
        hash = (chain m).id.hash;
        height = 0;
      } in
      (
        ap (λ (x : b.Db). block_info b l (view_block b p x (id_of true zero_hash) w)) e
            ∙ ap (block_info b l) (view_by_height w)
            ∙ block_info-found l w true u,
        ap (λ (x : b.Db). block_info b l (view_block b p x hash_only w)) e
            ∙ ap (block_info b l) (view_by_hash w u)
            ∙ block_info-found l w false u,
      )
