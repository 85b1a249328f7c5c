-- ===== src/Services/Lookup.antt =====
-- Finding blocks in the data store: getBlockID, getBlockInfo and getBlockInfoRaw.
pub mod Raw
use ontology_rosetta.Common.{
  ℕ, zero, suc, ◌+◌, ◌-◌, ◌^◌, ◌≤◌, ◌<◌, Bool, true, false, ◌&&◌, ◌||◌, not, Option, none, some,
  List, [], ◌∷◌, ltb, ◌==◌, if◌then◌else◌, length,
}
use ontology_rosetta.Common.Bytes.{Bytes, eq_bytes}
use ontology_rosetta.Common.Int.{ℤ, pos, negsuc}
use ontology_rosetta.Common.Result.{Result, ok, err, ◌>>=◌, or_err}
use ontology_rosetta.Common.Text.{Text}
use ontology_rosetta.Lexinum.{encode_height}
use ontology_rosetta.Services.Ontology.{Hash, Library}
use ontology_rosetta.Services.Keys.{uint32, block_key, block_hash2height_key, block_height2hash_key}
use ontology_rosetta.Services.Errors
use ontology_rosetta.Services.Errors.{ErrorKind, Failure, Api, wrapped, api, diverges, panic}
use ontology_rosetta.Services.Types.{
  Block, BlockId, BlockInfo, BlockIdentifier, PartialBlockIdentifier,
}
use ontology_rosetta.Services.Badger.{Badger, DbError, Proto, key_not_found, conflict, other_error}
use ontology_rosetta.Services.Store.{Store, get_height}

abbrev zeros : ℕ → Hash
zeros zero = []
zeros (suc n) = 0 ∷ zeros n

-- common.UINT256_EMPTY, the zero value of a hash
abbrev pub zero_hash : Hash
zero_hash = zeros 32

-- `copy(dst, src)`: as many bytes as both have.
unfoldable pub copy : Bytes → Bytes → Bytes
copy [] src = []
copy (x ∷ dst) [] = x ∷ dst
copy (x ∷ dst) (y ∷ src) = y ∷ copy dst src

-- The part of getBlockID for an identifier that has a hash or an index.
parse_hash : Library → Option Text → BlockId → Api BlockId
parse_hash l none id = ok id
parse_hash l (some text) id = do
  hash ← or_err (l.hash_from_hex text) (api Errors.invalid_block_hash)
  ok (record id { hash = hash })

parse_index : Option ℤ → BlockId → Api BlockId
parse_index none id = ok id
parse_index (some (negsuc n)) id = err (api Errors.invalid_block_index)
parse_index (some (pos n)) id =
    if ltb 0xffff_ffff n
    then err (api Errors.invalid_block_index)
    else ok (record id { by_height = true; height = n })

parse_id : Library → Option Text → Option ℤ → Api BlockId
unfolding parse_hash parse_index
parse_id l hash index = do
  id ← parse_hash l hash (record { by_height = false; hash = zero_hash; height = 0 })
  parse_index index id

-- `pid == nil || (pid.Hash == nil && pid.Index == nil)`
is_missing : Option PartialBlockIdentifier → Bool
is_missing none = true
is_missing (some pid) = elim pid.hash [
  | some t ↦ false
  | none ↦ elim pid.index [ some i ↦ false | none ↦ true ]
]

module _ (b : Badger) where
  open b use {Db, Item, get, value}

  -- getBlockID
  unfoldable pub get_block_id :
      Library → Store b → Option PartialBlockIdentifier → Bool → Api BlockId
  unfolding is_missing parse_id
  get_block_id l s pid nullable =
      if nullable && is_missing pid
      then ok (record { by_height = true; hash = zero_hash; height = get_height b s })
      else (elim pid [
        | none ↦ err (api Errors.invalid_block_identifier)
        | some q ↦
            if is_missing (some q)
            then err (api Errors.invalid_block_identifier)
            else parse_id l q.hash q.index
      ])

  -- How the function that getBlockInfoRaw gives to db.View ends: its error, if any, and the
  -- variable `xerr`, with the identifier and the block that it has written. An error that is
  -- noted in `xerr` within `item.Value` does not end the function.
  pub record Found : Type 0 where
    pub xerr : Option ErrorKind
    pub failed : Bool
    pub panicked : Bool
    pub id : BlockId
    pub block : Block

  abbrev pub empty_block : Block
  empty_block = record { timestamp = 0; transactions = [] }

  stop : ErrorKind → BlockId → Found
  stop e id = record {
    xerr = some e;
    failed = false;
    panicked = false;
    id = id;
    block = empty_block;
  }

  fail : Option ErrorKind → BlockId → Found
  fail xerr id = record {
    xerr = xerr;
    failed = true;
    panicked = false;
    id = id;
    block = empty_block;
  }

  crash : BlockId → Found
  crash id = record { xerr = none; failed = false; panicked = true; id = id; block = empty_block }

  -- What a failed `txn.Get` leads to, where a missing key is the error `unknown`.
  get_failed : ErrorKind → DbError → BlockId → Found
  unfolding stop fail
  get_failed unknown conflict id = stop Errors.datastore_conflict id
  get_failed unknown key_not_found id = stop unknown id
  get_failed unknown other_error id = fail none id

  -- What a failed `item.Value` leads to, and a failed `txn.Get` of the block.
  value_failed : Option ErrorKind → DbError → BlockId → Found
  unfolding stop fail
  value_failed xerr conflict id = stop Errors.datastore_conflict id
  value_failed xerr key_not_found id = fail xerr id
  value_failed xerr other_error id = fail xerr id

  unmarshal_to : Proto → Option ErrorKind → BlockId → Result DbError Bytes → Found
  unfolding fail
  unmarshal_to p xerr id (err e) = fail xerr id
  unmarshal_to p xerr id (ok v) = elim (p.unmarshal v) [
    | none ↦ fail xerr id
    | some block ↦ record { xerr = xerr; failed = false; panicked = false; id = id; block = block }
  ]

  -- The part behind `if !withBlock`.
  read_block : Proto → Db → Bool → Option ErrorKind → BlockId → Found
  unfolding value_failed unmarshal_to
  read_block p d false xerr id = record {
    xerr = xerr;
    failed = false;
    panicked = false;
    id = id;
    block = empty_block;
  }
  read_block p d true xerr id = elim (get d (block_key id.height)) [
    | err e ↦ value_failed xerr e id
    | ok i ↦ unmarshal_to p xerr id (value i)
  ]

  -- The function that `item.Value` is given for a block that is found by height.
  check_hash : BlockId → Bytes → Option (Option ErrorKind × BlockId)
  check_hash id val =
      if not (eq_bytes id.hash zero_hash) && not (eq_bytes id.hash (copy zero_hash val))
      then some (some Errors.invalid_block_identifier, id)
      else some (none, record id { hash = copy id.hash val })

  -- The one for a block that is found by hash; `none` is a panic.
  check_height : BlockId → Bytes → Option (Option ErrorKind × BlockId)
  check_height id val = elim (uint32 val) [
    | none ↦ none
    | some height ↦
        if id.by_height && not (id.height == height)
        then some (some Errors.invalid_block_identifier, id)
        else some (none, record id { height = height })
  ]

  after_value :
      Proto
      → Db
      → Bool
      → BlockId
      → (Bytes → Option (Option ErrorKind × BlockId))
      → Result DbError Bytes
      → Found
  unfolding read_block value_failed crash
  after_value p d with_block id check (err e) = value_failed none e id
  after_value p d with_block id check (ok val) = elim (check val) [
    | none ↦ crash id
    | some (xerr, id') ↦ read_block p d with_block xerr id'
  ]

  view_block : Proto → Db → BlockId → Bool → Found
  unfolding get_failed after_value check_hash check_height
  view_block p d id with_block =
      if id.by_height
      then (elim (get d (block_height2hash_key id.height)) [
        | err e ↦ get_failed Errors.unknown_block_index e id
        | ok i ↦ after_value p d with_block id (check_hash id) (value i)
      ])
      else (elim (get d (block_hash2height_key id.hash)) [
        | err e ↦ get_failed Errors.unknown_block_hash e id
        | ok i ↦ after_value p d with_block id (check_height id) (value i)
      ])

  block_info : Library → Found → Api BlockInfo
  block_info l f = elim f.xerr [
    | some e ↦ err (api e)
    | none ↦
        if f.panicked then err panic else if f.failed then err (wrapped Errors.datastore) else (do
          hval ← or_err (encode_height f.id.height) diverges
          ok (record {
            block = f.block;
            block_id = record { hash = l.hash_to_hex f.id.hash; index = f.id.height };
            height = f.id.height;
            hval = hval;
          }))
  ]

  -- getBlockInfoRaw
  pub get_block_info_raw : Proto → Library → Store b → BlockId → Bool → Api BlockInfo
  unfolding view_block block_info
  get_block_info_raw p l s id with_block = block_info l (view_block p s.db id with_block)

  -- getBlockInfo
  unfoldable pub get_block_info :
      Proto → Library → Store b → Option PartialBlockIdentifier → Bool → Api BlockInfo
  get_block_info p l s pid with_block = do
    id ← get_block_id l s pid true
    if id.by_height && ltb (get_height b s) id.height
        then err (api Errors.unknown_block_index)
        else get_block_info_raw p l s id with_block
