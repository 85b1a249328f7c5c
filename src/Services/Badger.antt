-- ===== src/Services/Badger.antt =====
-- The interface of the Badger database, which is not in this repository, and of the generated
-- protobuf code: the operations as parameters, and the behaviour of a healthy database.
use ontology_rosetta.Common.{◌≡◌, Option, none, some, if◌then◌else◌}
use ontology_rosetta.Common.Bytes.{Bytes, LtBytes, LeBytes, eq_bytes}
use ontology_rosetta.Common.Result.{Result, ok, err}
use ontology_rosetta.Services.Types.{Block}

pub data DbError : Type 0 where
  key_not_found conflict other_error : DbError

-- `Db` is what a transaction sees. An iterator runs in reverse; `seek` and `next` are `none` where
-- it becomes invalid. `commit` is the end of db.Update: a failed update leaves the database.
pub record Badger : Type 1 where
  pub Db : Type 0
  pub Item : Type 0
  pub get : Db → Bytes → Result DbError Item
  pub item_key : Item → Bytes
  pub value : Item → Result DbError Bytes
  pub seek : Db → Bytes → Option Item
  pub next : Db → Item → Option Item
  pub set : Db → Bytes → Bytes → Result DbError Db
  pub commit : Db → Result DbError (Unit {0})

-- proto.Marshal and proto.Unmarshal of a block.
pub record Proto : Type 0 where
  pub marshal : Block → Option Bytes
  pub unmarshal : Bytes → Option Block

module _ (b : Badger) where
  open b use {Db, Item, get, item_key, value, seek, next, set, commit}

  -- `i` is the last entry of the database among the keys that `P` allows.
  pub record IsLast (view : Db → Bytes → Option Bytes) (d : Db) (P : Bytes → Type 0) (i : Item)
      : Type 0 where
    pub held : Bytes
    pub at_key : view d (item_key i) ≡ some held
    pub item_value : value i ≡ ok held
    pub allowed : P (item_key i)
    pub last : (k v : Bytes) → view d k ≡ some v → P k → LeBytes k (item_key i)

  -- A database without I/O errors and conflicts: a map from keys to values, read back as written,
  -- that iterates in the order of the keys.
  pub record IsHealthy : Type 0 where
    pub view : Db → Bytes → Option Bytes
    pub get_some :
        (d : Db) (k v : Bytes)
        → view d k ≡ some v
        → (i : Item) × (get d k ≡ ok i) × (value i ≡ ok v)
    pub get_none : (d : Db) (k : Bytes) → view d k ≡ none → get d k ≡ err key_not_found
    pub seek_some :
        (d : Db) (k : Bytes) (i : Item) → seek d k ≡ some i → IsLast view d (λ j. LeBytes j k) i
    pub seek_none : (d : Db) (k j : Bytes) → seek d k ≡ none → LeBytes j k → view d j ≡ none
    pub next_some :
        (d : Db) (i i' : Item) → next d i ≡ some i' → IsLast view d (λ j. LtBytes j (item_key i)) i'
    pub next_none :
        (d : Db) (i : Item) (j : Bytes) → next d i ≡ none → LtBytes j (item_key i) → view d j ≡ none
    pub set_view :
        (d : Db) (k v : Bytes)
        → (d' : Db) × (set d k v ≡ ok d')
          × ((j : Bytes) → view d' j ≡ (if eq_bytes k j then some v else view d j))
    pub commit_ok : (d : Db) → commit d ≡ ok tt

pub record IsProto (p : Proto) : Type 0 where
  pub unmarshal-marshal :
      (x : Block) → (e : Bytes) × (p.marshal x ≡ some e) × (p.unmarshal e ≡ some x)
