-- ===== src/Services/Construction/Wire.antt =====
-- What the construction endpoints use of the ledger's transactions in their encoded form, and of
-- ed25519 signatures; none of it is in this repository.
use ontology_rosetta.Common.{ℕ, ◌<◌, ◌≡◌, ◌≢◌, Bool, Option, some, List, [], map, All}
use ontology_rosetta.Common.Bytes.{Bytes}
use ontology_rosetta.Common.Text.{Text}
use ontology_rosetta.Services.Ontology.{Address, Hash}
use ontology_rosetta.Services.Construction.{Ledger, Mutable}

-- ctypes.Payload: nil, a *payload.InvokeCode, which may be nil, or another payload.
pub data TxPayload : Type 0 where
  no_payload nil_invoke other_payload : TxPayload
  invoke : Bytes → TxPayload

-- ctypes.Sig, with M = 1 where the code makes one.
pub record Sig : Type 0 where
  pub keys : List Bytes
  pub sig_data : List Bytes

-- `from_raw` is none for an error, and some none for a nil transaction. `with_sigs` sets the
-- signatures of a ctypes.MutableTransaction, and `seal` is its IntoImmutable. `get_sig` gives the
-- public keys of a raw signature.
pub record Wire (g : Ledger) : Type 1 where
  pub Mut : Type 0
  pub RawSig : Type 0
  pub from_raw : Bytes → Option (Option g.Txn)
  pub payload : g.Txn → TxPayload
  pub gas_limit : g.Txn → ℕ
  pub gas_price : g.Txn → ℕ
  pub nonce : g.Txn → ℕ
  pub raw_sigs : g.Txn → List RawSig
  pub get_sig : RawSig → Option (List Bytes)
  pub into_mutable : g.Txn → Option Mut
  pub mut_sigs : Mut → List Sig
  pub mut_hash : Mut → Hash
  pub with_sigs : Mut → List Sig → Mut
  pub seal : Mut → Option g.Txn
  pub address_from_key : Bytes → Address
  pub edwards25519 : Text
  pub ed25519 : Text
  pub verify : Bytes → Bytes → Bytes → Bool
  pub serialize_sig : Bytes → Option Bytes
  pub append_to_pool : g.Txn → Bool

module _ (g : Ledger) (w : Wire g) where
  open w use {from_raw}

  -- A transaction is written in some bytes and read back from them.
  pub record IsCodec : Type 0 where
    pub some_bytes : (t : g.Txn) → g.serialize t ≢ []
    pub bytes : (t : g.Txn) → All (λ b. b < 256) (g.serialize t)
    pub from_raw-serialize : (t : g.Txn) → from_raw (g.serialize t) ≡ some (some t)

  -- The hash leaves the signatures out, and a sealed transaction keeps what its mutable form had.
  pub record IsSealed : Type 0 where
    pub mutable_hash :
        (t : g.Txn) (m : w.Mut) → w.into_mutable t ≡ some m → w.mut_hash m ≡ g.txn_hash t
    pub sealed_hash :
        (t t' : g.Txn) (m : w.Mut) (ss : List Sig)
        → w.into_mutable t ≡ some m
        → w.seal (w.with_sigs m ss) ≡ some t'
        → g.txn_hash t' ≡ w.mut_hash m
    pub sealed_fields :
        (t t' : g.Txn) (m : w.Mut) (ss : List Sig)
        → w.into_mutable t ≡ some m
        → w.seal (w.with_sigs m ss) ≡ some t'
        → (w.payload t' ≡ w.payload t)
          × (w.gas_limit t' ≡ w.gas_limit t)
          × (w.gas_price t' ≡ w.gas_price t)
          × (w.nonce t' ≡ w.nonce t)
          × (g.txn_payer t' ≡ g.txn_payer t)
    pub sealed_sigs :
        (t t' : g.Txn) (m : w.Mut) (ss : List Sig)
        → w.into_mutable t ≡ some m
        → w.seal (w.with_sigs m ss) ≡ some t'
        → map w.get_sig (w.raw_sigs t') ≡ map (λ (s : Sig). some s.keys) ss

  -- A transaction that was made of a mutable one without signatures has its fields.
  pub record IsMade : Type 0 where
    pub made :
        (m : Mutable) (t : g.Txn)
        → g.into_immutable m ≡ some t
        → (w.payload t ≡ invoke m.code)
          × (w.gas_limit t ≡ m.gas_limit)
          × (w.gas_price t ≡ m.gas_price)
          × (w.nonce t ≡ m.nonce)
          × (g.txn_payer t ≡ m.payer)
