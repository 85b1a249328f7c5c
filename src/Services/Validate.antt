-- ===== src/Services/Validate.antt =====
-- Validate of services/store.go, over the balances of chain/chain.go.
pub mod Keys
pub mod Round
pub mod Collect
pub mod Compare
pub mod Agrees
use ontology_rosetta.Common.{
  ℕ, zero, suc, ◌+◌, Bool, true, false, not, Option, none, some, List, [], ◌∷◌, if◌then◌else◌,
  length, get_elem?, take, drop, ltb, ◌==◌,
}
use ontology_rosetta.Common.Bytes.{Bytes, eq_bytes, has_prefix}
use ontology_rosetta.Common.Big.{set_bytes}
use ontology_rosetta.Common.Int.{ℤ, pos, eq_ℤ}
use ontology_rosetta.Common.Result.{Result, ok, err, ◌>>=◌, ◌>>◌, or_err}
use ontology_rosetta.Chain.Balance.{Execution, balance_of, native_balance_of}
use ontology_rosetta.Services.Ontology.{Address, Library}
use ontology_rosetta.Services.Address.{Natives, decompress_addr}
use ontology_rosetta.Services.Badger.{Badger}
use ontology_rosetta.Services.Store.{Store, get_height}

-- accountInfo
pub record AccountInfo : Type 0 where
  pub acct : Address
  pub contract : Address
  pub key : Bytes
  pub native : Bool

-- How Validate ends the process: by log.Fatalf, or by a panic. `endless` is a loop that goes on
-- behind its fuel.
pub data Ending : Type 0 where
  fatal panicked endless : Ending

-- `key[i]`
unfoldable pub byte_at : Bytes → ℕ → Result Ending ℕ
byte_at key i = or_err (get_elem? key i) panicked

-- The `switch` on `key[i]`, for the end of the address that begins at `i`.
unfoldable pub part_end : Bytes → ℕ → Result Ending ℕ
unfolding byte_at
part_end key i = do
  tag ← byte_at key i
  if tag == 1 then ok (i + 2) else (if tag == 0 then ok (i + 21) else err fatal)

-- `key[:end]`
unfoldable pub slice_to : Bytes → ℕ → Result Ending Bytes
slice_to key end = if ltb (length key) end then err panicked else ok (take end key)

-- `accts = append(accts, info)`, seen from the end of the loop.
unfoldable pub put_found : Option AccountInfo → List AccountInfo → List AccountInfo
put_found none infos = infos
put_found (some info) infos = info ∷ infos

module _ (l : Library) (n : Natives) where
  -- The entry for an account, `accountInfo{...}`
  unfoldable pub info_at : Bytes → ℕ → ℕ → Result Ending AccountInfo
  unfolding byte_at slice_to
  info_at key start end = do
    left ← slice_to key start
    acct ← or_err (decompress_addr l n (drop 1 left)) panicked
    right ← slice_to key end
    contract ← or_err (decompress_addr l n (drop start right)) panicked
    tag ← byte_at key start
    ok (record { acct = acct; contract = contract; key = key; native = tag == 1 })

  -- What one round of the loop over the keys makes of a key: the account's prefix, and an entry for
  -- the account unless the prefix is that of the key before.
  unfoldable pub read_key : Bytes → Bytes → Result Ending (Bytes × Option AccountInfo)
  read_key ident key = do
    start ← part_end key 1
    end ← part_end key start
    own ← slice_to key end
    if eq_bytes own ident
        then ok (own, none)
        else (do info ← info_at key start end; ok (own, some info))

  module _ (b : Badger) where
    open b use {Db, Item, get, item_key, value, seek, next}

    -- The loop over the keys of accounts, from the last one down; `ident` is the prefix of the key
    -- before.
    unfoldable pub collect : ℕ → Db → Bytes → Option Item → Result Ending (List AccountInfo)
    unfolding read_key put_found
    collect zero d ident o = err endless
    collect (suc fuel) d ident none = ok []
    collect (suc fuel) d ident (some i) = elim (has_prefix (b'a' ∷ []) (item_key i)) [
      | false ↦ ok []
      | true ↦ do
        (own, found) ← read_key ident (item_key i)
        infos ← collect fuel d own (next d i)
        ok (put_found found infos)
    ]

    module _ (x : Execution) where
      -- The balance that the node has.
      unfoldable pub balance_in : AccountInfo → Option ℤ
      balance_in info =
          if info.native
          then native_balance_of x info.acct info.contract
          else balance_of x info.acct info.contract

      -- The comparison with the stored value: whether they are different, or the value cannot be read.
      unfoldable pub differs : Item → ℤ → Bool
      differs item balance = elim (value item) [
        | err e ↦ true
        | ok val ↦ not (eq_ℤ (pos (set_bytes val)) balance)
      ]

      -- One round of the loop over the accounts; the result is whether it logs a warning.
      unfoldable pub check_balance : Db → AccountInfo → Result Ending Bool
      unfolding balance_in differs
      check_balance d info = do
        balance ← or_err (balance_in info) fatal
        elim (get d info.key) [
          | err e ↦ err fatal
          | ok item ↦
              if differs item balance
              then (if info.native then err fatal else ok true)
              else ok false
        ]

      -- The accounts that a warning is logged for.
      unfoldable pub check_balances : Db → List AccountInfo → Result Ending (List AccountInfo)
      unfolding check_balance
      check_balances d [] = ok []
      check_balances d (info ∷ infos) = do
        warned ← check_balance d info
        rest ← check_balances d infos
        ok (if warned then info ∷ rest else rest)

      -- Validate, for the height of the node
      unfoldable pub validate : ℕ → Store b → ℕ → Result Ending (List AccountInfo)
      unfolding check_balances
      validate fuel s latest =
          if get_height b s == latest
          then (collect fuel s.db [] (seek s.db (b'b' ∷ []))
              >>= (λ infos. check_balances s.db infos))
          else err fatal
