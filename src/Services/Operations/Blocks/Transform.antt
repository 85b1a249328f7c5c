-- ===== src/Services/Operations/Blocks/Transform.antt =====
-- The entries that balanceCal writes into a block, as transformTransaction reads them.
use ontology_rosetta.Common.{◌≡◌, refl, Bool, true, List, [], ◌∷◌, map, All}
use ontology_rosetta.Common.Int.{pos}
use ontology_rosetta.Common.Big.{set_bytes-bytes_of_nat}
use ontology_rosetta.Common.Result.{ok, ◌>>=◌}
use ontology_rosetta.Services.Ontology.{Address, Hash, IsAddress, IsHash, Library, IsLibrary}
use ontology_rosetta.Services.Address.{Natives}
use ontology_rosetta.Services.Address.Compress.{slice2addr-addr2slice}
use ontology_rosetta.Services.Types.{Transfer, CurrencyInfo}
use ontology_rosetta.Services.Store.{get_currency_info}
use ontology_rosetta.Services.Indexer.{Xfer, balance_cal}
use ontology_rosetta.Services.Operations.{TransferInfo, Operation, append_operations}
use ontology_rosetta.Services.Operations.Blocks.{
  transfer_info, transform_loop, transform_transaction, address_or, info_or,
}

-- A decoded transfer with its token.
pub record Moved : Type 0 where
  pub xfer : Xfer
  pub info : CurrencyInfo
  pub contract : Address

pub record IsMovedBy (tokens : List (Address × CurrencyInfo)) (m : Moved) : Type 0 where
  pub from_len : IsAddress m.xfer.from
  pub to_len : IsAddress m.xfer.to
  pub contract_len : IsAddress m.contract
  pub known : get_currency_info tokens m.contract ≡ ok m.info

-- The entry that balanceCal returns, whatever `diffs` is.
abbrev pub written : Natives → Moved → Transfer
written n m = (balance_cal n m.xfer m.contract []).0

abbrev pub meant : Moved → TransferInfo
meant m = record {
  amount = pos m.xfer.amount;
  contract = m.contract;
  currency = m.info.currency;
  from = m.xfer.from;
  is_gas = m.xfer.is_gas;
  to = m.xfer.to;
}

-- The operations of some transfers behind `ops`.
pub operations_of : Library → Natives → List Operation → List TransferInfo → List Operation
operations_of l n ops [] = ops
operations_of l n ops (x ∷ xs) = operations_of l n (append_operations l n ops x true) xs

module _ (l : Library) (n : Natives) (tokens : List (Address × CurrencyInfo))
    (lib : IsLibrary l) where
  transfer_info-written :
      (m : Moved) → IsMovedBy tokens m → transfer_info l n tokens (written n m) ≡ ok (meant m)
  unfolding transfer_info address_or info_or balance_cal
  transfer_info-written m i =
      rw ((slice2addr-addr2slice l n m.contract lib i.contract_len).0, ◌>>=◌)
        (rw (i.known, ◌>>=◌)
          (rw ((slice2addr-addr2slice l n m.xfer.from lib i.from_len).0, ◌>>=◌)
            (rw ((slice2addr-addr2slice l n m.xfer.to lib i.to_len).0, ◌>>=◌)
              (rw (set_bytes-bytes_of_nat m.xfer.amount) refl))))

  transform_loop-written :
      (ms : List Moved) (ops : List Operation)
      → All (IsMovedBy tokens) ms
      → transform_loop l n tokens ops (map (written n) ms)
        ≡ ok (operations_of l n ops (map meant ms))
  unfolding transform_loop operations_of
  transform_loop-written [] ops a = refl
  transform_loop-written (m ∷ ms) ops (i, a) =
      rw (transfer_info-written m i, ◌>>=◌)
        (transform_loop-written ms (append_operations l n ops (meant m) true) a)

  -- A transaction whose entries balanceCal wrote, for transfers of registered tokens between
  -- 20-byte addresses, is shown without an error, under its hash, with the operations that
  -- appendOperations makes of these transfers.
  pub transform_transaction-written :
      (failed : Bool) (hash : Hash) (ms : List Moved)
      → IsHash hash
      → All (IsMovedBy tokens) ms
      → transform_transaction l n tokens
          (record { failed = failed; hash = hash; transfers = map (written n) ms })
        ≡ ok
            (record { operations = operations_of l n [] (map meant ms); hash = l.hash_to_hex hash })
  unfolding transform_transaction
  transform_transaction-written failed hash ms lh a =
      rw (lib.hash_parse_some hash lh, ◌>>=◌) (rw (transform_loop-written ms [] a, ◌>>=◌) refl)
