-- ===== src/Services/Examples/OpRuns.antt =====
-- The theorems on operations and on the block endpoints, at concrete transfers and at the chain.
use ontology_rosetta.Common.{◌≡◌, refl, some, false, [], ◌∷◌, map, arith}
use ontology_rosetta.Common.Bytes.{eq_bytes}
use ontology_rosetta.Common.Int.{pos}
use ontology_rosetta.Common.Result.{ok, ◌>>=◌}
use ontology_rosetta.Services.Store.{Store, index_chain, lookup_token, get_currency_info}
use ontology_rosetta.Services.Store.History.{IsIndexed, index_chain-IsIndexed}
use ontology_rosetta.Services.Store.Runs.{validate_ont}
use ontology_rosetta.Services.Account.Historic.{at_index}
use ontology_rosetta.Services.Operations.{TransferInfo, append_operations}
use ontology_rosetta.Services.Operations.Validate.{validate_ops}
use ontology_rosetta.Services.Operations.Validate.RoundTrip.{validate_ops-append_operations}
use ontology_rosetta.Services.Operations.Blocks.{
  transform_transaction, block_endpoint, view_transactions,
}
use ontology_rosetta.Services.Operations.Blocks.Transform.{
  Moved, IsMovedBy, written, meant, operations_of, transform_transaction-written,
}
use ontology_rosetta.Services.Operations.Blocks.Parents.{identifier, block_endpoint-IsIndexed}
use ontology_rosetta.Services.Examples.Healthy.{disk, disk-IsHealthy, disk-IsEmpty}
use ontology_rosetta.Services.Examples.Names.{names, names-IsLibrary, natives, address, address_ne}
use ontology_rosetta.Services.Examples.Codec.{codec, codec-IsProto}
use ontology_rosetta.Services.Examples.Chain.{
  chain, chain-IsChain, chain-IsHashed, fresh, ont_info, hash_at,
}
use ontology_rosetta.Services.Examples.Node.{xfer_of}

abbrev wanted : TransferInfo
wanted = record {
  amount = pos 30;
  contract = natives.ont;
  currency = ont_info.currency;
  from = address 9;
  is_gas = false;
  to = address 8;
}

validate_ops-append_operations_example :
    validate_ops names natives fresh.tokens
      (map some (append_operations names natives [] wanted false))
    ≡ ok wanted
validate_ops-append_operations_example =
    validate_ops-append_operations names natives fresh.tokens names-IsLibrary wanted ont_info
      validate_ont refl (omega arith) 29 false refl refl refl (omega arith) (omega arith)
      (address_ne 9 0 (omega arith)) (address_ne 8 0 (omega arith)) (address_ne 9 0 (omega arith))

abbrev moved : Moved
moved = record { xfer = xfer_of 9 8 30; info = ont_info; contract = natives.ont }

moved-IsMovedBy : IsMovedBy fresh.tokens moved
unfolding lookup_token get_currency_info eq_bytes
moved-IsMovedBy = record {
  from_len = omega arith;
  to_len = omega arith;
  contract_len = omega arith;
  known = refl;
}

transform_transaction-written_example :
    transform_transaction names natives fresh.tokens
      (record { failed = false; hash = hash_at 3; transfers = map (written natives) (moved ∷ []) })
    ≡ ok (record {
      operations = operations_of names natives [] (map meant (moved ∷ []));
      hash = hash_at 3;
    })
transform_transaction-written_example =
    transform_transaction-written names natives fresh.tokens names-IsLibrary false (hash_at 3)
      (moved ∷ []) (omega arith) (moved-IsMovedBy, tt)

-- The store that indexing the chain leaves.
two_blocks :
    (s' : Store disk) × (index_chain disk codec chain fresh 2 ≡ ok s')
    × IsIndexed disk disk-IsHealthy natives chain chain-IsChain codec 2 s'.db
    × (s'.height_indexed ≡ some 1)
    × (s'.tokens ≡ fresh.tokens)
two_blocks =
    index_chain-IsIndexed disk disk-IsHealthy natives chain chain-IsChain codec codec-IsProto
      chain-IsHashed fresh disk-IsEmpty 1 (omega arith)

block_endpoint-IsIndexed_example :
    block_endpoint disk codec names natives false two_blocks.0
      (at_index disk disk-IsHealthy natives chain 1)
    ≡ (view_transactions names natives two_blocks.0.tokens [] >>= λ txs. ok (record {
      block_identifier =
          identifier disk disk-IsHealthy natives chain chain-IsChain chain-IsHashed codec names 1;
      parent_identifier = record { hash = hash_at 0; index = 0 };
      timestamp = 1600000001000;
      transactions = txs;
    }))
block_endpoint-IsIndexed_example =
    block_endpoint-IsIndexed disk disk-IsHealthy natives chain chain-IsChain chain-IsHashed codec
      names two_blocks.0 1 1 two_blocks.2 two_blocks.3 (omega arith) (omega arith)
