-- ===== src/Services/Construction/Metadata/Runs.antt =====
-- ConstructionMetadata on concrete options.
use ontology_rosetta.Common.{◌≡◌, refl, false, none, some, []}
use ontology_rosetta.Common.Bytes.{eq_bytes}
use ontology_rosetta.Common.Result.{ok, ◌>>=◌}
use ontology_rosetta.Services.Keys.{txn_hash_key}
use ontology_rosetta.Services.Address.{is_native}
use ontology_rosetta.Services.Store.{lookup_token}
use ontology_rosetta.Services.Account.{check_unsigned_tx_hash}
use ontology_rosetta.Services.Construction.{construct_transfer}
use ontology_rosetta.Services.Construction.Fields.{
  decode_protobuf, encode_protobuf, hex_encode, hex_char,
}
use ontology_rosetta.Services.Construction.Metadata.{
  no_block, set_price, set_limit, is_taken, keep_nonce, set_nonce, construction_metadata,
}
use ontology_rosetta.Services.Examples.Healthy.{disk, disk-IsHealthy, disk-IsEmpty}
use ontology_rosetta.Services.Examples.Names.{names, natives, of_length}
use ontology_rosetta.Services.Examples.Chain.{fresh, hash_at}
use ontology_rosetta.Services.Examples.Transactions.{transactions, sample, carried, is_sample}

sample_free : is_taken transactions names natives fresh.tokens disk fresh sample ≡ ok false
unfolding is_taken construct_transfer check_unsigned_tx_hash lookup_token eq_bytes of_length
    is_native
sample_free =
    rw
      (
        disk-IsHealthy.get_none [] (txn_hash_key (hash_at 5)) (disk-IsEmpty _),
        check_unsigned_tx_hash,
      )
      refl

pub metadata_carried :
    decode_protobuf transactions names carried ≡ ok sample
    → construction_metadata transactions names natives fresh.tokens disk fresh false
        (some no_block)
        (λ i. none)
        carried
      ≡ ok carried
unfolding construction_metadata set_price set_limit set_nonce keep_nonce encode_protobuf hex_encode
    hex_char is_sample eq_bytes
metadata_carried d = rw (d, ◌>>=◌) (rw (sample_free, ◌>>=◌) refl)
