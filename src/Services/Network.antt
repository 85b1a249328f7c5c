-- ===== src/Services/Network.antt =====
-- services/network_service.go, over the peers that the node answers with.
pub mod Status
use ontology_rosetta.Common.{ℕ, Bool, true, false, Option, none, some, List, [], ◌∷◌, map}
use ontology_rosetta.Common.Result.{Result, ok, err, ◌>>=◌, or_err}
use ontology_rosetta.Common.Text.{Text, codes}
use ontology_rosetta.Services.Ontology.{Library}
use ontology_rosetta.Services.Errors
use ontology_rosetta.Services.Errors.{ErrorKind, Api, api, panic}
use ontology_rosetta.Services.Types.{BlockId, BlockIdentifier, SyncStatus, block_timestamp}
use ontology_rosetta.Services.Badger.{Badger, Proto}
use ontology_rosetta.Services.Store.{Store, get_height, sync_status}
use ontology_rosetta.Services.Lookup.{zero_hash, get_block_info_raw}
use ontology_rosetta.Services.Operations.{op_burn, op_gas_fee, op_mint, op_transfer, status_success}

-- A neighbour as the p2p server shows it, its identifier in hex and its contact time as a text.
pub record Neighbour : Type 0 where
  pub id : Text
  pub address : Text
  pub height : ℕ
  pub last_contact : Text
  pub relay : Bool
  pub soft_version : Text

-- types.Peer, with its metadata.
pub record Peer : Type 0 where
  pub peer_id : Text
  pub address : Text
  pub height : ℕ
  pub last_contact : Text
  pub relay : Bool
  pub self : Text
  pub version : Text

pub record NetworkStatusView : Type 0 where
  pub current_block_identifier : BlockIdentifier
  pub current_block_timestamp : ℕ
  pub genesis_block_identifier : BlockIdentifier
  pub peers : List Peer
  pub sync_status : SyncStatus

pub record OptionsView : Type 0 where
  pub errors : List ErrorKind
  pub historical_balance_lookup : Bool
  pub operation_statuses : List (Text × Bool)
  pub operation_types : List Text

abbrev status_failed : Text
status_failed = codes "FAILED"

-- opTypes
abbrev pub op_types : List Text
op_types = op_burn ∷ op_gas_fee ∷ op_mint ∷ op_transfer ∷ []

-- NetworkOptions, for the errors that the package has registered
pub network_options : List ErrorKind → OptionsView
network_options errors = record {
  errors = errors;
  historical_balance_lookup = true;
  operation_statuses = (status_success, true) ∷ (status_failed, false) ∷ [];
  operation_types = op_types;
}

pub peer_of : Text → Neighbour → Peer
peer_of self p = record {
  peer_id = p.id;
  address = p.address;
  height = p.height;
  last_contact = p.last_contact;
  relay = p.relay;
  self = self;
  version = p.soft_version;
}

abbrev pub block_at : ℕ → BlockId
block_at height = record { by_height = true; hash = zero_hash; height = height }

module _ (b : Badger) (p : Proto) (l : Library) where
  -- NetworkStatus; `self` is the identifier of the node.
  pub network_status : Bool → Store b → Text → List Neighbour → Api NetworkStatusView
  unfolding peer_of
  network_status true s self neighbours = err (api Errors.offline_mode)
  network_status false s self neighbours = do
    cur ← get_block_info_raw b p l s (block_at (get_height b s)) true
    genesis ← get_block_info_raw b p l s (block_at 0) false
    status ← or_err (sync_status b s) panic
    ok (record {
      current_block_identifier = cur.block_id;
      current_block_timestamp = block_timestamp cur;
      genesis_block_identifier = genesis.block_id;
      peers = map (peer_of self) neighbours;
      sync_status = status;
    })
