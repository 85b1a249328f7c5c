-- ===== src/Services/Opening/Runs.antt =====
-- NewStore on an empty database, offline.
use ontology_rosetta.Common.{◌≡◌, refl, true, none, some, [], ◌∷◌}
use ontology_rosetta.Common.Result.{ok}
use ontology_rosetta.Services.Store.{Store}
use ontology_rosetta.Services.Opening.{native_table, token_table, new_store}
use ontology_rosetta.Services.Examples.Healthy.{disk}
use ontology_rosetta.Services.Examples.Names.{names, natives}
use ontology_rosetta.Services.Examples.Tokens.{constants, token}

abbrev pub opened : Store disk
opened = record {
  db = [];
  height_indexed = none;
  height_synced = none;
  tokens = token_table names (token ∷ []) (native_table names natives constants);
}

pub opened_ok : new_store disk names natives constants (some []) (token ∷ []) true 0 ≡ ok opened
unfolding new_store
opened_ok = refl
