-- ===== src/Server/Shutdown.antt =====
-- The exit handlers that initLedger and initServer of main.go set, what they do to the server, and how
-- the goroutine of IndexBlocks ends.
pub mod Calls
pub mod Online
pub mod Stuck
pub mod Usual
use ontology_rosetta.Common.{
  ◌≡◌, Bool, true, false, ◌&&◌, not, Option, none, some, List, [], ◌∷◌, ◌++◌, if◌then◌else◌, ℕ,
}
use ontology_rosetta.Process.{Program}

pub data ServerHandler : Type 0 where
  close_ledger close_store cancel_indexing shut_down_http : ServerHandler

-- The goroutine of IndexBlocks, and the others.
pub data Routine : Type 0 where
  index_blocks : Routine
  other_routine : ℕ → Routine

-- IndexBlocks has not been started, is in its loop, or has returned.
pub data Indexing : Type 0 where
  absent looping returned : Indexing

-- What of the server is open; whether the context of IndexBlocks is cancelled; and whether its report
-- lies in the channel `done`, which holds one.
pub record Server : Type 0 where
  pub http : Bool
  pub cancelled : Bool
  pub indexing : Indexing
  pub report : Bool
  pub store : Bool
  pub ledger : Bool

-- What a handler does online or offline. The one that closes the store takes the report from the
-- channel, unless the server is offline; it cannot go on while the channel is empty. To close what is
-- closed does nothing.
unfoldable pub handle : Bool → ServerHandler → Server → Option Server
handle offline close_ledger s = some (record s { ledger = false })
handle offline close_store s =
    if offline
    then some (record s { store = false })
    else (if s.report then some (record s { report = false; store = false }) else none)
handle offline cancel_indexing s = some (record s { cancelled = true })
handle offline shut_down_http s = some (record s { http = false })

-- What a goroutine does to the server on its own: IndexBlocks, in its loop, finds its context cancelled,
-- puts its report into the channel and returns.
pub data Moves : Routine → Server → Server → Type 0 where
  reports :
      {s t : Server}
      → s.indexing ≡ looping
      → s.cancelled ≡ true
      → t ≡ record s { indexing = returned; report = true }
      → Moves index_blocks s t

abbrev pub server : Bool → Program ServerHandler Routine Server
server offline = record { call = handle offline; moves = Moves }

-- The handlers that runOnline sets, in order; the last one by the goroutine of the HTTP server, which
-- may not have started.
unfoldable pub online_handlers : Bool → List ServerHandler
online_handlers http_started =
    close_ledger
    ∷ close_store
    ∷ cancel_indexing
    ∷ (if http_started then shut_down_http ∷ [] else [])

-- Those that runOffline sets.
pub offline_handlers : Bool → List ServerHandler
offline_handlers http_started = close_store ∷ (if http_started then shut_down_http ∷ [] else [])
