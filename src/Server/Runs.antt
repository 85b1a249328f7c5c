-- ===== src/Server/Runs.antt =====
-- The theorems on Exit and on the server's handlers, at concrete handlers.
use mathlib.Core.List.{reverse}
use ontology_rosetta.Common.{◌≡◌, ◌≢◌, refl, true, false, none, some, [], ◌∷◌}
use ontology_rosetta.Process.{
  interrupt, enter_exit, register, exit_handler, Reach, here, next, started, set_exit_handler,
  set_signal_handler, prepend,
}
use ontology_rosetta.Process.Once.{IsBehind, Reach-IsBehind-enter_exit}
use ontology_rosetta.Process.Order.{set_each}
use ontology_rosetta.Process.Twice.{RanTwice, enter_exit-RanTwice}
use ontology_rosetta.Server.Shutdown.{
  ServerHandler, close_ledger, close_store, cancel_indexing, shut_down_http, index_blocks,
  other_routine, absent, Server, handle, server, online_handlers, offline_handlers,
}
use ontology_rosetta.Server.Shutdown.Calls.{Online}
use ontology_rosetta.Server.Shutdown.Online.{serving, closed, enter_exit-closed}
use ontology_rosetta.Server.Shutdown.Stuck.{Reach-enter_exit_stuck}

-- The server that runs offline.
abbrev resting : Server
resting = record serving { indexing = absent; ledger = false }

-- Two handlers are set, and Exit has called the later one.
abbrev two_set : Online
two_set = set_exit_handler close_store (set_exit_handler close_ledger (started resting))

abbrev half_done : Online
half_done = record (enter_exit (other_routine 0) 3 two_set) {
  exit_jobs = record { caller = other_routine 0; todo = close_ledger ∷ []; code = 3 } ∷ [];
  exit_ran = close_store ∷ [];
  world = record resting { store = false };
}

Reach-IsBehind-enter_exit_example :
    IsBehind (two_set.registry interrupt) (other_routine 0) 3 half_done
unfolding enter_exit set_exit_handler set_signal_handler prepend handle
Reach-IsBehind-enter_exit_example =
    Reach-IsBehind-enter_exit {m = server true} {p = two_set} {q = half_done} resting
      (other_routine 0) 3
      (next (next here (register close_ledger refl refl)) (register close_store refl refl)) refl
      (next here (
        exit_handler [] [] (other_routine 0) close_store (close_ledger ∷ []) 3
          (record resting { store = false }) refl refl refl refl))

other_ne : index_blocks ≢ other_routine 0
other_ne e = cc e

enter_exit-closed_example :
    (q : Online) × Reach
      (server false)
      (enter_exit (other_routine 0) 0 (set_each (online_handlers true) (started serving)))
      q
    × (q.status ≡ some 0)
    × (q.exit_ran ≡ reverse (online_handlers true))
    × (q.world ≡ closed true)
enter_exit-closed_example = enter_exit-closed true (other_routine 0) 0 other_ne

-- Exit, called by IndexBlocks, has stopped the HTTP server.
abbrev halted : Online
halted = record (enter_exit index_blocks 1 (set_each (online_handlers true) (started serving))) {
  exit_jobs =
      record {
        caller = index_blocks;
        todo = cancel_indexing ∷ close_store ∷ close_ledger ∷ [];
        code = 1;
      }
      ∷ [];
  exit_ran = shut_down_http ∷ [];
  world = record serving { http = false };
}

Reach-enter_exit_stuck_example : (halted.status ≡ none) × (halted.world.store ≡ true)
unfolding enter_exit set_each set_exit_handler set_signal_handler prepend handle online_handlers
Reach-enter_exit_stuck_example =
    Reach-enter_exit_stuck true 1 {p = set_each (online_handlers true) (started serving)}
      {q = halted} here refl refl refl
      (next here (
        exit_handler [] [] index_blocks shut_down_http
          (cancel_indexing ∷ close_store ∷ close_ledger ∷ []) 1 (record serving { http = false })
          refl refl refl refl))

-- Offline no handler waits.
offline_calls : (h : ServerHandler) (s : Server) → (t : Server) × (handle true h s ≡ some t)
unfolding handle
offline_calls close_ledger s = (_, refl)
offline_calls close_store s = (_, refl)
offline_calls cancel_indexing s = (_, refl)
offline_calls shut_down_http s = (_, refl)

enter_exit-RanTwice_example :
    (q : Online) × Reach
      (server true)
      (enter_exit (other_routine 0) 0 (set_each (offline_handlers true) (started resting)))
      q
    × RanTwice (offline_handlers true) q
enter_exit-RanTwice_example =
    enter_exit-RanTwice (server true) offline_calls (offline_handlers true) resting
      (other_routine 0) 0
