-- ===== src/Server/Shutdown/Online.antt =====
-- Exit on the server that runs online.
use mathlib.Core.List.{reverse}
use ontology_rosetta.Common.{
  ℕ, ◌≡◌, ◌≢◌, refl, sym, ap, Bool, true, false, some, List, [], ◌∷◌, ◌++◌, if◌then◌else◌, subst,
}
use ontology_rosetta.Process.{
  Process, enter_exit, moves_on, exit_done, Reach, Reach-trans, here, next, started,
}
use ontology_rosetta.Process.Order.{set_each, call_each, exit_calls, taken, enter_exit-taken}
use ontology_rosetta.Server.Shutdown.{
  ServerHandler, close_ledger, close_store, cancel_indexing, shut_down_http, Routine, index_blocks,
  looping, returned, Server, handle, reports, server, online_handlers,
}

-- The server in its normal state.
abbrev pub serving : Server
serving = record {
  http = true;
  cancelled = false;
  indexing = looping;
  report = false;
  store = true;
  ledger = true;
}

abbrev pub closed : Bool → Server
closed http_started = record {
  http = if http_started then false else true;
  cancelled = true;
  indexing = returned;
  report = false;
  store = false;
  ledger = false;
}

-- The handlers that Exit calls before IndexBlocks has reported, and those it calls then.
abbrev first : Bool → List ServerHandler
first http_started =
    if http_started then shut_down_http ∷ cancel_indexing ∷ [] else cancel_indexing ∷ []

abbrev last : List ServerHandler
last = close_store ∷ close_ledger ∷ []

in_order :
    (http_started : Bool) → reverse (online_handlers http_started) ≡ first http_started ++ last
unfolding online_handlers
in_order true = refl
in_order false = refl

abbrev cancelling : Bool → Server
cancelling http_started = record serving {
  http = if http_started then false else true;
  cancelled = true;
}

abbrev reported : Bool → Server
reported http_started = record (cancelling http_started) { indexing = returned; report = true }

first_calls :
    (http_started : Bool)
    → call_each (server false) (first http_started) serving ≡ some (cancelling http_started)
unfolding call_each handle
first_calls true = refl
first_calls false = refl

last_calls :
    (http_started : Bool)
    → call_each (server false) last (reported http_started) ≡ some (closed http_started)
unfolding call_each handle
last_calls http_started = refl

-- When a goroutine other than that of IndexBlocks calls Exit while the server runs online, the process
-- can come to its end with the code of the call, when every handler has run, in the reverse order in
-- which they were set: the HTTP server is stopped where it had started, the indexing is cancelled and
-- has returned, its report is taken, and the store and then the ledger are closed.
pub enter_exit-closed :
    (http_started : Bool) (g : Routine) (code : ℕ)
    → index_blocks ≢ g
    → (q : Process ServerHandler Routine Server) × Reach
        (server false)
        (enter_exit g code (set_each (online_handlers http_started) (started serving)))
        q
      × (q.status ≡ some code)
      × (q.exit_ran ≡ reverse (online_handlers http_started))
      × (q.world ≡ closed http_started)
enter_exit-closed http_started g code ne =
    let p0 : Process ServerHandler Routine Server =
      taken (online_handlers http_started) g code serving in
    let p1 : Process ServerHandler Routine Server = record p0 {
      exit_jobs = record { caller = g; todo = last; code = code } ∷ [];
      exit_ran = first http_started;
      world = cancelling http_started;
    } in
    let p2 : Process ServerHandler Routine Server = record p1 { world = reported http_started } in
    let p3 : Process ServerHandler Routine Server = record p2 {
      exit_jobs = record { caller = g; todo = []; code = code } ∷ [];
      exit_ran = first http_started ++ last;
      world = closed http_started;
    } in
    let q : Process ServerHandler Routine Server = record p3 { status = some code } in
    let to_report : Reach (server false) p0 p1 =
      exit_calls (first http_started) last g code p0 (cancelling http_started) refl
        (ap (λ (l : List ServerHandler). record { caller = g; todo = l; code = code } ∷ [])
          (in_order http_started))
        (first_calls http_started) in
    let report : Reach (server false) p1 p2 = next here (
      moves_on index_blocks (reported http_started) refl ((λ e. ne (sym e)), tt)
        (reports refl refl refl) refl) in
    let to_end : Reach (server false) p2 p3 =
      exit_calls last [] g code p2 (closed http_started) refl refl (last_calls http_started) in
    (
      q,
      subst (λ (p : Process ServerHandler Routine Server). Reach (server false) p q)
          (sym (enter_exit-taken (online_handlers http_started) g code serving))
          (next (Reach-trans (Reach-trans to_report report) to_end)
            (exit_done [] [] g code refl refl refl)),
      refl,
      sym (in_order http_started),
      refl,
    )
