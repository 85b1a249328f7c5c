-- ===== src/Server/Shutdown/Stuck.antt =====
-- Exit, called by the goroutine of IndexBlocks while the server runs online.
use ontology_rosetta.Common.{
  ℕ, ◌≡◌, refl, sym, ◌∙◌, Bool, true, false, Option, none, some, List, [], ◌∷◌, ◌++◌, inl, inr,
  if◌then◌else◌, subst, ap, All, ◌≢◌,
}
use ontology_rosetta.Process.{
  interrupt, ends, ExitJob, set_signal_handler, set_exit_handler, enter_exit, receive, Step,
  register, register_for, call_exit, signalled, moves_on, exit_handler, exit_done, signal_handler,
  signal_ends, signal_idle, Reach, Reach-trans, here, next, started,
}
use ontology_rosetta.Process.Once.{one_split, or_true, enter_again, Reach-IsIdle}
use ontology_rosetta.Process.Order.{set_each, Reach-set_each}
use ontology_rosetta.Server.Shutdown.{
  ServerHandler, close_store, Routine, index_blocks, looping, Server, reports, server,
  online_handlers, Moves,
}
use ontology_rosetta.Server.Shutdown.Calls.{
  Online, HasClose, IsHeld, set_signal_handler-IsHeld, set_exit_handler-IsHeld, receive-HasClose,
  call_open,
}
use ontology_rosetta.Server.Shutdown.Online.{serving}
use ontology_rosetta.Server.Shutdown.Usual.{IsOnline, Reach-IsOnline, serving-IsOnline}

-- The goroutine of IndexBlocks is in Exit, where it has the store still to close, as has any signal
-- that would end the process.
record IsStuck (p : Online) : Type 0 where
  set : IsHeld p
  exits : p.exiting ≡ true
  runs : p.status ≡ none
  empty : p.world.report ≡ false
  open_store : p.world.store ≡ true
  todo : List ServerHandler
  code : ℕ
  one_job : p.exit_jobs ≡ record { caller = index_blocks; todo = todo; code = code } ∷ []
  held : HasClose todo
  signals :
      (hs : List ServerHandler) (c : ℕ)
      → p.signal_job ≡ some (record { todo = hs; code = some c })
      → HasClose hs

HasClose-rest :
    (h : ServerHandler) (hs : List ServerHandler)
    → HasClose (h ∷ hs)
    → (h ≡ close_store → ⊥)
    → HasClose hs
unfolding HasClose
HasClose-rest h hs (inl e) ne = absurd (ne e)
HasClose-rest h hs (inr m) ne = m

HasClose-nil : HasClose [] → ⊥
unfolding HasClose
HasClose-nil x = x

stays :
    (p q : Online)
    → IsHeld q
    → q.exiting ≡ true
    → q.status ≡ p.status
    → q.exit_jobs ≡ p.exit_jobs
    → q.world.report ≡ false
    → q.world.store ≡ true
    → ((hs : List ServerHandler) (c : ℕ)
        → q.signal_job ≡ some (record { todo = hs; code = some c })
        → HasClose hs)
    → IsStuck p
    → IsStuck q
stays p q set x s j w o sig k = record {
  set = set;
  exits = x;
  runs = s ∙ k.runs;
  empty = w;
  open_store = o;
  todo = k.todo;
  code = k.code;
  one_job = j ∙ k.one_job;
  held = k.held;
  signals = sig;
}

-- Only the goroutine that is in Exit could report.
other-Moves :
    (g : Routine) (s t : Server)
    → Moves g s t
    → ((index_blocks ≢ g) → (t.report ≡ s.report) × (t.store ≡ s.store))
other-Moves g s t (reports l c e) ne = absurd (ne refl)

Step-IsStuck : {p q : Online} → Step (server false) p q → IsStuck p → IsStuck q
unfolding receive set_exit_handler set_signal_handler
Step-IsStuck {p} (register h s e) k = rw e (
    stays p _ (set_exit_handler-IsHeld h p k.set) k.exits refl refl k.empty k.open_store k.signals
      k)
Step-IsStuck {p} (register_for sig h s e) k = rw e (
    stays p _ (set_signal_handler-IsHeld sig h p k.set) k.exits refl refl k.empty k.open_store
      k.signals k)
Step-IsStuck {p} (call_exit g code s e) k = subst IsStuck (sym (e ∙ enter_again g code p k.exits)) k
Step-IsStuck {p} (signalled sig s j e) k = rw e (
    stays p _ k.set (or_true p.exiting (ends sig) k.exits) refl refl k.empty k.open_store
      (λ hs c. receive-HasClose sig p hs c k.set) k)
Step-IsStuck {p} (moves_on g w s a v e) k =
    let (ne, _) = subst (All (λ (j : ExitJob ServerHandler Routine). j.caller ≢ g)) k.one_job a in
    let (r, o) = other-Moves g p.world w v ne in
    rw e (stays p _ k.set k.exits refl refl (r ∙ k.empty) (o ∙ k.open_store) k.signals k)
Step-IsStuck {p} (exit_handler pre post g h hs code w s j v e) k =
    let (none_before, none_after, same) = one_split _ _ pre post (sym k.one_job ∙ j) in
    let (ne, r, o) = call_open h p.world w v k.empty in
    let who : index_blocks ≡ g = ap (λ (x : ExitJob ServerHandler Routine). x.caller) same in
    rw e (record {
      set = k.set;
      exits = k.exits;
      runs = k.runs;
      empty = r;
      open_store = o ∙ k.open_store;
      todo = hs;
      code = code;
      one_job = λ i.
          none_before i ++ record { caller = sym who i; todo = hs; code = code } ∷ none_after i;
      held =
          HasClose-rest h hs
            (subst HasClose (ap (λ (x : ExitJob ServerHandler Routine). x.todo) same) k.held) ne;
      signals = k.signals;
    })
Step-IsStuck {p} (exit_done pre post g code s j e) k =
    let (_, _, same) = one_split _ _ pre post (sym k.one_job ∙ j) in
    absurd (
      HasClose-nil
        (subst HasClose (ap (λ (x : ExitJob ServerHandler Routine). x.todo) same) k.held))
Step-IsStuck {p} (signal_handler h hs code w s j v e) k =
    let (ne, r, o) = call_open h p.world w v k.empty in
    rw e (
      stays p _ k.set k.exits refl refl r (o ∙ k.open_store)
        (λ hs' c f.
          let same : code ≡ some c = cc f in
          let rest : hs ≡ hs' = cc f in
          subst HasClose rest (
            HasClose-rest h hs
              (k.signals (h ∷ hs) c
                (j ∙ ap (λ (x : Option ℕ). some (record { todo = h ∷ hs; code = x })) same))
              ne))
        k)
Step-IsStuck {p} (signal_ends code s j e) k = absurd (HasClose-nil (k.signals [] code j))
Step-IsStuck {p} (signal_idle s j e) k =
    rw e (stays p _ k.set k.exits refl refl k.empty k.open_store (λ hs c f. absurd (cc f)) k)

Reach-IsStuck : {p q : Online} → IsStuck p → Reach (server false) p q → IsStuck q
Reach-IsStuck k here = k
Reach-IsStuck k (next r s) = Step-IsStuck s (Reach-IsStuck k r)

-- What Exit makes of a process in which nothing exits.
abbrev taking : ℕ → Online → Online
taking code p = record p {
  exiting = true;
  exit_jobs =
      record { caller = index_blocks; todo = p.registry interrupt; code = code } ∷ p.exit_jobs;
}

enter_exit-IsStuck :
    (code : ℕ) (p : Online)
    → IsOnline p
    → p.exiting ≡ false
    → p.exit_jobs ≡ []
    → p.status ≡ none
    → p.world.indexing ≡ looping
    → IsStuck (enter_exit index_blocks code p)
unfolding enter_exit
enter_exit-IsStuck code p o f j s l =
    let (r, open_store) = o.works l in
    subst IsStuck (sym (ap (λ (b : Bool). if b then p else taking code p) f)) (record {
      set = o.set;
      exits = refl;
      runs = s;
      empty = r;
      open_store = open_store;
      todo = p.registry interrupt;
      code = code;
      one_job =
          ap
            (λ (js : List (ExitJob ServerHandler Routine)).
              record { caller = index_blocks; todo = p.registry interrupt; code = code } ∷ js)
            j;
      held = o.set.0;
      signals = λ hs c e. absurd (cc (f, o.quiet hs c e));
    })

-- While the server runs online, let the goroutine of IndexBlocks, in its loop, be the first to call
-- Exit, by log.Fatalf. Then however the goroutines take turns, whatever signals arrive, whatever
-- handlers are set and however often Exit is called again, the process does not end and the store is
-- not closed.
pub Reach-enter_exit_stuck :
    (http_started : Bool) (code : ℕ) {p q : Online}
    → Reach (server false) (set_each (online_handlers http_started) (started serving)) p
    → p.exiting ≡ false
    → p.status ≡ none
    → p.world.indexing ≡ looping
    → Reach (server false) (enter_exit index_blocks code p) q
    → (q.status ≡ none) × (q.world.store ≡ true)
Reach-enter_exit_stuck http_started code {p} r f s l r' =
    let o = Reach-IsOnline (serving-IsOnline http_started) r in
    let idle =
      Reach-IsIdle serving
        (Reach-trans (Reach-set_each (online_handlers http_started) (started serving) refl) r) in
    elim idle [
      | inl t ↦ absurd (cc (f, t))
      | inr (j, _) ↦
          let k = Reach-IsStuck (enter_exit-IsStuck code p o f j s l) r' in (k.runs, k.open_store)
    ]
