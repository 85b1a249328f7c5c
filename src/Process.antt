-- ===== src/Process.antt =====
-- process/process.go: the registry of signal handlers, Exit and the loop of handleSignals.
pub mod Order
pub mod Once
pub mod Twice
use ontology_rosetta.Common.{
  ℕ, ◌≡◌, Bool, true, false, ◌||◌, Option, none, some, List, [], ◌∷◌, ◌++◌, All, ◌≢◌, if◌then◌else◌,
  ◌==◌,
}

-- os.Interrupt, syscall.SIGTERM and the other signals, by their numbers.
pub data Signal : Type 0 where
  interrupt sigterm : Signal
  other_signal : ℕ → Signal

abbrev pub same : Signal → Signal → Bool
same interrupt interrupt = true
same sigterm sigterm = true
same (other_signal a) (other_signal b) = a == b
same _ _ = false

abbrev pub ends : Signal → Bool
ends interrupt = true
ends sigterm = true
ends (other_signal a) = false

-- What the handlers and the goroutines do to the rest of the program, whose state is a `W`: the call of
-- a handler leaves a state, or cannot go on in this one; and a goroutine moves from a state to another.
pub record Program (H G W : Type 0) : Type 1 where
  pub call : H → W → Option W
  pub moves : G → W → W → Type 0

-- The handlers that the goroutine of handleSignals has yet to call for a signal, and the status with
-- which it then ends the process.
pub record SignalJob (H : Type 0) : Type 0 where
  pub todo : List H
  pub code : Option ℕ

-- A goroutine in Exit behind the lock, the handlers that it has yet to call, and the status.
pub record ExitJob (H G : Type 0) : Type 0 where
  pub caller : G
  pub todo : List H
  pub code : ℕ

-- The package's variables; the goroutines that are in Exit behind the lock, and the one of
-- handleSignals, where it handles a signal; the handlers that each kind has called; the status of the
-- process when it has ended; and the state of the rest of the program.
pub record Process (H G W : Type 0) : Type 0 where
  pub exiting : Bool
  pub registry : Signal → List H
  pub exit_jobs : List (ExitJob H G)
  pub signal_job : Option (SignalJob H)
  pub exit_ran : List H
  pub signal_ran : List H
  pub status : Option ℕ
  pub world : W

unfoldable pub prepend : {H : Type 0} → List H → H → List H
prepend xs handler = handler ∷ xs

module _ {H G W : Type 0} where
  -- `registry[signal] = prepend(registry[signal], handler)`
  unfoldable pub set_signal_handler : Signal → H → Process H G W → Process H G W
  unfolding prepend
  set_signal_handler signal handler p = record p {
    registry =
        λ (s : Signal). if same s signal then prepend (p.registry signal) handler else p.registry s;
  }

  unfoldable pub set_exit_handler : H → Process H G W → Process H G W
  unfolding set_signal_handler
  set_exit_handler handler p =
      set_signal_handler sigterm handler (set_signal_handler interrupt handler p)

  -- The part of Exit under the lock.
  unfoldable pub enter_exit : G → ℕ → Process H G W → Process H G W
  enter_exit g code p = if p.exiting then p else record p {
    exiting = true;
    exit_jobs = record { caller = g; todo = p.registry interrupt; code = code } ∷ p.exit_jobs;
  }

  -- The part of the loop of handleSignals under the lock.
  unfoldable pub receive : Signal → Process H G W → Process H G W
  receive sig p = record p {
    exiting = p.exiting || ends sig;
    signal_job = some (record { todo = p.registry sig; code = if ends sig then some 1 else none });
  }

  -- What a process may do next, until it ends. A goroutine in Exit is any of those that are; one that
  -- is in Exit does nothing else.
  pub data Step (m : Program H G W) (p q : Process H G W) : Type 0 where
    register : (h : H) → p.status ≡ none → q ≡ set_exit_handler h p → Step m p q
    register_for :
        (sig : Signal) (h : H) → p.status ≡ none → q ≡ set_signal_handler sig h p → Step m p q
    call_exit : (g : G) (code : ℕ) → p.status ≡ none → q ≡ enter_exit g code p → Step m p q
    signalled :
        (sig : Signal) → p.status ≡ none → p.signal_job ≡ none → q ≡ receive sig p → Step m p q
    moves_on :
        (g : G) (w : W)
        → p.status ≡ none
        → All (λ (j : ExitJob H G). j.caller ≢ g) p.exit_jobs
        → m.moves g p.world w
        → q ≡ record p { world = w }
        → Step m p q
    exit_handler :
        (pre post : List (ExitJob H G)) (g : G) (h : H) (hs : List H) (code : ℕ) (w : W)
        → p.status ≡ none
        → p.exit_jobs ≡ pre ++ record { caller = g; todo = h ∷ hs; code = code } ∷ post
        → m.call h p.world ≡ some w
        → q ≡ record p {
          exit_jobs = pre ++ record { caller = g; todo = hs; code = code } ∷ post;
          exit_ran = p.exit_ran ++ h ∷ [];
          world = w;
        }
        → Step m p q
    exit_done :
        (pre post : List (ExitJob H G)) (g : G) (code : ℕ)
        → p.status ≡ none
        → p.exit_jobs ≡ pre ++ record { caller = g; todo = []; code = code } ∷ post
        → q ≡ record p { status = some code }
        → Step m p q
    signal_handler :
        (h : H) (hs : List H) (code : Option ℕ) (w : W)
        → p.status ≡ none
        → p.signal_job ≡ some (record { todo = h ∷ hs; code = code })
        → m.call h p.world ≡ some w
        → q ≡ record p {
          signal_job = some (record { todo = hs; code = code });
          signal_ran = p.signal_ran ++ h ∷ [];
          world = w;
        }
        → Step m p q
    signal_ends :
        (code : ℕ)
        → p.status ≡ none
        → p.signal_job ≡ some (record { todo = []; code = some code })
        → q ≡ record p { status = some code }
        → Step m p q
    signal_idle :
        p.status ≡ none
        → p.signal_job ≡ some (record { todo = []; code = none })
        → q ≡ record p { signal_job = none }
        → Step m p q

  pub data Reach (m : Program H G W) (p : Process H G W) : Process H G W → Type 0 where
    here : Reach m p p
    next : {q r : Process H G W} → Reach m p q → Step m q r → Reach m p r

  pub Reach-trans :
      {m : Program H G W} {p q r : Process H G W} → Reach m p q → Reach m q r → Reach m p r
  Reach-trans a here = a
  Reach-trans a (next b s) = next (Reach-trans a b) s

  -- The process before any call.
  abbrev pub started : W → Process H G W
  started w = record {
    exiting = false;
    registry = λ s. [];
    exit_jobs = [];
    signal_job = none;
    exit_ran = [];
    signal_ran = [];
    status = none;
    world = w;
  }
