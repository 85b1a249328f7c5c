-- ===== src/Server/Shutdown/Usual.antt =====
-- The server online, before Exit is called.
use mathlib.Core.List.{reverse}
use ontology_rosetta.Common.{
  ℕ, ◌≡◌, refl, sym, ◌∙◌, Bool, true, false, Option, some, List, [], ◌∷◌, ◌++◌, inl, inr, subst,
  Bool-cases, ap,
}
use ontology_rosetta.Process.{
  set_signal_handler, set_exit_handler, enter_exit, receive, Step, register, register_for,
  call_exit, signalled, moves_on, exit_handler, exit_done, signal_handler, signal_ends, signal_idle,
  Reach, here, next, started,
}
use ontology_rosetta.Process.Once.{enter_again}
use ontology_rosetta.Process.Order.{set_each, set_each-HasSet}
use ontology_rosetta.Server.Shutdown.{ServerHandler, Routine, server, online_handlers}
use ontology_rosetta.Server.Shutdown.Calls.{
  Online, HasClose, IsHeld, set_signal_handler-IsHeld, set_exit_handler-IsHeld, receive-exiting,
  IsWorking, call-IsWorking, move-IsWorking,
}
use ontology_rosetta.Server.Shutdown.Online.{serving}

-- The process while it runs as usual: no signal that is handled ends it.
pub record IsOnline (p : Online) : Type 0 where
  pub set : IsHeld p
  pub works : IsWorking p.world
  pub quiet :
      (todo : List ServerHandler) (code : ℕ)
      → p.signal_job ≡ some (record { todo = todo; code = some code })
      → p.exiting ≡ true

enter_exit-IsOnline :
    (g : Routine) (code : ℕ) (p : Online) → IsOnline p → IsOnline (enter_exit g code p)
unfolding enter_exit
enter_exit-IsOnline g code p o = elim (Bool-cases p.exiting) [
  | inl e ↦ subst IsOnline (sym (enter_again g code p e)) o
  | inr e ↦ rw e (record { set = o.set; works = o.works; quiet = λ todo c j. refl })
]

Step-IsOnline : {p q : Online} → Step (server false) p q → IsOnline p → IsOnline q
unfolding receive set_exit_handler set_signal_handler
Step-IsOnline {p} (register h s e) o =
    rw e (record { set = set_exit_handler-IsHeld h p o.set; works = o.works; quiet = o.quiet })
Step-IsOnline {p} (register_for sig h s e) o =
    rw e
      (record { set = set_signal_handler-IsHeld sig h p o.set; works = o.works; quiet = o.quiet })
Step-IsOnline {p} (call_exit g code s e) o = rw e (enter_exit-IsOnline g code p o)
Step-IsOnline {p} (signalled sig s j e) o =
    rw e (record { set = o.set; works = o.works; quiet = receive-exiting sig p })
Step-IsOnline {p} (moves_on g w s a v e) o =
    rw e (record { set = o.set; works = move-IsWorking g p.world w v; quiet = o.quiet })
Step-IsOnline {p} (exit_handler pre post g h hs code w s j v e) o =
    rw e (record { set = o.set; works = call-IsWorking h p.world w v o.works; quiet = o.quiet })
Step-IsOnline {p} (exit_done pre post g code s j e) o =
    rw e (record { set = o.set; works = o.works; quiet = o.quiet })
Step-IsOnline {p} (signal_handler h hs code w s j v e) o = rw e (record {
  set = o.set;
  works = call-IsWorking h p.world w v o.works;
  quiet = λ todo c f.
      let same : code ≡ some c = cc f in
      o.quiet (h ∷ hs) c
        (j ∙ ap (λ (x : Option ℕ). some (record { todo = h ∷ hs; code = x })) same);
})
Step-IsOnline {p} (signal_ends code s j e) o =
    rw e (record { set = o.set; works = o.works; quiet = o.quiet })
Step-IsOnline {p} (signal_idle s j e) o =
    rw e (record { set = o.set; works = o.works; quiet = λ todo c f. absurd (cc f) })

pub Reach-IsOnline : {p q : Online} → IsOnline p → Reach (server false) p q → IsOnline q
Reach-IsOnline o here = o
Reach-IsOnline o (next r s) = Step-IsOnline s (Reach-IsOnline o r)

pub serving-IsOnline :
    (http_started : Bool) → IsOnline (set_each (online_handlers http_started) (started serving))
unfolding online_handlers HasClose
serving-IsOnline http_started =
    let p0 : Online = started serving in
    let r = set_each-HasSet {G = Routine} (online_handlers http_started) p0 in
    subst IsOnline (sym r.still) (record {
      set = (
        subst HasClose (sym r.for_interrupt) (reverse-HasClose http_started),
        subst HasClose (sym r.for_sigterm) (reverse-HasClose http_started),
      );
      works = λ l. (refl, refl);
      quiet = λ todo c e. absurd (cc e);
    })
  where
    reverse-HasClose : (b : Bool) → HasClose (reverse (online_handlers b) ++ [])
    reverse-HasClose true = inr (inr (inl refl))
    reverse-HasClose false = inr (inl refl)
