-- ===== src/Process/Twice.antt =====
-- A signal that arrives while Exit runs the handlers.
use mathlib.Core.List.{reverse}
use ontology_rosetta.Common.{
  ℕ, ◌≡◌, refl, sym, ap, none, some, List, [], ◌∷◌, ◌++◌, append_assoc, append-nil, subst,
}
use ontology_rosetta.Process.{
  sigterm, Process, Program, enter_exit, receive, signalled, signal_handler, signal_ends, Reach,
  Reach-trans, here, next, started,
}
use ontology_rosetta.Process.Order.{
  set_each, call_each, call_each-cons, exit_calls, taken, enter_exit-taken, sigterm-taken,
}

module _ {H G W : Type 0} where
  signal_calls :
      {m : Program H G W} (hs : List H) (p : Process H G W) (w : W)
      → p.status ≡ none
      → p.signal_job ≡ some (record { todo = hs; code = some 1 })
      → call_each m hs p.world ≡ some w
      → Reach m p (record p {
        signal_job = some (record { todo = []; code = some 1 });
        signal_ran = p.signal_ran ++ hs;
        world = w;
      })
  unfolding call_each
  signal_calls {m} [] p w s j e =
      let same : p.world ≡ w = cc e in
      subst (Reach m p)
        (λ i. record p {
          signal_job = j i;
          signal_ran = sym (append-nil p.signal_ran) i;
          world = same i;
        })
        here
  signal_calls {m} (h ∷ hs) p w s j e =
      let (v, f, e') = call_each-cons m h hs p.world w e in
      let p1 : Process H G W = record p {
        signal_job = some (record { todo = hs; code = some 1 });
        signal_ran = p.signal_ran ++ h ∷ [];
        world = v;
      } in
      subst
        (λ (l : List H). Reach m p (record p {
          signal_job = some (record { todo = []; code = some 1 });
          signal_ran = l;
          world = w;
        }))
        (append_assoc p.signal_ran (h ∷ []) hs)
        (Reach-trans (next here (signal_handler h hs (some 1) v s j f refl))
          (signal_calls hs p1 w s refl e'))

  -- Where each handler can go on in every state, so can a list of them.
  call_each-total :
      (m : Program H G W)
      → ((h : H) (w : W) → (w' : W) × (m.call h w ≡ some w'))
      → (hs : List H) (w : W) → (w' : W) × (call_each m hs w ≡ some w')
  unfolding call_each
  call_each-total m all [] w = (w, refl)
  call_each-total m all (h ∷ hs) w =
      let (v, f) = all h w in let (w', e) = call_each-total m all hs v in (w', rw (f, call_each) e)

  -- The handlers have run in Exit and for the signal, whose code ended the process.
  pub record RanTwice (hs : List H) (q : Process H G W) : Type 0 where
    pub for_exit : q.exit_ran ≡ reverse hs
    pub for_signal : q.signal_ran ≡ reverse hs
    pub ended : q.status ≡ some 1

  abbrev called : List H → G → ℕ → W → W → Process H G W
  called hs g code w v = record (taken hs g code w) {
    exit_jobs = record { caller = g; todo = []; code = code } ∷ [];
    exit_ran = reverse hs;
    world = v;
  }

  signal_job_of :
      (hs : List H) (g : G) (code : ℕ) (w v : W)
      → (receive sigterm (called hs g code w v)).signal_job
        ≡ some (record { todo = reverse hs; code = some 1 })
  unfolding receive
  signal_job_of hs g code w v =
      ap (λ (l : List H). some (record { todo = l; code = some 1 })) (sigterm-taken hs g code w)

  -- Where no handler ever waits, there is a run in which a SIGTERM arrives when Exit has called its
  -- handlers, but has not ended the process: every handler set by SetExitHandler runs a second time,
  -- and the process ends with the code 1 in place of that of Exit.
  pub enter_exit-RanTwice :
      (m : Program H G W)
      → ((h : H) (w : W) → (w' : W) × (m.call h w ≡ some w'))
      → (hs : List H) (w : W) (g : G) (code : ℕ)
      → (q : Process H G W) × Reach m (enter_exit g code (set_each hs (started w))) q
        × RanTwice hs q
  unfolding receive
  enter_exit-RanTwice m all hs w g code =
      let (v, e) = call_each-total m all (reverse hs) w in
      let (u, e') = call_each-total m all (reverse hs) v in
      let p2 : Process H G W = receive sigterm (called hs g code w v) in
      let q : Process H G W = record p2 {
        signal_job = some (record { todo = []; code = some 1 });
        signal_ran = reverse hs;
        status = some 1;
        world = u;
      } in
      let job : (taken hs g code w).exit_jobs
          ≡ record { caller = g; todo = reverse hs ++ []; code = code } ∷ [] =
        ap (λ (l : List H). record { caller = g; todo = l; code = code } ∷ [])
          (sym (append-nil (reverse hs))) in
      (
        q,
        subst (λ (p : Process H G W). Reach m p q) (sym (enter_exit-taken hs g code w))
            (next
              (Reach-trans
                (next (exit_calls (reverse hs) [] g code (taken hs g code w) v refl job e)
                  (signalled sigterm refl refl refl))
                (signal_calls (reverse hs) p2 u refl (signal_job_of hs g code w v) e'))
              (signal_ends 1 refl refl refl)),
        record { for_exit = refl; for_signal = refl; ended = refl },
      )
