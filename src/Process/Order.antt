-- ===== src/Process/Order.antt =====
-- The order in which Exit runs the handlers.
use mathlib.Core.List.{reverse, reverse-cons}
use ontology_rosetta.Common.{
  ℕ, ◌≡◌, refl, sym, ap, ◌∙◌, true, Option, none, some, List, [], ◌∷◌, ◌++◌, append_assoc,
  append-nil, subst, inl, inr, Option-cases,
}
use ontology_rosetta.Process.{
  interrupt, sigterm, Process, Program, prepend, set_signal_handler, set_exit_handler, enter_exit,
  register, exit_handler, Reach, Reach-trans, here, next, started,
}

onto : {H : Type 0} (h : H) (hs xs : List H) → reverse hs ++ h ∷ xs ≡ reverse (h ∷ hs) ++ xs
onto {H = H} h hs xs =
    sym (append_assoc (reverse hs) (h ∷ []) xs)
    ∙ ap (λ (l : List H). l ++ xs) (sym (reverse-cons h hs))

module _ {H G W : Type 0} where
  -- Calls of SetExitHandler, one after the other.
  unfoldable pub set_each : List H → Process H G W → Process H G W
  set_each [] p = p
  set_each (h ∷ hs) p = set_each hs (set_exit_handler h p)

  pub Reach-set_each :
      {m : Program H G W} (hs : List H) (p : Process H G W)
      → p.status ≡ none
      → Reach m p (set_each hs p)
  unfolding set_each set_exit_handler set_signal_handler
  Reach-set_each [] p s = here
  Reach-set_each (h ∷ hs) p s =
      Reach-trans (next here (register h s refl)) (Reach-set_each hs (set_exit_handler h p) s)

  -- What the calls leave: their handlers in the reverse order, for both signals.
  pub record HasSet (p q : Process H G W) (hs : List H) : Type 0 where
    pub for_interrupt : q.registry interrupt ≡ reverse hs ++ p.registry interrupt
    pub for_sigterm : q.registry sigterm ≡ reverse hs ++ p.registry sigterm
    pub still : q ≡ record p { registry = q.registry }

  pub set_each-HasSet : (hs : List H) (p : Process H G W) → HasSet p (set_each hs p) hs
  unfolding set_each set_exit_handler set_signal_handler prepend
  set_each-HasSet [] p = record { for_interrupt = refl; for_sigterm = refl; still = refl }
  set_each-HasSet (h ∷ hs) p =
      let r = set_each-HasSet hs (set_exit_handler h p) in
      record {
        for_interrupt = r.for_interrupt ∙ onto h hs (p.registry interrupt);
        for_sigterm = r.for_sigterm ∙ onto h hs (p.registry sigterm);
        still = r.still;
      }

  -- The handlers, called one after the other.
  unfoldable pub call_each : Program H G W → List H → W → Option W
  call_each m [] w = some w
  call_each m (h ∷ hs) w = elim (m.call h w) [ none ↦ none | some w' ↦ call_each m hs w' ]

  pub call_each-cons :
      (m : Program H G W) (h : H) (hs : List H) (w w' : W)
      → call_each m (h ∷ hs) w ≡ some w'
      → (v : W) × (m.call h w ≡ some v) × (call_each m hs v ≡ some w')
  unfolding call_each
  call_each-cons m h hs w w' e = elim (Option-cases (m.call h w)) [
    | inl f ↦ absurd (cc (rw (f, call_each) at e))
    | inr (v, f) ↦ (v, f, rw (f, call_each) at e)
  ]

  -- A goroutine in Exit that is not disturbed calls its handlers, where none of them waits.
  pub exit_calls :
      {m : Program H G W} (hs rest : List H) (g : G) (code : ℕ) (p : Process H G W) (w : W)
      → p.status ≡ none
      → p.exit_jobs ≡ record { caller = g; todo = hs ++ rest; code = code } ∷ []
      → call_each m hs p.world ≡ some w
      → Reach m p (record p {
        exit_jobs = record { caller = g; todo = rest; code = code } ∷ [];
        exit_ran = p.exit_ran ++ hs;
        world = w;
      })
  unfolding call_each
  exit_calls {m} [] rest g code p w s j e =
      let same : p.world ≡ w = cc e in
      subst (Reach m p)
        (λ i. record p {
          exit_jobs = j i;
          exit_ran = sym (append-nil p.exit_ran) i;
          world = same i;
        })
        here
  exit_calls {m} (h ∷ hs) rest g code p w s j e =
      let (v, f, e') = call_each-cons m h hs p.world w e in
      let p1 : Process H G W = record p {
        exit_jobs = record { caller = g; todo = hs ++ rest; code = code } ∷ [];
        exit_ran = p.exit_ran ++ h ∷ [];
        world = v;
      } in
      subst
        (λ (l : List H). Reach m p (record p {
          exit_jobs = record { caller = g; todo = rest; code = code } ∷ [];
          exit_ran = l;
          world = w;
        }))
        (append_assoc p.exit_ran (h ∷ []) hs)
        (Reach-trans (next here (exit_handler [] [] g h (hs ++ rest) code v s j f refl))
          (exit_calls hs rest g code p1 w s refl e'))

  -- The process when Exit has taken the handlers.
  abbrev pub taken : List H → G → ℕ → W → Process H G W
  taken hs g code w = record (started w) {
    exiting = true;
    registry = (set_each hs (started w)).registry;
    exit_jobs = record { caller = g; todo = reverse hs; code = code } ∷ [];
  }

  pub enter_exit-taken :
      (hs : List H) (g : G) (code : ℕ) (w : W)
      → enter_exit g code (set_each hs (started w)) ≡ taken hs g code w
  unfolding enter_exit
  enter_exit-taken hs g code w =
      let r = set_each-HasSet hs (started w) in
      ap (enter_exit g code) r.still ∙ (λ i. record (started w) {
        exiting = true;
        registry = (set_each hs (started w)).registry;
        exit_jobs =
            record { caller = g; todo = (r.for_interrupt ∙ append-nil (reverse hs)) i; code = code }
            ∷ [];
      })

  pub sigterm-taken :
      (hs : List H) (g : G) (code : ℕ) (w : W) → (taken hs g code w).registry sigterm ≡ reverse hs
  sigterm-taken hs g code w = (set_each-HasSet hs (started w)).for_sigterm ∙ append-nil (reverse hs)
