-- ===== src/Process/Once.antt =====
-- However many goroutines call Exit, the handlers that the first one took run once each, in order.
use ontology_rosetta.Common.{
  ℕ, ◌≡◌, refl, sym, ap, ◌∙◌, Bool, true, false, ◌||◌, List, [], ◌∷◌, ◌++◌, append_assoc, ◌⊎◌, inl,
  inr,
}
use ontology_rosetta.Process.{
  interrupt, ends, ExitJob, Process, Program, set_signal_handler, set_exit_handler, enter_exit,
  receive, Step, register, register_for, call_exit, signalled, moves_on, exit_handler, exit_done,
  signal_handler, signal_ends, signal_idle, Reach, here, next, started,
}

nil_split : {A : Type 0} (pre post : List A) (a : A) → [] ≡ pre ++ a ∷ post → ⊥
nil_split [] post a e = cc e
nil_split (x ∷ pre) post a e = cc e

pub one_split :
    {A : Type 0} (x a : A) (pre post : List A)
    → x ∷ [] ≡ pre ++ a ∷ post
    → (pre ≡ []) × (post ≡ []) × (x ≡ a)
one_split x a [] [] e = (refl, refl, cc e)
one_split x a [] (y ∷ post) e = absurd (cc e)
one_split x a (y ∷ pre) post e = absurd (nil_split pre post a (cc e))

pub or_true : (a b : Bool) → a ≡ true → (a || b) ≡ true
or_true true b e = refl
or_true false b e = absurd (cc e)

module _ {H G W : Type 0} where
  -- Before Exit is called nothing of it has run.
  abbrev pub IsIdle : Process H G W → Type 0
  IsIdle p = (p.exiting ≡ true) ⊎ ((p.exit_jobs ≡ []) × (p.exit_ran ≡ []))

  enter_exit-IsIdle :
      (g : G) (code : ℕ) (p : Process H G W) → IsIdle p → IsIdle (enter_exit g code p)
  unfolding enter_exit
  enter_exit-IsIdle g code p i = by_exiting p.exiting refl
    where
      by_exiting : (x : Bool) → p.exiting ≡ x → IsIdle (enter_exit g code p)
      by_exiting true e = rw e (inl refl)
      by_exiting false e = rw e (inl refl)

  Step-IsIdle : {m : Program H G W} {p q : Process H G W} → Step m p q → IsIdle p → IsIdle q
  unfolding set_exit_handler set_signal_handler receive
  Step-IsIdle (register h s e) i = rw e i
  Step-IsIdle (register_for sig h s e) i = rw e i
  Step-IsIdle {p} (call_exit g code s e) i = rw e (enter_exit-IsIdle g code p i)
  Step-IsIdle {p} (signalled sig s j e) (inl x) = rw e (inl (or_true p.exiting (ends sig) x))
  Step-IsIdle (signalled sig s j e) (inr x) = rw e (inr x)
  Step-IsIdle (moves_on g w s a v e) i = rw e i
  Step-IsIdle (exit_handler pre post g h hs code w s j v e) (inl x) = rw e (inl x)
  Step-IsIdle (exit_handler pre post g h hs code w s j v e) (inr x) =
      absurd (nil_split pre post _ (sym x.0 ∙ j))
  Step-IsIdle (exit_done pre post g code s j e) i = rw e i
  Step-IsIdle (signal_handler h hs code w s j v e) i = rw e i
  Step-IsIdle (signal_ends code s j e) i = rw e i
  Step-IsIdle (signal_idle s j e) i = rw e i

  pub Reach-IsIdle :
      {m : Program H G W} (w : W) {p : Process H G W} → Reach m (started w) p → IsIdle p
  Reach-IsIdle w here = inr (refl, refl)
  Reach-IsIdle w (next r s) = Step-IsIdle s (Reach-IsIdle w r)

  -- The goroutine `g` alone is in Exit; what it has called and has yet to call are together `taken`.
  pub record IsBehind (taken : List H) (g : G) (code : ℕ) (p : Process H G W) : Type 0 where
    pub exits : p.exiting ≡ true
    pub todo : List H
    pub one_job : p.exit_jobs ≡ record { caller = g; todo = todo; code = code } ∷ []
    pub together : p.exit_ran ++ todo ≡ taken

  enter_exit-IsBehind :
      (g : G) (code : ℕ) (p : Process H G W)
      → p.exiting ≡ false
      → IsIdle p
      → IsBehind (p.registry interrupt) g code (enter_exit g code p)
  unfolding enter_exit
  enter_exit-IsBehind g code p f (inl t) = absurd (cc (sym f ∙ t))
  enter_exit-IsBehind g code p f (inr i) = rw f (record {
    exits = refl;
    todo = p.registry interrupt;
    one_job = rw i.0 refl;
    together = rw i.1 refl;
  })

  pub enter_again :
      (g : G) (code : ℕ) (p : Process H G W) → p.exiting ≡ true → enter_exit g code p ≡ p
  unfolding enter_exit
  enter_again g code p t = rw t refl

  IsBehind-same :
      (taken : List H) (g : G) (code : ℕ) (p q : Process H G W)
      → (p.exiting ≡ true → q.exiting ≡ true)
      → q.exit_jobs ≡ p.exit_jobs
      → q.exit_ran ≡ p.exit_ran
      → IsBehind taken g code p
      → IsBehind taken g code q
  IsBehind-same taken g code p q x j r b = record {
    exits = x b.exits;
    todo = b.todo;
    one_job = j ∙ b.one_job;
    together = ap (λ (l : List H). l ++ b.todo) r ∙ b.together;
  }

  call_handler :
      (taken : List H) (g : G) (code : ℕ) (p q : Process H G W) (pre post : List (ExitJob H G))
      (g' : G) (h : H) (hs : List H) (c : ℕ) (w : W)
      → p.exit_jobs ≡ pre ++ record { caller = g'; todo = h ∷ hs; code = c } ∷ post
      → q ≡ record p {
        exit_jobs = pre ++ record { caller = g'; todo = hs; code = c } ∷ post;
        exit_ran = p.exit_ran ++ h ∷ [];
        world = w;
      }
      → IsBehind taken g code p
      → IsBehind taken g code q
  call_handler taken g code p q pre post g' h hs c w j e b =
      let (none_before, none_after, same) = one_split _ _ pre post (sym b.one_job ∙ j) in
      let first : b.todo ≡ h ∷ hs = ap (λ (x : ExitJob H G). x.todo) same in
      let own : code ≡ c = ap (λ (x : ExitJob H G). x.code) same in
      let who : g ≡ g' = ap (λ (x : ExitJob H G). x.caller) same in
      record {
        exits = ap (λ (x : Process H G W). x.exiting) e ∙ b.exits;
        todo = hs;
        one_job = ap (λ (x : Process H G W). x.exit_jobs) e ∙ (λ i.
            none_before i
            ++ record { caller = sym who i; todo = hs; code = sym own i } ∷ none_after i);
        together =
            ap (λ (x : Process H G W). x.exit_ran ++ hs) e
            ∙ append_assoc p.exit_ran (h ∷ []) hs
            ∙ ap (λ (l : List H). p.exit_ran ++ l) (sym first)
            ∙ b.together;
      }

  Step-IsBehind :
      {m : Program H G W} {p q : Process H G W} (taken : List H) (g : G) (code : ℕ)
      → Step m p q
      → IsBehind taken g code p
      → IsBehind taken g code q
  unfolding set_exit_handler set_signal_handler receive
  Step-IsBehind {p} {q} taken g code (register h s e) b =
      rw e (IsBehind-same taken g code p _ (λ x. x) refl refl b)
  Step-IsBehind {p} {q} taken g code (register_for sig h s e) b =
      rw e (IsBehind-same taken g code p _ (λ x. x) refl refl b)
  Step-IsBehind {p} taken g code (call_exit g2 again s e) b =
      rw (e, enter_again g2 again p b.exits) b
  Step-IsBehind {p} taken g code (signalled sig s j e) b =
      rw e (IsBehind-same taken g code p _ (or_true p.exiting (ends sig)) refl refl b)
  Step-IsBehind {p} {q} taken g code (exit_handler pre post g2 h hs c w s j v e) b =
      call_handler taken g code p q pre post g2 h hs c w j e b
  Step-IsBehind {p} taken g code (moves_on g2 w s a v e) b =
      rw e (IsBehind-same taken g code p _ (λ x. x) refl refl b)
  Step-IsBehind {p} taken g code (exit_done pre post g2 c s j e) b =
      rw e (IsBehind-same taken g code p _ (λ x. x) refl refl b)
  Step-IsBehind {p} taken g code (signal_handler h hs c w s j v e) b =
      rw e (IsBehind-same taken g code p _ (λ x. x) refl refl b)
  Step-IsBehind {p} taken g code (signal_ends c s j e) b =
      rw e (IsBehind-same taken g code p _ (λ x. x) refl refl b)
  Step-IsBehind {p} taken g code (signal_idle s j e) b =
      rw e (IsBehind-same taken g code p _ (λ x. x) refl refl b)

  Reach-IsBehind :
      {m : Program H G W} {p q : Process H G W} (taken : List H) (g : G) (code : ℕ)
      → IsBehind taken g code p
      → Reach m p q
      → IsBehind taken g code q
  Reach-IsBehind taken g code b here = b
  Reach-IsBehind taken g code b (next r s) =
      Step-IsBehind taken g code s (Reach-IsBehind taken g code b r)

  -- From the first call of Exit on, however the goroutines take turns, whatever handlers are set and
  -- however often Exit is called again: the goroutine of that call alone is in Exit, and the handlers
  -- that Exit has called and those that it has yet to call are together, in order and each once, those
  -- that were registered for os.Interrupt at the time of the call.
  pub Reach-IsBehind-enter_exit :
      {m : Program H G W} {p q : Process H G W} (w : W) (g : G) (code : ℕ)
      → Reach m (started w) p
      → p.exiting ≡ false
      → Reach m (enter_exit g code p) q
      → IsBehind (p.registry interrupt) g code q
  Reach-IsBehind-enter_exit {p} w g code r f r' =
      Reach-IsBehind (p.registry interrupt) g code
        (enter_exit-IsBehind g code p f (Reach-IsIdle w r)) r'
