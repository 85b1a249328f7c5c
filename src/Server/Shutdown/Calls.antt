-- ===== src/Server/Shutdown/Calls.antt =====
-- What keeps the handler of the store set, and the channel of the report empty, online.
use ontology_rosetta.Common.{
  ℕ, ◌≡◌, refl, sym, ◌∙◌, Bool, true, false, ◌||◌, some, List, [], ◌∷◌, ◌⊎◌, inl, inr, subst,
  Bool-cases, ap,
}
use ontology_rosetta.Process.{
  Signal, interrupt, sigterm, other_signal, Process, prepend, set_signal_handler, set_exit_handler,
  receive,
}
use ontology_rosetta.Server.Shutdown.{
  ServerHandler, close_ledger, close_store, cancel_indexing, shut_down_http, Routine, looping,
  Server, handle, reports, Moves,
}

-- A process of the server.
abbrev pub Online : Type 0
Online = Process ServerHandler Routine Server

-- The handler that closes the store is among some.
unfoldable pub HasClose : List ServerHandler → Type 0
HasClose [] = ⊥
HasClose (h ∷ hs) = (h ≡ close_store) ⊎ HasClose hs

-- It is set for both signals.
abbrev pub IsHeld : Online → Type 0
IsHeld p = HasClose (p.registry interrupt) × HasClose (p.registry sigterm)

pub set_signal_handler-IsHeld :
    (sig : Signal) (h : ServerHandler) (p : Online) → IsHeld p → IsHeld (set_signal_handler sig h p)
unfolding set_signal_handler prepend HasClose
set_signal_handler-IsHeld interrupt h p (a, b) = (inr a, b)
set_signal_handler-IsHeld sigterm h p (a, b) = (a, inr b)
set_signal_handler-IsHeld (other_signal n) h p (a, b) = (a, b)

pub set_exit_handler-IsHeld :
    (h : ServerHandler) (p : Online) → IsHeld p → IsHeld (set_exit_handler h p)
unfolding set_exit_handler
set_exit_handler-IsHeld h p b =
    set_signal_handler-IsHeld sigterm h (set_signal_handler interrupt h p)
      (set_signal_handler-IsHeld interrupt h p b)

pub receive-HasClose :
    (sig : Signal) (p : Online) (todo : List ServerHandler) (code : ℕ)
    → IsHeld p
    → (receive sig p).signal_job ≡ some (record { todo = todo; code = some code })
    → HasClose todo
unfolding receive
receive-HasClose interrupt p todo code (a, b) e =
    let same : p.registry interrupt ≡ todo = cc e in subst HasClose same a
receive-HasClose sigterm p todo code (a, b) e =
    let same : p.registry sigterm ≡ todo = cc e in subst HasClose same b
receive-HasClose (other_signal n) p todo code b e = absurd (cc e)

or_true_right : (a : Bool) → (a || true) ≡ true
or_true_right true = refl
or_true_right false = refl

pub receive-exiting :
    (sig : Signal) (p : Online) (todo : List ServerHandler) (code : ℕ)
    → (receive sig p).signal_job ≡ some (record { todo = todo; code = some code })
    → (receive sig p).exiting ≡ true
unfolding receive
receive-exiting interrupt p todo code e = or_true_right p.exiting
receive-exiting sigterm p todo code e = or_true_right p.exiting
receive-exiting (other_signal n) p todo code e = absurd (cc e)

kept :
    (h : ServerHandler) (s u t : Server)
    → (h ≡ close_store → ⊥)
    → some u ≡ some t
    → u.report ≡ false
    → u.store ≡ s.store
    → (h ≡ close_store → ⊥) × (t.report ≡ false) × (t.store ≡ s.store)
kept h s u t ne e f g =
    let same : u ≡ t = cc e in
    (
      ne,
      subst (λ (x : Server). x.report ≡ false) same f,
      subst (λ (x : Server). x.store ≡ s.store) same g,
    )

-- While the channel is empty, the store stays open, and no call of the handler that closes it ends.
pub call_open :
    (h : ServerHandler) (s t : Server)
    → handle false h s ≡ some t
    → s.report ≡ false
    → (h ≡ close_store → ⊥) × (t.report ≡ false) × (t.store ≡ s.store)
unfolding handle
call_open close_ledger s t e f = kept close_ledger s _ t (λ q. absurd (cc q)) e f refl
call_open close_store s t e f = absurd (cc (rw f at e))
call_open cancel_indexing s t e f = kept cancel_indexing s _ t (λ q. absurd (cc q)) e f refl
call_open shut_down_http s t e f = kept shut_down_http s _ t (λ q. absurd (cc q)) e f refl

call_indexing :
    (h : ServerHandler) (s t : Server) → handle false h s ≡ some t → t.indexing ≡ s.indexing
unfolding handle
call_indexing close_ledger s t e =
    let same : record s { ledger = false } ≡ t = cc e in ap (λ (x : Server). x.indexing) (sym same)
call_indexing close_store s t e = elim (Bool-cases s.report) [
  | inl f ↦
      let same : record s { report = false; store = false } ≡ t = cc (rw f at e) in
      ap (λ (x : Server). x.indexing) (sym same)
  | inr f ↦ absurd (cc (rw f at e))
]
call_indexing cancel_indexing s t e =
    let same : record s { cancelled = true } ≡ t = cc e in
    ap (λ (x : Server). x.indexing) (sym same)
call_indexing shut_down_http s t e =
    let same : record s { http = false } ≡ t = cc e in ap (λ (x : Server). x.indexing) (sym same)

-- While IndexBlocks is in its loop, the channel is empty and the store is open.
abbrev pub IsWorking : Server → Type 0
IsWorking s = s.indexing ≡ looping → (s.report ≡ false) × (s.store ≡ true)

pub call-IsWorking :
    (h : ServerHandler) (s t : Server) → handle false h s ≡ some t → IsWorking s → IsWorking t
call-IsWorking h s t e w l =
    let (f, o) = w (sym (call_indexing h s t e) ∙ l) in
    let (_, f', o') = call_open h s t e f in (f', o' ∙ o)

pub move-IsWorking : (g : Routine) (s t : Server) → Moves g s t → IsWorking t
move-IsWorking g s t (reports l c e) i = absurd (cc (sym (ap (λ (x : Server). x.indexing) e) ∙ i))
