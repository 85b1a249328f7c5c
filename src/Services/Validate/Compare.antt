-- ===== src/Services/Validate/Compare.antt =====
-- The comparison of Validate with the node.
use ontology_rosetta.Common.{
  ℕ, suc, ◌≤◌, ◌<◌, ◌≡◌, refl, sym, ap, ◌∙◌, ◌⊎◌, inl, inr, Bool, true, false, not, Option, none,
  some, List, [], ◌∷◌, ◌++◌, All, Option-cases, Bool-cases, subst, arith, if◌then◌else◌,
}
use ontology_rosetta.Common.Bytes.{Bytes}
use ontology_rosetta.Common.Big.{set_bytes}
use ontology_rosetta.Common.Int.{ℤ, pos, ◌≤ℤ◌, eq_ℤ, eq_ℤ_iff}
use ontology_rosetta.Common.Result.{Result, ok, err, ◌>>=◌, bind-ok}
use ontology_rosetta.Lexinum.{IsU32}
use ontology_rosetta.Chain.Balance.{Execution, balance_of, native_balance_of}
use ontology_rosetta.Services.Ontology.{Address, Library, IsLibrary, IsAddress}
use ontology_rosetta.Services.Address.{Natives, addr2slice}
use ontology_rosetta.Services.Address.Prefix.{account_key_prefix-append}
use ontology_rosetta.Services.Types.{BlockState}
use ontology_rosetta.Services.Badger.{Badger, IsHealthy}
use ontology_rosetta.Services.Store.Latest.{before_at, held_at}
use ontology_rosetta.Services.Store.Changes.{IsAccount}
use ontology_rosetta.Services.Store.History.{total, booked-total, IsLedger}
use ontology_rosetta.Services.Account.Historic.{prefix_of, account_of}
use ontology_rosetta.Services.Validate.{
  AccountInfo, Ending, fatal, balance_in, differs, check_balance, check_balances,
}
use ontology_rosetta.Services.Validate.Keys.{is_compressed}
use ontology_rosetta.Services.Validate.Collect.{IsTop, Covered}
use native.Mathlib.Decide.{dec_lt}

module _ (b : Badger) (healthy : IsHealthy b) (n : Natives) (l : Library) (lib : IsLibrary l)
    (x : Execution) where
  open healthy use {view}

  -- The balance that the node has for an account in a contract.
  abbrev pub node_balance : Address → Address → Option ℤ
  node_balance a c =
      if is_compressed (addr2slice n c) then native_balance_of x a c else balance_of x a c

  -- The node answers with a balance, which is `t` where the contract is one of the native ones.
  abbrev pub Agrees : Address → Address → ℤ → Type 0
  Agrees a c t =
      (z : ℤ) × (node_balance a c ≡ some z) × (is_compressed (addr2slice n c) ≡ true → z ≡ t)

  -- The outcome of a comparison, for the stored amount.
  abbrev verdict : Bool → ℕ → Option ℤ → Result Ending Bool
  verdict native m none = err fatal
  verdict native m (some z) =
      if not (eq_ℤ (pos m) z) then (if native then err fatal else ok true) else ok false

  verdict-ok :
      (native : Bool) (m : ℕ) (o : Option ℤ) (w : Bool)
      → verdict native m o ≡ ok w
      → (z : ℤ) × (o ≡ some z) × (native ≡ true → z ≡ pos m)
  verdict-ok native m none w h = absurd (cc h)
  verdict-ok false m (some z) w h = (z, refl, λ t. absurd (cc t))
  verdict-ok true m (some z) w h = elim (Bool-cases (eq_ℤ (pos m) z)) [
    | inl e ↦ (z, refl, λ t. sym ((eq_ℤ_iff (pos m) z).0 e))
    | inr e ↦ absurd (cc (rw e at h))
  ]

  verdict-some :
      (native : Bool) (m : ℕ) (z : ℤ)
      → (native ≡ true → z ≡ pos m)
      → (w : Bool) × (verdict native m (some z) ≡ ok w)
  verdict-some true m z h = (false, rw ((eq_ℤ_iff (pos m) z).1 (sym (h refl))) refl)
  verdict-some false m z h = elim (Bool-cases (eq_ℤ (pos m) z)) [
    | inl e ↦ (false, rw e refl)
    | inr e ↦ (true, rw e refl)
  ]

  -- Validate goes on, or ends by log.Fatalf.
  abbrev pub Ends {ℓ} : {A : Type ℓ} → Result Ending A → Type ℓ
  Ends {A = A} r = ((a : A) × (r ≡ ok a)) ⊎ (r ≡ err fatal)

  verdict-Ends : (native : Bool) (m : ℕ) (o : Option ℤ) → Ends (verdict native m o)
  verdict-Ends native m none = inr refl
  verdict-Ends native m (some z) = elim (Bool-cases (eq_ℤ (pos m) z)) [
    | inl e ↦ inl (false, rw e refl)
    | inr e ↦ elim (Bool-cases native) [
      | inl f ↦ inr (rw (e, f) refl)
      | inr f ↦ inl (true, rw (e, f) refl)
    ]
  ]

  module _ (d : b.Db) (y : AccountInfo) (top : IsTop b healthy n l lib d y) where
    check_balance-verdict :
        check_balance l n b x d y
        ≡ verdict
            (is_compressed (addr2slice n y.contract))
            (set_bytes top.held)
            (node_balance y.acct y.contract)
    unfolding check_balance balance_in differs
    check_balance-verdict =
        let (i, g, v) = healthy.get_some d y.key top.held top.held_eq in
        rw top.native_eq (elim (Option-cases (node_balance y.acct y.contract)) [
          | inl e ↦ rw (e, ◌>>=◌) refl
          | inr (z, e) ↦ rw (e, ◌>>=◌) (rw g (rw (v, differs, top.native_eq) refl))
        ])

  module _ (chain : ℕ → BlockState) (k : ℕ) (u : IsU32 k) (d : b.Db)
      (led : IsLedger b healthy n chain (suc k) d)
      (solvent : (q : Bytes) → IsAccount n q → (j : ℕ) → j ≤ suc k → pos 0 ≤ℤ total chain q j) where
    -- What the last entry of an account holds is its balance.
    top-total :
        (y : AccountInfo) (top : IsTop b healthy n l lib d y)
        → pos (set_bytes top.held) ≡ total chain (prefix_of n y.acct y.contract) (suc k)
    top-total y top =
        let p : Bytes = prefix_of n y.acct y.contract in
        let ia = account_of n y.acct y.contract top.acct_len top.contract_len in
        let held : held_at b healthy d p top.height ≡ some top.held =
          subst (λ (j : Bytes). view d j ≡ some top.held) top.key_eq top.held_eq in
        let below : top.height < suc k = elim (dec_lt top.height (suc k)) [
          | yes lt ↦ lt
          | no ge ↦ absurd (cc (led.later p ia top.height top.fits (omega arith), held))
        ] in
        ap pos (
          sym (
            before_at (held_at b healthy d p) (suc k) top.height top.held below held (λ j a c.
              elim (Option-cases (held_at b healthy d p j)) [
                | inl e ↦ e
                | inr (v, e) ↦ let le = top.last j v (omega arith) e in absurd (omega arith)
              ])))
        ∙ ap pos (led.balances p ia (suc k) (omega arith))
        ∙ booked-total chain p (suc k) (solvent p ia)

    abbrev pub AgreesAt : AccountInfo → Type 0
    AgreesAt y = Agrees y.acct y.contract (total chain (prefix_of n y.acct y.contract) (suc k))

    pub check_balances-All :
        (ys ws : List AccountInfo)
        → All (IsTop b healthy n l lib d) ys
        → check_balances l n b x d ys ≡ ok ws
        → All AgreesAt ys
    unfolding check_balances
    check_balances-All [] ws tops h = tt
    check_balances-All (y ∷ ys) ws (top, tops) h =
        let (w, e, h1) = bind-ok (check_balance l n b x d y) _ ws h in
        let (rest, e', h2) = bind-ok (check_balances l n b x d ys) _ ws h1 in
        let (z, o, f) =
          verdict-ok (is_compressed (addr2slice n y.contract)) (set_bytes top.held)
            (node_balance y.acct y.contract) w (sym (check_balance-verdict d y top) ∙ e) in
        ((z, o, λ t. f t ∙ top-total y top), check_balances-All ys rest tops e')

    pub All-check_balances :
        (ys : List AccountInfo)
        → All (IsTop b healthy n l lib d) ys
        → All AgreesAt ys
        → (ws : List AccountInfo) × (check_balances l n b x d ys ≡ ok ws)
    unfolding check_balances
    All-check_balances [] tops a = ([], refl)
    All-check_balances (y ∷ ys) (top, tops) ((z, o, f), a) =
        let (w, e) =
          verdict-some (is_compressed (addr2slice n y.contract)) (set_bytes top.held) z
            (λ t. f t ∙ sym (top-total y top)) in
        let (ws, e') = All-check_balances ys tops a in
        let one : check_balance l n b x d y ≡ ok w = check_balance-verdict d y top ∙ rw o e in
        (if w then y ∷ ws else ws, rw (one, ◌>>=◌) (rw (e', ◌>>=◌) refl))

    pub check_balances-Ends :
        (ys : List AccountInfo)
        → All (IsTop b healthy n l lib d) ys
        → Ends (check_balances l n b x d ys)
    unfolding check_balances
    check_balances-Ends [] tops = inl ([], refl)
    check_balances-Ends (y ∷ ys) (top, tops) =
        elim (verdict-Ends (is_compressed (addr2slice n y.contract)) (set_bytes top.held)
          (node_balance y.acct y.contract)) [
            | inr e ↦ inr (rw (check_balance-verdict d y top ∙ e, ◌>>=◌) refl)
            | inl (w, e) ↦ elim (check_balances-Ends ys tops) [
              | inr e' ↦ inr (rw (check_balance-verdict d y top ∙ e, ◌>>=◌) (rw (e', ◌>>=◌) refl))
              | inl (ws, e') ↦ inl (
                if w then y ∷ ws else ws,
                rw (check_balance-verdict d y top ∙ e, ◌>>=◌) (rw (e', ◌>>=◌) refl),
              )
            ]
          ]

    pub Covered-Agrees :
        (a c : Address)
        → IsAddress a
        → IsAddress c
        → (ys : List AccountInfo) → All (IsTop b healthy n l lib d) ys
        → All AgreesAt ys
        → Covered b healthy n l lib (prefix_of n a c) ys
        → Agrees a c (total chain (prefix_of n a c) (suc k))
    Covered-Agrees a c la lc [] tops ags h = absurd h
    Covered-Agrees a c la lc (y ∷ ys) (top, tops) (ag, ags) (inl e) =
        let (ea, ec, _) =
          account_key_prefix-append n y.acct a y.contract c [] [] top.acct_len la top.contract_len
            lc (ap (λ (q : Bytes). q ++ []) e) in
        subst (λ (c' : Address). Agrees a c' (total chain (prefix_of n a c') (suc k))) ec
          (subst
            (λ (a' : Address).
              Agrees a' y.contract (total chain (prefix_of n a' y.contract) (suc k)))
            ea ag)
    Covered-Agrees a c la lc (y ∷ ys) (top, tops) (ag, ags) (inr h) =
        Covered-Agrees a c la lc ys tops ags h
