-- ===== src/Services/Validate/Agrees.antt =====
-- Validate on an indexed chain: what it compares, and when it succeeds.
use ontology_rosetta.Common.{
  ℕ, suc, ◌≤◌, ◌<◌, ◌≡◌, ◌≢◌, refl, sym, ◌∙◌, inl, inr, ◌↔◌, true, some, List, [], ◌∷◌, ◌++◌,
  length, All, subst, arith, ◌==◌,
}
use ontology_rosetta.Common.Bytes.{Bytes, LeBytes}
use ontology_rosetta.Common.Int.{pos, ◌≤ℤ◌}
use ontology_rosetta.Common.Result.{ok, ◌>>=◌}
use ontology_rosetta.Lexinum.{IsU32}
use ontology_rosetta.Lexinum.Encode.{form}
use ontology_rosetta.Chain.Balance.{Execution}
use ontology_rosetta.Services.Ontology.{Address, Library, IsLibrary, IsAddress}
use ontology_rosetta.Services.Address.{Natives, account_key_prefix}
use ontology_rosetta.Services.Types.{BlockState}
use ontology_rosetta.Services.Badger.{Badger, IsHealthy, Proto}
use ontology_rosetta.Services.Store.{Store, get_height}
use ontology_rosetta.Services.Store.Changes.{IsAccount}
use ontology_rosetta.Services.Store.Previous.{seek-Finds}
use ontology_rosetta.Services.Store.Listed.{chain_keys}
use ontology_rosetta.Services.Store.History.{total, IsChain, IsIndexed}
use ontology_rosetta.Services.Account.Historic.{prefix_of, account_of}
use ontology_rosetta.Services.Validate.{AccountInfo, check_balances, validate}
use ontology_rosetta.Services.Validate.Collect.{IsTop, Collected, collect-Collected, start-Front}
use ontology_rosetta.Services.Validate.Compare.{
  Agrees, AgreesAt, Ends, check_balances-All, All-check_balances, check_balances-Ends,
  Covered-Agrees,
}

module _ (b : Badger) (healthy : IsHealthy b) (n : Natives) (l : Library) (lib : IsLibrary l)
    (x : Execution) where
  open healthy use {view}

  no_prefix : (a c : Address) → ◌≢◌ {A = Bytes} [] (prefix_of n a c)
  unfolding account_key_prefix
  no_prefix a c e = cc e

  below_b : (a c : Address) (s : Bytes) → LeBytes (prefix_of n a c ++ s) (b'b' ∷ [])
  unfolding account_key_prefix
  below_b a c s = inl (inl (omega arith))

  module _ (chain : ℕ → BlockState) (ic : IsChain n chain) (p : Proto) where
    module _ (s : Store b) (k fuel : ℕ) (ix : IsIndexed b healthy n chain ic p (suc k) s.db)
        (top : s.height_indexed ≡ some k) (u : IsU32 k)
        (solvent : (q : Bytes) → IsAccount n q → (j : ℕ) → j ≤ suc k → pos 0 ≤ℤ total chain q j)
        (lt : length (chain_keys chain (suc k)) < fuel) where
      found :
          Collected b healthy n l lib s.db fuel []
            (b.seek s.db (b'b' ∷ []))
            (λ j. LeBytes j (b'b' ∷ []))
      found =
          collect-Collected b healthy n l lib s.db (chain_keys chain (suc k)) ix.listed fuel [] _ _
            (chain_keys chain (suc k))
            (start-Front b healthy n l lib s.db (chain_keys chain (suc k)) ix.listed)
            (seek-Finds b healthy s.db [] 0 (omega arith) (b'b' ∷ [])) lt

      same_height : (get_height b s == k) ≡ true
      unfolding get_height
      same_height = rw (top, get_height) (ground arith)

      run : validate l n b x fuel s k ≡ check_balances l n b x s.db found.infos
      unfolding validate
      run = rw (same_height, found.collect_eq, ◌>>=◌) refl

      agrees :
          (ws : List AccountInfo)
          → validate l n b x fuel s k ≡ ok ws
          → (a c : Address) → IsAddress a
          → IsAddress c
          → (h : ℕ) (v : Bytes) → view s.db (prefix_of n a c ++ form h) ≡ some v
          → Agrees b healthy n l lib x a c (total chain (prefix_of n a c) (suc k))
      agrees ws e a c la lc h v f =
          let checked =
            check_balances-All b healthy n l lib x chain k u s.db ix.ledger solvent found.infos ws
              found.tops (sym run ∙ e) in
          elim (found.covers (prefix_of n a c) (account_of n a c la lc) h v f
            (below_b a c (form h))) [
              | inl q ↦ absurd (no_prefix a c q)
              | inr r ↦
                  Covered-Agrees b healthy n l lib x chain k u s.db ix.ledger solvent a c la lc
                    found.infos found.tops checked r
            ]

      each-Agrees :
          ((a c : Address)
            → IsAddress a
            → IsAddress c
            → (h : ℕ) (v : Bytes) → view s.db (prefix_of n a c ++ form h) ≡ some v
            → Agrees b healthy n l lib x a c (total chain (prefix_of n a c) (suc k)))
          → (ys : List AccountInfo) → All (IsTop b healthy n l lib s.db) ys
          → All (AgreesAt b healthy n l lib x chain k u s.db ix.ledger solvent) ys
      each-Agrees f [] tops = tt
      each-Agrees f (y ∷ ys) (t, tops) = (
        f y.acct y.contract t.acct_len t.contract_len t.height t.held
            (subst (λ (j : Bytes). view s.db j ≡ some t.held) t.key_eq t.held_eq),
        each-Agrees f ys tops,
      )

    -- On a store that holds the blocks up to the height `k` of the node, of a chain in which up to `k`
    -- no account's sum of changes falls below zero, with more fuel than the changes of these blocks,
    -- Validate ends without a panic. It succeeds exactly when the
    -- node answers, for every account and contract that has an entry, with a balance, which for a
    -- native contract is the sum of the account's changes in these blocks.
    pub validate-IsIndexed :
        (s : Store b) (k fuel : ℕ)
        → IsIndexed b healthy n chain ic p (suc k) s.db
        → s.height_indexed ≡ some k
        → IsU32 k
        → ((q : Bytes) → IsAccount n q → (j : ℕ) → j ≤ suc k → pos 0 ≤ℤ total chain q j)
        → length (chain_keys chain (suc k)) < fuel
        → Ends b healthy n l lib x (validate l n b x fuel s k)
          × (((ws : List AccountInfo) × (validate l n b x fuel s k ≡ ok ws)) ↔ (
              (a c : Address)
              → IsAddress a
              → IsAddress c
              → (h : ℕ) (v : Bytes) → view s.db (prefix_of n a c ++ form h) ≡ some v
              → Agrees b healthy n l lib x a c (total chain (prefix_of n a c) (suc k))))
    validate-IsIndexed s k fuel ix top u solvent lt =
        let found' = found s k fuel ix top u solvent lt in
        let run' = run s k fuel ix top u solvent lt in
        (
          subst (Ends b healthy n l lib x) (sym run') (
              check_balances-Ends b healthy n l lib x chain k u s.db ix.ledger solvent found'.infos
                found'.tops),
          (
            (λ (ws, e). agrees s k fuel ix top u solvent lt ws e),
            λ f.
                let (ws, e) =
                  All-check_balances b healthy n l lib x chain k u s.db ix.ledger solvent
                    found'.infos found'.tops
                    (each-Agrees s k fuel ix top u solvent lt f found'.infos found'.tops) in
                (ws, run' ∙ e),
          ),
        )
