-- ===== src/Services/Indexer/Diffs.antt =====
-- The map `diffs` as a function from accounts and contracts to integers, and what balanceCal does
-- to it.
use ontology_rosetta.Common.{
  ◌≡◌, refl, sym, ap, ◌∙◌, inl, inr, false, ◌&&◌, Option, none, some, List, [], ◌∷◌, Bool-cases,
  Option-cases, if◌then◌else◌, All, subst,
}
use ontology_rosetta.Common.Bytes.{eq_bytes, eq_bytes→eq, eq_bytes_refl, eq_bytes_ne}
use ontology_rosetta.Common.Int.{ℤ, pos}
use ontology_rosetta.Services.Ontology.{Address, IsAddress}
use ontology_rosetta.Services.Indexer.{find_in, put_in, Accounts, Diffs, adjust_contract, adjust}

module _ {ℓ} {A : Type ℓ} where
  abbrev pub IsUnique : List (Address × A) → Type ℓ
  IsUnique [] = Unit
  IsUnique ((k, v) ∷ m) = (find_in k m ≡ none) × IsUnique m

  pub find_in-put_in :
      (k j : Address) (v : A) (m : List (Address × A))
      → find_in j (put_in k v m) ≡ (if eq_bytes k j then some v else find_in j m)
  unfolding find_in put_in
  find_in-put_in k j v [] = refl
  find_in-put_in k j v ((i, w) ∷ m) = elim (Bool-cases (eq_bytes i k)) [
    | inl t ↦
        let e : i ≡ k = eq_bytes→eq i k t in
        rw t (rw e (elim (Bool-cases (eq_bytes k j)) [ inl q ↦ rw q | inr q ↦ rw q ]))
    | inr f ↦ rw f (elim (Bool-cases (eq_bytes i j)) [
      | inl q ↦
          let e : i ≡ j = eq_bytes→eq i j q in
          let g : eq_bytes k j ≡ false = eq_bytes_ne k j (λ h. cc (f, q, h)) in rw (q, g)
      | inr q ↦ rw q (find_in-put_in k j v m)
    ])
  ]

  pub put_in-IsUnique :
      (k : Address) (v : A) (m : List (Address × A)) → IsUnique m → IsUnique (put_in k v m)
  unfolding find_in put_in
  put_in-IsUnique k v [] u = (refl, tt)
  put_in-IsUnique k v ((i, w) ∷ m) (n, u) = elim (Bool-cases (eq_bytes i k)) [
    | inl t ↦ rw t (n, u)
    | inr f ↦ rw f (
      find_in-put_in k i v m ∙ rw (eq_bytes_ne k i (λ e. cc (f, e, eq_bytes_refl k))) n,
      put_in-IsUnique k v m u,
    )
  ]

  pub put_in-All :
      (P : Address × A → Type 0) (k : Address) (v : A) (m : List (Address × A))
      → P (k, v)
      → All P m
      → All P (put_in k v m)
  unfolding put_in
  put_in-All P k v [] p a = (p, tt)
  put_in-All P k v ((i, w) ∷ m) p (q, a) = elim (Bool-cases (eq_bytes i k)) [
    | inl t ↦ rw t (subst (λ (x : Address). P (x, v)) (sym (eq_bytes→eq i k t)) p, a)
    | inr f ↦ rw f (q, put_in-All P k v m p a)
  ]

  pub find_in-All :
      (P : Address × A → Type 0) (k : Address) (v : A) (m : List (Address × A))
      → All P m
      → find_in k m ≡ some v
      → P (k, v)
  unfolding find_in
  find_in-All P k v [] a e = cc
  find_in-All P k v ((i, w) ∷ m) (q, a) e = elim (Bool-cases (eq_bytes i k)) [
    | inl t ↦
        let ew : w ≡ v = cc (rw t at e) in
        subst (λ (x : Address). P (x, v)) (eq_bytes→eq i k t) (subst (λ (x : A). P (i, x)) ew q)
    | inr f ↦ find_in-All P k v m a (rw f at e)
  ]

-- The entry for an account and a contract.
abbrev pub in_accounts : Address → Option Accounts → Option ℤ
in_accounts c none = none
in_accounts c (some m) = find_in c m

abbrev pub lookup : Address → Address → Diffs → Option ℤ
lookup a c d = in_accounts c (find_in a d)

abbrev pub amount_or : Option ℤ → ℤ
amount_or none = pos 0
amount_or (some z) = z

abbrev pub entry : Address → Address → Diffs → ℤ
entry a c d = amount_or (lookup a c d)

abbrev pub IsAccounts : Accounts → Type 0
IsAccounts m = IsUnique m × All (λ e. IsAddress e.0) m

-- The keys of both levels are 20-byte addresses, and no key comes twice.
abbrev pub IsTable : Diffs → Type 0
IsTable d = IsUnique d × All (λ e. IsAddress e.0 × IsAccounts e.1) d

abbrev IsInner : Option Accounts → Type 0
IsInner none = Unit
IsInner (some m) = IsAccounts m

inner : (a : Address) (d : Diffs) → IsTable d → IsInner (find_in a d)
inner a d (u, k) = go (find_in a d) refl
  where
    go : (o : Option Accounts) → find_in a d ≡ o → IsInner o
    go none e = tt
    go (some m) e = (find_in-All (λ e. IsAddress e.0 × IsAccounts e.1) a m d k e).1

module _ (f : ℤ → ℤ) (z : ℤ) where
  unfoldable pub step : Option ℤ → ℤ
  step none = z
  step (some y) = f y

  find_in-adjust_contract :
      (c j : Address) (o : Option Accounts)
      → find_in j (adjust_contract c f z o)
        ≡ (if eq_bytes c j then some (step (in_accounts c o)) else in_accounts j o)
  unfolding adjust_contract find_in step
  find_in-adjust_contract c j none = refl
  find_in-adjust_contract c j (some m) = elim (Option-cases (find_in c m)) [
    | inl e ↦ rw (e, adjust_contract) (find_in-put_in c j z m)
    | inr (y, e) ↦ rw (e, adjust_contract) (find_in-put_in c j (f y) m)
  ]

  adjust_contract-IsAccounts :
      (c : Address) (o : Option Accounts)
      → IsAddress c
      → IsInner o
      → IsAccounts (adjust_contract c f z o)
  unfolding adjust_contract find_in
  adjust_contract-IsAccounts c none lc i = ((refl, tt), (lc, tt))
  adjust_contract-IsAccounts c (some m) lc (u, a) = elim (Option-cases (find_in c m)) [
    | inl e ↦
        rw (e, adjust_contract)
          (put_in-IsUnique c z m u, put_in-All (λ e. IsAddress e.0) c z m lc a)
    | inr (y, e) ↦
        rw (e, adjust_contract)
          (put_in-IsUnique c (f y) m u, put_in-All (λ e. IsAddress e.0) c (f y) m lc a)
  ]

  pub lookup-adjust :
      (a c a' c' : Address) (d : Diffs)
      → lookup a' c' (adjust a c f z d)
        ≡ (if eq_bytes a a' && eq_bytes c c' then some (step (lookup a c d)) else lookup a' c' d)
  unfolding adjust
  lookup-adjust a c a' c' d =
      ap (in_accounts c') (find_in-put_in a a' (adjust_contract c f z (find_in a d)) d)
      ∙ elim (Bool-cases (eq_bytes a a')) [
        | inl t ↦ rw t (
            find_in-adjust_contract c c' (find_in a d)
            ∙ ap
                (λ (x : Address).
                  if eq_bytes c c' then some (step (lookup a c d)) else lookup x c' d)
                (eq_bytes→eq a a' t))
        | inr q ↦ rw q
      ]

  pub adjust-IsTable :
      (a c : Address) (d : Diffs)
      → IsAddress a
      → IsAddress c
      → IsTable d
      → IsTable (adjust a c f z d)
  unfolding adjust
  adjust-IsTable a c d la lc (u, k) = (
    put_in-IsUnique a _ d u,
    put_in-All (λ e. IsAddress e.0 × IsAccounts e.1) a _ d
        (la, adjust_contract-IsAccounts c (find_in a d) lc (inner a d (u, k))) k,
  )
