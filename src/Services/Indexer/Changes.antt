-- ===== src/Services/Indexer/Changes.antt =====
-- The changes that IndexBlocks builds from the map `diffs`.
use ontology_rosetta.Common.{
  ℕ, ◌≡◌, ◌≢◌, refl, ap, ◌∙◌, inl, inr, ◌&&◌, Option, none, some, List, [], ◌∷◌, ◌++◌, Bool-cases,
  Bool_ext, &&_iff, if◌then◌else◌, All, subst,
}
use ontology_rosetta.Common.Bytes.{Bytes, eq_bytes, eq_bytes→eq, eq_bytes_iff, eq_bytes_refl}
use ontology_rosetta.Common.Int.{ℤ}
use ontology_rosetta.Lexinum.Encode.{form}
use ontology_rosetta.Services.Ontology.{Address, IsAddress}
use ontology_rosetta.Services.Address.{Natives}
use ontology_rosetta.Services.Address.Prefix.{account_key_prefix-append}
use ontology_rosetta.Services.Types.{BalanceChange}
use ontology_rosetta.Services.Store.Changes.{IsChange, IsDistinct, find_change}
use ontology_rosetta.Services.Store.History.{net, net_of}
use ontology_rosetta.Services.Account.Historic.{prefix_of, account_of}
use ontology_rosetta.Services.Indexer.{Accounts, Diffs, find_in}
use ontology_rosetta.Services.Indexer.Diffs.{IsAccounts, IsTable, entry, lookup, amount_or}
use ontology_rosetta.Services.Indexer.Build.{account_changes, changes_of}
use mathlib.Core.Path.{ap₂}

eq_prefix :
    (n : Natives) (a c a' c' : Address)
    → IsAddress a
    → IsAddress c
    → IsAddress a'
    → IsAddress c'
    → eq_bytes (prefix_of n a c) (prefix_of n a' c') ≡ (eq_bytes a a' && eq_bytes c c')
eq_prefix n a c a' c' la lc la' lc' =
    Bool_ext _ _
      (λ t.
        let (ea, ec, _) =
          account_key_prefix-append n a a' c c' [] [] la la' lc lc'
            (ap (λ (x : Bytes). x ++ []) (eq_bytes→eq _ _ t)) in
        (&&_iff _ _).1 ((eq_bytes_iff a a').1 ea, (eq_bytes_iff c c').1 ec))
      (λ t.
        let (ea, ec) = (&&_iff (eq_bytes a a') (eq_bytes c c')).0 t in
        (eq_bytes_iff _ _).1 (ap₂ (prefix_of n) (eq_bytes→eq a a' ea) (eq_bytes→eq c c' ec)))

abbrev pub change_of : Natives → Bytes → Address → Address → ℤ → BalanceChange
change_of n hval a c z = record {
  diff = z;
  key = prefix_of n a c ++ hval;
  prefix = prefix_of n a c;
}

abbrev found :
    Natives → Bytes → Address → Address → Option ℤ → Option BalanceChange → Option BalanceChange
found n hval a c none rest = rest
found n hval a c (some z) rest = some (change_of n hval a c z)

module _ (n : Natives) (hval : Bytes) (a c : Address) (la : IsAddress a) (lc : IsAddress c) where
  find_change-account_changes :
      (b : Address) (accts : Accounts) (rest : List BalanceChange)
      → IsAddress b
      → All (λ e. IsAddress e.0) accts
      → find_change (prefix_of n a c) (account_changes n hval b accts ++ rest) ≡ (
          if eq_bytes b a
          then found n hval a c (find_in c accts) (find_change (prefix_of n a c) rest)
          else find_change (prefix_of n a c) rest)
  unfolding account_changes find_in
  find_change-account_changes b [] rest lb k = elim (Bool-cases (eq_bytes b a)) [
    | inl t ↦ rw t
    | inr f ↦ rw f
  ]
  find_change-account_changes b ((j, z) ∷ accts) rest lb (lj, k) =
      let ih = find_change-account_changes b accts rest lb k in
      rw (eq_prefix n b j a c lb lj la lc) (elim (Bool-cases (eq_bytes b a)) [
        | inr f ↦ rw f (rw f at ih)
        | inl t ↦ elim (Bool-cases (eq_bytes j c)) [
          | inr f ↦ rw (t, f) (rw t at ih)
          | inl q ↦
              rw (t, q)
                (ap₂ (λ (x y : Address). some (change_of n hval x y z)) (eq_bytes→eq b a t)
                  (eq_bytes→eq j c q))
        ]
      ])

  -- The change of an account among the changes is its entry in `diffs`.
  pub find_change-changes_of :
      (d : Diffs)
      → IsTable d
      → find_change (prefix_of n a c) (changes_of n hval d) ≡ found n hval a c (lookup a c d) none
  unfolding changes_of find_in
  find_change-changes_of [] it = refl
  find_change-changes_of ((b, accts) ∷ d) ((nb, u), ((lb, ka), k)) =
      let ih = find_change-changes_of d (u, k) in
      find_change-account_changes b accts (changes_of n hval d) lb ka.1
      ∙ elim (Bool-cases (eq_bytes b a)) [
        | inr f ↦ rw f ih
        | inl t ↦
            let nb' : find_in a d ≡ none =
              subst (λ (x : Address). find_in x d ≡ none) (eq_bytes→eq b a t) nb in
            let ih' : find_change (prefix_of n a c) (changes_of n hval d) ≡ none = rw nb' at ih in
            rw (t, ih') (own (find_in c accts))
      ]
    where
      own : (o : Option ℤ) → found n hval a c o none ≡ found n hval a c o none
      own o = refl

  -- The change of an account in the block is its entry in `diffs`, and zero where it has none.
  pub net-changes_of :
      (d : Diffs) → IsTable d → net (changes_of n hval d) (prefix_of n a c) ≡ entry a c d
  net-changes_of d it = ap net_of (find_change-changes_of d it) ∙ go (lookup a c d)
    where
      go : (o : Option ℤ) → net_of (found n hval a c o none) ≡ amount_or o
      go none = refl
      go (some z) = refl

module _ (n : Natives) (h : ℕ) where
  account_changes-IsChange :
      (b : Address) (accts : Accounts) (rest : List BalanceChange)
      → IsAddress b
      → All (λ e. IsAddress e.0) accts
      → All (IsChange n h) rest
      → All (IsChange n h) (account_changes n (form h) b accts ++ rest)
  unfolding account_changes
  account_changes-IsChange b [] rest lb k r = r
  account_changes-IsChange b ((j, z) ∷ accts) rest lb (lj, k) r = (
    record { account = account_of n b j lb lj; key_eq = refl },
    account_changes-IsChange b accts rest lb k r,
  )

  pub changes_of-IsChange : (d : Diffs) → IsTable d → All (IsChange n h) (changes_of n (form h) d)
  unfolding changes_of
  changes_of-IsChange [] it = tt
  changes_of-IsChange ((b, accts) ∷ d) ((nb, u), ((lb, ka), k)) =
      account_changes-IsChange b accts (changes_of n (form h) d) lb ka.1
        (changes_of-IsChange d (u, k))

find_change-none :
    (p : Bytes) (cs : List BalanceChange) → find_change p cs ≡ none → All (λ c. p ≢ c.prefix) cs
find_change-none p [] e = tt
find_change-none p (c ∷ cs) e = elim (Bool-cases (eq_bytes c.prefix p)) [
  | inl t ↦ cc (rw t at e)
  | inr f ↦ ((λ q. cc (f, q, eq_bytes_refl p)), find_change-none p cs (rw f at e))
]

module _ (n : Natives) (hval : Bytes) where
  account_changes-IsDistinct :
      (b : Address) (accts : Accounts) (rest : List BalanceChange)
      → IsAddress b
      → IsAccounts accts
      → ((c : Address) → IsAddress c → find_change (prefix_of n b c) rest ≡ none)
      → IsDistinct rest
      → IsDistinct (account_changes n hval b accts ++ rest)
  unfolding account_changes
  account_changes-IsDistinct b [] rest lb ia free r = r
  account_changes-IsDistinct b ((j, z) ∷ accts) rest lb ((nj, u), (lj, k)) free r = (
    find_change-none (prefix_of n b j) _ (
        find_change-account_changes n hval b j lb lj b accts rest lb k
        ∙ rw (eq_bytes_refl b) (rw nj (free j lj))),
    account_changes-IsDistinct b accts rest lb (u, k) free r,
  )

  pub changes_of-IsDistinct : (d : Diffs) → IsTable d → IsDistinct (changes_of n hval d)
  unfolding changes_of
  changes_of-IsDistinct [] it = tt
  changes_of-IsDistinct ((b, accts) ∷ d) ((nb, u), ((lb, ka), k)) =
      account_changes-IsDistinct b accts (changes_of n hval d) lb ka
        (λ c lc. find_change-changes_of n hval b c lb lc d (u, k) ∙ rw nb)
        (changes_of-IsDistinct d (u, k))
