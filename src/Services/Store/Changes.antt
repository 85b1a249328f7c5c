-- ===== src/Services/Store/Changes.antt =====
-- setBlock's loop over the balance changes of a block: the new amounts, and what stays.
use ontology_rosetta.Common.{
  ℕ, ◌≡◌, ◌≢◌, refl, sym, ap, ◌∙◌, inl, inr, Bool, ◌&&◌, Option, none, some, List, [], ◌∷◌, ◌++◌,
  arith, subst, Bool-cases, if◌then◌else◌, ◌==◌, ==_iff, &&_iff, Bool_ext, All,
}
use ontology_rosetta.Common.Bytes.{Bytes, eq_bytes, eq_bytes→eq, eq_bytes_iff, eq_bytes_ne}
use ontology_rosetta.Common.Big.{bytes_of}
use ontology_rosetta.Common.Int.{pos, ◌+ℤ◌}
use ontology_rosetta.Common.Result.{ok, ◌>>=◌}
use ontology_rosetta.Lexinum.{IsU32}
use ontology_rosetta.Lexinum.Encode.{form}
use ontology_rosetta.Services.Ontology.{Address, IsAddress}
use ontology_rosetta.Services.Address.{Natives, addr2slice, account_key_prefix}
use ontology_rosetta.Services.Address.Prefix.{account_key_prefix-append}
use ontology_rosetta.Services.Types.{BalanceChange}
use ontology_rosetta.Services.Badger.{Badger, IsHealthy}
use ontology_rosetta.Services.Store.{apply_change, apply_changes}
use ontology_rosetta.Services.Store.Latest.{before, before_congr, held_at, IsKeyed, form_inj}
use ontology_rosetta.Services.Store.Previous.{previous-before}
use mathlib.Core.Path.{ap₂}

-- The prefix of the keys of an account and a contract.
pub record IsAccount (n : Natives) (p : Bytes) : Type 0 where
  pub acct : Address
  pub contract : Address
  pub acct_len : IsAddress acct
  pub contract_len : IsAddress contract
  pub prefix_eq : p ≡ account_key_prefix (addr2slice n acct) (addr2slice n contract)

-- A change as IndexBlocks builds it for the block at height `h`.
pub record IsChange (n : Natives) (h : ℕ) (c : BalanceChange) : Type 0 where
  pub account : IsAccount n c.prefix
  pub key_eq : c.key ≡ c.prefix ++ form h

-- The changes of a block are for different accounts or contracts.
abbrev pub IsDistinct : List BalanceChange → Type 0
IsDistinct [] = Unit
IsDistinct (c ∷ cs) = All (λ c'. c.prefix ≢ c'.prefix) cs × IsDistinct cs

abbrev pub find_change : Bytes → List BalanceChange → Option BalanceChange
find_change p [] = none
find_change p (c ∷ cs) = if eq_bytes c.prefix p then some c else find_change p cs

-- The new value of an account whose balance was `prev` and whose value was `v`.
abbrev pub changed : Option BalanceChange → ℕ → Option Bytes → Option Bytes
changed none prev v = v
changed (some c) prev v = some (bytes_of (pos prev +ℤ c.diff))

pub account_split :
    {n : Natives} (p q s t : Bytes)
    → IsAccount n p
    → IsAccount n q
    → p ++ s ≡ q ++ t
    → (p ≡ q) × (s ≡ t)
account_split {n} p q s t a c e =
    let (ea, ec, es) =
      account_key_prefix-append n a.acct c.acct a.contract c.contract s t a.acct_len c.acct_len
        a.contract_len c.contract_len (cc (a.prefix_eq, c.prefix_eq)) in
    (cc (a.prefix_eq, c.prefix_eq), es)

module _ (b : Badger) (healthy : IsHealthy b) (n : Natives) (h : ℕ) (u : IsU32 h) where
  open b use {Db, set}
  open healthy use {view, set_view}

  abbrev pub IsKeyedAll : Db → Type 0
  IsKeyedAll d = (p : Bytes) → IsAccount n p → IsKeyed b healthy d p

  abbrev held : Db → Bytes → ℕ → Option Bytes
  held d p j = held_at b healthy d p j

  -- What a change writes.
  abbrev pub amount_after : Db → BalanceChange → Bytes
  amount_after d c = bytes_of (pos (before (held d c.prefix) h) +ℤ c.diff)

  abbrev written : Db → BalanceChange → Bytes → ℕ → Option Bytes
  written d c p j = if eq_bytes c.prefix p && j == h then some (amount_after d c) else held d p j

  key_test :
      (c : BalanceChange) (p : Bytes) (j : ℕ)
      → IsChange n h c
      → IsAccount n p
      → IsU32 j
      → eq_bytes c.key (p ++ form j) ≡ (eq_bytes c.prefix p && j == h)
  key_test c p j ic ia uj =
      Bool_ext (eq_bytes c.key (p ++ form j)) (eq_bytes c.prefix p && j == h)
        (λ t.
          let (e, f) =
            account_split c.prefix p (form h) (form j) ic.account ia
              (sym ic.key_eq ∙ eq_bytes→eq _ _ t) in
          (&&_iff _ _).1
            ((eq_bytes_iff c.prefix p).1 e, (==_iff j h).1 (form_inj j h uj u (sym f))))
        (λ t.
          let (e, f) = (&&_iff (eq_bytes c.prefix p) (j == h)).0 t in
          (eq_bytes_iff c.key (p ++ form j)).1 (
            ic.key_eq
            ∙ ap₂ (λ (x : Bytes) (i : ℕ). x ++ form i) (eq_bytes→eq c.prefix p e)
                (sym ((==_iff j h).0 f))))

  apply_change_lem :
      (d : Db) (c : BalanceChange)
      → IsKeyedAll d
      → IsChange n h c
      → (d' : Db) × (apply_change b d c ≡ ok d')
        × ((k : Bytes)
            → view d' k ≡ (if eq_bytes c.key k then some (amount_after d c) else view d k))
  unfolding apply_change
  apply_change_lem d c keyed ic =
      let (d', e, v) = set_view d c.key (amount_after d c) in
      (
        d',
        rw (previous-before b healthy d c.prefix h u (keyed _ ic.account) c refl ic.key_eq, ◌>>=◌)
            e,
        v,
      )

  module _ (d d' : Db) (c : BalanceChange) (ic : IsChange n h c)
      (v : (k : Bytes)
        → view d' k ≡ (if eq_bytes c.key k then some (amount_after d c) else view d k)) where
    held_written : (p : Bytes) (j : ℕ) → IsAccount n p → IsU32 j → held d' p j ≡ written d c p j
    held_written p j ia uj =
        v (p ++ form j)
        ∙ ap (λ (t : Bool). if t then some (amount_after d c) else held d p j)
            (key_test c p j ic ia uj)

    keyed_written : IsKeyedAll d → IsKeyedAll d'
    keyed_written keyed p ia rest w e = elim (Bool-cases (eq_bytes c.key (p ++ rest))) [
      | inl t ↦
          let (_, f) =
            account_split c.prefix p (form h) rest ic.account ia
              (sym ic.key_eq ∙ eq_bytes→eq _ _ t) in
          (h, u, sym f)
      | inr f ↦ keyed p ia rest w (
          sym (
            v (p ++ rest)
            ∙ ap (λ (t : Bool). if t then some (amount_after d c) else view d (p ++ rest)) f)
          ∙ e)
    ]

  -- The value at a height after the changes of the block.
  abbrev pub after : Db → List BalanceChange → Bytes → ℕ → Option Bytes
  after d cs p j =
      if j == h then changed (find_change p cs) (before (held d p) h) (held d p j) else held d p j

  pub record Applied (d : Db) (cs : List BalanceChange) (d' : Db) : Type 0 where
    pub keyed : IsKeyedAll d'
    pub amounts : (p : Bytes) (j : ℕ) → IsAccount n p → IsU32 j → held d' p j ≡ after d cs p j
    pub others : (k : Bytes) → All (λ c. c.key ≢ k) cs → view d' k ≡ view d k

  find_none :
      (p : Bytes) (cs : List BalanceChange) → All (λ c. p ≢ c.prefix) cs → find_change p cs ≡ none
  find_none p [] a = refl
  find_none p (c ∷ cs) (ne, a) = elim (Bool-cases (eq_bytes c.prefix p)) [
    | inl t ↦ absurd (ne (sym (eq_bytes→eq c.prefix p t)))
    | inr f ↦ rw f (find_none p cs a)
  ]

  after_step :
      (d d1 : Db) (c : BalanceChange) (cs : List BalanceChange) (p : Bytes) (j : ℕ)
      → All (λ c'. c.prefix ≢ c'.prefix) cs
      → ((j : ℕ) → IsU32 j → held d1 p j ≡ written d c p j)
      → IsU32 j
      → after d1 cs p j ≡ after d (c ∷ cs) p j
  after_step d d1 c cs p j ne w uj = elim (Bool-cases (eq_bytes c.prefix p)) [
    | inl t ↦
        let e : c.prefix ≡ p = eq_bytes→eq c.prefix p t in
        let none_left : find_change p cs ≡ none =
          find_none p cs (subst (λ (x : Bytes). All (λ c'. x ≢ c'.prefix) cs) e ne) in
        elim (Bool-cases (j == h)) [
          | inl q ↦
              rw (none_left, t, q)
                (w j uj
                  ∙ rw (t, q)
                      (ap (λ (x : Bytes). some (bytes_of (pos (before (held d x) h) +ℤ c.diff))) e))
          | inr q ↦ rw (none_left, t, q) (w j uj ∙ rw (t, q))
        ]
    | inr f ↦
        let kept : (i : ℕ) → IsU32 i → held d1 p i ≡ held d p i = λ i ui. w i ui ∙ rw f in
        let below : before (held d1 p) h ≡ before (held d p) h =
          before_congr (held d1 p) (held d p) h (λ i lt. kept i (omega arith)) in
        rw f (
          ap₂ (λ (m : ℕ) (v : Option Bytes). if j == h then changed (find_change p cs) m v else v)
            below (kept j uj))
  ]

  -- The changes of a block, for different accounts at the block's height, are applied without an
  -- error: each account's entry at that height is its balance before it with the change, and every
  -- other entry stays.
  pub apply_changes-Applied :
      (d : Db) (cs : List BalanceChange)
      → IsKeyedAll d
      → All (IsChange n h) cs
      → IsDistinct cs
      → (d' : Db) × (apply_changes b d cs ≡ ok d') × Applied d cs d'
  unfolding apply_changes
  apply_changes-Applied d [] keyed ics ds =
      (d, refl, record { keyed = keyed; amounts = λ p j ia uj. ground arith; others = λ k a. refl })
  apply_changes-Applied d (c ∷ cs) keyed (ic, ics) (ne, ds) =
      let (d1, e1, v) = apply_change_lem d c keyed ic in
      let (d', e, a) = apply_changes-Applied d1 cs (keyed_written d d1 c ic v keyed) ics ds in
      (
        d',
        rw (e1, ◌>>=◌) e,
        record {
          keyed = a.keyed;
          amounts = λ p j ia uj.
              a.amounts p j ia uj
              ∙ after_step d d1 c cs p j ne (λ i ui. held_written d d1 c ic v p i ia ui) uj;
          others = λ k (nk, ak). a.others k ak ∙ v k ∙ rw (eq_bytes_ne c.key k nk);
        },
      )
