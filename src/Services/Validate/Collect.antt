-- ===== src/Services/Validate/Collect.antt =====
-- The loop of Validate over the keys of accounts: it ends, and finds each account once, at its last
-- entry.
use ontology_rosetta.Common.{
  ℕ, zero, suc, ◌≤◌, ◌<◌, ◌≡◌, refl, sym, ap, ◌∙◌, ◌⊎◌, inl, inr, false, Option, none, some, List,
  [], ◌∷◌, ◌++◌, length, All, Bool-cases, subst, arith, if◌then◌else◌,
}
use ontology_rosetta.Common.Bytes.{
  Bytes, LtBytes, LeBytes, HasPrefix, has_prefix, eq_bytes, eq_bytes→eq, eq_bytes_iff,
  LtBytes-trans, LtBytes-irrefl, LtBytes-total, HasPrefix-between, has_prefix→HasPrefix,
}
use ontology_rosetta.Common.Result.{ok}
use ontology_rosetta.Lexinum.{IsU32}
use ontology_rosetta.Lexinum.Encode.{form}
use ontology_rosetta.Services.Ontology.{Library, IsLibrary, IsAddress}
use ontology_rosetta.Services.Address.{Natives, addr2slice, account_key_prefix}
use ontology_rosetta.Services.Badger.{Badger, IsHealthy, IsLast}
use ontology_rosetta.Services.Store.Latest.{Finds, form_le_inv, LeBytes-cancel_left, clash}
use ontology_rosetta.Services.Store.Previous.{next-Finds}
use ontology_rosetta.Services.Store.Changes.{IsAccount, account_split}
use ontology_rosetta.Services.Store.Listed.{Within, IsAccountKey, IsListed, shrink}
use ontology_rosetta.Services.Account.Historic.{prefix_of, account_of}
use ontology_rosetta.Services.Validate.{AccountInfo, put_found, collect}
use ontology_rosetta.Services.Validate.Keys.{is_compressed}
use ontology_rosetta.Services.Validate.Round.{info_of, collect_round}

head_le : (x : ℕ) (rest k : Bytes) → LeBytes (b'a' ∷ rest) (x ∷ k) → b'a' ≤ x
head_le x rest k (inl (inl lt)) = omega arith
head_le x rest k (inl (inr (e, h))) = omega arith
head_le x rest k (inr e) = let q : b'a' ≡ x = cc e in omega arith

account_head : {n : Natives} (q s : Bytes) → IsAccount n q → (r : Bytes) × (q ++ s ≡ b'a' ∷ r)
unfolding account_key_prefix
account_head q s ia = (_, ap (λ (x : Bytes). x ++ s) ia.prefix_eq)

module _ (b : Badger) (healthy : IsHealthy b) (n : Natives) (l : Library) (lib : IsLibrary l) where
  open b use {Db, Item, item_key, next}
  open healthy use {view}

  -- An entry for an account of the list, with what its last key holds.
  pub record IsTop (d : Db) (x : AccountInfo) : Type 0 where
    pub acct_len : IsAddress x.acct
    pub contract_len : IsAddress x.contract
    pub native_eq : x.native ≡ is_compressed (addr2slice n x.contract)
    pub height : ℕ
    pub fits : IsU32 height
    pub key_eq : x.key ≡ prefix_of n x.acct x.contract ++ form height
    pub held : Bytes
    pub held_eq : view d x.key ≡ some held
    pub last :
        (h : ℕ) (v : Bytes)
        → IsU32 h
        → view d (prefix_of n x.acct x.contract ++ form h) ≡ some v
        → h ≤ height

  abbrev pub Covered : Bytes → List AccountInfo → Type 0
  Covered q [] = ⊥
  Covered q (x ∷ xs) = (prefix_of n x.acct x.contract ≡ q) ⊎ Covered q xs

  module _ (d : Db) where
    -- Where the loop stands: `A` allows the keys that are left, `ident` is the prefix of the key
    -- before, and `todo` has the keys of accounts among the ones that are left.
    pub record Front (A : Bytes → Type 0) (ident : Bytes) (todo : List Bytes) : Type 0 where
      pub down : (j k : Bytes) → A k → LtBytes j k → A j
      pub head :
          (k v rest : Bytes)
          → A k
          → view d k ≡ some v
          → LeBytes (b'a' ∷ rest) k
          → HasPrefix (b'a' ∷ []) k
      pub parted :
          (q : Bytes) → IsAccount n q → (g h : ℕ) → A (q ++ form h) → A (q ++ form g) ⊎ (ident ≡ q)
      pub within :
          (rest v : Bytes)
          → view d (b'a' ∷ rest) ≡ some v
          → A (b'a' ∷ rest)
          → Within (b'a' ∷ rest) todo

    pub record Collected (fuel : ℕ) (ident : Bytes) (o : Option Item) (A : Bytes → Type 0)
        : Type 0 where
      pub infos : List AccountInfo
      pub collect_eq : collect l n b fuel d ident o ≡ ok infos
      pub tops : All (IsTop d) infos
      pub covers :
          (q : Bytes)
          → IsAccount n q
          → (h : ℕ) (v : Bytes) → view d (q ++ form h) ≡ some v
          → A (q ++ form h)
          → (ident ≡ q) ⊎ Covered q infos

    module _ (keys : List Bytes) (ls : IsListed b healthy n keys d) where
      -- Nothing is left below an iterator that is not on a key of an account.
      nothing_left :
          {A : Bytes → Type 0} {ident : Bytes} {todo : List Bytes} (i : Item) (q : Bytes)
          → Front A ident todo
          → IsLast b view d A i
          → has_prefix (b'a' ∷ []) (item_key i) ≡ false
          → IsAccount n q
          → (h : ℕ) (v : Bytes) → view d (q ++ form h) ≡ some v
          → A (q ++ form h)
          → ⊥
      nothing_left i q fr last e ia h v f aq =
          let (r, s) = account_head q (form h) ia in
          let le =
            subst (λ (x : Bytes). LeBytes x (item_key i)) s (last.last (q ++ form h) v f aq) in
          let (rest, g) = fr.head (item_key i) last.held r last.allowed last.at_key le in
          clash (b'a' ∷ []) (item_key i) rest g e

      -- The loop goes on behind the key of an account.
      behind :
          {A : Bytes → Type 0} {ident : Bytes} (todo : List Bytes) (rest held p : Bytes) (h : ℕ)
          → Front A ident todo
          → A (b'a' ∷ rest)
          → view d (b'a' ∷ rest) ≡ some held
          → IsAccount n p
          → b'a' ∷ rest ≡ p ++ form h
          → (less : List Bytes) × (suc (length less) ≡ length todo)
            × Front (λ j. LtBytes j (b'a' ∷ rest)) p less
      behind todo rest held p h fr ak f ia ke =
          let k : Bytes = b'a' ∷ rest in
          let (less, m, w) = shrink k todo (fr.within rest held f ak) in
          (
            less,
            m,
            record {
              down = λ i j lt lt'. LtBytes-trans i j k lt' lt;
              head = λ j v r lt e le. HasPrefix-between (b'a' ∷ []) r rest j le (inl lt);
              parted = λ q iq g j lt. elim (LtBytes-total (q ++ form g) k) [
                | inl lt' ↦ inl lt'
                | inr le ↦
                    let (r, s) = HasPrefix-between q (form j) (form g) k (inl lt) le in
                    inr (account_split p q (form h) r ia iq (sym ke ∙ s)).0
              ];
              within = λ r v e lt.
                  w (b'a' ∷ r) (fr.within r v e (fr.down (b'a' ∷ r) k ak lt))
                    (λ q. LtBytes-irrefl k (subst (λ (x : Bytes). LtBytes x k) q lt));
            },
          )

      module _ (fuel : ℕ) (ident : Bytes) (i : Item) (A : Bytes → Type 0) (todo : List Bytes)
          (fr : Front A ident todo) (last : IsLast b view d A i) (rest : Bytes)
          (e : item_key i ≡ b'a' ∷ rest) (key : IsAccountKey n (b'a' ∷ rest)) where
        abbrev p : Bytes
        p = prefix_of n key.account.acct key.account.contract

        account : IsAccount n p
        account =
            account_of n key.account.acct key.account.contract key.account.acct_len
              key.account.contract_len

        key_eq : b'a' ∷ rest ≡ p ++ form key.height
        key_eq = key.key_eq ∙ ap (λ (x : Bytes). x ++ form key.height) key.account.prefix_eq

        allowed : A (b'a' ∷ rest)
        allowed = subst A e last.allowed

        entry : view d (b'a' ∷ rest) ≡ some last.held
        entry = subst (λ (x : Bytes). view d x ≡ some last.held) e last.at_key

        abbrev x : AccountInfo
        x = info_of b n l lib key.account.acct key.account.contract (form key.height)

        top : eq_bytes p ident ≡ false → IsTop d x
        top f = record {
          acct_len = key.account.acct_len;
          contract_len = key.account.contract_len;
          native_eq = refl;
          height = key.height;
          fits = key.fits;
          key_eq = refl;
          held = last.held;
          held_eq = subst (λ (k : Bytes). view d k ≡ some last.held) key_eq entry;
          last = λ g w ug h. elim (fr.parted p account g key.height (subst A key_eq allowed)) [
            | inl ag ↦ form_le_inv g key.height ug (
                LeBytes-cancel_left p _ _ (
                  subst (λ (k : Bytes). LeBytes (p ++ form g) k) (e ∙ key_eq)
                    (last.last (p ++ form g) w h ag)))
            | inr s ↦ absurd (cc (f, (eq_bytes_iff p ident).1 (sym s)))
          ];
        }

        module _ (r : Collected fuel p (next d i) (λ j. LtBytes j (b'a' ∷ rest))) where
          near :
              (q : Bytes)
              → IsAccount n q
              → (h : ℕ) (v : Bytes) → view d (q ++ form h) ≡ some v
              → A (q ++ form h)
              → (p ≡ q) ⊎ Covered q r.infos
          near q iq h v f aq = elim (last.last (q ++ form h) v f aq) [
            | inl lt ↦ r.covers q iq h v f (subst (λ (k : Bytes). LtBytes (q ++ form h) k) e lt)
            | inr s ↦
                inl
                  (account_split p q (form key.height) (form h) account iq
                    (sym key_eq ∙ sym e ∙ sym s)).0
          ]

          round :
              collect l n b (suc fuel) d ident (some i)
              ≡ ok (put_found (if eq_bytes p ident then none else some x) r.infos)
          round =
              collect_round b n l lib d fuel ident i key.account.acct key.account.contract
                (form key.height) key.account.acct_len key.account.contract_len (e ∙ key_eq) r.infos
                r.collect_eq

          collected : Collected (suc fuel) ident (some i) A
          unfolding put_found
          collected = elim (Bool-cases (eq_bytes p ident)) [
            | inl t ↦ record {
              infos = r.infos;
              collect_eq = round ∙ rw t refl;
              tops = r.tops;
              covers = λ q iq h v f aq. elim (near q iq h v f aq) [
                | inl s ↦ inl (sym (eq_bytes→eq p ident t) ∙ s)
                | inr c ↦ inr c
              ];
            }
            | inr t ↦ record {
              infos = x ∷ r.infos;
              collect_eq = round ∙ rw t refl;
              tops = (top t, r.tops);
              covers = λ q iq h v f aq. elim (near q iq h v f aq) [
                | inl s ↦ inr (inl s)
                | inr c ↦ inr (inr c)
              ];
            }
          ]

      -- With more fuel than there are keys left the loop ends, and covers the accounts that have an
      -- entry among the keys that are left.
      pub collect-Collected :
          (fuel : ℕ) (ident : Bytes) (o : Option Item) (A : Bytes → Type 0) (todo : List Bytes)
          → Front A ident todo
          → Finds b healthy d [] A o
          → length todo < fuel
          → Collected fuel ident o A
      unfolding collect
      collect-Collected zero ident o A todo fr finds lt = absurd (omega arith)
      collect-Collected (suc fuel) ident none A todo fr finds lt = record {
        infos = [];
        collect_eq = refl;
        tops = tt;
        covers = λ q ia h v e aq. absurd (cc (finds (q ++ form h) aq, e));
      }
      collect-Collected (suc fuel) ident (some i) A todo fr finds lt =
          elim (Bool-cases (has_prefix (b'a' ∷ []) (item_key i))) [
            | inl t ↦
                let (rest, e) = has_prefix→HasPrefix (b'a' ∷ []) (item_key i) t in
                let at_key = subst (λ (k : Bytes). view d k ≡ some finds.held) e finds.at_key in
                let key = ls.account rest finds.held at_key in
                let (less, m, fr') =
                  behind todo rest finds.held (p fuel ident i A todo fr finds rest e key) key.height
                    fr (subst A e finds.allowed) at_key
                    (account fuel ident i A todo fr finds rest e key)
                    (key_eq fuel ident i A todo fr finds rest e key) in
                collected fuel ident i A todo fr finds rest e key (
                  collect-Collected fuel (p fuel ident i A todo fr finds rest e key) (next d i)
                    (λ j. LtBytes j (b'a' ∷ rest)) less fr'
                    (subst (λ (k : Bytes). Finds b healthy d [] (λ j. LtBytes j k) (next d i)) e
                      (next-Finds b healthy d [] 0 (omega arith) i))
                    (omega arith))
            | inr f ↦ record {
              infos = [];
              collect_eq = rw (f, collect) refl;
              tops = tt;
              covers = λ q ia h v e aq. absurd (nothing_left i q fr finds f ia h v e aq);
            }
          ]

      -- The start of the loop.
      pub start-Front : Front (λ k. LeBytes k (b'b' ∷ [])) [] keys
      start-Front = record {
        down = λ j k le lt. inl (lt_le j k (b'b' ∷ []) lt le);
        head = λ k v rest ak e le. below_b k v rest ak e le;
        parted = λ q ia g h aq.
            let (r, s) = account_head q (form g) ia in
            inl (subst (λ (x : Bytes). LeBytes x (b'b' ∷ [])) (sym s) (inl (inl (omega arith))));
        within = λ rest v e aq. ls.within rest v e;
      }
        where
          lt_le : (j k m : Bytes) → LtBytes j k → LeBytes k m → LtBytes j m
          lt_le j k m lt (inl lt') = LtBytes-trans j k m lt lt'
          lt_le j k m lt (inr e) = subst (LtBytes j) e lt

          below_b :
              (k v rest : Bytes)
              → LeBytes k (b'b' ∷ [])
              → view d k ≡ some v
              → LeBytes (b'a' ∷ rest) k
              → HasPrefix (b'a' ∷ []) k
          below_b [] v rest ak e (inl le) = absurd le
          below_b [] v rest ak e (inr q) = absurd (cc q)
          below_b (x ∷ k) v rest (inl (inl lt)) e le =
              let same : x ≡ b'a' = omega (arith, head_le x rest k le) in (k, cc same)
          below_b (x ∷ k) v rest (inl (inr (q, lt))) e le = absurd lt
          below_b (x ∷ k) v rest (inr q) e le =
              absurd (cc (ls.no_bare, subst (λ (j : Bytes). view d j ≡ some v) q e))
