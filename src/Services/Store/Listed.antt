-- ===== src/Services/Store/Listed.antt =====
-- The keys of accounts in a store: each was written for a change of a block.
use ontology_rosetta.Common.{
  ℕ, zero, suc, ◌≡◌, ◌≢◌, refl, ap, sym, ◌∙◌, ◌⊎◌, inl, inr, none, some, List, [], ◌∷◌, ◌++◌, map,
  length, All, Bool-cases, arith,
}
use ontology_rosetta.Common.Bytes.{Bytes, eq_bytes, eq_bytes→eq, eq_bytes_iff}
use ontology_rosetta.Lexinum.{IsU32}
use ontology_rosetta.Lexinum.Encode.{form}
use ontology_rosetta.Services.Address.{Natives}
use ontology_rosetta.Services.Keys.{
  put_uint32, block_key, block_hash2height_key, block_height2hash_key, height_key,
}
use ontology_rosetta.Services.Types.{BalanceChange, BlockState}
use ontology_rosetta.Services.Badger.{Badger, IsHealthy}
use ontology_rosetta.Services.Store.Changes.{IsAccount, IsChange}
use ontology_rosetta.Services.Store.Update.{IsElsewhere, Updated, head_ne, txn_ne, account_ne}

-- `k` is one of the keys.
abbrev pub Within : Bytes → List Bytes → Type 0
Within k [] = ⊥
Within k (x ∷ xs) = (x ≡ k) ⊎ Within k xs

pub Within-append_left : (k : Bytes) (xs ys : List Bytes) → Within k xs → Within k (xs ++ ys)
Within-append_left k [] ys h = absurd h
Within-append_left k (x ∷ xs) ys (inl e) = inl e
Within-append_left k (x ∷ xs) ys (inr h) = inr (Within-append_left k xs ys h)

pub Within-append_right : (k : Bytes) (xs ys : List Bytes) → Within k ys → Within k (xs ++ ys)
Within-append_right k [] ys h = h
Within-append_right k (x ∷ xs) ys h = inr (Within-append_right k xs ys h)

-- One occurrence less.
pub shrink :
    (k : Bytes) (ks : List Bytes)
    → Within k ks
    → (rest : List Bytes) × (suc (length rest) ≡ length ks)
      × ((j : Bytes) → Within j ks → j ≢ k → Within j rest)
shrink k [] w = absurd w
shrink k (x ∷ ks) (inl e) = (ks, refl, behind)
  where
    behind : (j : Bytes) → Within j (x ∷ ks) → j ≢ k → Within j ks
    behind j (inl f) ne = absurd (ne (sym f ∙ e))
    behind j (inr w) ne = w
shrink k (x ∷ ks) (inr w) = let (rest, e, f) = shrink k ks w in (x ∷ rest, ap suc e, behind rest f)
  where
    behind :
        (rest : List Bytes)
        → ((j : Bytes) → Within j ks → j ≢ k → Within j rest)
        → (j : Bytes) → Within j (x ∷ ks)
        → j ≢ k
        → Within j (x ∷ rest)
    behind rest f j (inl q) ne = inl q
    behind rest f j (inr u) ne = inr (f j u ne)

-- The key of an account at a height.
pub record IsAccountKey (n : Natives) (key : Bytes) : Type 0 where
  pub prefix : Bytes
  pub account : IsAccount n prefix
  pub height : ℕ
  pub fits : IsU32 height
  pub key_eq : key ≡ prefix ++ form height

-- The keys that the blocks below a height write.
unfoldable pub chain_keys : (ℕ → BlockState) → ℕ → List Bytes
chain_keys chain zero = []
chain_keys chain (suc k) =
    map (λ (c : BalanceChange). c.key) (chain k).changes ++ chain_keys chain k

module _ (b : Badger) (healthy : IsHealthy b) (n : Natives) where
  open healthy use {view}

  -- The entries under keys that begin with `a` are for accounts and under keys of the list.
  pub record IsListed (keys : List Bytes) (d : b.Db) : Type 0 where
    pub account : (rest v : Bytes) → view d (b'a' ∷ rest) ≡ some v → IsAccountKey n (b'a' ∷ rest)
    pub within : (rest v : Bytes) → view d (b'a' ∷ rest) ≡ some v → Within (b'a' ∷ rest) keys
    pub no_bare : view d (b'b' ∷ []) ≡ none

  pub IsListed-empty : (d : b.Db) → ((j : Bytes) → view d j ≡ none) → IsListed [] d
  IsListed-empty d e = record {
    account = λ rest v f. absurd (cc (e (b'a' ∷ rest), f));
    within = λ rest v f. absurd (cc (e (b'a' ∷ rest), f));
    no_bare = e (b'b' ∷ []);
  }

  -- A key is that of a change, or of none.
  find_key :
      (h : ℕ) (u : IsU32 h) (j : Bytes) (cs : List BalanceChange)
      → All (IsChange n h) cs
      → (IsAccountKey n j × Within j (map (λ (c : BalanceChange). c.key) cs))
        ⊎ All (λ c. c.key ≢ j) cs
  find_key h u j [] a = inr tt
  find_key h u j (c ∷ cs) (ic, ics) = elim (Bool-cases (eq_bytes c.key j)) [
    | inl t ↦
        let e : c.key ≡ j = eq_bytes→eq c.key j t in
        inl (
          record {
            prefix = c.prefix;
            account = ic.account;
            height = h;
            fits = u;
            key_eq = sym e ∙ ic.key_eq;
          },
          inl e,
        )
    | inr f ↦ elim (find_key h u j cs ics) [
      | inl (k, w) ↦ inl (k, inr w)
      | inr a ↦ inr ((λ e. cc (f, (eq_bytes_iff c.key j).1 e)), a)
    ]
  ]

  module _ (state : BlockState) (u : IsU32 state.id.height) (d d' : b.Db) (encoded : Bytes)
      (up : Updated b healthy n state u d encoded d')
      (ics : All (IsChange n state.id.height) state.changes) where
    at_a :
        (rest : Bytes)
        → All (λ c. c.key ≢ (b'a' ∷ rest)) state.changes
        → IsElsewhere state (b'a' ∷ rest)
    unfolding block_key block_hash2height_key block_height2hash_key height_key
    at_a rest a = record {
      no_change = a;
      no_block = head_ne _ _ _ _ (omega arith);
      no_hash = head_ne _ _ _ _ (omega arith);
      no_height = head_ne _ _ _ _ (omega arith);
      no_txn = txn_ne b'a' rest state.hashes (omega arith);
      no_mark = head_ne _ _ _ _ (omega arith);
    }

    kept_or_written :
        (rest v : Bytes)
        → view d' (b'a' ∷ rest) ≡ some v
        → (IsAccountKey n (b'a' ∷ rest)
            × Within (b'a' ∷ rest) (map (λ (c : BalanceChange). c.key) state.changes))
          ⊎ (view d (b'a' ∷ rest) ≡ some v)
    kept_or_written rest v e = elim (find_key state.id.height u (b'a' ∷ rest) state.changes ics) [
      | inl k ↦ inl k
      | inr a ↦ inr (sym (up.frame (b'a' ∷ rest) (at_a rest a)) ∙ e)
    ]

    no_change_b :
        (cs : List BalanceChange)
        → All (IsChange n state.id.height) cs
        → All (λ c. c.key ≢ (b'b' ∷ [])) cs
    no_change_b [] a = tt
    no_change_b (c ∷ cs) (ic, ics) = (
      (λ e.
          account_ne c.prefix (form state.id.height) [] b'b' ic.account (omega arith)
            (sym e ∙ ic.key_eq)),
      no_change_b cs ics,
    )

    at_b : IsElsewhere state (b'b' ∷ [])
    unfolding block_key block_hash2height_key block_height2hash_key height_key put_uint32
    at_b = record {
      no_change = no_change_b state.changes ics;
      no_block = λ e. cc e;
      no_hash = head_ne _ _ _ _ (omega arith);
      no_height = head_ne _ _ _ _ (omega arith);
      no_txn = txn_ne b'b' [] state.hashes (omega arith);
      no_mark = head_ne _ _ _ _ (omega arith);
    }

    pub IsListed-step :
        (keys : List Bytes)
        → IsListed keys d
        → IsListed (map (λ (c : BalanceChange). c.key) state.changes ++ keys) d'
    IsListed-step keys ls = record {
      account = λ rest v e. elim (kept_or_written rest v e) [
        | inl (k, w) ↦ k
        | inr f ↦ ls.account rest v f
      ];
      within = λ rest v e. elim (kept_or_written rest v e) [
        | inl (k, w) ↦ Within-append_left (b'a' ∷ rest) _ keys w
        | inr f ↦ Within-append_right (b'a' ∷ rest) _ keys (ls.within rest v f)
      ];
      no_bare = up.frame (b'b' ∷ []) at_b ∙ ls.no_bare;
    }
