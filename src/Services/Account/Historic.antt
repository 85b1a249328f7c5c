-- ===== src/Services/Account/Historic.antt =====
-- The balance endpoint on an indexed chain.
use ontology_rosetta.Common.{
  ℕ, suc, ◌^◌, ◌≤◌, ◌<◌, ◌≡◌, refl, ap, ◌∙◌, true, false, Option, none, some, [], ◌∷◌, ◌++◌, arith,
  Bool, ltb,
}
use ontology_rosetta.Common.Bytes.{Bytes}
use ontology_rosetta.Common.Int.{ℤ, pos, negsuc, ◌≤ℤ◌}
use ontology_rosetta.Common.Result.{ok, ◌>>=◌}
use ontology_rosetta.Lexinum.{IsU32}
use ontology_rosetta.Lexinum.Encode.{form}
use ontology_rosetta.Services.Ontology.{Address, IsAddress, Library}
use ontology_rosetta.Services.Address.{Natives, addr2slice, account_key_prefix}
use ontology_rosetta.Services.Types.{
  AccountBalanceResponse, BlockState, CurrencyInfo, PartialBlockIdentifier,
}
use ontology_rosetta.Services.Badger.{Badger, IsHealthy, Proto, IsProto}
use ontology_rosetta.Services.Store.{Store, index_chain, get_height, get_currency_info}
use ontology_rosetta.Services.Store.Latest.{read_under-before, Bound-le, before, held_at}
use ontology_rosetta.Services.Store.Previous.{seek-Finds}
use ontology_rosetta.Services.Store.Changes.{IsAccount}
use ontology_rosetta.Services.Store.Blocks.{IsHashed}
use ontology_rosetta.Services.Store.History.{
  total, booked, booked-total, booked-below, IsChain, IsLedger, IsIndexed, index_chain-IsIndexed,
}
use ontology_rosetta.Services.Lookup.{get_block_id, get_block_info, zero_hash}
use ontology_rosetta.Services.Lookup.Raw.{get_block_info_raw-found, info_of}
use ontology_rosetta.Services.Account.{stored_balance, balance_loop, get_balance}

-- The prefix of an account and a contract.
abbrev pub prefix_of : Natives → Address → Address → Bytes
prefix_of n acct contract = account_key_prefix (addr2slice n acct) (addr2slice n contract)

abbrev pub account_of :
    (n : Natives) (a c : Address) → IsAddress a → IsAddress c → IsAccount n (prefix_of n a c)
account_of n a c la lc = record {
  acct = a;
  contract = c;
  acct_len = la;
  contract_len = lc;
  prefix_eq = refl;
}

module _ (b : Badger) (healthy : IsHealthy b) (n : Natives) (chain : ℕ → BlockState) where
  stored_balance-booked :
      (k m : ℕ) (d : b.Db) (a c : Address)
      → IsLedger b healthy n chain k d
      → m < k
      → IsU32 m
      → IsAddress a
      → IsAddress c
      → (v : ℕ) × (stored_balance b n d a c (form m) ≡ ok v)
        × (v ≡ booked chain (prefix_of n a c) (suc m))
  unfolding stored_balance
  stored_balance-booked k m d a c led lt u la lc =
      let p : Bytes = prefix_of n a c in
      let ia : IsAccount n p = account_of n a c la lc in
      let read =
        read_under-before b healthy d p (led.keyed p ia) _ (suc m) (Bound-le p m u) _
          (seek-Finds b healthy d p m u (p ++ form m)) in
      (
        before (held_at b healthy d p) (suc m),
        rw (read, stored_balance),
        led.balances p ia (suc m) (omega arith),
      )

  -- The identifier of a block by its height alone.
  abbrev pub at_index : ℕ → Option PartialBlockIdentifier
  at_index m = some (record { hash = none; index = some (pos m) })

  module _ (ic : IsChain n chain) (ih : IsHashed chain) (p : Proto) (l : Library) where
    module _ (s : Store b) (k m : ℕ) (ix : IsIndexed b healthy n chain ic p (suc k) s.db)
        (top : s.height_indexed ≡ some k) (u : IsU32 k) (le : m ≤ k) where
      get_height_top : get_height b s ≡ k
      unfolding get_height
      get_height_top = rw (top, get_height) (omega arith)

      get_block_id_at :
          get_block_id b l s (at_index m) true
          ≡ ok (record { by_height = true; hash = zero_hash; height = m })
      unfolding get_block_id
      get_block_id_at = ground arith

      pub get_block_info_at :
          (w : Bool)
          → get_block_info b p l s (at_index m) w
            ≡ ok
                (info_of b healthy n p chain s.db m (ix.blocks m (omega arith)) (ih.hash_len m) l w)
      unfolding get_block_info
      get_block_info_at w =
          let low : ltb k m ≡ false = ground arith in
          rw (get_block_id_at, ◌>>=◌)
            (rw (get_height_top, low)
              (get_block_info_raw-found b healthy n p chain s.db m (ix.blocks m (omega arith))
                (ih.hash_len m) l s w refl (omega arith)).0)

      get_balance-booked :
          (a c : Address) (info : CurrencyInfo)
          → IsAddress a
          → IsAddress c
          → get_currency_info s.tokens c ≡ ok info
          → get_balance b n p l s (at_index m) a [] (c ∷ [])
            ≡ ok (record {
              balances =
                  (record {
                    currency = info.currency;
                    value = pos (booked chain (prefix_of n a c) (suc m));
                  })
                  ∷ [];
              block_identifier = record { hash = l.hash_to_hex (chain m).id.hash; index = m };
            })
      unfolding get_balance balance_loop
      get_balance-booked a c info la lc known =
          let (v, e, t) =
            stored_balance-booked (suc k) m s.db a c ix.ledger (omega arith) (omega arith) la lc in
          rw (get_block_info_at false, ◌>>=◌) (rw (known, e, ◌>>=◌) (rw t))

    -- What the balance request is answered with: the balance `v`, and the identifier of the block `m`.
    abbrev pub answer : CurrencyInfo → ℕ → ℤ → AccountBalanceResponse
    answer info m v = record {
      balances = record { currency = info.currency; value = v } ∷ [];
      block_identifier = record { hash = l.hash_to_hex (chain m).id.hash; index = m };
    }

    -- On any chain the answer is what is stored.
    pub index_chain-booked :
        (proto : IsProto p) (s : Store b)
        → ((j : Bytes) → healthy.view s.db j ≡ none)
        → (k m : ℕ) → suc k ≤ 2 ^ 32
        → m ≤ k
        → (a c : Address) (info : CurrencyInfo) → IsAddress a
        → IsAddress c
        → get_currency_info s.tokens c ≡ ok info
        → (s' : Store b) × (index_chain b p chain s (suc k) ≡ ok s')
          × (get_balance b n p l s' (at_index m) a [] (c ∷ [])
              ≡ ok (answer info m (pos (booked chain (prefix_of n a c) (suc m)))))
    index_chain-booked proto s e k m le lm a c info la lc known =
        let (s', ok_eq, ix, top, tokens) =
          index_chain-IsIndexed b healthy n chain ic p proto ih s e k le in
        (
          s',
          ok_eq,
          get_balance-booked s' k m ix top (omega arith) lm a c info la lc (rw tokens known),
        )

    -- From an empty data store, let the blocks of a chain up to the height `k` be indexed, and let
    -- the sum of an account's changes in a registered contract not fall below zero up to the block
    -- `m` of these. Then the balance request for the account and the contract at the index `m` is
    -- answered with the sum up to and with that block, and with the identifier of that block.
    pub get_balance-index_chain :
        (proto : IsProto p) (s : Store b)
        → ((j : Bytes) → healthy.view s.db j ≡ none)
        → (k m : ℕ) → suc k ≤ 2 ^ 32
        → m ≤ k
        → (a c : Address) (info : CurrencyInfo) → IsAddress a
        → IsAddress c
        → get_currency_info s.tokens c ≡ ok info
        → ((j : ℕ) → j ≤ suc m → pos 0 ≤ℤ total chain (prefix_of n a c) j)
        → (s' : Store b) × (index_chain b p chain s (suc k) ≡ ok s')
          × (get_balance b n p l s' (at_index m) a [] (c ∷ [])
              ≡ ok (record {
                balances =
                    (record {
                      currency = info.currency;
                      value = total chain (prefix_of n a c) (suc m);
                    })
                    ∷ [];
                block_identifier = record { hash = l.hash_to_hex (chain m).id.hash; index = m };
              }))
    get_balance-index_chain proto s e k m le lm a c info la lc known solvent =
        let (s', q, r) = index_chain-booked proto s e k m le lm a c info la lc known in
        (
          s',
          q,
          r
              ∙ ap (λ (v : ℤ). ok (answer info m v))
                  (booked-total chain (prefix_of n a c) (suc m) solvent),
        )

    -- From an empty data store, let the blocks of a chain up to the height `k` be indexed, and let
    -- the block `m` of these be the first with which the sum of an account's changes in a registered
    -- contract falls below zero. Then the balance request for the account and the contract at the
    -- index `m` is answered with that sum without its sign: a balance above zero.
    pub get_balance-overdrawn :
        (proto : IsProto p) (s : Store b)
        → ((j : Bytes) → healthy.view s.db j ≡ none)
        → (k m : ℕ) → suc k ≤ 2 ^ 32
        → m ≤ k
        → (a c : Address) (info : CurrencyInfo) → IsAddress a
        → IsAddress c
        → get_currency_info s.tokens c ≡ ok info
        → ((j : ℕ) → j ≤ m → pos 0 ≤ℤ total chain (prefix_of n a c) j)
        → (v : ℕ) → total chain (prefix_of n a c) (suc m) ≡ negsuc v
        → (s' : Store b) × (index_chain b p chain s (suc k) ≡ ok s')
          × (get_balance b n p l s' (at_index m) a [] (c ∷ []) ≡ ok (answer info m (pos (suc v))))
    get_balance-overdrawn proto s e k m le lm a c info la lc known solvent v below =
        let (s', q, r) = index_chain-booked proto s e k m le lm a c info la lc known in
        (
          s',
          q,
          r
              ∙ ap (λ (x : ℕ). ok (answer info m (pos x)))
                  (booked-below chain (prefix_of n a c) m v solvent below),
        )
