-- ===== src/Services/Examples/Chain.antt =====
-- A chain of blocks: 100 ONT of nine decimals are minted for an account at the height 0, and 30 of them go to
-- another account at the height 1; the later blocks have no transfers.
use ontology_rosetta.Common.{
  ℕ, zero, suc, ◌+◌, ◌≡◌, ◌≢◌, refl, ap, inl, inr, false, none, some, List, [], ◌∷◌, ◌++◌, arith,
  Bool-cases, if◌then◌else◌, All,
}
use ontology_rosetta.Common.Bytes.{Bytes, eq_bytes}
use ontology_rosetta.Common.Int.{ℤ, pos, negsuc, ◌+ℤ◌, ◌≤ℤ◌}
use ontology_rosetta.Lexinum.Encode.{form}
use ontology_rosetta.Services.Address.{addr2slice, account_key_prefix}
use ontology_rosetta.Services.Types.{BalanceChange, BlockState, CurrencyInfo, contract_text}
use ontology_rosetta.Services.Store.{Store}
use ontology_rosetta.Services.Store.Changes.{IsDistinct, IsChange}
use ontology_rosetta.Services.Store.Blocks.{IsHashed}
use ontology_rosetta.Services.Store.History.{IsChain, total, net, +ℤ-zero}
use ontology_rosetta.Services.Account.Historic.{prefix_of, account_of}
use ontology_rosetta.Services.Examples.Healthy.{disk}
use ontology_rosetta.Services.Examples.Names.{natives, address}

abbrev pub ont_prefix : ℕ → Bytes
ont_prefix x = prefix_of natives (address x) natives.ont

abbrev pub change : ℕ → ℕ → ℤ → BalanceChange
change h x z = record { diff = z; key = ont_prefix x ++ form h; prefix = ont_prefix x }

abbrev pub changes_at : ℕ → List BalanceChange
changes_at zero = change 0 9 (pos 100_000_000_000) ∷ []
changes_at (suc zero) = change 1 9 (negsuc 29_999_999_999) ∷ change 1 8 (pos 30_000_000_000) ∷ []
changes_at (suc (suc k)) = []

abbrev pub hash_at : ℕ → Bytes
hash_at k = k ∷ 0 ∷ 0 ∷ 0 ∷ 0 ∷ 0 ∷ 0 ∷ 0 ∷ 0 ∷ 0 ∷ 0 ∷ 0 ∷ address 0

abbrev pub chain : ℕ → BlockState
chain k = record {
  block = record { timestamp = 1600000000 + k; transactions = [] };
  changes = changes_at k;
  hashes = [];
  id = record { by_height = false; hash = hash_at k; height = k };
  synced = 7;
}

abbrev pub ont_info : CurrencyInfo
ont_info = record {
  contract = natives.ont;
  currency = record {
    symbol = b'O' ∷ b'N' ∷ b'T' ∷ [];
    decimals = pos 9;
    metadata = contract_text natives.ont;
  };
  wasm = false;
}

abbrev pub fresh : Store disk
fresh = record {
  db = [];
  height_indexed = none;
  height_synced = some 7;
  tokens = (natives.ont, ont_info) ∷ [];
}

pub change-IsChange : (h x : ℕ) (z : ℤ) → IsChange natives h (change h x z)
change-IsChange h x z = record {
  account = account_of natives (address x) natives.ont (omega arith) (omega arith);
  key_eq = refl;
}

nth : ℕ → Bytes → ℕ
nth i [] = 0
nth zero (x ∷ xs) = x
nth (suc i) (x ∷ xs) = nth i xs

prefix_ne : ont_prefix 9 ≢ ont_prefix 8
unfolding addr2slice account_key_prefix eq_bytes nth
prefix_ne e = nine_eight (ap (nth 21) e)
  where
    nine_eight : ◌≡◌ {A = ℕ} 9 8 → ⊥
    nine_eight q = omega arith

net_first :
    (p : Bytes)
    → net (changes_at 0) p ≡ (if eq_bytes (ont_prefix 9) p then pos 100_000_000_000 else pos 0)
net_first p = elim (Bool-cases (eq_bytes (ont_prefix 9) p)) [ inl t ↦ rw t | inr f ↦ rw f ]

net_second :
    (p : Bytes)
    → net (changes_at 1) p ≡ (
        if eq_bytes (ont_prefix 9) p
        then negsuc 29_999_999_999
        else (if eq_bytes (ont_prefix 8) p then pos 30_000_000_000 else pos 0))
net_second p = elim (Bool-cases (eq_bytes (ont_prefix 9) p)) [
  | inl t ↦ rw t
  | inr f ↦ elim (Bool-cases (eq_bytes (ont_prefix 8) p)) [ inl t ↦ rw (f, t) | inr g ↦ rw (f, g) ]
]

pub solvent : (p : Bytes) (k : ℕ) → pos 0 ≤ℤ total chain p k
unfolding total ◌+ℤ◌
solvent p zero = omega arith
solvent p (suc zero) = rw (net_first p) (elim (Bool-cases (eq_bytes (ont_prefix 9) p)) [
  | inl t ↦ rw t (omega arith)
  | inr f ↦ rw f (omega arith)
])
solvent p (suc (suc zero)) =
    rw (net_first p, net_second p)
      (elim (Bool-cases (eq_bytes (ont_prefix 9) p)) [
        | inl t ↦ rw t (omega arith)
        | inr f ↦ elim (Bool-cases (eq_bytes (ont_prefix 8) p)) [
          | inl t ↦ rw (f, t) (omega arith)
          | inr g ↦ rw (f, g) (omega arith)
        ]
      ])
solvent p (suc (suc (suc k))) = rw (+ℤ-zero (total chain p (suc (suc k)))) (solvent p (suc (suc k)))

pub chain-IsChain : IsChain natives chain
chain-IsChain = record { numbered = λ k. refl; changes = changes; distinct = distinct }
  where
    changes : (k : ℕ) → All (IsChange natives k) (changes_at k)
    changes zero = (change-IsChange 0 9 (pos 100_000_000_000), tt)
    changes (suc zero) = (
      change-IsChange 1 9 (negsuc 29_999_999_999),
      (change-IsChange 1 8 (pos 30_000_000_000), tt),
    )
    changes (suc (suc k)) = tt

    distinct : (k : ℕ) → IsDistinct (changes_at k)
    distinct zero = (tt, tt)
    distinct (suc zero) = ((prefix_ne, tt), (tt, tt))
    distinct (suc (suc k)) = tt

pub chain-IsHashed : IsHashed chain
chain-IsHashed = record { hash_len = λ k. omega arith; hash_ne = λ i j ne e. ne (cc e) }

abbrev taken_at : ℕ → List BalanceChange
taken_at zero = change 0 9 (negsuc 4) ∷ []
taken_at (suc k) = []

-- A chain whose first block takes 5 out of an account that has nothing.
abbrev pub overdrawn : ℕ → BlockState
overdrawn k = record (chain k) { changes = taken_at k }

pub overdrawn-IsChain : IsChain natives overdrawn
overdrawn-IsChain = record { numbered = λ k. refl; changes = changes; distinct = distinct }
  where
    changes : (k : ℕ) → All (IsChange natives k) (taken_at k)
    changes zero = (change-IsChange 0 9 (negsuc 4), tt)
    changes (suc k) = tt

    distinct : (k : ℕ) → IsDistinct (taken_at k)
    distinct zero = (tt, tt)
    distinct (suc k) = tt

pub overdrawn-IsHashed : IsHashed overdrawn
overdrawn-IsHashed = record { hash_len = chain-IsHashed.hash_len; hash_ne = chain-IsHashed.hash_ne }
