-- ===== src/Services/Indexer/Build/Ledger.antt =====
-- The loops over the events of a block keep the books: `diffs` is what the recorded transfers move.
use ontology_rosetta.Common.{
  ℕ, zero, suc, ◌<◌, ◌≡◌, ◌≢◌, refl, sym, ap, ◌∙◌, inl, inr, Bool, Option, none, some, List, [],
  ◌∷◌, ◌++◌, map, arith, Bool-cases, Option-cases, All, length, get_elem?, subst,
}
use ontology_rosetta.Common.Int.{ℤ, pos, ◌+ℤ◌, int_laws}
use ontology_rosetta.Common.Result.{Result, ok, err, ◌>>=◌, Result-cases}
use ontology_rosetta.Services.Ontology.{Address, IsAddress, Library, IsLibrary}
use ontology_rosetta.Services.Address.{Natives}
use ontology_rosetta.Services.Types.{Transfer, Transaction, CurrencyInfo}
use ontology_rosetta.Services.Store.{lookup_token}
use ontology_rosetta.Services.Indexer.{Xfer, Diffs, balance_cal, checkgas_verified}
use ontology_rosetta.Services.Indexer.Diffs.{IsTable, entry}
use ontology_rosetta.Services.Indexer.Flow.{flow, balance_cal-flow, balance_cal-IsTable}
use ontology_rosetta.Services.Indexer.Decode.{Event, Events, Halt, decode_event}
use ontology_rosetta.Services.Indexer.Decode.Parties.{IsEvents, IsXfer, AllOk, decode_event-IsXfer}
use ontology_rosetta.Services.Indexer.Build.{
  SrcTxn, Notify, Progress, Totals, set_transaction, record_xfer, index_event, index_events,
  new_transaction,
}

-- What the transfers of a transaction, and of all transactions of a block, move.
abbrev pub flows : Natives → Address → Address → List Transfer → ℤ
flows n a c [] = pos 0
flows n a c (t ∷ ts) = flow n a c t +ℤ flows n a c ts

abbrev pub block_flow : Natives → Address → Address → List Transaction → ℤ
block_flow n a c [] = pos 0
block_flow n a c (t ∷ ts) = flows n a c t.transfers +ℤ block_flow n a c ts

module _ (n : Natives) (a c : Address) where
  flows-append : (xs ys : List Transfer) → flows n a c (xs ++ ys) ≡ flows n a c xs +ℤ flows n a c ys
  flows-append [] ys = omega int_laws
  flows-append (x ∷ xs) ys = ap (λ (z : ℤ). flow n a c x +ℤ z) (flows-append xs ys) ∙ omega int_laws

  pub block_flow-set_transaction :
      (i : ℕ) (f : Bool) (new : List Transfer) (ts : List Transaction)
      → i < length ts
      → block_flow n a c (set_transaction i f new ts) ≡ block_flow n a c ts +ℤ flows n a c new
  unfolding set_transaction
  block_flow-set_transaction i f new [] h = absurd (omega arith)
  block_flow-set_transaction zero f new (t ∷ ts) h =
      ap (λ (z : ℤ). z +ℤ block_flow n a c ts) (flows-append t.transfers new) ∙ omega int_laws
  block_flow-set_transaction (suc i) f new (t ∷ ts) h =
      ap (λ (z : ℤ). flows n a c t.transfers +ℤ z)
        (block_flow-set_transaction i f new ts (omega arith))
      ∙ omega int_laws

  pub block_flow-new_transaction :
      (l : Library) (ev : Events) (tokens : List (Address × CurrencyInfo)) (ts : List SrcTxn)
      → block_flow n a c (map (new_transaction l n ev tokens) ts) ≡ pos 0
  unfolding new_transaction
  block_flow-new_transaction l ev tokens [] = refl
  block_flow-new_transaction l ev tokens (t ∷ ts) =
      ap (λ (z : ℤ). pos 0 +ℤ z) (block_flow-new_transaction l ev tokens ts) ∙ omega int_laws

pub length-set_transaction :
    (i : ℕ) (f : Bool) (new : List Transfer) (ts : List Transaction)
    → length (set_transaction i f new ts) ≡ length ts
unfolding set_transaction
length-set_transaction i f new [] = refl
length-set_transaction zero f new (t ∷ ts) = refl
length-set_transaction (suc i) f new (t ∷ ts) = ap suc (length-set_transaction i f new ts)

pub get_elem?-lt {ℓ} :
    {A : Type ℓ} (xs : List A) (i : ℕ) (x : A) → get_elem? xs i ≡ some x → i < length xs
get_elem?-lt [] i x e = absurd (cc e)
get_elem?-lt (y ∷ xs) zero x e = omega arith
get_elem?-lt (y ∷ xs) (suc i) x e = omega (arith, get_elem?-lt xs i x e)

pub length-map : {A B : Type 0} (f : A → B) (xs : List A) → length (map f xs) ≡ length xs
length-map f [] = refl
length-map f (x ∷ xs) = ap suc (length-map f xs)

-- The contract of an event is an array of 20 bytes.
abbrev pub IsEvent : Event → Type 0
IsEvent e = IsAddress e.contract

abbrev pub IsNotify : Notify → Type 0
IsNotify i = All IsEvent i.events

module _ (n : Natives) where
  -- `diffs` is `d0` with what `ts` moves.
  pub record IsMoved (d0 : Diffs) (ts : List Transfer) (d : Diffs) : Type 0 where
    pub table : IsTable d
    pub moved :
        (a c : Address)
        → IsAddress a
        → IsAddress c
        → a ≢ n.null
        → entry a c d ≡ entry a c d0 +ℤ flows n a c ts

  -- `diffs` is what the transactions of the block move.
  pub record IsBalanced (src : List SrcTxn) (t : Totals) : Type 0 where
    pub table : IsTable t.diffs
    pub len : length t.transactions ≡ length src
    pub balanced :
        (a c : Address)
        → IsAddress a
        → IsAddress c
        → a ≢ n.null
        → entry a c t.diffs ≡ block_flow n a c t.transactions

  abbrev pub Kept : Diffs → Progress → Type 0
  Kept d0 p = IsMoved d0 p.transfers p.diffs

module _ (l : Library) (n : Natives) (ev : Events) (tokens : List (Address × CurrencyInfo))
    (lib : IsLibrary l) (good : IsEvents ev) where
  record_xfer-Kept :
      (d0 : Diffs) (contract payer : Address) (failed : Bool) (p : Progress) (x : Xfer)
      → IsAddress contract
      → IsXfer x
      → Kept n d0 p
      → Kept n d0 (record_xfer l n ev tokens contract payer failed p x)
  unfolding record_xfer
  record_xfer-Kept d0 contract payer failed p x lc (lf, lt) k =
      let g = checkgas_verified n contract payer x.from failed p.gas_verified x.is_gas in
      let y = record x { is_gas = g.is_gas } in
      let b = balance_cal n y contract p.diffs in
      elim (Bool-cases g.skip) [
        | inl t ↦ rw t k
        | inr f ↦ rw f (record {
          table = balance_cal-IsTable n y contract p.diffs lf lt lc k.table;
          moved = λ a c la lc' ne.
              balance_cal-flow n y contract a c p.diffs lf lt lc la lc' ne
              ∙ ap (λ (z : ℤ). z +ℤ flow n a c b.0) (k.moved a c la lc' ne)
              ∙ omega int_laws
              ∙ ap (λ (z : ℤ). entry a c d0 +ℤ z) (sym (flows-append n a c p.transfers (b.0 ∷ [])));
        })
      ]

  index_event-Kept :
      (d0 : Diffs) (payer : Address) (failed : Bool) (gas : ℕ) (p p' : Progress) (e : Event)
      → IsEvent e
      → index_event l n ev tokens payer failed gas p e ≡ ok p'
      → Kept n d0 p
      → Kept n d0 p'
  unfolding index_event
  index_event-Kept d0 payer failed gas p p' e lc q k =
      elim (Option-cases (lookup_token e.contract tokens)) [
        | inl f ↦ same (rw (f, index_event) at q)
        | inr (info, f) ↦
            decoded (decode_event l n ev gas e) (decode_event-IsXfer l n ev lib good gas e)
              (rw (f, index_event) at q)
      ]
    where
      same : ◌≡◌ {A = Result Halt Progress} (ok p) (ok p') → Kept n d0 p'
      same r = let s : p ≡ p' = cc r in subst (Kept n d0) s k

      decoded :
          (o : Result Halt (Option Xfer))
          → AllOk IsXfer o
          → (o >>= λ y. elim y [
            | none ↦ ok p
            | some x ↦ ok (record_xfer l n ev tokens e.contract payer failed p x)
          ])
            ≡ ok p'
          → Kept n d0 p'
      decoded (err h) ix r = cc
      decoded (ok none) ix r = same r
      decoded (ok (some x)) ix r =
          let s : record_xfer l n ev tokens e.contract payer failed p x ≡ p' = cc r in
          subst (Kept n d0) s (record_xfer-Kept d0 e.contract payer failed p x lc ix k)

  pub index_events-Kept :
      (d0 : Diffs) (payer : Address) (failed : Bool) (gas : ℕ) (es : List Event) (p p' : Progress)
      → All IsEvent es
      → index_events l n ev tokens payer failed gas p es ≡ ok p'
      → Kept n d0 p
      → Kept n d0 p'
  unfolding index_events
  index_events-Kept d0 payer failed gas [] p p' a q k =
      let s : p ≡ p' = cc q in subst (Kept n d0) s k
  index_events-Kept d0 payer failed gas (e ∷ es) p p' (ie, a) q k =
      elim (Result-cases (index_event l n ev tokens payer failed gas p e)) [
        | inr (h, f) ↦ cc (rw (f, ◌>>=◌) at q)
        | inl (p1, f) ↦
            index_events-Kept d0 payer failed gas es p1 p' a (rw (f, ◌>>=◌) at q)
              (index_event-Kept d0 payer failed gas p p1 e ie f k)
      ]
