-- ===== src/Services/Indexer/Flow.antt =====
-- balanceCal keeps the books: what it adds to `diffs` is what its transfer moves.
use ontology_rosetta.Common.{
  ℕ, ◌≡◌, ◌≢◌, refl, sym, ap, ◌∙◌, inl, inr, Bool, true, false, ◌&&◌, Option, none, some, [], ◌++◌,
  arith, Bool-cases, Bool_ext, &&_iff, if◌then◌else◌,
}
use ontology_rosetta.Common.Bytes.{Bytes, eq_bytes, eq_bytes→eq, eq_bytes_iff, eq_bytes_ne}
use ontology_rosetta.Common.Big.{set_bytes, set_bytes-bytes_of_nat}
use ontology_rosetta.Common.Int.{ℤ, pos, ◌+ℤ◌, ◌-ℤ◌, neg_ℤ, int_laws, pos_part, neg_part}
use ontology_rosetta.Services.Ontology.{Address, IsAddress}
use ontology_rosetta.Services.Address.{Natives, addr2slice}
use ontology_rosetta.Services.Address.Prefix.{addr2slice-append}
use mathlib.Core.Path.{ap₂}
use ontology_rosetta.Services.Store.History.{+ℤ-zero}
use ontology_rosetta.Services.Types.{Transfer}
use ontology_rosetta.Services.Indexer.{Xfer, Diffs, adjust, debit, credit, balance_cal}
use ontology_rosetta.Services.Indexer.Diffs.{
  IsTable, adjust-IsTable, entry, lookup, amount_or, lookup-adjust, step,
}

abbrev pub when : Bool → ℤ → ℤ
when b z = if b then z else pos 0

-- What a transfer of the block adds to the balance of the account `a` in the contract `c`.
abbrev pub received : Natives → Address → Address → Transfer → ℤ
received n a c t =
    when (eq_bytes t.to (addr2slice n a) && eq_bytes t.contract (addr2slice n c))
      (pos (set_bytes t.amount))

abbrev pub sent : Natives → Address → Address → Transfer → ℤ
sent n a c t =
    when (eq_bytes t.from (addr2slice n a) && eq_bytes t.contract (addr2slice n c))
      (pos (set_bytes t.amount))

unfoldable pub flow : Natives → Address → Address → Transfer → ℤ
flow n a c t = received n a c t -ℤ sent n a c t

pub eq_slice :
    (n : Natives) (a b : Address)
    → IsAddress a
    → IsAddress b
    → eq_bytes (addr2slice n a) (addr2slice n b) ≡ eq_bytes a b
eq_slice n a b la lb =
    Bool_ext _ _
      (λ t.
        let e = eq_bytes→eq _ _ t in
        (eq_bytes_iff a b).1
          ((addr2slice-append n a b [] [] la lb (ap (λ (x : Bytes). x ++ []) e)).0))
      (λ t. (eq_bytes_iff _ _).1 (ap (addr2slice n) (eq_bytes→eq a b t)))

step-amount_or :
    (f : ℤ → ℤ) (w : ℤ) (o : Option ℤ) → ((y : ℤ) → f y ≡ y +ℤ w) → step f w o ≡ amount_or o +ℤ w
unfolding step
step-amount_or f w none h = omega int_laws
step-amount_or f w (some y) h = h y

entry-adjust :
    (f : ℤ → ℤ) (w : ℤ) (a c a' c' : Address) (d : Diffs)
    → ((y : ℤ) → f y ≡ y +ℤ w)
    → entry a' c' (adjust a c f w d) ≡ entry a' c' d +ℤ when (eq_bytes a a' && eq_bytes c c') w
entry-adjust f w a c a' c' d h =
    ap amount_or (lookup-adjust f w a c a' c' d)
    ∙ elim (Bool-cases (eq_bytes a a' && eq_bytes c c')) [
      | inl t ↦
          let (ea, ec) = (&&_iff (eq_bytes a a') (eq_bytes c c')).0 t in
          rw t (
            step-amount_or f w (lookup a c d) h
            ∙ ap₂ (λ (x y : Address). entry x y d +ℤ w) (eq_bytes→eq a a' ea) (eq_bytes→eq c c' ec))
      | inr q ↦ rw q (sym (+ℤ-zero (entry a' c' d)))
    ]

pub neg_parts : (n : ℕ) → (pos_part (neg_ℤ (pos n)) ≡ 0) × (neg_part (neg_ℤ (pos n)) ≡ n)
unfolding neg_ℤ
neg_parts n = ground arith

module _ (n : Natives) (x : Xfer) (contract a c : Address) (d : Diffs) (lf : IsAddress x.from)
    (lt : IsAddress x.to) (lc : IsAddress contract) (la : IsAddress a) (lc' : IsAddress c)
    (ne : a ≢ n.null) where
  at_null : (y : Address) → eq_bytes y n.null ≡ true → eq_bytes y a ≡ false
  at_null y t = eq_bytes_ne y a (λ e. ne (sym e ∙ eq_bytes→eq y n.null t))

  entry-debit :
      entry a c (debit n x contract d)
      ≡ entry a c d -ℤ when (eq_bytes x.from a && eq_bytes contract c) (pos x.amount)
  unfolding debit
  entry-debit = elim (Bool-cases (eq_bytes x.from n.null)) [
    | inl t ↦ rw (t, at_null x.from t) (omega int_laws)
    | inr q ↦ rw q (
        entry-adjust (λ y. y -ℤ pos x.amount) (neg_ℤ (pos x.amount)) x.from contract a c d
          (λ y. omega (int_laws, neg_parts x.amount))
        ∙ elim (Bool-cases (eq_bytes x.from a && eq_bytes contract c)) [
          | inl t ↦ rw t (omega (int_laws, neg_parts x.amount))
          | inr r ↦ rw r (omega int_laws)
        ])
  ]

  entry-credit :
      (d' : Diffs)
      → entry a c (credit n x contract d')
        ≡ entry a c d' +ℤ when (eq_bytes x.to a && eq_bytes contract c) (pos x.amount)
  unfolding credit
  entry-credit d' = elim (Bool-cases (eq_bytes x.to n.null)) [
    | inl t ↦ rw (t, at_null x.to t) (omega int_laws)
    | inr q ↦
        rw q (entry-adjust (λ y. y +ℤ pos x.amount) (pos x.amount) x.to contract a c d' (λ y. refl))
  ]

  -- For an account that is not the null address, balanceCal changes the entry in `diffs` by what
  -- the transfer that it returns for the block moves into the account less what it moves out.
  pub balance_cal-flow :
      entry a c (balance_cal n x contract d).1
      ≡ entry a c d +ℤ flow n a c (balance_cal n x contract d).0
  unfolding balance_cal flow
  balance_cal-flow =
      rw
        (
          eq_slice n x.to a lt la,
          eq_slice n x.from a lf la,
          eq_slice n contract c lc lc',
          set_bytes-bytes_of_nat x.amount,
        )
        (entry-credit (debit n x contract d)
          ∙ ap (λ (z : ℤ). z +ℤ when (eq_bytes x.to a && eq_bytes contract c) (pos x.amount))
              entry-debit
          ∙ omega int_laws)

pub balance_cal-IsTable :
    (n : Natives) (x : Xfer) (contract : Address) (d : Diffs)
    → IsAddress x.from
    → IsAddress x.to
    → IsAddress contract
    → IsTable d
    → IsTable (balance_cal n x contract d).1
unfolding balance_cal debit credit
balance_cal-IsTable n x contract d lf lt lc it = credited (debit n x contract d) debited
  where
    debited : IsTable (debit n x contract d)
    debited = elim (Bool-cases (eq_bytes x.from n.null)) [
      | inl t ↦ rw t it
      | inr q ↦ rw q (
          adjust-IsTable (λ y. y -ℤ pos x.amount) (neg_ℤ (pos x.amount)) x.from contract d lf lc it)
    ]

    credited : (d' : Diffs) → IsTable d' → IsTable (credit n x contract d')
    credited d' i = elim (Bool-cases (eq_bytes x.to n.null)) [
      | inl t ↦ rw t i
      | inr q ↦
          rw q (adjust-IsTable (λ y. y +ℤ pos x.amount) (pos x.amount) x.to contract d' lt lc i)
    ]
