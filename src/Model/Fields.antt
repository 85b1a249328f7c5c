-- ===== src/Model/Fields.antt =====
-- The texts as lists of fields between commas.
use ontology_rosetta.Common.{
  ℕ, suc, ◌≡◌, refl, sym, ap, ◌∙◌, Bool, true, false, List, [], ◌∷◌, ◌++◌, map, if◌then◌else◌, ltb,
  ◌==◌, append_assoc, append-nil, arith,
}
use ontology_rosetta.Common.Bytes.{Bytes}
use ontology_rosetta.Common.Big.{set_bytes}
use ontology_rosetta.Common.Decimal.{print_nat}
use ontology_rosetta.Common.Text.{Text, codes}
use ontology_rosetta.Services.Types.{Block}
use ontology_rosetta.Services.Construction.{ConstructOptions}
use ontology_rosetta.Model.{
  comma, has_bytes, hexaddr, Printed, put, format_options, format_loop, format_transaction,
  format_block,
}

-- Texts with commas between them.
pub intercalate : List Text → Text
intercalate [] = []
intercalate (t ∷ []) = t
intercalate (t ∷ u ∷ ts) = t ++ (comma ++ intercalate (u ∷ ts))

-- The texts whose field is present.
pub present : List (Bool × Text) → List Text
present [] = []
present ((b, t) ∷ fs) = if b then t ∷ present fs else present fs

module _ (reversed : Bytes → Bytes) where
  pub fields_of : ConstructOptions → List (Bool × Text)
  fields_of o =
      (has_bytes o.amount, codes "amount: " ++ print_nat (set_bytes o.amount))
      ∷ (has_bytes o.contract, codes "contract: " ++ hexaddr reversed o.contract)
      ∷ (has_bytes o.from, codes "from: " ++ hexaddr reversed o.from)
      ∷ (ltb 0 o.gas_limit, codes "gas_limit: " ++ print_nat o.gas_limit)
      ∷ (ltb 0 o.gas_price, codes "gas_price: " ++ print_nat o.gas_price)
      ∷ (ltb 0 o.nonce, codes "nonce: " ++ print_nat o.nonce)
      ∷ (has_bytes o.payer, codes "payer: " ++ hexaddr reversed o.payer)
      ∷ (has_bytes o.to, codes "to: " ++ hexaddr reversed o.to)
      ∷ []

  put_each : List (Bool × Text) → Printed reversed → Printed reversed
  put_each [] p = p
  put_each ((b, t) ∷ fs) p = put_each fs (put reversed b t p)

  -- What is behind a text that was printed already.
  behind : List Text → Text
  behind [] = []
  behind (t ∷ ts) = comma ++ (t ++ behind ts)

  intercalate-behind : (t : Text) (ts : List Text) → intercalate (t ∷ ts) ≡ t ++ behind ts
  unfolding intercalate behind
  intercalate-behind t [] = sym (append-nil t)
  intercalate-behind t (u ∷ ts) = ap (λ (x : Text). t ++ (comma ++ x)) (intercalate-behind u ts)

  put_each-written :
      (fs : List (Bool × Text)) (out : Text)
      → (put_each fs (out, true)).0 ≡ out ++ behind (present fs)
  unfolding put_each put present behind
  put_each-written [] out = sym (append-nil out)
  put_each-written ((true, t) ∷ fs) out =
      put_each-written fs (out ++ (comma ++ t))
      ∙ append_assoc out (comma ++ t) (behind (present fs))
      ∙ ap (λ (x : Text). out ++ x) (append_assoc comma t (behind (present fs)))
  put_each-written ((false, t) ∷ fs) out = put_each-written fs out

  put_each-first :
      (fs : List (Bool × Text)) (out : Text)
      → (put_each fs (out, false)).0 ≡ out ++ intercalate (present fs)
  unfolding put_each put present intercalate
  put_each-first [] out = sym (append-nil out)
  put_each-first ((true, t) ∷ fs) out =
      put_each-written fs (out ++ t)
      ∙ append_assoc out t (behind (present fs))
      ∙ ap (λ (x : Text). out ++ x) (sym (intercalate-behind t (present fs)))
  put_each-first ((false, t) ∷ fs) out = put_each-first fs out

  -- The text of construct options is, in braces, the list of their fields that are not empty or
  -- zero, in the order of the message and with a comma and a space between any two.
  pub format_options-fields_of :
      (o : ConstructOptions)
      → format_options reversed o ≡ codes "{" ++ (intercalate (present (fields_of o)) ++ codes "}")
  unfolding format_options put_each fields_of
  format_options-fields_of o =
      ap (λ (x : Text). x ++ codes "}") (put_each-first (fields_of o) (codes "{"))
      ∙ append_assoc (codes "{") (intercalate (present (fields_of o))) (codes "}")

  loop_behind {ℓ} :
      {A : Type ℓ} (format : A → Text) (i : ℕ) (xs : List A)
      → format_loop reversed format (suc i) xs ≡ behind (map format xs)
  unfolding format_loop behind
  loop_behind format i [] = refl
  loop_behind format i (x ∷ xs) =
      let later : (suc i == 0) ≡ false = ground arith in
      rw later (ap (λ (t : Text). comma ++ (format x ++ t)) (loop_behind format (suc i) xs))

  pub loop_lem {ℓ} :
      {A : Type ℓ} (format : A → Text) (xs : List A)
      → format_loop reversed format 0 xs ≡ intercalate (map format xs)
  unfolding format_loop intercalate
  loop_lem format [] = refl
  loop_lem format (x ∷ xs) =
      ap (λ (t : Text). format x ++ t) (loop_behind format 0 xs)
      ∙ sym (intercalate-behind (format x) (map format xs))

  -- The text of a block has the texts of its transactions between commas.
  pub format_block-intercalate :
      (b : Block)
      → format_block reversed b
        ≡ codes "{timestamp: "
          ++ print_nat b.timestamp
          ++ codes ", transactions: ["
          ++ intercalate (map (format_transaction reversed) b.transactions)
          ++ codes "]}"
  unfolding format_block
  format_block-intercalate b =
      ap
        (λ (t : Text).
          codes "{timestamp: "
          ++ print_nat b.timestamp
          ++ codes ", transactions: ["
          ++ t
          ++ codes "]}")
        (loop_lem (format_transaction reversed) b.transactions)
