-- ===== src/Model.antt =====
-- model/transform.go: the texts that the messages of model.proto print as.
pub mod Fields
mod Runs
use ontology_rosetta.Common.{
  ℕ, suc, Bool, true, false, Option, none, some, List, [], ◌∷◌, ◌++◌, if◌then◌else◌, ltb, ◌==◌,
}
use ontology_rosetta.Common.Bytes.{Bytes}
use ontology_rosetta.Common.Big.{set_bytes}
use ontology_rosetta.Common.Decimal.{print_nat}
use ontology_rosetta.Common.Text.{Text, codes}
use ontology_rosetta.Services.Types.{Transfer, Transaction, Block}
use ontology_rosetta.Services.Construction.{ConstructOptions}
use ontology_rosetta.Services.Construction.Fields.{hex_encode}

abbrev pub comma : Text
comma = codes ", "

-- `if len(xs) > 0`
pub has_bytes : Bytes → Bool
has_bytes [] = false
has_bytes (b ∷ bs) = true

-- `reversed` is common.ToArrayReverse of the ledger's library.
module _ (reversed : Bytes → Bytes) where
  pub hexaddr : Bytes → Text
  hexaddr addr = hex_encode (reversed addr)

  -- What has been printed, and whether a field is among it.
  abbrev pub Printed : Type 0
  Printed = Text × Bool

  -- `if present { if written { ", " }; text; written = true }`
  pub put : Bool → Text → Printed → Printed
  put present text (out, written) =
      if present
      then (if written then (out ++ (comma ++ text), true) else (out ++ text, true))
      else (out, written)

  -- ConstructOptions.Format for the verb 's'; other verbs print nothing.
  pub format_options : ConstructOptions → Text
  unfolding put has_bytes hexaddr
  format_options o =
      let p1 =
        put (has_bytes o.amount) (codes "amount: " ++ print_nat (set_bytes o.amount))
          (codes "{", false) in
      let p2 = put (has_bytes o.contract) (codes "contract: " ++ hexaddr o.contract) p1 in
      let p3 = put (has_bytes o.from) (codes "from: " ++ hexaddr o.from) p2 in
      let p4 = put (ltb 0 o.gas_limit) (codes "gas_limit: " ++ print_nat o.gas_limit) p3 in
      let p5 = put (ltb 0 o.gas_price) (codes "gas_price: " ++ print_nat o.gas_price) p4 in
      let p6 = put (ltb 0 o.nonce) (codes "nonce: " ++ print_nat o.nonce) p5 in
      let p7 = put (has_bytes o.payer) (codes "payer: " ++ hexaddr o.payer) p6 in
      let p8 = put (has_bytes o.to) (codes "to: " ++ hexaddr o.to) p7 in p8.0 ++ codes "}"

  -- Transfer.Format
  pub format_transfer : Transfer → Text
  unfolding hexaddr
  format_transfer x =
      codes "{amount: "
      ++ print_nat (set_bytes x.amount)
      ++ codes ", contract: "
      ++ hexaddr x.contract
      ++ codes ", from: "
      ++ hexaddr x.from
      ++ codes ", to: "
      ++ hexaddr x.to
      ++ (if x.is_gas then codes ", is_gas: true}" else codes ", is_gas: false}")

  -- The loop over the items of a list, the first of which is at index 0.
  pub format_loop {ℓ} : {A : Type ℓ} → (A → Text) → ℕ → List A → Text
  format_loop format i [] = []
  format_loop format i (x ∷ xs) =
      (if i == 0 then [] else comma) ++ (format x ++ format_loop format (suc i) xs)

  -- Transaction.Format
  pub format_transaction : Transaction → Text
  unfolding hexaddr format_loop
  format_transaction t =
      codes "{hash: "
      ++ hexaddr t.hash
      ++ codes ", transfers: ["
      ++ format_loop format_transfer 0 t.transfers
      ++ codes "]}"

  -- Block.Format
  pub format_block : Block → Text
  unfolding format_loop
  format_block b =
      codes "{timestamp: "
      ++ print_nat b.timestamp
      ++ codes ", transactions: ["
      ++ format_loop format_transaction 0 b.transactions
      ++ codes "]}"
