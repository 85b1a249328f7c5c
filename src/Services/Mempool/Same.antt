-- ===== src/Services/Mempool/Same.antt =====
-- The mempool endpoint and ConstructionParse on a transaction that was submitted.
use ontology_rosetta.Common.{
  ◌≡◌, refl, sym, ap, ◌∙◌, Bool, false, some, List, length, ◌==◌, inl, inr, Bool-cases,
}
use ontology_rosetta.Common.Result.{ok, ◌>>=◌, bind-ok}
use ontology_rosetta.Common.Text.{Text}
use ontology_rosetta.Chain.Payload.{Vm}
use ontology_rosetta.Services.Ontology.{Address, IsHash, Library, IsLibrary}
use ontology_rosetta.Services.Address.{Natives}
use ontology_rosetta.Services.Types.{CurrencyInfo}
use ontology_rosetta.Services.Operations.{Operation}
use ontology_rosetta.Services.Construction.{Ledger}
use ontology_rosetta.Services.Construction.Wire.{Wire}
use ontology_rosetta.Services.Construction.Signed.{
  guard, decode_transaction, construction_hash, submit,
}
use ontology_rosetta.Services.Construction.Parse.{
  ParseView, parse_operations, parse_view, read_signers, first_outgoing, construction_parse,
}
use ontology_rosetta.Services.Mempool.{Pool, mempool_transaction}

module _ (vm : Vm) (l : Library) (n : Natives) (tokens : List (Address × CurrencyInfo)) (g : Ledger)
    (w : Wire g) where
  -- What ConstructionParse tells of the operations.
  viewed :
      (s : Bool) (t : g.Txn) (r : ParseView)
      → parse_view vm l n tokens g w s t ≡ ok r
      → (info : CurrencyInfo) × (parse_operations vm l n tokens (w.payload t)
          ≡ ok (r.operations, info))
  unfolding parse_view
  viewed s t r h =
      let ((ops, info), p, h1) = bind-ok (parse_operations vm l n tokens (w.payload t)) _ r h in
      let (u, q, h2) = bind-ok (guard (length ops == 2) _) _ r h1 in
      let (v, f, h3) = bind-ok (guard (first_outgoing vm l n tokens ops) _) _ r h2 in
      let (a, b, h4) = bind-ok (read_signers vm l n tokens g w s info (w.raw_sigs t)) _ r h3 in
      let e : ops ≡ r.operations = cc h4 in (info, p ∙ ap (λ (o : List Operation). ok (o, info)) e)

  submitted :
      (text hash : Text) (t : g.Txn)
      → decode_transaction g w l text ≡ ok t
      → submit g w l false text ≡ ok hash
      → l.hash_to_hex (g.txn_hash t) ≡ hash
  unfolding submit
  submitted text hash t d h = elim (Bool-cases (w.append_to_pool t)) [
    | inl b ↦ let e = rw (d, ◌>>=◌) at h in cc (rw b at e)
    | inr b ↦ let e = rw (d, ◌>>=◌) at h in absurd (cc (rw b at e))
  ]

  -- When ConstructionParse reads a transaction and ConstructionSubmit answers with a hash for it,
  -- this is the hash of ConstructionHash; and while the pool holds the transaction, the mempool
  -- endpoint shows under this hash the operations that ConstructionParse read.
  pub mempool_transaction-submit :
      IsLibrary l
      → (pool : Pool g) (s : Bool) (text hash : Text) (t : g.Txn) (r : ParseView)
      → decode_transaction g w l text ≡ ok t
      → IsHash (g.txn_hash t)
      → pool.find (g.txn_hash t) ≡ some t
      → construction_parse vm l n tokens g w s text ≡ ok r
      → submit g w l false text ≡ ok hash
      → (construction_hash g w l text ≡ ok hash)
        × (mempool_transaction l vm n tokens g w false pool (some hash)
            ≡ ok (record { operations = r.operations; hash = hash }))
  unfolding construction_parse construction_hash mempool_transaction
  mempool_transaction-submit lib pool s text hash t r d len held parsed sub =
      let e = submitted text hash t d sub in
      let (info, p) = viewed s t r (rw (d, ◌>>=◌) at parsed) in
      let back : l.hash_from_hex hash ≡ some (g.txn_hash t) =
        ap l.hash_from_hex (sym e) ∙ lib.hash_from_hex-to_hex (g.txn_hash t) len in
      (
        rw (d, ◌>>=◌) (ap (λ (x : Text). ok x) e),
        rw (back, ◌>>=◌) (rw (held, ◌>>=◌) (rw (p, ◌>>=◌) refl)),
      )
