-- ===== src/Services/Construction/Parse/Signers.antt =====
-- ConstructionParse on the signed transaction that ConstructionCombine answers with.
use ontology_rosetta.Common.{
  ◌≡◌, ◌≢◌, refl, sym, ap, ◌∙◌, true, false, Option, some, List, [], ◌∷◌, map, length, ◌==◌,
}
use ontology_rosetta.Common.Bytes.{Bytes}
use ontology_rosetta.Common.Result.{ok, ◌>>=◌, bind-ok}
use ontology_rosetta.Common.Text.{Text}
use ontology_rosetta.Chain.Payload.{Vm}
use ontology_rosetta.Services.Ontology.{Address, Hash, Library}
use ontology_rosetta.Services.Address.{Natives}
use ontology_rosetta.Services.Types.{CurrencyInfo}
use ontology_rosetta.Services.Operations.{AccountId, Operation}
use ontology_rosetta.Services.Construction.{Ledger}
use ontology_rosetta.Services.Construction.Wire.{Wire, Sig, IsCodec, IsSealed}
use ontology_rosetta.Services.Construction.Signed.{PublicKey, Signature, guard, combine}
use ontology_rosetta.Services.Construction.Signed.Combine.{
  EachVerified, none_left, one_more, Signs, combine-Signs, guard-ok,
}
use ontology_rosetta.Services.Construction.Parse.{
  ParseView, parse_operations, first_outgoing, signer_of, one_key, signers_of, read_signers,
  parse_view, construction_parse,
}

module _ (vm : Vm) (l : Library) (n : Natives) (tokens : List (Address × CurrencyInfo)) (g : Ledger)
    (w : Wire g) where
  -- The account of a signature in the request is that of its public key, in the token.
  pub record IsSigner (info : CurrencyInfo) (sig : Option Signature) (acct : AccountId)
      : Type 0 where
    pub given : Signature
    pub key : PublicKey
    pub sig_eq : sig ≡ some given
    pub key_eq : given.public_key ≡ some key
    pub acct_eq : acct ≡ signer_of vm l n tokens g w info key.bytes

  pub data AreSigners (info : CurrencyInfo)
      : List (Option Signature) → List AccountId → Type 0 where
    no_more : AreSigners info [] []
    and_one :
        {sig : Option Signature} {acct : AccountId} {sigs : List (Option Signature)}
        {accts : List AccountId}
        → IsSigner info sig acct
        → AreSigners info sigs accts
        → AreSigners info (sig ∷ sigs) (acct ∷ accts)

  one_key_ok :
      (info : CurrencyInfo) (keys : List Bytes) (key : Bytes)
      → keys ≡ key ∷ []
      → one_key vm l n tokens g w info keys ≡ ok (signer_of vm l n tokens g w info key)
  unfolding one_key
  one_key_ok info keys key e = rw e refl

  signers_of-AreSigners :
      (info : CurrencyInfo) (h : Hash) (sigs : List (Option Signature)) (ss : List Sig)
      (raws : List w.RawSig)
      → EachVerified g w l h sigs ss
      → map w.get_sig raws ≡ map (λ (s : Sig). some s.keys) ss
      → (accts : List AccountId) × (signers_of vm l n tokens g w info raws ≡ ok accts)
        × AreSigners info sigs accts
  unfolding signers_of
  signers_of-AreSigners info h _ _ [] none_left e = ([], refl, no_more)
  signers_of-AreSigners info h _ _ (raw ∷ raws) none_left e = absurd (cc e)
  signers_of-AreSigners info h _ _ [] (one_more v vs) e = absurd (cc e)
  signers_of-AreSigners info h _ _ (raw ∷ raws) (one_more {sig} {s} {sigs} {ss} v vs) e =
      let first : w.get_sig raw ≡ some s.keys = cc e in
      let (accts, p, q) = signers_of-AreSigners info h sigs ss raws vs (cc e) in
      (
        signer_of vm l n tokens g w info v.key.bytes ∷ accts,
        rw (first, ◌>>=◌)
            (rw (one_key_ok info s.keys v.key.bytes v.keys_eq, ◌>>=◌) (rw (p, ◌>>=◌) refl)),
        and_one
            (record {
              given = v.given;
              key = v.key;
              sig_eq = v.sig_eq;
              key_eq = v.key_eq;
              acct_eq = refl;
            })
            q,
      )

  read_signers_some :
      (info : CurrencyInfo) (raws : List w.RawSig) (sigs : List (Option Signature))
      (accts : List AccountId)
      → sigs ≢ []
      → AreSigners info sigs accts
      → signers_of vm l n tokens g w info raws ≡ ok accts
      → read_signers vm l n tokens g w true info raws ≡ ok accts
  unfolding read_signers signers_of
  read_signers_some info [] _ _ ne no_more e = absurd (ne refl)
  read_signers_some info [] _ _ ne (and_one a more) e = absurd (cc e)
  read_signers_some info (raw ∷ raws) sigs accts ne a e = e

  -- What a successful run of ConstructionParse without signers went through.
  record Parsed (t : g.Txn) (r : ParseView) : Type 0 where
    operations : List Operation
    info : CurrencyInfo
    payload_eq : parse_operations vm l n tokens (w.payload t) ≡ ok (operations, info)
    two : (length operations == 2) ≡ true
    outgoing : first_outgoing vm l n tokens operations ≡ true
    view_eq : r ≡ record {
      signers = [];
      gas_limit = w.gas_limit t;
      gas_price = w.gas_price t;
      nonce = w.nonce t;
      payer = l.address_to_base58 (g.txn_payer t);
      operations = operations;
    }

  parse_view-Parsed :
      (t : g.Txn) (r : ParseView) → parse_view vm l n tokens g w false t ≡ ok r → Parsed t r
  unfolding parse_view read_signers
  parse_view-Parsed t r h =
      let ((ops, info), p, h1) = bind-ok (parse_operations vm l n tokens (w.payload t)) _ r h in
      let (u, q, h2) = bind-ok (guard (length ops == 2) _) _ r h1 in
      let (v, f, h3) = bind-ok (guard (first_outgoing vm l n tokens ops) _) _ r h2 in
      record {
        operations = ops;
        info = info;
        payload_eq = p;
        two = guard-ok _ _ u q;
        outgoing = guard-ok _ _ v f;
        view_eq = cc h3;
      }

  parse_view-true :
      (t : g.Txn) (ops : List Operation) (info : CurrencyInfo) (accts : List AccountId)
      → parse_operations vm l n tokens (w.payload t) ≡ ok (ops, info)
      → (length ops == 2) ≡ true
      → first_outgoing vm l n tokens ops ≡ true
      → read_signers vm l n tokens g w true info (w.raw_sigs t) ≡ ok accts
      → parse_view vm l n tokens g w true t
        ≡ ok (record {
          signers = accts;
          gas_limit = w.gas_limit t;
          gas_price = w.gas_price t;
          nonce = w.nonce t;
          payer = l.address_to_base58 (g.txn_payer t);
          operations = ops;
        })
  unfolding parse_view guard
  parse_view-true t ops info accts p two out read =
      rw (p, ◌>>=◌) (rw (two, ◌>>=◌) (rw (out, ◌>>=◌) (rw (read, ◌>>=◌) refl)))

  parse_view_signed :
      (sigs : List (Option Signature)) (t t' : g.Txn) (r : ParseView)
      → Parsed t r
      → Signs g w l sigs t t'
      → (info : CurrencyInfo) × (accts : List AccountId) × AreSigners info sigs accts
        × (parse_view vm l n tokens g w true t' ≡ ok (record r { signers = accts }))
  parse_view_signed sigs t t' r p s =
      let (accts, e, a) =
        signers_of-AreSigners p.info (g.txn_hash t) sigs s.ss (w.raw_sigs t') s.verified
          s.carried in
      let read = read_signers_some p.info (w.raw_sigs t') sigs accts s.some_sigs a e in
      let parsed =
        parse_view-true t' p.operations p.info accts
          (ap (parse_operations vm l n tokens) s.same_payload ∙ p.payload_eq) p.two p.outgoing
          read in
      (
        p.info,
        accts,
        a,
        parsed
            ∙ (λ i. ok (record {
              signers = accts;
              gas_limit = s.same_gas_limit i;
              gas_price = s.same_gas_price i;
              nonce = s.same_nonce i;
              payer = l.address_to_base58 (s.same_payer i);
              operations = p.operations;
            }))
            ∙ ap (λ (q : ParseView). ok (record q { signers = accts })) (sym p.view_eq),
      )

  -- When ConstructionParse reads an unsigned transaction and ConstructionCombine answers with its
  -- signed form, ConstructionParse reads the same from that one, with the signers, in the order of
  -- the request's signatures, whose public keys are in these.
  pub construction_parse-combine :
      IsCodec g w
      → IsSealed g w
      → (unsigned : Text) (sigs : List (Option Signature)) (signed : Text) (r : ParseView)
      → construction_parse vm l n tokens g w false unsigned ≡ ok r
      → combine g w l unsigned sigs ≡ ok signed
      → (info : CurrencyInfo) × (accts : List AccountId) × AreSigners info sigs accts
        × (construction_parse vm l n tokens g w true signed ≡ ok (record r { signers = accts }))
  unfolding construction_parse
  construction_parse-combine codec law unsigned sigs signed r h c =
      let (t, t', d, d', s) = combine-Signs g w l codec law unsigned sigs signed c in
      let (info, accts, a, e) =
        parse_view_signed sigs t t' r (parse_view-Parsed t r (rw (d, ◌>>=◌) at h)) s in
      (info, accts, a, rw (d', ◌>>=◌) e)
