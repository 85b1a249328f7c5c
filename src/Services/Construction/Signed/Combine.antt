-- ===== src/Services/Construction/Signed/Combine.antt =====
-- What ConstructionCombine guarantees of the transaction that it returns.
use ontology_rosetta.Common.{
  ◌≡◌, ◌≢◌, refl, sym, ap, ◌∙◌, Bool, true, false, not, Option, none, some, List, [], ◌∷◌, ◌++◌,
  map, length, ==_iff, subst,
}
use ontology_rosetta.Common.Bytes.{Bytes, eq_bytes, eq_bytes→eq}
use ontology_rosetta.Common.Result.{ok, ◌>>=◌, or_err, bind-ok, or_err-some}
use ontology_rosetta.Common.Text.{Text}
use ontology_rosetta.Services.Ontology.{Hash, Library}
use ontology_rosetta.Services.Errors.{Failure}
use ontology_rosetta.Services.Indexer.Decode.{hex_decode}
use ontology_rosetta.Services.Construction.{Ledger}
use ontology_rosetta.Services.Construction.Fields.{hex_encode}
use ontology_rosetta.Services.Construction.Fields.Hex.{hex_decode-hex_encode}
use ontology_rosetta.Services.Construction.Wire.{Wire, Sig, IsCodec, IsSealed}
use ontology_rosetta.Services.Construction.Signed.{
  PublicKey, Signature, guard, decode_transaction, check_key, check_type, check_signature,
  check_signatures, is_empty, combine,
}

pub guard-ok : (b : Bool) (e : Failure) (u : Unit {0}) → guard b e ≡ ok u → b ≡ true
unfolding guard
guard-ok true e u h = refl
guard-ok false e u h = absurd (cc h)

module _ (g : Ledger) (w : Wire g) (l : Library) where
  -- A signature of the request and the one of the transaction that is made of it: an ed25519 key of
  -- 32 bytes, with which the signature of the hash verifies.
  pub record Verified (hash : Hash) (sig : Option Signature) (s : Sig) : Type 0 where
    pub given : Signature
    pub key : PublicKey
    pub sig_eq : sig ≡ some given
    pub key_eq : given.public_key ≡ some key
    pub key_len : length key.bytes ≡ 32
    pub curve_eq : key.curve_type ≡ w.edwards25519
    pub message_eq : given.signing_payload ≡ some hash
    pub verified : w.verify key.bytes hash given.bytes ≡ true
    pub keys_eq : s.keys ≡ key.bytes ∷ []

  pub data EachVerified (hash : Hash) : List (Option Signature) → List Sig → Type 0 where
    none_left : EachVerified hash [] []
    one_more :
        {sig : Option Signature} {s : Sig} {sigs : List (Option Signature)} {ss : List Sig}
        → Verified hash sig s
        → EachVerified hash sigs ss
        → EachVerified hash (sig ∷ sigs) (s ∷ ss)

  pub check_key-ok :
      (key : PublicKey)
      → check_key g w l key ≡ ok tt
      → (key.curve_type ≡ w.edwards25519) × (length key.bytes ≡ 32)
  unfolding check_key
  check_key-ok key h =
      let (u, p, q) = bind-ok (guard (eq_bytes key.curve_type w.edwards25519) _) _ tt h in
      (
        eq_bytes→eq key.curve_type w.edwards25519 (guard-ok _ _ u p),
        (==_iff (length key.bytes) 32).0 (guard-ok _ _ tt q),
      )

  pub check_signature-Verified :
      (hash : Hash) (sig : Option Signature) (s : Sig)
      → check_signature g w l hash sig ≡ ok s
      → Verified hash sig s
  unfolding check_signature
  check_signature-Verified hash none s h = absurd (cc h)
  check_signature-Verified hash (some sig) s h =
      let (key, k, h1) = bind-ok (or_err sig.public_key _) _ s h in
      let (u, c, h2) = bind-ok (check_key g w l key) _ s h1 in
      let (u2, t, h3) = bind-ok (check_type g w l sig) _ s h2 in
      let (m, p, h4) = bind-ok (or_err sig.signing_payload _) _ s h3 in
      let (u4, e, h5) = bind-ok (guard (eq_bytes m hash) _) _ s h4 in
      let (u5, v, h6) = bind-ok (guard (w.verify key.bytes m sig.bytes) _) _ s h5 in
      let (o, q, h7) = bind-ok (or_err (w.serialize_sig sig.bytes) _) _ s h6 in
      let (curve, len) = check_key-ok key c in
      let same : m ≡ hash = eq_bytes→eq m hash (guard-ok _ _ u4 e) in
      let r : record { keys = key.bytes ∷ []; sig_data = o ∷ [] } ≡ s = cc h7 in
      record {
        given = sig;
        key = key;
        sig_eq = refl;
        key_eq = or_err-some sig.public_key _ key k;
        key_len = len;
        curve_eq = curve;
        message_eq = or_err-some sig.signing_payload _ m p ∙ ap some same;
        verified =
            subst (λ (x : Hash). w.verify key.bytes x sig.bytes ≡ true) same (guard-ok _ _ u5 v);
        keys_eq = ap (λ (x : Sig). x.keys) (sym r);
      }

  check_signatures-EachVerified :
      (hash : Hash) (sigs : List (Option Signature)) (ss : List Sig)
      → check_signatures g w l hash sigs ≡ ok ss
      → EachVerified hash sigs ss
  unfolding check_signatures
  check_signatures-EachVerified hash [] [] h = none_left
  check_signatures-EachVerified hash [] (s ∷ ss) h = absurd (cc h)
  check_signatures-EachVerified hash (sig ∷ sigs) ss h =
      let (s, p, h1) = bind-ok (check_signature g w l hash sig) _ ss h in
      let (rest, q, h2) = bind-ok (check_signatures g w l hash sigs) _ ss h1 in
      let r : s ∷ rest ≡ ss = cc h2 in
      rw (← r) (
        one_more (check_signature-Verified hash sig s p)
          (check_signatures-EachVerified hash sigs rest q))

  decode_bytes :
      (code : Text) (raw : Bytes) (t : g.Txn)
      → hex_decode code ≡ some raw
      → raw ≢ []
      → w.from_raw raw ≡ some (some t)
      → decode_transaction g w l code ≡ ok t
  unfolding decode_transaction hex_decode
  decode_bytes [] raw t h ne f = let e : [] ≡ raw = cc h in absurd (ne (sym e))
  decode_bytes (c ∷ code) raw t h ne f = rw (h, ◌>>=◌) (rw (f, ◌>>=◌) refl)

  -- An encoded transaction is decoded.
  pub decode_transaction-serialize :
      IsCodec g w → (t : g.Txn) → decode_transaction g w l (hex_encode (g.serialize t)) ≡ ok t
  decode_transaction-serialize good t =
      decode_bytes (hex_encode (g.serialize t)) (g.serialize t) t
        (hex_decode-hex_encode (g.serialize t) (good.bytes t)) (good.some_bytes t)
        (good.from_raw-serialize t)

  is_empty-eq {ℓ} : {A : Type ℓ} (xs : List A) → is_empty g w l xs ≡ true → xs ≡ []
  unfolding is_empty
  is_empty-eq [] h = refl
  is_empty-eq (x ∷ xs) h = absurd (cc h)

  not_empty : (sigs : List (Option Signature)) → not (is_empty g w l sigs) ≡ true → sigs ≢ []
  unfolding is_empty
  not_empty [] h = absurd (cc h)
  not_empty (s ∷ ss) h = λ e. cc e

  -- What a successful run of ConstructionCombine went through.
  record Combined (unsigned : Text) (sigs : List (Option Signature)) (signed : Text) : Type 0 where
    txn : g.Txn
    mut : w.Mut
    sealed : g.Txn
    ss : List Sig
    some_sigs : not (is_empty g w l sigs) ≡ true
    decoded : decode_transaction g w l unsigned ≡ ok txn
    mutable : w.into_mutable txn ≡ some mut
    checked : check_signatures g w l (w.mut_hash mut) sigs ≡ ok ss
    sealed_eq : w.seal (w.with_sigs mut ss) ≡ some sealed
    signed_eq : hex_encode (g.serialize sealed) ≡ signed

  combine-Combined :
      (unsigned : Text) (sigs : List (Option Signature)) (signed : Text)
      → combine g w l unsigned sigs ≡ ok signed
      → Combined unsigned sigs signed
  unfolding combine
  combine-Combined unsigned sigs signed h =
      let (t, d, h1) = bind-ok (decode_transaction g w l unsigned) _ signed h in
      let (m, im, h2) = bind-ok (or_err (w.into_mutable t) _) _ signed h1 in
      let (u, em, h3) = bind-ok (guard (is_empty g w l (w.mut_sigs m)) _) _ signed h2 in
      let (u', ne, h4) = bind-ok (guard (not (is_empty g w l sigs)) _) _ signed h3 in
      let (ss, c, h5) = bind-ok (check_signatures g w l (w.mut_hash m) sigs) _ signed h4 in
      let (t', s, h6) =
        bind-ok (or_err (w.seal (w.with_sigs m (w.mut_sigs m ++ ss))) _) _ signed h5 in
      let bare : w.mut_sigs m ≡ [] = is_empty-eq (w.mut_sigs m) (guard-ok _ _ u em) in
      record {
        txn = t;
        mut = m;
        sealed = t';
        ss = ss;
        some_sigs = guard-ok _ _ u' ne;
        decoded = d;
        mutable = or_err-some (w.into_mutable t) _ m im;
        checked = c;
        sealed_eq =
            subst (λ (b : List Sig). w.seal (w.with_sigs m (b ++ ss)) ≡ some t') bare
              (or_err-some _ _ t' s);
        signed_eq = cc h6;
      }

  -- The transactions before and behind ConstructionCombine.
  pub record Signs (sigs : List (Option Signature)) (t t' : g.Txn) : Type 0 where
    pub ss : List Sig
    pub some_sigs : sigs ≢ []
    pub verified : EachVerified (g.txn_hash t) sigs ss
    pub same_hash : g.txn_hash t' ≡ g.txn_hash t
    pub same_payload : w.payload t' ≡ w.payload t
    pub same_gas_limit : w.gas_limit t' ≡ w.gas_limit t
    pub same_gas_price : w.gas_price t' ≡ w.gas_price t
    pub same_nonce : w.nonce t' ≡ w.nonce t
    pub same_payer : g.txn_payer t' ≡ g.txn_payer t
    pub carried : map w.get_sig (w.raw_sigs t') ≡ map (λ (s : Sig). some s.keys) ss

  -- When ConstructionCombine answers, its answer decodes to a transaction with the hash, the
  -- payload and the other fields of the unsigned one. The request has a signature, and each of its
  -- signatures has an ed25519 key of 32 bytes with which it verifies on that hash; the keys of these,
  -- in the request's order, are those that the transaction's signatures carry.
  pub combine-Signs :
      IsCodec g w
      → IsSealed g w
      → (unsigned : Text) (sigs : List (Option Signature)) (signed : Text)
      → combine g w l unsigned sigs ≡ ok signed
      → (t : g.Txn) × (t' : g.Txn) × (decode_transaction g w l unsigned ≡ ok t)
        × (decode_transaction g w l signed ≡ ok t')
        × Signs sigs t t'
  combine-Signs good law unsigned sigs signed h =
      let c = combine-Combined unsigned sigs signed h in
      let same = law.mutable_hash c.txn c.mut c.mutable in
      let fields = law.sealed_fields c.txn c.sealed c.mut c.ss c.mutable c.sealed_eq in
      (
        c.txn,
        c.sealed,
        c.decoded,
        subst (λ (x : Text). decode_transaction g w l x ≡ ok c.sealed) c.signed_eq
            (decode_transaction-serialize good c.sealed),
        record {
          ss = c.ss;
          some_sigs = not_empty sigs c.some_sigs;
          verified =
              subst (λ (x : Hash). EachVerified x sigs c.ss) same
                (check_signatures-EachVerified (w.mut_hash c.mut) sigs c.ss c.checked);
          same_hash = law.sealed_hash c.txn c.sealed c.mut c.ss c.mutable c.sealed_eq ∙ same;
          same_payload = fields.0;
          same_gas_limit = fields.1;
          same_gas_price = fields.2;
          same_nonce = fields.3;
          same_payer = fields.4;
          carried = law.sealed_sigs c.txn c.sealed c.mut c.ss c.mutable c.sealed_eq;
        },
      )
