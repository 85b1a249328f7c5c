-- ===== src/Services/Construction/Signed/Panics.antt =====
-- The panics of ConstructionCombine.
use ontology_rosetta.Common.{
  ◌≡◌, ◌≢◌, refl, ap, Bool, true, false, not, Option, none, some, List, [], ◌∷◌, ◌++◌, ◌⊎◌, inl,
  inr, length, Bool-cases, Option-cases,
}
use ontology_rosetta.Common.Bytes.{eq_bytes, eq_bytes_refl}
use ontology_rosetta.Common.Result.{ok, err, ◌>>=◌, or_err, or_err-some}
use ontology_rosetta.Common.Text.{Text}
use ontology_rosetta.Services.Ontology.{Hash, Library}
use ontology_rosetta.Services.Errors.{Failure, Api, api, wrapped, panic, diverges}
use ontology_rosetta.Services.Indexer.Decode.{hex_decode}
use ontology_rosetta.Services.Construction.{Ledger}
use ontology_rosetta.Services.Construction.Wire.{Wire, Sig}
use ontology_rosetta.Services.Construction.Signed.{
  PublicKey, Signature, guard, decode_transaction, check_key, check_type, check_signature,
  check_signatures, is_empty, combine,
}
use ontology_rosetta.Services.Construction.Signed.Combine.{
  EachVerified, none_left, one_more, check_key-ok, check_signature-Verified,
}

-- A chain of calls fails in its first call or behind it.
bind-err :
    {A B : Type 0} (x : Api A) (f : A → Api B) (e : Failure)
    → (x >>= f) ≡ err e
    → (x ≡ err e) ⊎ ((a : A) × (x ≡ ok a) × (f a ≡ err e))
bind-err (ok a) f e h = inr (a, refl, h)
bind-err (err x) f e h = inl (cc h)

-- A failure that the client is answered with.
abbrev Answers : Failure → Type 0
Answers (api k) = Unit {0}
Answers (wrapped k) = Unit {0}
Answers panic = ⊥
Answers diverges = ⊥

Answers-ne : (e : Failure) → Answers e → e ≢ panic
Answers-ne (api k) an q = absurd (cc q)
Answers-ne (wrapped k) an q = absurd (cc q)
Answers-ne panic an q = an
Answers-ne diverges an q = an

or_err-ne : {A : Type 0} (o : Option A) (e : Failure) → Answers e → or_err o e ≢ err panic
or_err-ne none e an h = Answers-ne e an (cc h)
or_err-ne (some a) e ne h = absurd (cc h)

guard-ne : (b : Bool) (e : Failure) → Answers e → guard b e ≢ err panic
unfolding guard
guard-ne true e ne h = absurd (cc h)
guard-ne false e an h = Answers-ne e an (cc h)

-- Behind a call that does not panic.
behind :
    {A B : Type 0} (x : Api A) (f : A → Api B)
    → x ≢ err panic
    → (x >>= f) ≡ err panic
    → (a : A) × (x ≡ ok a) × (f a ≡ err panic)
behind x f ne h = elim (bind-err x f panic h) [ inl e ↦ absurd (ne e) | inr r ↦ r ]

module _ (g : Ledger) (w : Wire g) (l : Library) where
  -- A signature that is null; or one with a key that is accepted, but of another type and without a
  -- signing payload.
  pub data IsFatal : Option Signature → Type 0 where
    null_signature : IsFatal none
    other_type :
        {sig : Signature} (key : PublicKey)
        → sig.public_key ≡ some key
        → key.curve_type ≡ w.edwards25519
        → length key.bytes ≡ 32
        → sig.signature_type ≢ w.ed25519
        → sig.signing_payload ≡ none
        → IsFatal (some sig)

  check_key-ne : (key : PublicKey) → check_key g w l key ≢ err panic
  unfolding check_key
  check_key-ne key h =
      let (u, _, h1) =
        behind (guard (eq_bytes key.curve_type w.edwards25519) _) _ (guard-ne _ _ tt) h in
      guard-ne _ _ tt h1

  check_type-panic :
      (sig : Signature)
      → check_type g w l sig ≡ err panic
      → (sig.signature_type ≢ w.ed25519) × (sig.signing_payload ≡ none)
  unfolding check_type
  check_type-panic sig h = elim (Bool-cases (eq_bytes sig.signature_type w.ed25519)) [
    | inl e ↦ absurd (cc (rw e at h))
    | inr e ↦ elim (Option-cases sig.signing_payload) [
      | inr (b, s) ↦ absurd (cc (rw (e, s) at h))
      | inl s ↦ (
        (λ q. absurd (cc (e, ap (λ (t : Text). eq_bytes t w.ed25519) q, eq_bytes_refl w.ed25519))),
        s,
      )
    ]
  ]

  check_signature-IsFatal :
      (hash : Hash) (sig : Option Signature)
      → check_signature g w l hash sig ≡ err panic
      → IsFatal sig
  unfolding check_signature
  check_signature-IsFatal hash none h = null_signature
  check_signature-IsFatal hash (some sig) h =
      let (key, k, h1) = behind (or_err sig.public_key _) _ (or_err-ne _ _ tt) h in
      let (u, c, h2) = behind (check_key g w l key) _ (check_key-ne key) h1 in
      elim (bind-err (check_type g w l sig) _ panic h2) [
        | inl t ↦
            let (curve, len) = check_key-ok g w l key c in
            let (ty, bare) = check_type-panic sig t in
            other_type key (or_err-some sig.public_key _ key k) curve len ty bare
        | inr (_, _, h3) ↦
            let (m, _, h4) = behind (or_err sig.signing_payload _) _ (or_err-ne _ _ tt) h3 in
            let (_, _, h5) = behind (guard (eq_bytes m hash) _) _ (guard-ne _ _ tt) h4 in
            let (_, _, h6) =
              behind (guard (w.verify key.bytes m sig.bytes) _) _ (guard-ne _ _ tt) h5 in
            let (_, _, h7) =
              behind (or_err (w.serialize_sig sig.bytes) _) _ (or_err-ne _ _ tt) h6 in
            absurd (cc h7)
      ]

  -- The first signature of a list that is not verified is fatal.
  pub record FirstFatal (hash : Hash) (sigs : List (Option Signature)) : Type 0 where
    pub before : List (Option Signature)
    pub made : List Sig
    pub fatal : Option Signature
    pub after : List (Option Signature)
    pub split : sigs ≡ before ++ fatal ∷ after
    pub verified : EachVerified g w l hash before made
    pub is_fatal : IsFatal fatal

  check_signatures-FirstFatal :
      (hash : Hash) (sigs : List (Option Signature))
      → check_signatures g w l hash sigs ≡ err panic
      → FirstFatal hash sigs
  unfolding check_signatures
  check_signatures-FirstFatal hash [] h = absurd (cc h)
  check_signatures-FirstFatal hash (sig ∷ sigs) h =
      elim (bind-err (check_signature g w l hash sig) _ panic h) [
        | inl e ↦ record {
          before = [];
          made = [];
          fatal = sig;
          after = sigs;
          split = refl;
          verified = none_left;
          is_fatal = check_signature-IsFatal hash sig e;
        }
        | inr (s, e, h1) ↦ elim (bind-err (check_signatures g w l hash sigs) _ panic h1) [
          | inr (_, _, h2) ↦ absurd (cc h2)
          | inl e' ↦
              let f = check_signatures-FirstFatal hash sigs e' in
              record {
                before = sig ∷ f.before;
                made = s ∷ f.made;
                fatal = f.fatal;
                after = f.after;
                split = ap (λ (ss : List (Option Signature)). sig ∷ ss) f.split;
                verified = one_more (check_signature-Verified g w l hash sig s e) f.verified;
                is_fatal = f.is_fatal;
              }
        ]
      ]

  decode_transaction-ne : (text : Text) → decode_transaction g w l text ≢ err panic
  unfolding decode_transaction
  decode_transaction-ne [] h = absurd (cc h)
  decode_transaction-ne (c ∷ text) h =
      let (raw, _, h1) = behind (or_err (hex_decode (c ∷ text)) _) _ (or_err-ne _ _ tt) h in
      let (txn, _, h2) = behind (or_err (w.from_raw raw) _) _ (or_err-ne _ _ tt) h1 in
      or_err-ne txn _ tt h2

  -- ConstructionCombine panics only for a transaction that decodes, and for signatures of which the
  -- first ones verify on its hash and the next one is null, or has an ed25519 key of 32 bytes, but
  -- another signature type and no signing payload.
  pub combine-FirstFatal :
      (unsigned : Text) (sigs : List (Option Signature))
      → combine g w l unsigned sigs ≡ err panic
      → (t : g.Txn) × (m : w.Mut) × (decode_transaction g w l unsigned ≡ ok t)
        × (w.into_mutable t ≡ some m)
        × FirstFatal (w.mut_hash m) sigs
  unfolding combine
  combine-FirstFatal unsigned sigs h =
      let (t, d, h1) =
        behind (decode_transaction g w l unsigned) _ (decode_transaction-ne unsigned) h in
      let (m, i, h2) = behind (or_err (w.into_mutable t) _) _ (or_err-ne _ _ tt) h1 in
      let (_, _, h3) = behind (guard (is_empty g w l (w.mut_sigs m)) _) _ (guard-ne _ _ tt) h2 in
      let (_, _, h4) = behind (guard (not (is_empty g w l sigs)) _) _ (guard-ne _ _ tt) h3 in
      elim (bind-err (check_signatures g w l (w.mut_hash m) sigs) _ panic h4) [
        | inl e ↦ (
          t,
          m,
          d,
          or_err-some (w.into_mutable t) _ m i,
          check_signatures-FirstFatal (w.mut_hash m) sigs e,
        )
        | inr (ss, _, h5) ↦
            let (_, _, h6) =
              behind (or_err (w.seal (w.with_sigs m (w.mut_sigs m ++ ss))) _) _ (or_err-ne _ _ tt)
                h5 in
            absurd (cc h6)
      ]
