-- ===== src/Services/Construction/Fields/Hex.antt =====
-- Options go through the metadata of a response unchanged.
use ontology_rosetta.Common.{
  ℕ, ◌/◌, ◌%◌, ◌<◌, ◌≡◌, refl, ap, Option, some, [], ◌∷◌, All, arith, inl, inr, Option-cases, subst,
}
use ontology_rosetta.Common.Bytes.{Bytes, eq_bytes}
use ontology_rosetta.Common.Result.{ok, ◌>>=◌, or_err}
use ontology_rosetta.Common.Text.{codes}
use ontology_rosetta.Services.Types.{str}
use ontology_rosetta.Services.Ontology.{Library}
use ontology_rosetta.Services.Errors
use ontology_rosetta.Services.Errors.{wrapped}
use ontology_rosetta.Services.Indexer.Decode.{hex_decode, hex_digit}
use ontology_rosetta.Services.Construction.{Ledger, ConstructOptions}
use ontology_rosetta.Services.Construction.Fields.{
  Metadata, field_of, hex_char, hex_encode, decode_hex, decode_protobuf, encode_protobuf,
}

hex_digit-hex_char : (d : ℕ) → d < 16 → hex_digit (hex_char d) ≡ some d
unfolding hex_digit hex_char
hex_digit-hex_char d h = ground arith

pub hex_decode-hex_encode :
    (bs : Bytes) → All (λ b. b < 256) bs → hex_decode (hex_encode bs) ≡ some bs
unfolding hex_decode hex_encode
hex_decode-hex_encode [] a = refl
hex_decode-hex_encode (b ∷ bs) (h, a) =
    rw (hex_digit-hex_char (b / 16 % 16) (omega arith), hex_decode)
      (rw (hex_digit-hex_char (b % 16) (omega arith), hex_decode)
        (rw (hex_decode-hex_encode bs a) (ap (λ (x : ℕ). some (x ∷ bs)) (omega arith))))

-- The generated code writes bytes, and reads back what it wrote.
pub record IsMarshal (g : Ledger) : Type 0 where
  pub marshalled :
      (o : ConstructOptions) (e : Bytes)
      → g.marshal o ≡ some e
      → All (λ b. b < 256) e × (g.unmarshal e ≡ some o)

decode_hex-hex_encode :
    (g : Ledger) (l : Library) (o : ConstructOptions) (enc : Bytes)
    → All (λ b. b < 256) enc
    → g.unmarshal enc ≡ some o
    → decode_hex g l (hex_encode enc) ≡ some o
unfolding decode_hex
decode_hex-hex_encode g l o enc bytes back = rw (hex_decode-hex_encode enc bytes, decode_hex) back

-- Options that a response carries are read back unchanged from it by the next request.
pub decode_protobuf-encode_protobuf :
    (g : Ledger) (l : Library) (good : IsMarshal g) (o : ConstructOptions) (md : Metadata g.Float)
    → encode_protobuf g l o ≡ ok md
    → decode_protobuf g l md ≡ ok o
unfolding decode_protobuf encode_protobuf field_of eq_bytes
decode_protobuf-encode_protobuf g l good o md q = elim (Option-cases (g.marshal o)) [
  | inl e ↦ cc (rw (e, ◌>>=◌) at q)
  | inr (enc, e) ↦
      let (bytes, back) = good.marshalled o enc e in
      let s : ((codes "protobuf", str (hex_encode enc)) ∷ []) ≡ md = cc (rw (e, ◌>>=◌) at q) in
      subst (λ (m : Metadata g.Float). decode_protobuf g l m ≡ ok o) s
        (ap (λ (x : Option ConstructOptions). or_err x (wrapped Errors.protobuf))
          (decode_hex-hex_encode g l o enc bytes back))
]
