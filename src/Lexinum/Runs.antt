-- ===== src/Lexinum/Runs.antt =====
-- Concrete runs of the encoder and the decoder, and the theorems at concrete inputs.
use ontology_rosetta.Common.{◌≡◌, refl, some, [], ◌∷◌, arith}
use ontology_rosetta.Common.Bytes.{Bytes, LtBytes}
use ontology_rosetta.Lexinum.{encode_height, decode_height, height, pow, count_loop, chars_loop}
use ontology_rosetta.Lexinum.{encode_big, encode_small, suffix, decode_loop, invalid_encoding}
use ontology_rosetta.Lexinum.RoundTrip.{decode-encode}
use ontology_rosetta.Lexinum.Order.{encode_lt}

encode_max : encode_height 0xffff_ffff ≡ some (0xff ∷ 5 ∷ 3 ∷ 11 ∷ 161 ∷ 41 ∷ [])
unfolding encode_height encode_big encode_small count_loop chars_loop suffix pow
encode_max = refl

encode_middle : encode_height 0x1234567 ≡ some (0xff ∷ 3 ∷ 169 ∷ 223 ∷ 1 ∷ 208 ∷ [])
unfolding encode_height encode_big encode_small count_loop chars_loop suffix pow
encode_middle = refl

decode_misplaced : decode_height (0xff ∷ 2 ∷ 1 ∷ 3 ∷ 4 ∷ []) ≡ invalid_encoding
unfolding decode_height decode_loop
decode_misplaced = refl

decode-encode_example :
    (d : Bytes) × (encode_height 0xffff_ffff ≡ some d) × (decode_height d ≡ height 0xffff_ffff)
decode-encode_example = decode-encode 0xffff_ffff (omega arith)

encode_lt_example :
    LtBytes (0xff ∷ 3 ∷ 169 ∷ 223 ∷ 1 ∷ 208 ∷ []) (0xff ∷ 5 ∷ 3 ∷ 11 ∷ 161 ∷ 41 ∷ [])
encode_lt_example =
    encode_lt 0x1234567 0xffff_ffff _ _ (omega arith) (omega arith) encode_middle encode_max
