-- ===== src/Lexinum/RoundTrip.antt =====
-- DecodeHeight reads back what EncodeHeight wrote.
use ontology_rosetta.Common.{
  ℕ, zero, suc, ◌+◌, ◌-◌, ◌*◌, ◌/◌, ◌%◌, ◌^◌, ◌<◌, ◌≡◌, refl, ap, ◌∙◌, inl, inr, some, [], ◌∷◌,
  arith, ltb, Bool-cases, length,
}
use ontology_rosetta.Common.Bytes.{Bytes}
use ontology_rosetta.Lexinum.{
  IsU32, max_small, suffix, decode_loop, decode_height, encode_height, height,
}
use ontology_rosetta.Lexinum.Digits.{digits, width, width_bound, length-digits}
use ontology_rosetta.Lexinum.Encode.{small_form, big_form, form, encode_height-eq-form}
use mathlib.Core.Path.{ap₂}
use native.Mathlib.Nat.{pow-suc}

digit_step :
    (len a i : ℕ) (s : Bytes)
    → a < 2 ^ 32
    → decode_loop len ((a % 253 + 2) ∷ s) i (a / 253) ≡ decode_loop len s (i + 1) a
unfolding decode_loop
digit_step len a i s h = ground arith

-- The loop reads the digits of `a` as `a`, whatever follows.
decode_loop-digits :
    (k len a i : ℕ) (s : Bytes)
    → a < 253 ^ k
    → a < 2 ^ 32
    → decode_loop len (digits k a s) i 0 ≡ decode_loop len s (i + k) a
unfolding digits
decode_loop-digits zero len a i s h b = ap₂ (decode_loop len s) (omega arith) (omega arith)
decode_loop-digits (suc k) len a i s h b =
    decode_loop-digits k len (a / 253) i _ (omega (arith, pow-suc 253 k)) (omega arith)
    ∙ digit_step len a (i + k) s b
    ∙ ap (λ (j : ℕ). decode_loop len s j a) (omega arith)

-- Behind the digits stands nothing, or the marker byte and the remainder.
decode_loop-suffix :
    (lead rem i : ℕ)
    → rem < 255
    → lead * 255 + rem + max_small < 2 ^ 32
    → decode_loop (i + length (suffix rem) + 2) (suffix rem) i lead
      ≡ height (lead * 255 + rem + max_small)
unfolding decode_loop suffix
decode_loop-suffix lead rem i hr h = ground arith

decode_height_big :
    (n : ℕ) (t : Bytes) → decode_height (0xff ∷ n ∷ t) ≡ decode_loop (length t + 2) t 0 0
unfolding decode_height
decode_height_big n [] = refl
decode_height_big n (c ∷ t) = ap (λ (l : ℕ). decode_loop l (c ∷ t) 0 0) (omega arith)

decode-big_form :
    (v : ℕ) → v + max_small < 2 ^ 32 → decode_height (big_form v) ≡ height (v + max_small)
unfolding big_form
decode-big_form v h =
    let lead : ℕ = v / 255 in
    let w : ℕ = width 4 lead in
    decode_height_big _ (digits w lead (suffix (v % 255)))
    ∙ decode_loop-digits w _ lead 0 (suffix (v % 255)) (width_bound 4 lead (omega arith))
        (omega arith)
    ∙ ap (λ (l : ℕ). decode_loop l (suffix (v % 255)) (0 + w) lead)
        (omega (arith, length-digits w lead (suffix (v % 255))))
    ∙ decode_loop-suffix lead (v % 255) (0 + w) (omega arith) (omega arith)
    ∙ ap height (omega arith)

decode-small_form : (v : ℕ) → v < max_small → decode_height (small_form v) ≡ height v
unfolding decode_height small_form
decode-small_form v h = ground arith

pub decode-form : (v : ℕ) → IsU32 v → decode_height (form v) ≡ height v
unfolding form
decode-form v h = elim (Bool-cases (ltb v max_small)) [
  | inl small ↦ rw small (decode-small_form v (ground arith))
  | inr big ↦ rw big (decode-big_form (v - max_small) (ground arith) ∙ ap height (ground arith))
]

-- EncodeHeight ends on every uint32 with a slice that DecodeHeight reads back as that number.
pub decode-encode :
    (v : ℕ) → IsU32 v → (d : Bytes) × (encode_height v ≡ some d) × (decode_height d ≡ height v)
decode-encode v h = (form v, encode_height-eq-form v h, decode-form v h)
