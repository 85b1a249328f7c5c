-- ===== src/Lexinum/Encode.antt =====
-- What the encoder writes, in plain arithmetic: the two forms, and that its loops end.
use ontology_rosetta.Common.{
  ℕ, zero, suc, ◌+◌, ◌-◌, ◌/◌, ◌%◌, ◌^◌, ◌≤◌, ◌<◌, ◌≡◌, refl, ap, ◌∙◌, some, [], ◌∷◌, ◌++◌, arith,
  ltb, ◌==◌, if◌then◌else◌, Bool-cases, inl, inr,
}
use ontology_rosetta.Common.Bytes.{Bytes}
use ontology_rosetta.Lexinum.{
  IsU32, max_small, pow, count_loop, chars_loop, encode_small, encode_big, encode_height, suffix,
}
use ontology_rosetta.Lexinum.Digits.{digits, width, width-le, digits-append}
use mathlib.Core.Path.{ap₂}
use mathlib.Core.List.{reverse, reverse-append}
use native.Mathlib.Nat.{pow-suc}

pow_lem :
    (pow 253 1 ≡ 253) × (pow 253 2 ≡ 64009) × (pow 253 3 ≡ 16194277) × (pow 253 4 ≡ 4097152081)
unfolding pow
pow_lem = (refl, refl, refl, refl)

-- The byte that counts the digits, less one. Zero is written as if it had one digit.
abbrev pub count : ℕ → ℕ
count zero = 1
count (suc w) = suc w

-- The big form of `v`, where `v` stands for the height less `max_small`.
unfoldable pub big_form : ℕ → Bytes
big_form v =
    let w = width 4 (v / 255) in 0xff ∷ (count w + 1) ∷ digits w (v / 255) (suffix (v % 255))

count-le : (w : ℕ) → count w ≤ w + 1
count-le zero = omega arith
count-le (suc w) = omega arith

count_loop-eq-count :
    (lead : ℕ) → lead < 253 ^ 4 → count_loop 5 lead 1 ≡ some (count (width 4 lead))
unfolding count_loop width
count_loop-eq-count lead h = let (one, two, three, four) = pow_lem in ground arith

reverse_snoc :
    (chars : Bytes) (lead : ℕ)
    → reverse (chars ++ ((lead % 253 + 2) % 256 ∷ [])) ≡ (lead % 253 + 2) ∷ reverse chars
reverse_snoc chars lead =
    reverse-append chars ((lead % 253 + 2) % 256 ∷ [])
    ∙ ap (λ (x : ℕ). x ∷ reverse chars) (omega arith)

chars_loop-eq-digits :
    (k lead : ℕ) (chars : Bytes)
    → lead < 253 ^ k
    → (cs : Bytes) × (chars_loop (suc k) lead chars ≡ some cs)
      × (reverse cs ≡ digits (width k lead) lead (reverse chars))
unfolding chars_loop width digits
chars_loop-eq-digits zero lead chars h = (chars, ground arith, refl)
chars_loop-eq-digits (suc k) lead chars h = elim (Bool-cases (lead == 0)) [
  | inl done ↦ rw done (chars, refl, refl)
  | inr more ↦
      let (cs, e, r) =
        chars_loop-eq-digits k (lead / 253) (chars ++ ((lead % 253 + 2) % 256 ∷ []))
          (omega (arith, pow-suc 253 k)) in
      rw more (cs, e, r ∙ rw (reverse_snoc chars lead))
]

count_byte : (lead : ℕ) → (count (width 4 lead) % 256 + 1) % 256 ≡ count (width 4 lead) + 1
count_byte lead = omega (arith, count-le (width 4 lead), width-le 4 lead)

-- Above the small range the encoder returns the big form: neither loop runs out of fuel.
pub encode_big-eq : (v : ℕ) → v / 255 < 253 ^ 4 → encode_big 5 v ≡ some (big_form v)
unfolding encode_big big_form
encode_big-eq v h =
    let (cs, e, r) = chars_loop-eq-digits 4 (v / 255) [] h in
    rw (count_loop-eq-count (v / 255) h, e, encode_big)
      (ap some (
        ap₂ (λ (n : ℕ) (ds : Bytes). 0xff ∷ n ∷ ds) (count_byte (v / 255))
          (ap (λ (ds : Bytes). ds ++ suffix (v % 255)) r
            ∙ digits-append (width 4 (v / 255)) (v / 255) [] (suffix (v % 255)))))

-- The small form: two base-255 digits behind a lead byte.
unfoldable pub small_form : ℕ → Bytes
small_form v = (v / 65025 + 128) ∷ (v / 255 % 255 + 1) ∷ (v % 255 + 1) ∷ []

pub encode_small-eq : (v : ℕ) → v < max_small → encode_small v ≡ small_form v
unfolding encode_small small_form
encode_small-eq v h = ground arith

unfoldable pub form : ℕ → Bytes
form v = if ltb v max_small then small_form v else big_form (v - max_small)

-- On every uint32 EncodeHeight ends, and returns the small form or the big form.
pub encode_height-eq-form : (v : ℕ) → IsU32 v → encode_height v ≡ some (form v)
unfolding encode_height form small_form
encode_height-eq-form v h = ground (arith, encode_small-eq v, encode_big-eq (v - max_small))
