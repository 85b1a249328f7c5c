-- ===== src/Lexinum/Order.antt =====
-- The byte order of the encodings is the order of the heights.
use ontology_rosetta.Common.{
  ℕ, zero, suc, ◌+◌, ◌-◌, ◌/◌, ◌%◌, ◌^◌, ◌≤◌, ◌<◌, ◌≡◌, refl, ◌⊎◌, inl, inr, some, ◌∷◌, arith, ltb,
  true, Bool-cases,
}
use ontology_rosetta.Common.Bytes.{Bytes, LtBytes}
use ontology_rosetta.Lexinum.{IsU32, max_small, suffix, encode_height}
use ontology_rosetta.Lexinum.Digits.{
  digits, width, width_bound, width_mono, digits_lt, digits_prefix,
}
use ontology_rosetta.Lexinum.Encode.{small_form, big_form, form, encode_height-eq-form, count}
use mathlib.Core.Path.{subst₂}
use native.Mathlib.Decide.{dec_lt}

suffix_lt : (a b : ℕ) → a < b → b < 255 → LtBytes (suffix a) (suffix b)
unfolding suffix
suffix_lt a b h hb = ground arith

small_form_lt : (u v : ℕ) → u < v → LtBytes (small_form u) (small_form v)
unfolding small_form
small_form_lt u v h = ground arith

form_cross : (u v : ℕ) → u < max_small → LtBytes (small_form u) (big_form v)
unfolding small_form big_form
form_cross u v h = inl (omega arith)

-- A lower lead sorts first: by the count of its digits, or by the digits.
lead_lt :
    (wu wv a b rem : ℕ) (t : Bytes)
    → wu ≤ wv
    → a < 253 ^ wu
    → b < 253 ^ wv
    → a < b
    → LtBytes ((count wu + 1) ∷ digits wu a (suffix rem)) ((count wv + 1) ∷ digits wv b t)
lead_lt zero zero a b rem t h ha hb lt = absurd (omega arith)
lead_lt zero (suc zero) a b rem t h ha hb lt = unfold digits suffix in inr (refl, ground arith)
lead_lt zero (suc (suc wv)) a b rem t h ha hb lt = inl (omega arith)
lead_lt (suc wu) zero a b rem t h ha hb lt = absurd (omega arith)
lead_lt (suc wu) (suc wv) a b rem t h ha hb lt = elim (dec_lt wu wv) [
  | yes p ↦ inl (omega arith)
  | no p ↦
      let e : wu ≡ wv = omega arith in
      inr (omega arith, rw e (digits_lt (suc wv) a b (suffix rem) t lt hb))
]

div_cases : (u v : ℕ) → u < v → (u / 255 < v / 255) ⊎ ((u / 255 ≡ v / 255) × (u % 255 < v % 255))
div_cases u v h = elim (dec_lt (u / 255) (v / 255)) [
  | yes p ↦ inl p
  | no p ↦ inr (omega arith, omega arith)
]

big_form_lt : (u v : ℕ) → u < v → v / 255 < 253 ^ 4 → LtBytes (big_form u) (big_form v)
unfolding big_form
big_form_lt u v h hv = elim (div_cases u v h) [
  | inl lt ↦ inr (
    refl,
    lead_lt (width 4 (u / 255)) (width 4 (v / 255)) (u / 255) (v / 255) (u % 255) _
        (width_mono 4 (u / 255) (v / 255) (omega arith)) (width_bound 4 (u / 255) (omega arith))
        (width_bound 4 (v / 255) hv) lt,
  )
  | inr (e, lt) ↦ rw e (
      inr (
        refl,
        inr (
          refl,
          digits_prefix (width 4 (v / 255)) (v / 255) _ _ (suffix_lt _ _ lt (omega arith)),
        ),
      ))
]

pub form_lt : (u v : ℕ) → u < v → IsU32 v → LtBytes (form u) (form v)
unfolding form
form_lt u v h hv = elim (Bool-cases (ltb v max_small)) [
  | inl small ↦
      let low : ltb u max_small ≡ true = ground arith in rw (small, low) (small_form_lt u v h)
  | inr big ↦ elim (Bool-cases (ltb u max_small)) [
    | inl small ↦ rw (big, small) (form_cross u (v - max_small) (ground arith))
    | inr large ↦
        rw (big, large) (big_form_lt (u - max_small) (v - max_small) (ground arith) (ground arith))
  ]
]

-- Of two uint32 heights the lower has the encoding that sorts first, over the whole range.
pub encode_lt :
    (u v : ℕ) (du dv : Bytes)
    → u < v
    → IsU32 v
    → encode_height u ≡ some du
    → encode_height v ≡ some dv
    → LtBytes du dv
encode_lt u v du dv h hv eu ev =
    let pu : form u ≡ du = cc (encode_height-eq-form u (omega arith)) in
    let pv : form v ≡ dv = cc (encode_height-eq-form v hv) in
    subst₂ LtBytes pu pv (form_lt u v h hv)
