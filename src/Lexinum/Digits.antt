-- ===== src/Lexinum/Digits.antt =====
-- The base-253 digits of a number, as the big form of the encoding holds them.
use ontology_rosetta.Common.{
  ℕ, zero, suc, ◌+◌, ◌/◌, ◌%◌, ◌^◌, ◌≤◌, ◌<◌, ◌≡◌, refl, ◌⊎◌, inl, inr, ◌++◌, ◌∷◌, arith, ◌==◌,
  if◌then◌else◌, length,
}
use ontology_rosetta.Common.Bytes.{Bytes, LtBytes}
use native.Mathlib.Nat.{pow-suc}
use native.Mathlib.Decide.{dec_lt}

-- `k` digits of `a`, the highest first, each raised by 2, in front of `s`.
unfoldable pub digits : ℕ → ℕ → Bytes → Bytes
digits zero a s = s
digits (suc k) a s = digits k (a / 253) ((a % 253 + 2) ∷ s)

-- How many digits `a` has, for `a` below 253 ^ f. Zero has none.
unfoldable pub width : ℕ → ℕ → ℕ
width zero a = 0
width (suc f) a = if a == 0 then 0 else suc (width f (a / 253))

pub width-le : (f a : ℕ) → width f a ≤ f
unfolding width
width-le zero a = omega arith
width-le (suc f) a = ground (arith, width-le f (a / 253))

pub width_bound : (f a : ℕ) → a < 253 ^ f → a < 253 ^ width f a
unfolding width
width_bound zero a h = h
width_bound (suc f) a h =
    ground (arith, pow-suc 253 f, pow-suc 253 (width f (a / 253)), width_bound f (a / 253))

pub width_mono : (f a b : ℕ) → a ≤ b → width f a ≤ width f b
unfolding width
width_mono zero a b h = omega arith
width_mono (suc f) a b h = ground (arith, width_mono f (a / 253) (b / 253))

pub digits-append : (k a : ℕ) (s t : Bytes) → digits k a s ++ t ≡ digits k a (s ++ t)
unfolding digits
digits-append zero a s t = refl
digits-append (suc k) a s t = digits-append k (a / 253) ((a % 253 + 2) ∷ s) t

pub length-digits : (k a : ℕ) (s : Bytes) → length (digits k a s) ≡ k + length s
unfolding digits
length-digits zero a s = omega arith
length-digits (suc k) a s = omega (arith, length-digits k (a / 253) ((a % 253 + 2) ∷ s))

pub digits_prefix : (k a : ℕ) (s t : Bytes) → LtBytes s t → LtBytes (digits k a s) (digits k a t)
unfolding digits
digits_prefix zero a s t h = h
digits_prefix (suc k) a s t h = digits_prefix k (a / 253) _ _ (inr (refl, h))

div_cases :
    (a b : ℕ) → a < b → (a / 253 < b / 253) ⊎ ((a / 253 ≡ b / 253) × (a % 253 + 2 < b % 253 + 2))
div_cases a b h = elim (dec_lt (a / 253) (b / 253)) [
  | yes p ↦ inl p
  | no p ↦ inr (omega arith, omega arith)
]

-- At equal width the byte order of the digits is the order of the numbers, whatever follows.
pub digits_lt :
    (k a b : ℕ) (s t : Bytes) → a < b → b < 253 ^ k → LtBytes (digits k a s) (digits k b t)
unfolding digits
digits_lt zero a b s t h hb = absurd (omega arith)
digits_lt (suc k) a b s t h hb = elim (div_cases a b h) [
  | inl lt ↦ digits_lt k (a / 253) (b / 253) _ _ lt (omega (arith, pow-suc 253 k))
  | inr (e, lt) ↦ rw e (digits_prefix k (b / 253) ((a % 253 + 2) ∷ s) ((b % 253 + 2) ∷ t) (inl lt))
]
