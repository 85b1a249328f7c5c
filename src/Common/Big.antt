-- ===== src/Common/Big.antt =====
-- big.Int as the standard library writes it: big-endian bytes of the absolute value.
use ontology_rosetta.Common.{
  ℕ, zero, suc, ◌+◌, ◌*◌, ◌/◌, ◌%◌, ◌≤◌, ◌≡◌, refl, ◌∙◌, ap, inl, inr, [], ◌∷◌, arith, ◌==◌,
  if◌then◌else◌, Bool-cases,
}
use ontology_rosetta.Common.Bytes.{Bytes}
use ontology_rosetta.Common.Int.{ℤ, pos, negsuc, pos_part, neg_part}

-- The base-256 digits of `n` in front of `acc`.
unfoldable pub bytes_loop : ℕ → ℕ → Bytes → Bytes
bytes_loop zero n acc = acc
bytes_loop (suc f) n acc =
    let rest = bytes_loop f (n / 256) ((n % 256) ∷ acc) in if n == 0 then acc else rest

-- x.Bytes() for x ≥ 0; a number has fewer digits than its value, so the fuel is enough.
unfoldable pub bytes_of_nat : ℕ → Bytes
unfolding bytes_loop
bytes_of_nat n = bytes_loop n n []

set_bytes_loop : ℕ → Bytes → ℕ
set_bytes_loop acc [] = acc
set_bytes_loop acc (b ∷ bs) = set_bytes_loop (acc * 256 + b) bs

-- SetBytes
unfoldable pub set_bytes : Bytes → ℕ
unfolding set_bytes_loop
set_bytes bs = set_bytes_loop 0 bs

-- x.Bytes() drops the sign.
unfoldable pub bytes_of : ℤ → Bytes
bytes_of (pos n) = bytes_of_nat n
bytes_of (negsuc n) = bytes_of_nat (suc n)

set_bytes_loop-bytes_loop :
    (f n : ℕ) (acc : Bytes) → n ≤ f → set_bytes_loop 0 (bytes_loop f n acc) ≡ set_bytes_loop n acc
unfolding bytes_loop
set_bytes_loop-bytes_loop zero n acc h = ap (λ (m : ℕ). set_bytes_loop m acc) (omega arith)
set_bytes_loop-bytes_loop (suc f) n acc h = elim (Bool-cases (n == 0)) [
  | inl done ↦ rw done (ap (λ (m : ℕ). set_bytes_loop m acc) (ground arith))
  | inr more ↦ rw more (
      set_bytes_loop-bytes_loop f (n / 256) ((n % 256) ∷ acc) (ground arith)
      ∙ (unfold set_bytes_loop in ap (λ (m : ℕ). set_bytes_loop m acc) (omega arith)))
]

pub set_bytes-bytes_of_nat : (n : ℕ) → set_bytes (bytes_of_nat n) ≡ n
unfolding set_bytes bytes_of_nat
set_bytes-bytes_of_nat n = set_bytes_loop-bytes_loop n n [] (omega arith)

pub set_bytes-bytes_of : (z : ℤ) → set_bytes (bytes_of z) ≡ pos_part z + neg_part z
unfolding bytes_of
set_bytes-bytes_of (pos n) = set_bytes-bytes_of_nat n ∙ omega arith
set_bytes-bytes_of (negsuc n) = set_bytes-bytes_of_nat (suc n) ∙ omega arith

bytes_of_example : bytes_of (pos 0x1234567) ≡ 0x1 ∷ 0x23 ∷ 0x45 ∷ 0x67 ∷ []
unfolding bytes_of bytes_of_nat
bytes_of_example = refl
