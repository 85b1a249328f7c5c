-- ===== src/Services/Examples/Names.antt =====
-- A library whose texts are the bytes of the addresses and hashes, and four native addresses.
use ontology_rosetta.Common.{
  ℕ, ◌≡◌, ◌≢◌, inl, inr, Option, none, some, [], ◌∷◌, arith, Bool-cases, if◌then◌else◌, ◌==◌,
  ==_iff, length,
}
use ontology_rosetta.Common.Bytes.{Bytes}
use ontology_rosetta.Services.Ontology.{Address, Library, IsLibrary}
use ontology_rosetta.Services.Address.{Natives, IsNatives}

unfoldable pub of_length : ℕ → Bytes → Option Bytes
of_length n b = if length b == n then some b else none

abbrev pub names : Library
names = record {
  address_from_hex = of_length 20;
  address_to_hex = λ a. a;
  address_from_base58 = of_length 20;
  address_to_base58 = λ a. a;
  address_parse = of_length 20;
  hash_from_hex = of_length 32;
  hash_to_hex = λ h. h;
  hash_parse = of_length 32;
}

of_length-some : (n : ℕ) (b : Bytes) → length b ≡ n → of_length n b ≡ some b
unfolding of_length
of_length-some n b e = rw ((==_iff (length b) n).1 e)

of_length-none : (n : ℕ) (b : Bytes) → length b ≢ n → of_length n b ≡ none
unfolding of_length
of_length-none n b h = elim (Bool-cases (length b == n)) [
  | inl t ↦ absurd (h ((==_iff (length b) n).0 t))
  | inr f ↦ rw f
]

of_length-length : (n : ℕ) (t b : Bytes) → of_length n t ≡ some b → length b ≡ n
unfolding of_length
of_length-length n t b e = elim (Bool-cases (length t == n)) [
  | inl h ↦ let q : t ≡ b = cc (rw h at e) in rw (← q) ((==_iff (length t) n).0 h)
  | inr f ↦ cc (rw f at e)
]

pub names-IsLibrary : IsLibrary names
names-IsLibrary = record {
  parse_some = of_length-some 20;
  parse_none = of_length-none 20;
  from_hex-IsAddress = of_length-length 20;
  from_hex-to_hex = of_length-some 20;
  from_base58-IsAddress = of_length-length 20;
  from_base58-to_base58 = of_length-some 20;
  hash_parse_some = of_length-some 32;
  hash_from_hex-IsHash = of_length-length 32;
  hash_from_hex-to_hex = of_length-some 32;
}

-- Nineteen zeros and the last byte, as the package's variables have them.
abbrev pub address : ℕ → Address
address x = 0 ∷ 0 ∷ 0 ∷ 0 ∷ 0 ∷ 0 ∷ 0 ∷ 0 ∷ 0 ∷ 0 ∷ 0 ∷ 0 ∷ 0 ∷ 0 ∷ 0 ∷ 0 ∷ 0 ∷ 0 ∷ 0 ∷ x ∷ []

abbrev pub natives : Natives
natives = record { gov = address 7; null = address 0; ong = address 2; ont = address 1 }

pub natives-IsNatives : IsNatives natives
natives-IsNatives = record {
  gov_len = omega arith;
  null_len = omega arith;
  ong_len = omega arith;
  ont_len = omega arith;
}

pub address_ne : (x y : ℕ) → x ≢ y → address x ≢ address y
address_ne x y ne e = ne (cc e)
