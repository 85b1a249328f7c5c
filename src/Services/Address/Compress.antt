-- ===== src/Services/Address/Compress.antt =====
-- Compressed addresses are read back as they were.
use ontology_rosetta.Common.{◌≡◌, inl, inr, [], ◌∷◌, some, arith, Bool-cases, length}
use ontology_rosetta.Common.Bytes.{Bytes, eq_bytes, eq_bytes→eq}
use ontology_rosetta.Common.Result.{ok}
use ontology_rosetta.Services.Ontology.{Address, Library, IsLibrary, IsAddress}
use ontology_rosetta.Services.Address.{Natives, addr2slice, slice2addr, parse_tail, decompress_addr}

-- What addr2slice writes: a native address in two bytes, or a zero and the address.
pub data Slice (n : Natives) (a : Address) : Bytes → Type 0 where
  ong : a ≡ n.ong → Slice n a (1 ∷ 2 ∷ [])
  ont : a ≡ n.ont → Slice n a (1 ∷ 1 ∷ [])
  gov : a ≡ n.gov → Slice n a (1 ∷ 7 ∷ [])
  null : a ≡ n.null → Slice n a (1 ∷ 0 ∷ [])
  plain : Slice n a (0 ∷ a)

pub addr2slice-Slice : (n : Natives) (a : Address) → Slice n a (addr2slice n a)
unfolding addr2slice
addr2slice-Slice n a = elim (Bool-cases (eq_bytes a n.ong)) [
  | inl h ↦ rw h (ong (eq_bytes→eq a n.ong h))
  | inr h1 ↦ elim (Bool-cases (eq_bytes a n.ont)) [
    | inl h ↦ rw (h1, h) (ont (eq_bytes→eq a n.ont h))
    | inr h2 ↦ elim (Bool-cases (eq_bytes a n.gov)) [
      | inl h ↦ rw (h1, h2, h) (gov (eq_bytes→eq a n.gov h))
      | inr h3 ↦ elim (Bool-cases (eq_bytes a n.null)) [
        | inl h ↦ rw (h1, h2, h3, h) (null (eq_bytes→eq a n.null h))
        | inr h4 ↦ rw (h1, h2, h3, h4) plain
      ]
    ]
  ]
]

module _ (l : Library) (n : Natives) (a : Address) (lib : IsLibrary l) (len : IsAddress a) where
  slice2addr-plain : (b : Address) → length b ≡ 20 → slice2addr l n (0 ∷ b) ≡ ok b
  unfolding slice2addr
  slice2addr-plain [] h = absurd (omega arith)
  slice2addr-plain (x ∷ []) h = absurd (omega arith)
  slice2addr-plain (x ∷ y ∷ b) h = rw (lib.parse_some (x ∷ y ∷ b) h, parse_tail)

  decompress_addr-plain : (b : Address) → length b ≡ 20 → decompress_addr l n (0 ∷ b) ≡ some b
  unfolding decompress_addr
  decompress_addr-plain [] h = absurd (omega arith)
  decompress_addr-plain (x ∷ []) h = absurd (omega arith)
  decompress_addr-plain (x ∷ y ∷ b) h = lib.parse_some (x ∷ y ∷ b) h

  slice2addr-Slice : {s : Bytes} → Slice n a s → slice2addr l n s ≡ ok a
  slice2addr-Slice (ong e) = unfold slice2addr in rw e
  slice2addr-Slice (ont e) = unfold slice2addr in rw e
  slice2addr-Slice (gov e) = unfold slice2addr in rw e
  slice2addr-Slice (null e) = unfold slice2addr in rw e
  slice2addr-Slice plain = slice2addr-plain a len

  decompress_addr-Slice : {s : Bytes} → Slice n a s → decompress_addr l n s ≡ some a
  decompress_addr-Slice (ong e) = unfold decompress_addr in rw e
  decompress_addr-Slice (ont e) = unfold decompress_addr in rw e
  decompress_addr-Slice (gov e) = unfold decompress_addr in rw e
  decompress_addr-Slice (null e) = unfold decompress_addr in rw e
  decompress_addr-Slice plain = decompress_addr-plain a len

  -- Both readers return, from what addr2slice wrote of a 20-byte address, that address.
  pub slice2addr-addr2slice :
      (slice2addr l n (addr2slice n a) ≡ ok a) × (decompress_addr l n (addr2slice n a) ≡ some a)
  slice2addr-addr2slice =
      (slice2addr-Slice (addr2slice-Slice n a), decompress_addr-Slice (addr2slice-Slice n a))
