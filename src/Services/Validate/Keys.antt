-- ===== src/Services/Validate/Keys.antt =====
-- What Validate reads from the key of an account.
use ontology_rosetta.Common.{
  ℕ, ◌+◌, ◌≡◌, refl, ap, ◌∙◌, Bool, false, some, [], ◌∷◌, ◌++◌, append_assoc, length, length-append,
  get_elem?, take, drop, ltb, ◌==◌, arith,
}
use ontology_rosetta.Common.Bytes.{Bytes}
use ontology_rosetta.Common.Result.{ok, ◌>>=◌}
use ontology_rosetta.Services.Ontology.{Address, Library, IsLibrary, IsAddress}
use ontology_rosetta.Services.Address.{Natives, addr2slice, account_key_prefix}
use ontology_rosetta.Services.Address.Compress.{Slice, addr2slice-Slice, slice2addr-addr2slice}
use ontology_rosetta.Services.Validate.{byte_at, part_end, slice_to, info_at}

-- An address in its short form.
unfoldable pub is_compressed : Bytes → Bool
is_compressed [] = false
is_compressed (tag ∷ r) = tag == 1

elem_behind : (p r : Bytes) (x : ℕ) → get_elem? (p ++ (x ∷ r)) (length p) ≡ some x
elem_behind [] r x = refl
elem_behind (y ∷ p) r x = elem_behind p r x

take-append : (xs ys : Bytes) → take (length xs) (xs ++ ys) ≡ xs
take-append [] ys = refl
take-append (x ∷ xs) ys = ap (λ (t : Bytes). x ∷ t) (take-append xs ys)

drop-append : (xs ys : Bytes) → drop (length xs) (xs ++ ys) ≡ ys
drop-append [] ys = refl
drop-append (x ∷ xs) ys = drop-append xs ys

slice_to-append : (xs ys : Bytes) → slice_to (xs ++ ys) (length xs) ≡ ok xs
unfolding slice_to
slice_to-append xs ys =
    let e : ltb (length (xs ++ ys)) (length xs) ≡ false = rw length-append (ground arith) in
    rw (e, take-append)

part_end-Slice :
    {n : Natives} {a : Address} {s : Bytes} (p r : Bytes)
    → IsAddress a
    → Slice n a s
    → part_end (p ++ (s ++ r)) (length p) ≡ ok (length p + length s)
unfolding part_end byte_at
part_end-Slice p r la (Slice.ong e) = rw (elem_behind p _ 1) refl
part_end-Slice p r la (Slice.ont e) = rw (elem_behind p _ 1) refl
part_end-Slice p r la (Slice.gov e) = rw (elem_behind p _ 1) refl
part_end-Slice p r la (Slice.null e) = rw (elem_behind p _ 1) refl
part_end-Slice {a = a} p r la Slice.plain = rw (elem_behind p _ 0) (ap ok (omega (arith, la)))

tag_at :
    {n : Natives} {a : Address} {s : Bytes} (p r : Bytes)
    → Slice n a s
    → (tag : ℕ) × (byte_at (p ++ (s ++ r)) (length p) ≡ ok tag) × ((tag == 1) ≡ is_compressed s)
unfolding byte_at is_compressed
tag_at p r (Slice.ong e) = (1, rw (elem_behind p _ 1) refl, refl)
tag_at p r (Slice.ont e) = (1, rw (elem_behind p _ 1) refl, refl)
tag_at p r (Slice.gov e) = (1, rw (elem_behind p _ 1) refl, refl)
tag_at p r (Slice.null e) = (1, rw (elem_behind p _ 1) refl, refl)
tag_at p r Slice.plain = (0, rw (elem_behind p _ 0) refl, refl)

module _ (l : Library) (n : Natives) (lib : IsLibrary l) (a c : Address) (la : IsAddress a)
    (lc : IsAddress c) (f : Bytes) where
  abbrev left : Bytes
  left = b'a' ∷ addr2slice n a

  abbrev pub prefix : Bytes
  prefix = account_key_prefix (addr2slice n a) (addr2slice n c)

  abbrev pub start : ℕ
  start = length left

  abbrev pub end : ℕ
  end = length left + length (addr2slice n c)

  whole : prefix ++ f ≡ left ++ (addr2slice n c ++ f)
  unfolding account_key_prefix
  whole = ap (λ (t : Bytes). b'a' ∷ t) (append_assoc (addr2slice n a) (addr2slice n c) f)

  length_prefix : length prefix ≡ end
  unfolding account_key_prefix
  length_prefix = rw length-append (omega arith)

  pub first_end : part_end (prefix ++ f) 1 ≡ ok start
  first_end = rw whole (
      part_end-Slice (b'a' ∷ []) (addr2slice n c ++ f) la (addr2slice-Slice n a)
      ∙ ap ok (omega arith))

  pub second_end : part_end (prefix ++ f) start ≡ ok end
  second_end = rw whole (part_end-Slice left f lc (addr2slice-Slice n c))

  pub own_prefix : slice_to (prefix ++ f) end ≡ ok prefix
  own_prefix = rw (← length_prefix) (slice_to-append prefix f)

  to_start : slice_to (prefix ++ f) start ≡ ok left
  to_start = rw whole (slice_to-append left (addr2slice n c ++ f))

  behind_start : drop start prefix ≡ addr2slice n c
  unfolding account_key_prefix
  behind_start = drop-append left (addr2slice n c)

  tag_of_contract :
      (tag : ℕ) × (byte_at (prefix ++ f) start ≡ ok tag)
      × ((tag == 1) ≡ is_compressed (addr2slice n c))
  tag_of_contract = let (tag, t, q) = tag_at left f (addr2slice-Slice n c) in (tag, rw whole t, q)

  pub info_at-key :
      info_at l n (prefix ++ f) start end
      ≡ ok (record {
        acct = a;
        contract = c;
        key = prefix ++ f;
        native = is_compressed (addr2slice n c);
      })
  unfolding info_at
  info_at-key =
      let (tag, t, q) = tag_of_contract in
      let (_, da) = slice2addr-addr2slice l n a lib la in
      let (_, dc) = slice2addr-addr2slice l n c lib lc in
      rw (to_start, ◌>>=◌)
        (rw (da, ◌>>=◌)
          (rw (own_prefix, ◌>>=◌) (rw (behind_start, dc, ◌>>=◌) (rw (t, ◌>>=◌) (rw q refl)))))
