-- ===== src/Services/Address/Prefix.antt =====
-- The key prefixes of accounts determine the account and the contract.
use ontology_rosetta.Common.{◌≡◌, refl, [], ◌∷◌, ◌++◌, ◌∙◌, sym, arith, length, append_assoc}
use ontology_rosetta.Common.Bytes.{Bytes}
use ontology_rosetta.Services.Ontology.{Address, IsAddress}
use ontology_rosetta.Services.Address.{Natives, addr2slice, account_key_prefix}
use ontology_rosetta.Services.Address.Compress.{Slice, addr2slice-Slice}

-- Two lists of one length with what follows them.
split_append : (xs ys s t : Bytes) → length xs ≡ length ys → xs ++ s ≡ ys ++ t → (xs ≡ ys) × (s ≡ t)
split_append [] [] s t h e = (refl, e)
split_append [] (y ∷ ys) s t h e = absurd (omega arith)
split_append (x ∷ xs) [] s t h e = absurd (omega arith)
split_append (x ∷ xs) (y ∷ ys) s t h e =
    let (p, q) = split_append xs ys s t (omega arith) (cc) in (cc, q)

Slice-append :
    {n : Natives} {a b : Address} {p q : Bytes} (s t : Bytes)
    → IsAddress a
    → IsAddress b
    → Slice n a p
    → Slice n b q
    → p ++ s ≡ q ++ t
    → (a ≡ b) × (s ≡ t)
Slice-append s t la lb (Slice.ong d) (Slice.ong e) h = (cc, cc)
Slice-append s t la lb (Slice.ong d) (Slice.ont e) h = cc
Slice-append s t la lb (Slice.ong d) (Slice.gov e) h = cc
Slice-append s t la lb (Slice.ong d) (Slice.null e) h = cc
Slice-append s t la lb (Slice.ong d) Slice.plain h = cc
Slice-append s t la lb (Slice.ont d) (Slice.ong e) h = cc
Slice-append s t la lb (Slice.ont d) (Slice.ont e) h = (cc, cc)
Slice-append s t la lb (Slice.ont d) (Slice.gov e) h = cc
Slice-append s t la lb (Slice.ont d) (Slice.null e) h = cc
Slice-append s t la lb (Slice.ont d) Slice.plain h = cc
Slice-append s t la lb (Slice.gov d) (Slice.ong e) h = cc
Slice-append s t la lb (Slice.gov d) (Slice.ont e) h = cc
Slice-append s t la lb (Slice.gov d) (Slice.gov e) h = (cc, cc)
Slice-append s t la lb (Slice.gov d) (Slice.null e) h = cc
Slice-append s t la lb (Slice.gov d) Slice.plain h = cc
Slice-append s t la lb (Slice.null d) (Slice.ong e) h = cc
Slice-append s t la lb (Slice.null d) (Slice.ont e) h = cc
Slice-append s t la lb (Slice.null d) (Slice.gov e) h = cc
Slice-append s t la lb (Slice.null d) (Slice.null e) h = (cc, cc)
Slice-append s t la lb (Slice.null d) Slice.plain h = cc
Slice-append s t la lb Slice.plain (Slice.ong e) h = cc
Slice-append s t la lb Slice.plain (Slice.ont e) h = cc
Slice-append s t la lb Slice.plain (Slice.gov e) h = cc
Slice-append s t la lb Slice.plain (Slice.null e) h = cc
Slice-append {a = a} {b = b} s t la lb Slice.plain Slice.plain h =
    split_append a b s t (la ∙ sym lb) (cc)

pub addr2slice-append :
    (n : Natives) (a b : Address) (s t : Bytes)
    → IsAddress a
    → IsAddress b
    → addr2slice n a ++ s ≡ addr2slice n b ++ t
    → (a ≡ b) × (s ≡ t)
addr2slice-append n a b s t la lb h =
    Slice-append s t la lb (addr2slice-Slice n a) (addr2slice-Slice n b) h

-- Two account keys that agree as bytes are of one account and one contract, whatever follows the
-- prefix, and what follows it agrees too: no account's keys stand among another's.
pub account_key_prefix-append :
    (n : Natives) (a b c d : Address) (s t : Bytes)
    → IsAddress a
    → IsAddress b
    → IsAddress c
    → IsAddress d
    → account_key_prefix (addr2slice n a) (addr2slice n c) ++ s
      ≡ account_key_prefix (addr2slice n b) (addr2slice n d) ++ t
    → (a ≡ b) × (c ≡ d) × (s ≡ t)
unfolding account_key_prefix
account_key_prefix-append n a b c d s t la lb lc ld h =
    let (p, q) = addr2slice-append n a b (addr2slice n c ++ s) (addr2slice n d ++ t) la lb (
      cc (
        append_assoc (addr2slice n a) (addr2slice n c) s,
        append_assoc (addr2slice n b) (addr2slice n d) t,
      )) in
    let (r, e) = addr2slice-append n c d s t lc ld q in (p, r, e)
