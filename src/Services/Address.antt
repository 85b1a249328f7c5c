-- ===== src/Services/Address.antt =====
-- The native contract addresses of services/services.go, and the compression of addresses in
-- services/store.go.
pub mod Compress
pub mod Prefix
use ontology_rosetta.Common.{
  ℕ, Bool, false, ◌||◌, Option, none, some, [], ◌∷◌, ◌++◌, ◌==◌, if◌then◌else◌,
}
use ontology_rosetta.Common.Bytes.{Bytes, eq_bytes}
use ontology_rosetta.Common.Result.{Result, ok, err}
use ontology_rosetta.Common.Text.{codes, Text}
use ontology_rosetta.Services.Ontology.{Address, Library, IsAddress}

-- The package's variables govAddr, nullAddr, ongAddr and ontAddr.
pub record Natives : Type 0 where
  pub gov : Address
  pub null : Address
  pub ong : Address
  pub ont : Address

pub record IsNatives (n : Natives) : Type 0 where
  pub gov_len : IsAddress n.gov
  pub null_len : IsAddress n.null
  pub ong_len : IsAddress n.ong
  pub ont_len : IsAddress n.ont

-- mustHexAddr; `none` is the panic on an invalid address.
pub must_hex_addr : Library → Text → Option Address
must_hex_addr l s = l.address_from_hex s

-- The initialisation of the four variables, in their order.
pub init_natives : Library → Option Natives
unfolding must_hex_addr
init_natives l = elim (must_hex_addr l (codes "0700000000000000000000000000000000000000")) [
  | none ↦ none
  | some gov ↦ elim (must_hex_addr l (codes "0000000000000000000000000000000000000000")) [
    | none ↦ none
    | some null ↦ elim (must_hex_addr l (codes "0200000000000000000000000000000000000000")) [
      | none ↦ none
      | some ong ↦ elim (must_hex_addr l (codes "0100000000000000000000000000000000000000")) [
        | none ↦ none
        | some ont ↦ some (record { gov = gov; null = null; ong = ong; ont = ont })
      ]
    ]
  ]
]

-- currencyInfo.isNative and transferInfo.isNative, of the record's contract
unfoldable pub is_native : Natives → Address → Bool
is_native n contract = eq_bytes contract n.ong || eq_bytes contract n.ont

unfoldable pub addr2slice : Natives → Address → Bytes
addr2slice n addr =
    if eq_bytes addr n.ong
    then 1 ∷ 2 ∷ []
    else (if eq_bytes addr n.ont
        then 1 ∷ 1 ∷ []
        else (if eq_bytes addr n.gov
            then 1 ∷ 7 ∷ []
            else (if eq_bytes addr n.null then 1 ∷ 0 ∷ [] else 0 ∷ addr)))

-- The errors of slice2addr.
pub data SliceError : Type 0 where
  unexpected_value empty_value decode_failed : SliceError

parse_tail : Library → Bytes → Result SliceError Address
parse_tail l xs = elim (l.address_parse xs) [ none ↦ err decode_failed | some a ↦ ok a ]

-- The cases on `xs[1]` that slice2addr and decompressAddr share; `none` is their default case.
native_of : Natives → ℕ → Option Address
native_of n b =
    if b == 2
    then some n.ong
    else (if b == 1
        then some n.ont
        else (if b == 7 then some n.gov else (if b == 0 then some n.null else none)))

native_or : Option Address → Result SliceError Address
native_or none = err unexpected_value
native_or (some a) = ok a

pub slice2addr : Library → Natives → Bytes → Result SliceError Address
unfolding parse_tail native_of native_or
slice2addr l n [] = err empty_value
slice2addr l n (tag ∷ b ∷ []) = if tag == 1 then native_or (native_of n b) else err unexpected_value
slice2addr l n (tag ∷ xs) = parse_tail l xs

-- decompressAddr; `none` is a panic, that of `xs[1:]` on an empty slice included.
unfoldable pub decompress_addr : Library → Natives → Bytes → Option Address
unfolding native_of
decompress_addr l n [] = none
decompress_addr l n (tag ∷ b ∷ []) = native_of n b
decompress_addr l n (tag ∷ xs) = l.address_parse xs

-- isNull
unfoldable pub is_null : Bytes → Bool
is_null [] = false
is_null (b ∷ []) = b == 0
is_null (b ∷ c ∷ bs) = false

unfoldable pub account_key_prefix : Bytes → Bytes → Bytes
account_key_prefix acct contract = b'a' ∷ acct ++ contract
