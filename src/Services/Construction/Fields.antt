-- ===== src/Services/Construction/Fields.antt =====
-- The metadata of the construction requests: getUint64Field, getPayer, getContract and decodeProtobuf
-- of services/construction_service.go, and hex.EncodeToString.
pub mod Hex
use ontology_rosetta.Common.{
  ℕ, Bool, true, false, not, ◌&&◌, Option, none, some, List, [], ◌∷◌, if◌then◌else◌, ltb, ◌==◌, ◌+◌,
  ◌*◌, ◌/◌, ◌%◌, ◌^◌,
}
use ontology_rosetta.Common.Bytes.{Bytes, eq_bytes}
use ontology_rosetta.Common.Result.{Result, ok, err, ◌>>=◌, or_err}
use ontology_rosetta.Common.Text.{Text, codes}
use ontology_rosetta.Services.Ontology.{Address, Library}
use ontology_rosetta.Services.Errors
use ontology_rosetta.Services.Errors.{Api, wrapped, api}
use ontology_rosetta.Services.Types.{Json, str, num, other, CurrencyInfo}
use ontology_rosetta.Services.Store.{get_currency_info}
use ontology_rosetta.Services.Indexer.Decode.{empty_address, hex_decode}
use ontology_rosetta.Services.Construction.{Ledger, ConstructOptions}

-- defaultGasPrice
abbrev pub default_gas_price : ℕ
default_gas_price = 2500

abbrev pub Metadata : Type 0 → Type 0
Metadata F = List (Text × Json F)

-- `md[field]`; a nil map has no fields.
unfoldable pub field_of : {F : Type 0} → Text → Metadata F → Option (Json F)
field_of name [] = none
field_of name ((k, v) ∷ md) = if eq_bytes k name then some v else field_of name md

unfoldable pub hex_char : ℕ → ℕ
hex_char d = if ltb d 10 then d + 48 else d + 87

-- hex.EncodeToString
unfoldable pub hex_encode : Bytes → Text
unfolding hex_char
hex_encode [] = []
hex_encode (b ∷ bs) = hex_char (b / 16 % 16) ∷ hex_char (b % 16) ∷ hex_encode bs

module _ (g : Ledger) (l : Library) where
  -- The `switch` on the field.
  unfoldable pub check_field : Text → ℕ → Option ℕ
  check_field field v =
      if eq_bytes field (codes "gas_limit")
      then (if v == 0
          then some g.min_gas_limit
          else (if ltb v g.min_gas_limit then none else some v))
      else (if eq_bytes field (codes "gas_price")
          then some default_gas_price
          else (if eq_bytes field (codes "nonce")
              then (if ltb 0xffff_ffff v then none else some v)
              else some v))

  -- getUint64Field; `none` is an error.
  unfoldable pub get_uint64_field : Metadata g.Float → Text → Option ℕ
  unfolding check_field
  get_uint64_field md field = elim (field_of field md) [
    | none ↦ some 0
    | some (num raw) ↦
        if g.differs (g.to_uint64 raw) raw then none else check_field field (g.to_uint64 raw)
    | some (str t) ↦ none
    | some other ↦ none
  ]

  -- getPayer
  unfoldable pub get_payer : Metadata g.Float → Api Address
  get_payer md = elim (field_of (codes "payer") md) [
    | none ↦ ok empty_address
    | some (str raw) ↦ or_err (l.address_from_base58 raw) (wrapped Errors.invalid_payer_address)
    | some (num f) ↦ err (wrapped Errors.invalid_payer_address)
    | some other ↦ err (wrapped Errors.invalid_payer_address)
  ]

  contract_of : List (Address × CurrencyInfo) → Text → Api Text
  contract_of tokens raw = do
    addr ← or_err (l.address_from_hex raw) (wrapped Errors.invalid_contract_address)
    _ ← get_currency_info tokens addr
    ok (l.address_to_hex addr)

  -- getContract
  pub get_contract : List (Address × CurrencyInfo) → Metadata g.Float → Api Text
  unfolding contract_of
  get_contract tokens md = elim (field_of (codes "contract") md) [
    | none ↦ ok []
    | some (str raw) ↦ contract_of tokens raw
    | some (num f) ↦ err (wrapped Errors.invalid_contract_address)
    | some other ↦ err (wrapped Errors.invalid_contract_address)
  ]

  decode_hex : Text → Option ConstructOptions
  decode_hex raw = elim (hex_decode raw) [ none ↦ none | some val ↦ g.unmarshal val ]

  -- decodeProtobuf
  unfoldable pub decode_protobuf : Metadata g.Float → Api ConstructOptions
  unfolding decode_hex
  decode_protobuf md = elim (field_of (codes "protobuf") md) [
    | none ↦ err (wrapped Errors.protobuf)
    | some (str raw) ↦ or_err (decode_hex raw) (wrapped Errors.protobuf)
    | some (num f) ↦ err (wrapped Errors.protobuf)
    | some other ↦ err (wrapped Errors.protobuf)
  ]

  -- The metadata of a response that carries options.
  unfoldable pub encode_protobuf : ConstructOptions → Api (Metadata g.Float)
  encode_protobuf o = do
    enc ← or_err (g.marshal o) (wrapped Errors.protobuf)
    ok ((codes "protobuf", str (hex_encode enc)) ∷ [])
