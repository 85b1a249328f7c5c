-- ===== src/Services/Indexer/Decode.antt =====
-- The transfer that an event tells of: decodeTransfer, checkEvmEventLog and parseEvmOngTransferLog
-- of services/store.go, over the event interface of the ledger.
pub mod Parties
pub mod Runs
use ontology_rosetta.Common.{
  ℕ, zero, suc, ◌+◌, ◌*◌, ◌-◌, ◌/◌, ◌%◌, ◌^◌, Bool, true, false, ◌&&◌, ◌||◌, not, Option, none,
  some, List, [], ◌∷◌, ◌++◌, if◌then◌else◌, ◌==◌, leb,
}
use ontology_rosetta.Common.Bytes.{Bytes, eq_bytes}
use ontology_rosetta.Common.Int.{ℤ, pos, negsuc}
use ontology_rosetta.Common.Result.{Result, ok, err, ◌>>=◌}
use ontology_rosetta.Common.Text.{Text, codes}
use ontology_rosetta.Common.Decimal.{parse_int64}
use ontology_rosetta.Services.Ontology.{Address, Hash, Library}
use ontology_rosetta.Services.Address.{Natives, is_null}
use ontology_rosetta.Services.Indexer.{Xfer}

-- A dynamic value of `evt.States`: a string, a json.Number, a value of another type, or nil.
pub data Elem : Type 0 where
  text number : Text → Elem
  other nil : Elem

-- event.NotifyEventInfo; `states` is `none` when the value is not a slice.
pub record Event : Type 0 where
  pub contract : Address
  pub states : Option (List Elem)

-- ERC20Transfer; the value is a uint256.
pub record Erc20Transfer : Type 0 where
  pub from : Address
  pub to : Address
  pub value : ℕ

-- What the indexer uses of the ledger and of go-ethereum beside the addresses.
pub record Events : Type 1 where
  pub Log : Type 0
  pub log_address : Log → Address
  pub evm_log : Event → Option Log
  pub unpack_transfer : Log → Option Erc20Transfer
  pub eth_address : Text → Address
  pub neo_int : Bytes → ℤ
  pub gwei : ℕ

-- How decoding an event can end the program: log.Fatalf, or a panic.
pub data Halt : Type 0 where
  exits panics : Halt

-- A decoding step; `none` is a logged reason to ignore the event.
abbrev pub Decoding {ℓ} : Type ℓ → Type ℓ
Decoding A = Result Halt (Option A)

abbrev pub continue {ℓ κ} : {A : Type ℓ} {B : Type κ} → Option A → (A → Decoding B) → Decoding B
continue none f = ok none
continue (some a) f = f a

-- `rv.Kind() != reflect.String`: a json.Number is of that kind too. The log line asks for the type
-- of the value, which panics on nil.
pub string_of : Elem → Decoding Text
string_of (text t) = ok (some t)
string_of (number t) = ok (some t)
string_of other = ok none
string_of nil = err panics

pub amount_of : Option ℤ → Decoding ℕ
amount_of none = ok none
amount_of (some (negsuc a)) = err exits
amount_of (some (pos a)) = ok (some a)

-- The steps from `rv.Type() != jsonNumberType` to the test on the sign.
pub int_of : Elem → Decoding ℕ
unfolding amount_of
int_of (number t) = amount_of (parse_int64 t)
int_of (text t) = ok none
int_of other = ok none
int_of nil = err panics

-- `elems[4]`, where there is one.
pub value_of : List Elem → Decoding ℕ
unfolding int_of
value_of [] = ok (some 0)
value_of (e ∷ es) = int_of e

-- The length of `elems` is 4 or 5.
abbrev pub is_short : List Elem → Bool
is_short [] = true
is_short (e ∷ []) = true
is_short (e ∷ f ∷ es) = false

unfoldable pub hex_digit : ℕ → Option ℕ
hex_digit c =
    if leb 48 c && leb c 57
    then some (c - 48)
    else (if leb 97 c && leb c 102
        then some (c - 87)
        else (if leb 65 c && leb c 70 then some (c - 55) else none))

-- hex.DecodeString
unfoldable pub hex_decode : Text → Option Bytes
hex_decode [] = some []
hex_decode (a ∷ []) = none
hex_decode (a ∷ b ∷ t) =
    let rest = hex_decode t in
    elim (hex_digit a) [
      | none ↦ none
      | some x ↦ elim (hex_digit b) [
        | none ↦ none
        | some y ↦ elim rest [ none ↦ none | some bs ↦ some ((x * 16 + y) ∷ bs) ]
      ]
    ]

-- bytes.EqualFold against lower-case letters: either case is equal, and so is the long s, whose
-- two bytes fold to `s`.
equal_fold : Bytes → Bytes → Bool
equal_fold [] [] = true
equal_fold [] (y ∷ ys) = false
equal_fold (x ∷ xs) [] = false
equal_fold (x ∷ []) (y ∷ ys) = (x == y || x + 32 == y) && equal_fold [] ys
equal_fold (x ∷ x' ∷ xs) (y ∷ ys) =
    let one = equal_fold (x' ∷ xs) ys in
    let two = equal_fold xs ys in
    if y == b's' && x == 0xc5 && x' == 0xbf then two else (x == y || x + 32 == y) && one

abbrev zero_bytes : ℕ → Bytes
zero_bytes zero = []
zero_bytes (suc k) = 0 ∷ zero_bytes k

-- common.ADDRESS_EMPTY, the zero value of an address
abbrev pub empty_address : Address
empty_address = zero_bytes 20

module _ (l : Library) (n : Natives) (ev : Events) where
  -- The test that sets isGas, for an amount that is no negative int64.
  pub is_gas_fee : Address → Address → ℕ → ℕ → Bool
  is_gas_fee contract to amount gas = eq_bytes contract n.ong && eq_bytes to n.gov && amount == gas

  -- The part of decodeTransfer for ONT and ONG.
  pub native_transfer : ℕ → Address → Elem → Elem → Elem → Elem → List Elem → Decoding Xfer
  unfolding string_of int_of value_of is_gas_fee
  native_transfer gas contract e0 e1 e2 e3 es = do
    s0 ← string_of e0
    continue s0 (λ method. do
      s1 ← string_of e1
      continue s1 (λ src. do
        s2 ← string_of e2
        continue s2 (λ dst.
            if not (eq_bytes method (codes "transfer"))
            then ok none
            else continue (l.address_from_base58 src) (λ from.
              continue (l.address_from_base58 dst) (λ to. do
                a ← int_of e3
                continue a (λ amount. do
                  v ← value_of es
                  continue v (λ value. ok (
                      some (record {
                        amount = amount * ev.gwei + value;
                        from = from;
                        is_gas = is_gas_fee contract to amount gas;
                        to = to;
                      })))))))))

  -- An element of an OEP4 event; here the log line does not ask for the type.
  pub bytes_of_elem : Elem → Option Bytes
  bytes_of_elem (text t) = hex_decode t
  bytes_of_elem (number t) = hex_decode t
  bytes_of_elem other = none
  bytes_of_elem nil = none

  pub party : Bytes → Option Address
  party b = if is_null b then some empty_address else l.address_parse b

  pub oep4_xfer : Address → Address → ℤ → Option Xfer
  oep4_xfer from to (negsuc a) = none
  oep4_xfer from to (pos a) = some (record { amount = a; from = from; is_gas = false; to = to })

  -- The part of decodeTransfer for the other tokens.
  pub oep4_transfer : Elem → Elem → Elem → Elem → Option Xfer
  unfolding bytes_of_elem equal_fold party oep4_xfer
  oep4_transfer e0 e1 e2 e3 = elim (bytes_of_elem e0) [
    | none ↦ none
    | some b0 ↦ elim (bytes_of_elem e1) [
      | none ↦ none
      | some b1 ↦ elim (bytes_of_elem e2) [
        | none ↦ none
        | some b2 ↦ elim (bytes_of_elem e3) [
          | none ↦ none
          | some b3 ↦ if not (equal_fold b0 (codes "transfer")) then none else (elim (party b1) [
            | none ↦ none
            | some from ↦ elim (party b2) [
              | none ↦ none
              | some to ↦ oep4_xfer from to (ev.neo_int b3)
            ]
          ])
        ]
      ]
    ]
  ]

  pub decode_states : ℕ → Address → List Elem → Decoding Xfer
  unfolding native_transfer oep4_transfer
  decode_states gas contract (e0 ∷ e1 ∷ e2 ∷ e3 ∷ es) =
      if not (is_short es)
      then ok none
      else (if eq_bytes contract n.ont || eq_bytes contract n.ong
          then native_transfer gas contract e0 e1 e2 e3 es
          else ok (oep4_transfer e0 e1 e2 e3))
  decode_states gas contract _ = ok none

  -- decodeTransfer
  pub decode_transfer : ℕ → Event → Decoding Xfer
  unfolding decode_states
  decode_transfer gas e = elim e.states [
    | none ↦ ok none
    | some elems ↦ decode_states gas e.contract elems
  ]

  pub evm_xfer : ℕ → Option Erc20Transfer → Option Xfer
  evm_xfer gas none = none
  evm_xfer gas (some tf) = some (record {
    amount = tf.value;
    from = tf.from;
    is_gas =
        eq_bytes tf.to (ev.eth_address (codes "0x0000000000000000000000000000000000000007"))
        && (tf.value % 2 ^ 64) / ev.gwei == gas;
    to = tf.to;
  })

  -- parseEvmOngTransferLog
  pub parse_evm : ℕ → ev.Log → Option Xfer
  unfolding evm_xfer
  parse_evm gas log =
      if eq_bytes (ev.log_address log)
        (ev.eth_address (codes "0x0000000000000000000000000000000000000002"))
      then evm_xfer gas (ev.unpack_transfer log)
      else none

  -- The choice of IndexBlocks between the two decoders, by checkEvmEventLog.
  pub decode_event : ℕ → Event → Decoding Xfer
  decode_event gas e = elim (ev.evm_log e) [
    | some log ↦ ok (parse_evm gas log)
    | none ↦ decode_transfer gas e
  ]
