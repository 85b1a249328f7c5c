-- ===== src/Lexinum.antt =====
-- lexinum/lexinum.go: the encoding of block heights whose byte order is the order of the numbers.
-- A `uint32` is a number below 2 ^ 32 with its wrap-around written out; a `byte` is below 256.
pub mod Digits
pub mod Encode
pub mod RoundTrip
pub mod Order
mod Runs
use ontology_rosetta.Common.{
  ℕ, zero, suc, ◌+◌, ◌-◌, ◌*◌, ◌/◌, ◌%◌, ◌^◌, ◌<◌, Option, none, some, List, [], ◌∷◌, ◌++◌, ltb,
  leb, ◌==◌, if◌then◌else◌, length, get_or, Bool, true, false,
}
use ontology_rosetta.Common.Bytes.{Bytes}
use mathlib.Core.List.{reverse}

abbrev pub max_small : ℕ
max_small = 8258175

abbrev pub IsU32 : ℕ → Type 0
IsU32 v = v < 2 ^ 32

-- The result of a Go function that returns an error beside its value; the messages are told apart.
pub data Decoded : Type 0 where
  height : ℕ → Decoded
  invalid_encoding invalid_first_byte : Decoded

-- The loop over `d[2:]`. The list is what the loop has not reached, `i` its index, `len` the length
-- of `d`, so the test `i != len(d) - 4` is `i + 4 != len`; `d[i+3]` is then the byte after `char`.
pub decode_loop : ℕ → Bytes → ℕ → ℕ → Decoded
decode_loop len [] i v = height ((v * 255 % 2 ^ 32 + 0 + max_small) % 2 ^ 32)
decode_loop len (char ∷ rest) i v =
    let next =
      decode_loop len rest (i + 1) ((v + (v * 252 % 2 ^ 32 + (char + 254) % 256)) % 2 ^ 32) in
    if char == 1
    then (if i + 4 == len
        then height ((v * 255 % 2 ^ 32 + get_or rest 0 0 + max_small) % 2 ^ 32)
        else invalid_encoding)
    else next

-- DecodeHeight; the patterns are the tests on `len(d)`. A byte decrement wraps at 256.
pub decode_height : Bytes → Decoded
decode_height [] = invalid_encoding
decode_height (a ∷ []) = invalid_encoding
decode_height (a ∷ b ∷ []) =
    if ltb a 0x80
    then invalid_first_byte
    else (if a == 0xff then decode_loop 2 [] 0 0 else invalid_encoding)
decode_height (a ∷ b ∷ c ∷ rest) =
    if ltb a 0x80
    then invalid_first_byte
    else (if a == 0xff
        then decode_loop (length (a ∷ b ∷ c ∷ rest)) (c ∷ rest) 0 0
        else height (
            ((((a + 128) % 256 * 255 + (b + 255) % 256) % 2 ^ 32) * 255 + (c + 255) % 256)
            % 2 ^ 32))

-- The loop of `pow`: `b` loses a bit in each round, so 32 rounds are enough for a uint32.
pow_loop : ℕ → ℕ → ℕ → ℕ → ℕ
pow_loop zero n a b = n
pow_loop (suc f) n a b =
    let rest = pow_loop f (if b % 2 == 0 then n else n * a % 2 ^ 32) (a * a % 2 ^ 32) (b / 2) in
    if b == 0 then n else rest

pub pow : ℕ → ℕ → ℕ
unfolding pow_loop
pow a b = pow_loop 32 1 a b

-- `for lead/pow(253, n) > 0 { n++ }`; `none` means that the fuel ran out.
count_loop : ℕ → ℕ → ℕ → Option ℕ
count_loop zero lead n = none
count_loop (suc f) lead n =
    let more = count_loop f lead ((n + 1) % 2 ^ 32) in
    if ltb 0 (lead / pow 253 n) then more else some n

-- `for { if lead == 0 { break }; ...; chars = append(chars, byte(mod+2)) }`
chars_loop : ℕ → ℕ → Bytes → Option Bytes
chars_loop zero lead chars = none
chars_loop (suc f) lead chars =
    let more = chars_loop f (lead / 253) (chars ++ ((lead % 253 + 2) % 256 ∷ [])) in
    if lead == 0 then some chars else more

-- The part of EncodeHeight below "Handle small integers".
pub encode_small : ℕ → Bytes
encode_small v =
    let div = v / 255 in
    let c = (v % 255 + 1) % 256 in
    let div' = div / 255 in
    let b = (div % 255 + 1) % 256 in
    if ltb 0 div
    then (if ltb 0 div' then (div' + 128) % 256 ∷ b ∷ c ∷ [] else 0x80 ∷ b ∷ c ∷ [])
    else 0x80 ∷ 0x01 ∷ c ∷ []

pub suffix : ℕ → Bytes
suffix rem = if ltb 0 rem then 0x01 ∷ rem % 256 ∷ [] else []

-- The part below "Handle big integers", for `v` less `maxSmall`. Both loops end within the fuel.
pub encode_big : ℕ → ℕ → Option Bytes
encode_big fuel v = elim (count_loop fuel (v / 255) 1) [
  | none ↦ none
  | some n ↦ elim (chars_loop fuel (v / 255) []) [
    | none ↦ none
    | some chars ↦ some ((0xff ∷ (n % 256 + 1) % 256 ∷ reverse chars) ++ suffix (v % 255))
  ]
]

-- EncodeHeight
pub encode_height : ℕ → Option Bytes
encode_height v =
    if v == 0
    then some (0x80 ∷ 0x01 ∷ 0x01 ∷ [])
    else (if ltb v max_small then some (encode_small v) else encode_big 5 (v - max_small))
