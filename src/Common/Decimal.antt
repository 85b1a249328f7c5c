-- ===== src/Common/Decimal.antt =====
-- Decimal texts as the standard library writes and reads them: big.Int's String and SetString with
-- the base 10, and strconv.ParseInt with 64 bits.
use ontology_rosetta.Common.{
  ℕ, zero, suc, ◌+◌, ◌-◌, ◌*◌, ◌/◌, ◌%◌, ◌≤◌, ◌<◌, ◌≡◌, refl, ◌∙◌, ap, inl, inr, Bool, true, false,
  ◌&&◌, Option, none, some, [], ◌∷◌, arith, ◌==◌, ltb, leb, if◌then◌else◌, Bool-cases,
}
use ontology_rosetta.Common.Int.{ℤ, pos, negsuc, neg_ℤ}
use ontology_rosetta.Common.Text.{Text}

-- The decimal digits of `n` in front of `acc`.
digits_loop : ℕ → ℕ → Text → Text
digits_loop zero n acc = acc
digits_loop (suc f) n acc =
    let rest = digits_loop f (n / 10) ((48 + n % 10) ∷ acc) in if n == 0 then acc else rest

unfoldable pub print_nat : ℕ → Text
unfolding digits_loop
print_nat n = if n == 0 then 48 ∷ [] else digits_loop n n []

-- x.String()
unfoldable pub print_ℤ : ℤ → Text
print_ℤ (pos n) = print_nat n
print_ℤ (negsuc n) = b'-' ∷ print_nat (suc n)

unfoldable pub digit : ℕ → Option ℕ
digit c = if leb 48 c && leb c 57 then some (c - 48) else none

unfoldable pub parse_loop : ℕ → Text → Option ℕ
unfolding digit
parse_loop acc [] = some acc
parse_loop acc (c ∷ cs) =
    let rest = parse_loop (acc * 10 + (c - 48)) cs in elim (digit c) [ none ↦ none | some d ↦ rest ]

-- At least one digit, and digits only.
unfoldable pub parse_nat : Text → Option ℕ
unfolding parse_loop
parse_nat [] = none
parse_nat (c ∷ cs) = parse_loop 0 (c ∷ cs)

unfoldable pub signed : Bool → Option ℕ → Option ℤ
signed minus none = none
signed minus (some n) = some (if minus then neg_ℤ (pos n) else pos n)

-- SetString(s, 10): an optional sign before the digits.
unfoldable pub parse_ℤ : Text → Option ℤ
unfolding signed
parse_ℤ [] = none
parse_ℤ (c ∷ cs) =
    if c == b'-'
    then signed true (parse_nat cs)
    else (if c == b'+' then signed false (parse_nat cs) else signed false (parse_nat (c ∷ cs)))

unfoldable pub in_int64 : ℤ → Option ℤ
in_int64 (pos n) = if ltb n 0x8000_0000_0000_0000 then some (pos n) else none
in_int64 (negsuc n) = if ltb n 0x8000_0000_0000_0000 then some (negsuc n) else none

-- strconv.ParseInt(s, 10, 64)
unfoldable pub parse_int64 : Text → Option ℤ
unfolding in_int64
parse_int64 s = elim (parse_ℤ s) [ none ↦ none | some z ↦ in_int64 z ]

digit-last : (n : ℕ) → digit (48 + n % 10) ≡ some (48 + n % 10 - 48)
unfolding digit
digit-last n = ground arith

digit_step : (n : ℕ) (acc : Text) → parse_loop (n / 10) ((48 + n % 10) ∷ acc) ≡ parse_loop n acc
unfolding parse_loop
digit_step n acc = rw (digit-last n, parse_loop) (ap (λ (m : ℕ). parse_loop m acc) (omega arith))

parse_loop-digits_loop :
    (f n : ℕ) (acc : Text) → n ≤ f → parse_loop 0 (digits_loop f n acc) ≡ parse_loop n acc
unfolding digits_loop
parse_loop-digits_loop zero n acc h = ap (λ (m : ℕ). parse_loop m acc) (omega arith)
parse_loop-digits_loop (suc f) n acc h = elim (Bool-cases (n == 0)) [
  | inl done ↦ rw done (ap (λ (m : ℕ). parse_loop m acc) (ground arith))
  | inr more ↦
      rw more
        (parse_loop-digits_loop f (n / 10) ((48 + n % 10) ∷ acc) (ground arith) ∙ digit_step n acc)
]

record IsDigits (t : Text) : Type 0 where
  first : ℕ
  rest : Text
  text_eq : t ≡ first ∷ rest
  low : 48 ≤ first

digits_loop_zero : (f : ℕ) (acc : Text) → digits_loop f 0 acc ≡ acc
unfolding digits_loop
digits_loop_zero zero acc = refl
digits_loop_zero (suc f) acc = refl

-- The first character of a number's text is a digit.
digits_loop-IsDigits : (f n : ℕ) (acc : Text) → 0 < n → n ≤ f → IsDigits (digits_loop f n acc)
unfolding digits_loop
digits_loop-IsDigits zero n acc p h = absurd (omega arith)
digits_loop-IsDigits (suc f) n acc p h =
    let more : (n == 0) ≡ false = ground arith in
    rw more (elim (Bool-cases (n / 10 == 0)) [
      | inl done ↦
          let q : n / 10 ≡ 0 = ground arith in
          rw (q, digits_loop_zero f ((48 + n % 10) ∷ acc))
            (record { first = 48 + n % 10; rest = acc; text_eq = refl; low = omega arith })
      | inr r ↦ digits_loop-IsDigits f (n / 10) ((48 + n % 10) ∷ acc) (ground arith) (ground arith)
    ])

print_nat-IsDigits : (n : ℕ) → IsDigits (print_nat n)
unfolding print_nat
print_nat-IsDigits n = elim (Bool-cases (n == 0)) [
  | inl done ↦ rw done (record { first = 48; rest = []; text_eq = refl; low = omega arith })
  | inr more ↦ rw more (digits_loop-IsDigits n n [] (ground arith) (omega arith))
]

parse_loop-print_nat : (n : ℕ) → parse_loop 0 (print_nat n) ≡ some n
unfolding print_nat parse_loop digit
parse_loop-print_nat n = elim (Bool-cases (n == 0)) [
  | inl done ↦ let q : n ≡ 0 = ground arith in rw q
  | inr more ↦ rw more (parse_loop-digits_loop n n [] (omega arith))
]

pub parse_nat-print_nat : (n : ℕ) → parse_nat (print_nat n) ≡ some n
unfolding parse_nat
parse_nat-print_nat n =
    let d = print_nat-IsDigits n in
    let e = parse_loop-print_nat n in rw d.text_eq (rw d.text_eq at e)

unsigned : (n : ℕ) → parse_ℤ (print_nat n) ≡ some (pos n)
unfolding parse_ℤ signed
unsigned n =
    let d = print_nat-IsDigits n in
    let e = parse_nat-print_nat n in
    let q : (d.first == b'-') ≡ false = ground (arith, d.low) in
    let r : (d.first == b'+') ≡ false = ground (arith, d.low) in
    rw (d.text_eq, q, r) (rw (rw d.text_eq at e))

pub parse_ℤ-print_ℤ : (z : ℤ) → parse_ℤ (print_ℤ z) ≡ some z
unfolding print_ℤ
parse_ℤ-print_ℤ (pos n) = unsigned n
parse_ℤ-print_ℤ (negsuc n) =
    unfold parse_ℤ in
    unfold signed in rw (parse_nat-print_nat (suc n)) (ap some (unfold neg_ℤ in ground arith))
