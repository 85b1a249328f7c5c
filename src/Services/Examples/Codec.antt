-- ===== src/Services/Examples/Codec.antt =====
-- A concrete encoding of blocks that is read back.
use ontology_rosetta.Common.{
  ℕ, zero, suc, ◌≡◌, refl, ap, ◌∙◌, Bool, true, false, Option, none, some, List, [], ◌∷◌, length,
}
use ontology_rosetta.Common.Bytes.{Bytes}
use ontology_rosetta.Services.Types.{Transfer, Transaction, Block}
use ontology_rosetta.Services.Badger.{Proto, IsProto}
use mathlib.Core.Option

-- Parsers, with what they leave.
abbrev Parser {ℓ} : Type ℓ → Type ℓ
Parser A = Bytes → Option (A × Bytes)

abbrev continue : {A B : Type 0} → Option (A × Bytes) → (A → Parser B) → Option (B × Bytes)
continue none f = none
continue (some (a, t)) f = f a t

infixl 5 ◌>>=◌
abbrev ◌>>=◌ : {A B : Type 0} → Parser A → (A → Parser B) → Parser B
◌>>=◌ m f s = continue (m s) f

bind_eq :
    {A B : Type 0} (f : A → Parser B) {r : Option (A × Bytes)} {a : A} {t : Bytes}
    → r ≡ some (a, t)
    → continue r f ≡ f a t
bind_eq f e = ap (λ r. continue r f) e

abbrev pure : {A : Type 0} → A → Parser A
pure a s = some (a, s)

number : Parser ℕ
number [] = none
number (x ∷ s) = some (x, s)

flag : Parser Bool
flag [] = none
flag (zero ∷ s) = some (false, s)
flag (suc x ∷ s) = some (true, s)

-- `n` items.
many : {A : Type 0} → Parser A → ℕ → Parser (List A)
many p zero = pure []
many p (suc n) = p >>= λ x. many p n >>= λ xs. pure (x ∷ xs)

counted : {A : Type 0} → Parser A → Parser (List A)
counted p = number >>= λ n. many p n

transfer : Parser Transfer
transfer = do
  amount ← counted number
  contract ← counted number
  from ← counted number
  is_gas ← flag
  to ← counted number
  pure (record { amount = amount; contract = contract; from = from; is_gas = is_gas; to = to })

transaction : Parser Transaction
transaction = do
  failed ← flag
  hash ← counted number
  transfers ← counted transfer
  pure (record { failed = failed; hash = hash; transfers = transfers })

block : Parser Block
block = do
  timestamp ← number
  transactions ← counted transaction
  pure (record { timestamp = timestamp; transactions = transactions })

-- The printers, in front of what follows.
print_number : ℕ → Bytes → Bytes
print_number x s = x ∷ s

print_flag : Bool → Bytes → Bytes
print_flag false s = 0 ∷ s
print_flag true s = 1 ∷ s

print_many : {A : Type 0} → (A → Bytes → Bytes) → List A → Bytes → Bytes
print_many f [] s = s
print_many f (x ∷ xs) s = f x (print_many f xs s)

print_counted : {A : Type 0} → (A → Bytes → Bytes) → List A → Bytes → Bytes
print_counted f xs s = length xs ∷ print_many f xs s

print_transfer : Transfer → Bytes → Bytes
print_transfer t s = print_counted print_number t.amount (
    print_counted print_number t.contract
      (print_counted print_number t.from (print_flag t.is_gas (print_counted print_number t.to s))))

print_transaction : Transaction → Bytes → Bytes
print_transaction t s =
    print_flag t.failed
      (print_counted print_number t.hash (print_counted print_transfer t.transfers s))

print_block : Block → Bytes → Bytes
print_block x s = print_number x.timestamp (print_counted print_transaction x.transactions s)

abbrev Reads : {A : Type 0} → Parser A → (A → Bytes → Bytes) → Type 0
Reads {A} p f = (x : A) (s : Bytes) → p (f x s) ≡ some (x, s)

many-Reads :
    {A : Type 0} (p : Parser A) (f : A → Bytes → Bytes)
    → Reads p f
    → (xs : List A) (s : Bytes) → many p (length xs) (print_many f xs s) ≡ some (xs, s)
unfolding many print_many
many-Reads p f h [] s = refl
many-Reads p f h (x ∷ xs) s =
    bind_eq _ (h x (print_many f xs s)) ∙ bind_eq _ (many-Reads p f h xs s)

counted-Reads :
    {A : Type 0} (p : Parser A) (f : A → Bytes → Bytes)
    → Reads p f
    → Reads (counted p) (print_counted f)
unfolding counted print_counted number
counted-Reads p f h xs s = many-Reads p f h xs s

number-Reads : Reads number print_number
unfolding number print_number
number-Reads x s = refl

flag-Reads : Reads flag print_flag
unfolding flag print_flag
flag-Reads false s = refl
flag-Reads true s = refl

bytes-Reads : Reads (counted number) (print_counted print_number)
bytes-Reads = counted-Reads number print_number number-Reads

transfer-Reads : Reads transfer print_transfer
unfolding transfer print_transfer
transfer-Reads t s =
    bind_eq _ (bytes-Reads t.amount _)
    ∙ bind_eq _ (bytes-Reads t.contract _)
    ∙ bind_eq _ (bytes-Reads t.from _)
    ∙ bind_eq _ (flag-Reads t.is_gas _)
    ∙ bind_eq _ (bytes-Reads t.to s)

transaction-Reads : Reads transaction print_transaction
unfolding transaction print_transaction
transaction-Reads t s =
    bind_eq _ (flag-Reads t.failed _)
    ∙ bind_eq _ (bytes-Reads t.hash _)
    ∙ bind_eq _ (counted-Reads transfer print_transfer transfer-Reads t.transfers s)

block-Reads : Reads block print_block
unfolding block print_block
block-Reads x s =
    bind_eq _ (number-Reads x.timestamp _)
    ∙ bind_eq _ (counted-Reads transaction print_transaction transaction-Reads x.transactions s)

pub unmarshal : Bytes → Option Block
unmarshal s = Option.map (λ (r : Block × Bytes). r.0) (block s)

pub marshal : Block → Option Bytes
marshal x = some (print_block x [])

abbrev pub codec : Proto
codec = record { marshal = marshal; unmarshal = unmarshal }

pub codec-IsProto : IsProto codec
unfolding marshal unmarshal
codec-IsProto = record {
  unmarshal-marshal = λ x.
      (print_block x [], refl, ap (Option.map (λ (r : Block × Bytes). r.0)) (block-Reads x []));
}
