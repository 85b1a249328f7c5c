-- ===== src/Chain/Payload.antt =====
-- ParsePayload of chain/payload.go and the functions that it calls, over the interface of the NeoVM.
pub mod Pointwise
pub mod Calls
pub mod Total
use ontology_rosetta.Common.{
  ℕ, zero, suc, ◌-◌, Bool, true, false, not, Option, none, some, List, [], ◌∷◌, if◌then◌else◌,
  length, ◌==◌, ◌||◌,
}
use ontology_rosetta.Common.Bytes.{Bytes, eq_bytes}
use ontology_rosetta.Common.Int.{ℤ}
use ontology_rosetta.Common.Result.{Result, ok, err, ◌>>=◌, or_err}
use ontology_rosetta.Common.Text.{Text, codes}
use ontology_rosetta.Services.Ontology.{Address, Library}

-- A parser that fails returns an error, which its callers pass on, or panics on an index.
pub data Fault : Type 0 where
  failed bad_index : Fault

abbrev pub Parse {ℓ} : Type ℓ → Type ℓ
Parse A = Result Fault A

-- neovm.Executor after Execute: the code, the position of its reader and the stack.
pub record Executor (Stack : Type 0) : Type 0 where
  pub code : Bytes
  pub position : ℕ
  pub stack : Stack

-- What the package uses of the NeoVM. `execute` is `none` where Execute does not end with
-- ERR_NOT_SUPPORT_OPCODE; `read_address` fills an address from the reader; a pop of a value that
-- does not convert is an error, as are the conversions.
pub record Vm : Type 1 where
  pub Value : Type 0
  pub Stack : Type 0
  pub execute : Bytes → Option (Executor Stack)
  pub read_address : Executor Stack → Option Address
  pub pop_bytes : Stack → Option (Bytes × Stack)
  pub pop_array : Stack → Option (List Value × Stack)
  pub pop_struct : Stack → Option (List Value × Stack)
  pub as_bytes : Value → Option Bytes
  pub as_big_int : Value → Option ℤ
  pub as_array : Value → Option (List Value)
  pub as_struct : Value → Option (List Value)
  pub app_call : ℕ
  pub sys_call : ℕ

-- Transfer
pub record Transfer : Type 0 where
  pub payer : Address
  pub from : Address
  pub to : Address
  pub amount : ℤ

-- nilAddr
abbrev pub nil_addr : Address
nil_addr = 0 ∷ 0 ∷ 0 ∷ 0 ∷ 0 ∷ 0 ∷ 0 ∷ 0 ∷ 0 ∷ 0 ∷ 0 ∷ 0 ∷ 0 ∷ 0 ∷ 0 ∷ 0 ∷ 0 ∷ 0 ∷ 0 ∷ 0 ∷ []

-- `xs[i]`
unfoldable pub at {ℓ} : {A : Type ℓ} → List A → ℕ → Parse A
at [] i = err bad_index
at (x ∷ xs) zero = ok x
at (x ∷ xs) (suc i) = at xs i

-- `xs[1:]`
pub tail {ℓ} : {A : Type ℓ} → List A → Parse (List A)
tail [] = err bad_index
tail (x ∷ xs) = ok xs

-- The test of a length.
pub expect : Bool → Parse (Unit {0})
expect true = ok tt
expect false = err failed

module _ (vm : Vm) (l : Library) where
  open vm use {Value, Stack}

  -- The bytes of a field, as an address.
  pub address_field : Value → Parse Address
  address_field v = do raw ← or_err (vm.as_bytes v) failed; or_err (l.address_parse raw) failed

  pub parse_transfer_fields : List Value → Parse Transfer
  unfolding at address_field
  parse_transfer_fields fields = do
    v0 ← at fields 0
    from ← address_field v0
    v1 ← at fields 1
    to ← address_field v1
    v2 ← at fields 2
    amount ← or_err (vm.as_big_int v2) failed
    ok (record { payer = nil_addr; from = from; to = to; amount = amount })

  pub parse_transfer_from_fields : List Value → Parse Transfer
  unfolding at tail address_field parse_transfer_fields
  parse_transfer_from_fields fields = do
    v0 ← at fields 0
    payer ← address_field v0
    rest ← tail fields
    xfer ← parse_transfer_fields rest
    ok (record xfer { payer = payer })

  -- One round of the loop of parseTransfers.
  pub parse_transfer : Value → Parse Transfer
  unfolding expect
  parse_transfer v = do
    fields ← or_err (vm.as_struct v) failed
    _ ← expect (length fields == 3)
    parse_transfer_fields fields

  pub parse_transfers : List Value → Parse (List Transfer)
  parse_transfers [] = ok []
  parse_transfers (v ∷ vs) = do
    xfer ← parse_transfer v
    xfers ← parse_transfers vs
    ok (xfer ∷ xfers)

  pub parse_app_transfer_multi : List Value → Parse (List Transfer)
  unfolding at
  parse_app_transfer_multi params = do
    v ← at params 0
    xs ← or_err (vm.as_array v) failed
    parse_transfers xs

  single : Parse Transfer → Parse (List Transfer)
  single p = p >>= λ xfer. ok (xfer ∷ [])

  -- The `switch` of parseApp on the method.
  pub app_method : Bytes → List Value → Parse (List Transfer)
  unfolding expect single
  app_method meth params =
      if eq_bytes meth (codes "transfer")
      then expect (length params == 3) >>= (λ _. single (parse_transfer_fields params))
      else (if eq_bytes meth (codes "transferFrom")
          then expect (length params == 4) >>= (λ _. single (parse_transfer_from_fields params))
          else (if eq_bytes meth (codes "transferMulti")
              then expect (length params == 1) >>= (λ _. parse_app_transfer_multi params)
              else err failed))

  -- The contract of parseApp: that of the reader, or of the stack where that one is nil.
  pub app_contract : Address → Stack → Parse (Address × Stack)
  app_contract contract s =
      if eq_bytes contract nil_addr
      then (do
        (raw, s') ← or_err (vm.pop_bytes s) failed
        contract' ← or_err (l.address_parse raw) failed
        ok (contract', s'))
      else ok (contract, s)

  pub parse_app : Executor Stack → Parse (List Transfer × Address)
  unfolding app_contract app_method
  parse_app e = do
    read ← or_err (vm.read_address e) failed
    (contract, s) ← app_contract read e.stack
    (meth, s1) ← or_err (vm.pop_bytes s) failed
    (params, _) ← or_err (vm.pop_array s1) failed
    xfers ← app_method meth params
    ok (xfers, contract)

  pub parse_sys_transfers : Stack → Parse (List Transfer)
  parse_sys_transfers s = do (xs, _) ← or_err (vm.pop_array s) failed; parse_transfers xs

  pub parse_sys_transfer_from : Stack → Parse Transfer
  unfolding expect
  parse_sys_transfer_from s = do
    (xs, _) ← or_err (vm.pop_struct s) failed
    _ ← expect (length xs == 4)
    parse_transfer_from_fields xs

  -- The `switch` of parseSys on the method.
  pub sys_method : Bytes → Stack → Parse (List Transfer)
  unfolding single
  sys_method meth s =
      if eq_bytes meth (codes "transfer") || eq_bytes meth (codes "transferV2")
      then parse_sys_transfers s
      else (if eq_bytes meth (codes "transferFrom") || eq_bytes meth (codes "transferFromV2")
          then single (parse_sys_transfer_from s)
          else err failed)

  pub parse_sys : Stack → Parse (List Transfer × Address)
  unfolding sys_method
  parse_sys s = do
    (_, s1) ← or_err (vm.pop_bytes s) failed
    (raw, s2) ← or_err (vm.pop_bytes s1) failed
    contract ← or_err (l.address_parse raw) failed
    (meth, s3) ← or_err (vm.pop_bytes s2) failed
    xfers ← sys_method meth s3
    ok (xfers, contract)

  -- `e.Context.Code[e.Context.OpReader.Position()-1]`
  unfoldable pub opcode_of : Executor Stack → Parse ℕ
  unfolding at
  opcode_of e = elim e.position [ zero ↦ err bad_index | suc p ↦ at e.code p ]

  pub parse_payload : Bytes → Parse (List Transfer × Address)
  unfolding opcode_of
  parse_payload code = do
    e ← or_err (vm.execute code) failed
    opcode ← opcode_of e
    if opcode == vm.app_call
        then parse_app e
        else (if opcode == vm.sys_call then parse_sys e.stack else err failed)
