-- ===== src/Chain/Payload/Calls.antt =====
-- What ParsePayload reads from the code of one transfer, as the ledger's library builds it.
use ontology_rosetta.Common.{ℕ, ◌≡◌, ◌≢◌, refl, true, false, some, [], ◌∷◌, ◌==◌, arith}
use ontology_rosetta.Common.Bytes.{Bytes, eq_bytes, eq_bytes_ne}
use ontology_rosetta.Common.Int.{pos}
use ontology_rosetta.Common.Result.{ok, ◌>>=◌}
use ontology_rosetta.Common.Text.{codes}
use ontology_rosetta.Services.Ontology.{Address, IsAddress, Library, IsLibrary}
use ontology_rosetta.Chain.Payload.{
  Vm, Executor, Transfer, nil_addr, expect, parse_transfer_fields, parse_transfer, parse_transfers,
  single, app_method, app_contract, parse_app, parse_sys_transfers, sys_method, parse_sys,
  opcode_of, parse_payload,
}
use ontology_rosetta.Chain.Payload.Pointwise.{AreFields-parse}

module _ (vm : Vm) (l : Library) where
  open vm use {Value, Stack}

  -- The three values that a transfer's struct or parameters become on the stack.
  pub record Pushed (from to : Address) (amount : ℕ) : Type 0 where
    pub from_value : Value
    pub to_value : Value
    pub amount_value : Value
    pub from_bytes : vm.as_bytes from_value ≡ some from
    pub to_bytes : vm.as_bytes to_value ≡ some to
    pub amount_int : vm.as_big_int amount_value ≡ some (pos amount)

  -- Code that calls transferV2 of a native contract: the machine stops at the system call, with the
  -- version, the contract, the method and an array of one struct on the stack.
  pub record NativeCall (code : Bytes) (contract from to : Address) (amount : ℕ) : Type 0 where
    pub at_call : Executor Stack
    pub executed : vm.execute code ≡ some at_call
    pub opcode : opcode_of vm l at_call ≡ ok vm.sys_call
    pub version : Bytes
    pub s1 : Stack
    pub s2 : Stack
    pub s3 : Stack
    pub s4 : Stack
    pub pop_version : vm.pop_bytes at_call.stack ≡ some (version, s1)
    pub pop_contract : vm.pop_bytes s1 ≡ some (contract, s2)
    pub pop_method : vm.pop_bytes s2 ≡ some (codes "transferV2", s3)
    pub param : Value
    pub pop_params : vm.pop_array s3 ≡ some (param ∷ [], s4)
    pub fields : Pushed from to amount
    pub struct :
        vm.as_struct param ≡ some (fields.from_value ∷ fields.to_value ∷ fields.amount_value ∷ [])

  -- Code that calls transfer of a NeoVM contract: the machine stops at the call, with the method and
  -- the array of its parameters on the stack; the reader is at the contract.
  pub record NeoCall (code : Bytes) (contract from to : Address) (amount : ℕ) : Type 0 where
    pub at_call : Executor Stack
    pub executed : vm.execute code ≡ some at_call
    pub opcode : opcode_of vm l at_call ≡ ok vm.app_call
    pub read : vm.read_address at_call ≡ some contract
    pub s1 : Stack
    pub s2 : Stack
    pub pop_method : vm.pop_bytes at_call.stack ≡ some (codes "transfer", s1)
    pub fields : Pushed from to amount
    pub pop_params :
        vm.pop_array s1 ≡ some (fields.from_value ∷ fields.to_value ∷ fields.amount_value ∷ [], s2)

  abbrev pub the_transfer : Address → Address → ℕ → Transfer
  the_transfer from to amount = record {
    payer = nil_addr;
    from = from;
    to = to;
    amount = pos amount;
  }

  module _ (lib : IsLibrary l) (contract from to : Address) (amount : ℕ) (lf : IsAddress from)
      (lt : IsAddress to) where
    Pushed-parse :
        (p : Pushed from to amount)
        → parse_transfer_fields vm l (p.from_value ∷ p.to_value ∷ p.amount_value ∷ [])
          ≡ ok (the_transfer from to amount)
    Pushed-parse p =
        AreFields-parse vm l p.from_value p.to_value p.amount_value (the_transfer from to amount)
          (record {
            holds_from = record {
              raw = from;
              bytes_eq = p.from_bytes;
              parse_eq = lib.parse_some from lf;
            };
            holds_to = record { raw = to; bytes_eq = p.to_bytes; parse_eq = lib.parse_some to lt };
            amount_eq = p.amount_int;
          })

    sys_method_ok :
        (code : Bytes) (c : NativeCall code contract from to amount)
        → sys_method vm l (codes "transferV2") c.s3 ≡ ok (the_transfer from to amount ∷ [])
    unfolding sys_method parse_sys_transfers parse_transfers parse_transfer expect eq_bytes
    sys_method_ok code c =
        rw (c.pop_params, ◌>>=◌) (rw (c.struct, ◌>>=◌) (rw (Pushed-parse c.fields, ◌>>=◌) refl))

    -- For a system call the transfer and the contract are read back.
    pub parse_payload-NativeCall :
        vm.app_call ≢ vm.sys_call
        → IsAddress contract
        → (code : Bytes) → NativeCall code contract from to amount
        → parse_payload vm l code ≡ ok (the_transfer from to amount ∷ [], contract)
    unfolding parse_payload parse_sys
    parse_payload-NativeCall ne lc code c =
        let q : (vm.sys_call == vm.app_call) ≡ false = ground (arith, ne) in
        let r : (vm.sys_call == vm.sys_call) ≡ true = ground arith in
        rw (c.executed, ◌>>=◌)
          (rw (c.opcode, ◌>>=◌)
            (rw (q, r)
              (rw (c.pop_version, ◌>>=◌)
                (rw (c.pop_contract, ◌>>=◌)
                  (rw (lib.parse_some contract lc, ◌>>=◌)
                    (rw (c.pop_method, ◌>>=◌) (rw (sys_method_ok code c, ◌>>=◌) refl)))))))

    app_method_ok :
        (p : Pushed from to amount)
        → app_method vm l (codes "transfer") (p.from_value ∷ p.to_value ∷ p.amount_value ∷ [])
          ≡ ok (the_transfer from to amount ∷ [])
    unfolding app_method single expect eq_bytes
    app_method_ok p = rw (Pushed-parse p, ◌>>=◌) refl

    -- For a call of a contract other than nil they are read back too.
    pub parse_payload-NeoCall :
        contract ≢ nil_addr
        → (code : Bytes) → NeoCall code contract from to amount
        → parse_payload vm l code ≡ ok (the_transfer from to amount ∷ [], contract)
    unfolding parse_payload parse_app app_contract
    parse_payload-NeoCall ne code c =
        let r : (vm.app_call == vm.app_call) ≡ true = ground arith in
        rw (c.executed, ◌>>=◌)
          (rw (c.opcode, ◌>>=◌)
            (rw r (
              rw (c.read, ◌>>=◌)
                (rw (eq_bytes_ne contract nil_addr ne, ◌>>=◌)
                  (rw (c.pop_method, ◌>>=◌)
                    (rw (c.pop_params, ◌>>=◌) (rw (app_method_ok c.fields, ◌>>=◌) refl)))))))
