-- ===== src/Services/Examples/Signing.antt =====
-- A ledger with one transfer, to the account `r`, its two transactions, without and with a signature,
-- and a machine that runs its code.
use ontology_rosetta.Common.{
  ℕ, Bool, true, false, not, ◌&&◌, Option, none, some, List, [], ◌∷◌, ◌==◌, if◌then◌else◌,
}
use ontology_rosetta.Common.Bytes.{Bytes, eq_bytes}
use ontology_rosetta.Common.Int.{ℤ, pos, negsuc}
use ontology_rosetta.Common.Text.{codes}
use ontology_rosetta.Chain.Payload.{Vm, Executor}
use ontology_rosetta.Services.Ontology.{Address}
use ontology_rosetta.Services.Operations.{TransferInfo, Operation, operation_of, op_transfer}
use ontology_rosetta.Services.Construction.{
  ConstructOptions, Ledger, Mutable, InvokeKind, invoke_neo, invoke_wasm,
}
use ontology_rosetta.Services.Construction.Wire.{Wire, invoke, Sig}
use ontology_rosetta.Services.Examples.Names.{names, natives, address}
use ontology_rosetta.Services.Examples.Chain.{hash_at, ont_info}

pub data Tx : Type 0 where
  unsigned signed : Tx

abbrev pub is_neo : InvokeKind → Bool
is_neo invoke_neo = true
is_neo invoke_wasm = false

abbrev pub the_key : Bytes
the_key = hash_at 1

unfoldable pub own_keys : List Bytes → Bool
own_keys (k ∷ []) = eq_bytes k the_key
own_keys _ = false

-- A transaction is signed by one signature with this key.
unfoldable pub is_own : List Sig → Bool
unfolding own_keys
is_own (s ∷ []) = own_keys s.keys
is_own _ = false

-- The values on the machine's stack: bytes, numbers, and the struct of a transfer.
pub data Item : Type 0 where
  raw : Bytes → Item
  int : ℤ → Item
  xfer : Address → Address → ℕ → Item

pub data Frame : Type 0 where
  one : Item → Frame
  many : List Item → Frame

abbrev pop_raw : List Frame → Option (Bytes × List Frame)
pop_raw (one (raw b) ∷ s) = some (b, s)
pop_raw _ = none

abbrev pop_many : List Frame → Option (List Item × List Frame)
pop_many (many vs ∷ s) = some (vs, s)
pop_many _ = none

module _ (r : ℕ) where
  abbrev pub options : ConstructOptions
  options = record {
    amount = 30 ∷ [];
    contract = natives.ont;
    from = address 9;
    gas_limit = 20000;
    gas_price = 2500;
    nonce = 5;
    payer = address 9;
    to = address r;
  }

  abbrev pub code : Bytes
  code = 7 ∷ []

  unfoldable pub is_made : Mutable → Bool
  is_made m =
      (m.gas_limit == 20000 && m.gas_price == 2500)
      && ((m.nonce == 5 && eq_bytes m.payer (address 9))
          && (eq_bytes m.code (7 ∷ []) && is_neo m.kind))

  abbrev pub the_mutable : Mutable
  the_mutable = record {
    gas_limit = 20000;
    gas_price = 2500;
    nonce = 5;
    payer = address 9;
    code = 7 ∷ [];
    kind = invoke_neo;
  }

  unfoldable pub is_call : Address → Address → Address → ℕ → Bool
  is_call contract from to amount =
      (eq_bytes contract natives.ont && eq_bytes from (address 9))
      && (eq_bytes to (address r) && amount == 30)

  abbrev pub ledger : Ledger
  ledger = record {
    Txn = Tx;
    Float = ℕ;
    build_native =
        λ contract from to amount. if is_call contract from to amount then some code else none;
    build_wasm = λ contract from to amount. none;
    build_neo = λ contract from to amount. none;
    into_immutable = λ m. if is_made m then some unsigned else none;
    txn_hash = λ t. hash_at 3;
    txn_payer = λ t. address 9;
    serialize = λ t. elim t [ unsigned ↦ 1 ∷ [] | signed ↦ 2 ∷ [] ];
    min_gas_limit = 20000;
    marshal = λ o. none;
    unmarshal = λ e. some options;
    to_uint64 = λ x. x;
    differs = λ v x. not (v == x);
  }

  abbrev pub of_byte : Bytes → Option (Option Tx)
  of_byte [] = none
  of_byte (b ∷ bs) = some (if b == 1 then some unsigned else some signed)

  abbrev pub wire : Wire ledger
  wire = record {
    Mut = List Sig;
    RawSig = Unit {0};
    from_raw = of_byte;
    payload = λ t. invoke code;
    gas_limit = λ t. 20000;
    gas_price = λ t. 2500;
    nonce = λ t. 5;
    raw_sigs = λ t. elim t [ unsigned ↦ [] | signed ↦ tt ∷ [] ];
    get_sig = λ s. some (the_key ∷ []);
    into_mutable = λ t. elim t [ unsigned ↦ some [] | signed ↦ none ];
    mut_sigs = λ m. m;
    mut_hash = λ m. hash_at 3;
    with_sigs = λ m ss. ss;
    seal = λ m. if is_own m then some signed else none;
    address_from_key = λ k. address 9;
    edwards25519 = codes "edwards25519";
    ed25519 = codes "ed25519";
    verify = λ key message signature. true;
    serialize_sig = λ s. some s;
    append_to_pool = λ t. true;
  }

  abbrev pub at_syscall : Executor (List Frame)
  at_syscall = record {
    code = 0x68 ∷ [];
    position = 1;
    stack =
        one (raw (0 ∷ []))
        ∷ one (raw natives.ont)
        ∷ one (raw (codes "transferV2"))
        ∷ many (xfer (address 9) (address r) 30 ∷ [])
        ∷ [];
  }

  abbrev pub machine : Vm
  machine = record {
    Value = Item;
    Stack = List Frame;
    execute = λ c. some at_syscall;
    read_address = λ e. none;
    pop_bytes = pop_raw;
    pop_array = pop_many;
    pop_struct = pop_many;
    as_bytes = λ v. elim v [ raw b ↦ some b | int z ↦ none | xfer f t a ↦ none ];
    as_big_int = λ v. elim v [ raw b ↦ none | int z ↦ some z | xfer f t a ↦ none ];
    as_array = λ v. none;
    as_struct = λ v. elim v [
      | raw b ↦ none
      | int z ↦ none
      | xfer f t a ↦ some (raw f ∷ raw t ∷ int (pos a) ∷ [])
    ];
    app_call = 0x67;
    sys_call = 0x68;
  }

  abbrev pub sent : TransferInfo
  sent = record {
    amount = pos 30;
    contract = natives.ont;
    currency = ont_info.currency;
    from = address 9;
    is_gas = false;
    to = address r;
  }

  unfoldable pub sent_ops : List (Option Operation)
  unfolding operation_of
  sent_ops =
      some (operation_of names natives sent (address 9) (negsuc 29) 0 [] false op_transfer)
      ∷ some (
          operation_of names natives sent (address r) (pos 30) 1 (some (pos 0) ∷ []) false
            op_transfer)
      ∷ []
