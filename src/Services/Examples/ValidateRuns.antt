-- ===== src/Services/Examples/ValidateRuns.antt =====
-- Validate on two blocks of the example chain, against a node that has the same balances or others.
use ontology_rosetta.Common.{ℕ, ◌≡◌, refl, ◌↔◌, some, [], ◌∷◌, ◌++◌, List, arith, if◌then◌else◌}
use ontology_rosetta.Common.Bytes.{Bytes, eq_bytes, has_prefix}
use ontology_rosetta.Common.Big.{bytes_of, bytes_of_nat, set_bytes}
use ontology_rosetta.Common.Int.{pos, eq_ℤ}
use ontology_rosetta.Common.Result.{ok, err}
use ontology_rosetta.Common.Text.{Text, codes}
use ontology_rosetta.Lexinum.Encode.{form, small_form}
use ontology_rosetta.Chain.Balance.{Execution, native_balance_of, native_exec, run_mut, amount_in}
use ontology_rosetta.Services.Ontology.{Address, IsAddress}
use ontology_rosetta.Services.Address.{addr2slice, account_key_prefix, decompress_addr}
use ontology_rosetta.Services.Indexer.Decode.{hex_decode, hex_digit}
use ontology_rosetta.Services.Examples.Disk.{find, best, lt_bytes}
use ontology_rosetta.Services.Store.{Store, get_height}
use ontology_rosetta.Services.Store.Listed.{chain_keys}
use ontology_rosetta.Services.Store.History.{total}
use ontology_rosetta.Services.Account.Historic.{prefix_of}
use ontology_rosetta.Services.Validate.{
  AccountInfo, fatal, validate, collect, read_key, put_found, part_end, byte_at, slice_to, info_at,
  check_balances, check_balance, balance_in, differs,
}
use ontology_rosetta.Services.Validate.Compare.{Agrees, Ends}
use ontology_rosetta.Services.Validate.Agrees.{validate-IsIndexed}
use ontology_rosetta.Services.Examples.Healthy.{disk, cell, get_cell, disk-IsHealthy}
use ontology_rosetta.Services.Examples.Names.{of_length, names, names-IsLibrary, natives, address}
use ontology_rosetta.Services.Examples.Codec.{codec}
use ontology_rosetta.Services.Examples.Chain.{chain, solvent, chain-IsChain, ont_prefix}
use ontology_rosetta.Services.Examples.OpenRuns.{two_blocks}

-- A node on which the account 9 has `nine`, in hex, and each other 30 ONT.
abbrev node : Text → Execution
node nine = record {
  Mut = Address;
  Txn = Address;
  new_neovm = λ contract method acct. some acct;
  new_native = λ contract method acct. some acct;
  into_immutable = λ acct. some acct;
  pre_execute =
      λ acct. some (some (if eq_bytes acct (address 9) then nine else codes "06fc23ac00"));
  int_of_neo = λ v. pos (set_bytes v);
}

-- The entries of the accounts behind the second block.
abbrev stored : Store disk
stored = record {
  db =
      (ont_prefix 9 ++ form 0, bytes_of (pos 100_000_000_000))
      ∷ (ont_prefix 9 ++ form 1, bytes_of (pos 70_000_000_000))
      ∷ (ont_prefix 8 ++ form 1, bytes_of (pos 30_000_000_000))
      ∷ [];
  height_indexed = some 1;
  height_synced = some 1;
  tokens = [];
}

same_balances : validate names natives disk (node (codes "104c533c00")) 4 stored 1 ≡ ok []
unfolding validate get_height collect read_key put_found part_end byte_at slice_to info_at
    decompress_addr check_balances check_balance balance_in differs native_balance_of native_exec
    run_mut amount_in hex_decode has_prefix eq_bytes account_key_prefix addr2slice eq_ℤ form
    small_form bytes_of set_bytes find cell get_cell best lt_bytes of_length hex_digit bytes_of_nat
same_balances = refl

other_balance : validate names natives disk (node (codes "104c533c01")) 4 stored 1 ≡ err fatal
unfolding validate get_height collect read_key put_found part_end byte_at slice_to info_at
    decompress_addr check_balances check_balance balance_in differs native_balance_of native_exec
    run_mut amount_in hex_decode has_prefix eq_bytes account_key_prefix addr2slice eq_ℤ form
    small_form bytes_of set_bytes find cell get_cell best lt_bytes of_length hex_digit bytes_of_nat
other_balance = refl

other_height : validate names natives disk (node (codes "104c533c00")) 4 stored 2 ≡ err fatal
unfolding validate get_height collect read_key put_found part_end byte_at slice_to info_at
    decompress_addr check_balances check_balance balance_in differs native_balance_of native_exec
    run_mut amount_in hex_decode has_prefix eq_bytes account_key_prefix addr2slice eq_ℤ form
    small_form bytes_of set_bytes find cell get_cell best lt_bytes of_length hex_digit bytes_of_nat
other_height = refl

validate-IsIndexed_example :
    Ends disk disk-IsHealthy natives names names-IsLibrary
      (node (codes "104c533c00"))
      (validate names natives disk (node (codes "104c533c00")) 4 two_blocks.0 1)
    × (((ws : List AccountInfo) × (validate names natives disk
              (node (codes "104c533c00"))
              4
              two_blocks.0
              1
            ≡ ok ws))
        ↔ ((a c : Address)
            → IsAddress a
            → IsAddress c
            → (h : ℕ) (v : Bytes)
            → disk-IsHealthy.view (two_blocks.0).db (prefix_of natives a c ++ form h) ≡ some v
            → Agrees disk disk-IsHealthy natives names names-IsLibrary
                (node (codes "104c533c00"))
                a
                c
                (total chain (prefix_of natives a c) 2)))
unfolding chain_keys
validate-IsIndexed_example =
    validate-IsIndexed disk disk-IsHealthy natives names names-IsLibrary (node (codes "104c533c00"))
      chain chain-IsChain codec two_blocks.0 1 4 two_blocks.1 two_blocks.2 (omega arith)
      (λ q iq j lj. solvent q j) (omega arith)
