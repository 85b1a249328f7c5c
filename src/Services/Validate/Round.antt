-- ===== src/Services/Validate/Round.antt =====
-- One round of the loop of Validate over the keys, at the key of an account.
use ontology_rosetta.Common.{
  ℕ, suc, ◌≡◌, refl, true, Option, none, some, List, [], ◌∷◌, ◌++◌, arith, if◌then◌else◌,
}
use ontology_rosetta.Common.Bytes.{Bytes, has_prefix, eq_bytes}
use ontology_rosetta.Common.Result.{ok, ◌>>=◌}
use ontology_rosetta.Services.Ontology.{Address, Library, IsLibrary, IsAddress}
use ontology_rosetta.Services.Address.{Natives, addr2slice, account_key_prefix}
use ontology_rosetta.Services.Badger.{Badger}
use ontology_rosetta.Services.Account.Historic.{prefix_of}
use ontology_rosetta.Services.Validate.{AccountInfo, put_found, read_key, collect}
use ontology_rosetta.Services.Validate.Keys.{
  is_compressed, first_end, second_end, own_prefix, info_at-key,
}

module _ (b : Badger) (n : Natives) (l : Library) (lib : IsLibrary l) where
  open b use {Db, Item, item_key, next}

  abbrev pub info_of : Address → Address → Bytes → AccountInfo
  info_of a c f = record {
    acct = a;
    contract = c;
    key = prefix_of n a c ++ f;
    native = is_compressed (addr2slice n c);
  }

  module _ (d : Db) (fuel : ℕ) (ident : Bytes) (i : Item) (a c : Address) (f : Bytes)
      (la : IsAddress a) (lc : IsAddress c) (e : item_key i ≡ prefix_of n a c ++ f) where
    has_a : has_prefix (b'a' ∷ []) (prefix_of n a c ++ f) ≡ true
    unfolding account_key_prefix has_prefix
    has_a = refl

    abbrev found : Option AccountInfo
    found = if eq_bytes (prefix_of n a c) ident then none else some (info_of a c f)

    read_key_lem : read_key l n ident (prefix_of n a c ++ f) ≡ ok (prefix_of n a c, found)
    unfolding read_key
    read_key_lem =
        rw (first_end l n lib a c la lc f, ◌>>=◌)
          (rw (second_end l n lib a c la lc f, ◌>>=◌)
            (rw (own_prefix l n lib a c la lc f, ◌>>=◌)
              (rw (info_at-key l n lib a c la lc f, ◌>>=◌) (ground arith))))

    pub collect_round :
        (infos : List AccountInfo)
        → collect l n b fuel d (prefix_of n a c) (next d i) ≡ ok infos
        → collect l n b (suc fuel) d ident (some i) ≡ ok (put_found found infos)
    unfolding collect
    collect_round infos r =
        rw (e, has_a, collect) (rw (e, read_key_lem, ◌>>=◌) (rw (r, ◌>>=◌) refl))
