-- ===== src/Services/Examples/Healthy.antt =====
-- The interface of the database over the association lists of `Disk`.
use ontology_rosetta.Common.{
  ◌≡◌, refl, inl, inr, Bool, true, false, not, Option, none, some, [], ◌∷◌, arith, Option-cases,
}
use ontology_rosetta.Common.Bytes.{Bytes, LtBytes, LeBytes}
use ontology_rosetta.Common.Result.{Result, ok, err}
use ontology_rosetta.Services.Badger.{Badger, DbError, key_not_found, IsHealthy, IsLast}
use ontology_rosetta.Services.Examples.Disk.{
  Entries, find, best, best-Best, Best, lt_bytes, Lt→lt_bytes, Le→lt_bytes, lt_bytes→Lt,
  lt_bytes→Le,
}

abbrev pub Cell : Type 0
Cell = Bytes × Bytes

or_empty : Option Bytes → Bytes
or_empty none = []
or_empty (some v) = v

unfoldable pub cell : Entries → Option Bytes → Option Cell
unfolding or_empty
cell d none = none
cell d (some m) = some (m, or_empty (find d m))

unfoldable pub get_cell : Bytes → Option Bytes → Result DbError Cell
get_cell k none = err key_not_found
get_cell k (some v) = ok (k, v)

abbrev pub disk : Badger
disk = record {
  Db = Entries;
  Item = Cell;
  get = λ d k. get_cell k (find d k);
  item_key = λ i. i.0;
  value = λ i. ok i.1;
  seek = λ d k. cell d (best (λ j. not (lt_bytes k j)) d);
  next = λ d i. cell d (best (λ j. lt_bytes j i.0) d);
  set = λ d k v. ok ((k, v) ∷ d);
  commit = λ d. ok tt;
}

not-false : (t : Bool) → not t ≡ true → t ≡ false
not-false t h = ground arith

cell-some : (d : Entries) (m v : Bytes) → find d m ≡ some v → cell d (some m) ≡ some (m, v)
unfolding cell
cell-some d m v e = rw e

-- An entry that the search returns is the last one.
cell-IsLast :
    (d : Entries) (P : Bytes → Type 0) (p : Bytes → Bool) (o : Option Bytes) (i : Cell)
    → ((j : Bytes) → p j ≡ true → P j)
    → ((j : Bytes) → P j → p j ≡ true)
    → Best p d o
    → cell d o ≡ some i
    → IsLast disk find d P i
cell-IsLast d P p none i sound full h e = unfold cell in cc e
cell-IsLast d P p (some m) i sound full h e =
    let q : i ≡ (m, h.held) = cc (cell-some d m h.held h.at_key, e) in
    rw q (record {
      held = h.held;
      at_key = h.at_key;
      item_value = refl;
      allowed = sound m h.allowed;
      last = λ k v f a. h.last k v f (full k a);
    })

cell-none :
    (d : Entries) (p : Bytes → Bool) (o : Option Bytes) (j : Bytes)
    → Best p d o
    → cell d o ≡ none
    → p j ≡ true
    → find d j ≡ none
cell-none d p (some m) j h e a = unfold cell in cc e
cell-none d p none j h e a = elim (Option-cases (find d j)) [
  | inl f ↦ f
  | inr (w, f) ↦ cc (h j w f, a)
]

pub disk-IsHealthy : IsHealthy disk
unfolding get_cell
disk-IsHealthy = record {
  view = find;
  get_some = λ d k v e. ((k, v), rw e, refl);
  get_none = λ d k e. rw e;
  seek_some = λ d k i e.
      cell-IsLast d (λ j. LeBytes j k) (λ j. not (lt_bytes k j)) _ i
        (λ j t. lt_bytes→Le k j (not-false (lt_bytes k j) t)) (λ j le. rw (Le→lt_bytes j k le))
        (best-Best (λ j. not (lt_bytes k j)) d) e;
  seek_none = λ d k j e le.
      cell-none d (λ j. not (lt_bytes k j)) _ j (best-Best (λ j. not (lt_bytes k j)) d) e
        (rw (Le→lt_bytes j k le));
  next_some = λ d i i' e.
      cell-IsLast d (λ j. LtBytes j i.0) (λ j. lt_bytes j i.0) _ i' (λ j t. lt_bytes→Lt j i.0 t)
        (λ j lt. Lt→lt_bytes j i.0 lt) (best-Best (λ j. lt_bytes j i.0) d) e;
  next_none = λ d i j e lt.
      cell-none d (λ j. lt_bytes j i.0) _ j (best-Best (λ j. lt_bytes j i.0) d) e
        (Lt→lt_bytes j i.0 lt);
  set_view = λ d k v. ((k, v) ∷ d, refl, λ j. unfold find in refl);
  commit_ok = λ d. refl;
}

pub disk-IsEmpty : (j : Bytes) → disk-IsHealthy.view [] j ≡ none
unfolding disk-IsHealthy find
disk-IsEmpty j = refl
