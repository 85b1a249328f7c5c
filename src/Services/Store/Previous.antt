-- ===== src/Services/Store/Previous.antt =====
-- The amount that setBlock adds a change to: that of the last height before the block's own, also
-- where the block is indexed for the second time.
use ontology_rosetta.Common.{
  ℕ, suc, ◌≡◌, refl, sym, ap, ◌∙◌, inl, inr, true, false, Option, none, some, ◌++◌, arith,
  Option-cases, subst, Bool-cases, ◌&&◌, if◌then◌else◌, Bool,
}
use ontology_rosetta.Common.Bytes.{
  Bytes, LtBytes, LeBytes, has_prefix, has_prefix-append, eq_bytes, eq_bytes→eq, eq_bytes_iff,
  LeBytes-antisym,
}
use ontology_rosetta.Common.Result.{ok}
use ontology_rosetta.Lexinum.{IsU32}
use ontology_rosetta.Lexinum.Encode.{form}
use ontology_rosetta.Services.Types.{BalanceChange}
use ontology_rosetta.Services.Badger.{Badger, IsHealthy, IsLast}
use ontology_rosetta.Services.Store.{read_under, previous, prev_at}
use ontology_rosetta.Services.Store.Latest.{
  before, before-none, before_skip, Bound-le, Bound-lt, held_at, IsKeyed, Finds, read_under-before,
}

module _ (b : Badger) (healthy : IsHealthy b) (d : b.Db) (p : Bytes) (h : ℕ) (u : IsU32 h) where
  open b use {Item, item_key, seek, next}
  open healthy use {view, seek_some, seek_none, next_some, next_none}

  pub seek-Finds : (k : Bytes) → Finds b healthy d p (λ j. LeBytes j k) (seek d k)
  seek-Finds k = elim (Option-cases (seek d k)) [
    | inl e ↦ rw e (λ j le. seek_none d k j e le)
    | inr (i, e) ↦ rw e (seek_some d k i e)
  ]

  pub next-Finds : (i : Item) → Finds b healthy d p (λ j. LtBytes j (item_key i)) (next d i)
  next-Finds i = elim (Option-cases (next d i)) [
    | inl e ↦ rw e (λ j lt. next_none d i j e lt)
    | inr (i', e) ↦ rw e (next_some d i i' e)
  ]

  module _ (keyed : IsKeyed b healthy d p) where
    -- The iterator stands on the key itself.
    prev_at_self :
        (i : Item)
        → p ++ form h ≡ item_key i
        → prev_at b d (p ++ form h) p (some i) ≡ ok (before (held_at b healthy d p) h)
    unfolding prev_at
    prev_at_self i e =
        let own : has_prefix p (item_key i) ≡ true = rw (← e) (has_prefix-append p (form h)) in
        let same : eq_bytes (p ++ form h) (item_key i) ≡ true = (eq_bytes_iff _ _).1 e in
        rw (own, same)
          (read_under-before b healthy d p keyed (λ j. LtBytes j (p ++ form h)) h (Bound-lt p h u)
            (next d i)
            (subst (λ (k : Bytes). Finds b healthy d p (λ j. LtBytes j k) (next d i)) (sym e)
              (next-Finds i)))

    -- It stands on an earlier key, so the key itself has no value.
    prev_at_other :
        (i : Item)
        → IsLast b view d (λ j. LeBytes j (p ++ form h)) i
        → eq_bytes (p ++ form h) (item_key i) ≡ false
        → prev_at b d (p ++ form h) p (some i) ≡ ok (before (held_at b healthy d p) h)
    unfolding prev_at
    prev_at_other i l e =
        to_read (has_prefix p (item_key i)) e
        ∙ read_under-before b healthy d p keyed (λ j. LeBytes j (p ++ form h)) (suc h)
            (Bound-le p h u) (some i) l
        ∙ ap ok (before_skip (held_at b healthy d p) h no_value)
      where
        to_read :
            (t : Bool)
            → eq_bytes (p ++ form h) (item_key i) ≡ false
            → (if t && eq_bytes (p ++ form h) (item_key i)
                then read_under b p (next d i)
                else read_under b p (some i))
              ≡ read_under b p (some i)
        to_read true f = rw f
        to_read false f = refl

        no_value : held_at b healthy d p h ≡ none
        no_value = elim (Option-cases (held_at b healthy d p h)) [
          | inl f ↦ f
          | inr (v, f) ↦
              let same : item_key i ≡ p ++ form h =
                LeBytes-antisym _ _ l.allowed (l.last (p ++ form h) v f (inr refl)) in
              cc (e, (eq_bytes_iff (p ++ form h) (item_key i)).1 (sym same))
        ]

    prev_at-before :
        (o : Option Item)
        → Finds b healthy d p (λ j. LeBytes j (p ++ form h)) o
        → prev_at b d (p ++ form h) p o ≡ ok (before (held_at b healthy d p) h)
    prev_at-before none l =
        unfold prev_at in
        ap ok (
          sym (
            before-none (held_at b healthy d p) h
              (λ j lt. l (p ++ form j) ((Bound-le p h u).below j (omega arith)))))
    prev_at-before (some i) l = elim (Bool-cases (eq_bytes (p ++ form h) (item_key i))) [
      | inl t ↦ prev_at_self i (eq_bytes→eq _ _ t)
      | inr f ↦ prev_at_other i l f
    ]

    pub previous-before :
        (c : BalanceChange)
        → c.prefix ≡ p
        → c.key ≡ p ++ form h
        → previous b d c ≡ ok (before (held_at b healthy d p) h)
    unfolding previous
    previous-before c e k =
        rw (e, k) (prev_at-before (seek d (p ++ form h)) (seek-Finds (p ++ form h)))
