-- ===== src/Services/Store/Latest.antt =====
-- What the reverse iterator finds under the prefix of an account: the amount at the last indexed
-- height before a bound, since the byte order of the keys is the order of the heights.
use ontology_rosetta.Common.{
  ℕ, zero, suc, ◌≤◌, ◌<◌, ◌^◌, ◌≡◌, refl, sym, ap, ◌∙◌, inl, inr, true, false, Option, none, some,
  ◌++◌, arith, Bool-cases, Option-cases, subst,
}
use ontology_rosetta.Common.Bytes.{
  Bytes, LtBytes, LeBytes, has_prefix, has_prefix-append, has_prefix→HasPrefix, LtBytes-append_left,
  LtBytes-cancel_left, LtBytes-irrefl, LtBytes-trans, HasPrefix-between,
}
use ontology_rosetta.Common.Big.{set_bytes}
use ontology_rosetta.Common.Result.{ok, ◌>>=◌}
use ontology_rosetta.Lexinum.{IsU32}
use ontology_rosetta.Lexinum.Encode.{form}
use ontology_rosetta.Lexinum.Order.{form_lt}
use ontology_rosetta.Services.Badger.{Badger, IsHealthy, IsLast}
use ontology_rosetta.Services.Store.{read_under}
use mathlib.Core.List.{append_cancel_left}
use native.Mathlib.Decide.{dec_lt}

-- The amount at the last height below `n` that `f` has a value for, or 0.
unfoldable pub before : (ℕ → Option Bytes) → ℕ → ℕ
before f zero = 0
before f (suc h) = let rest = before f h in elim (f h) [ none ↦ rest | some v ↦ set_bytes v ]

module _ (f : ℕ → Option Bytes) where
  pub before_skip : (h : ℕ) → f h ≡ none → before f (suc h) ≡ before f h
  unfolding before
  before_skip h e = rw (e, before)

  pub before_found : (h : ℕ) (v : Bytes) → f h ≡ some v → before f (suc h) ≡ set_bytes v
  unfolding before
  before_found h v e = rw (e, before)

  pub before-none : (n : ℕ) → ((j : ℕ) → j < n → f j ≡ none) → before f n ≡ 0
  before-none zero h = unfold before in refl
  before-none (suc n) h =
      before_skip n (h n (omega arith)) ∙ before-none n (λ j lt. h j (omega arith))

  pub before_at :
      (n h : ℕ) (v : Bytes)
      → h < n
      → f h ≡ some v
      → ((j : ℕ) → h < j → j < n → f j ≡ none)
      → before f n ≡ set_bytes v
  before_at zero h v lt e gap = absurd (omega arith)
  before_at (suc n) h v lt e gap = elim (dec_lt h n) [
    | yes p ↦
        before_skip n (gap n p (omega arith)) ∙ before_at n h v p e (λ j a c. gap j a (omega arith))
    | no p ↦ let q : h ≡ n = omega arith in before_found n v (rw q at e)
  ]

pub before_congr :
    (f g : ℕ → Option Bytes) (n : ℕ) → ((j : ℕ) → j < n → f j ≡ g j) → before f n ≡ before g n
before_congr f g zero h = unfold before in refl
before_congr f g (suc n) h = elim (Option-cases (g n)) [
  | inl e ↦
      before_skip f n (h n (omega arith) ∙ e)
      ∙ before_congr f g n (λ j lt. h j (omega arith))
      ∙ sym (before_skip g n e)
  | inr (v, e) ↦ before_found f n v (h n (omega arith) ∙ e) ∙ sym (before_found g n v e)
]

pub form_le_inv : (a c : ℕ) → IsU32 a → LeBytes (form a) (form c) → a ≤ c
form_le_inv a c ha h = elim (dec_lt c a) [
  | yes p ↦ absurd (contradiction h (form_lt c a p ha))
  | no p ↦ omega arith
]
  where
    contradiction : LeBytes (form a) (form c) → LtBytes (form c) (form a) → ⊥
    contradiction (inl l) k = LtBytes-irrefl (form a) (LtBytes-trans _ (form c) _ l k)
    contradiction (inr e) k = LtBytes-irrefl (form a) (subst (λ x. LtBytes x (form a)) (sym e) k)

pub form_inj : (j h : ℕ) → IsU32 j → IsU32 h → form j ≡ form h → j ≡ h
form_inj j h uj uh e =
    let p : j ≤ h = form_le_inv j h uj (inr e) in
    let q : h ≤ j = form_le_inv h j uh (inr (sym e)) in omega arith

pub LeBytes-cancel_left : (p xs ys : Bytes) → LeBytes (p ++ xs) (p ++ ys) → LeBytes xs ys
LeBytes-cancel_left p xs ys (inl h) = inl (LtBytes-cancel_left p xs ys h)
LeBytes-cancel_left p xs ys (inr e) = inr (append_cancel_left p xs ys e)

-- The keys with the prefix `p` that `A` allows are those of the heights below `n`.
pub record Bound (p : Bytes) (A : Bytes → Type 0) (n : ℕ) : Type 0 where
  pub fits : n ≤ 2 ^ 32
  pub below : (j : ℕ) → j < n → A (p ++ form j)
  pub above : (j : ℕ) → IsU32 j → A (p ++ form j) → j < n
  pub top : Bytes
  pub at_most : (k : Bytes) → A k → LeBytes k (p ++ top)

pub Bound-le : (p : Bytes) (h : ℕ) → IsU32 h → Bound p (λ k. LeBytes k (p ++ form h)) (suc h)
Bound-le p h u = record {
  fits = omega arith;
  below = λ j lt. elim (dec_lt j h) [
    | yes q ↦ inl (LtBytes-append_left p (form j) (form h) (form_lt j h q u))
    | no q ↦ let e : j ≡ h = omega arith in inr (rw e)
  ];
  above =
      λ j uj le. let q : j ≤ h = form_le_inv j h uj (LeBytes-cancel_left p _ _ le) in omega arith;
  top = form h;
  at_most = λ k le. le;
}

pub Bound-lt : (p : Bytes) (h : ℕ) → IsU32 h → Bound p (λ k. LtBytes k (p ++ form h)) h
Bound-lt p h u = record {
  fits = omega arith;
  below = λ j lt. LtBytes-append_left p (form j) (form h) (form_lt j h lt u);
  above = λ j uj lt.
      let l : LtBytes (form j) (form h) = LtBytes-cancel_left p (form j) (form h) lt in
      elim (dec_lt j h) [
        | yes q ↦ q
        | no q ↦ let r : h ≤ j = omega arith in absurd (not_below j h uj r l)
      ];
  top = form h;
  at_most = λ k lt. inl lt;
}
  where
    not_below : (j h : ℕ) → IsU32 j → h ≤ j → LtBytes (form j) (form h) → ⊥
    not_below j h uj r l = elim (dec_lt h j) [
      | yes q ↦
          LtBytes-irrefl (form j) (LtBytes-trans (form j) (form h) (form j) l (form_lt h j q uj))
      | no q ↦
          let e : h ≡ j = omega arith in
          LtBytes-irrefl (form j) (subst (λ (x : ℕ). LtBytes (form j) (form x)) e l)
    ]

pub clash : (p k rest : Bytes) → k ≡ p ++ rest → has_prefix p k ≡ false → ⊥
clash p k rest g e = cc (e, has_prefix-append p rest, ap (has_prefix p) g)

module _ (b : Badger) (healthy : IsHealthy b) (d : b.Db) (p : Bytes) where
  open b use {Item, item_key, value}
  open healthy use {view}

  -- The values that are held for an account, by height.
  abbrev pub held_at : ℕ → Option Bytes
  held_at h = view d (p ++ form h)

  -- Every key with the prefix is that of a height.
  abbrev pub IsKeyed : Type 0
  IsKeyed = (rest v : Bytes) → view d (p ++ rest) ≡ some v → (h : ℕ) × IsU32 h × (rest ≡ form h)

  -- `o` is the last entry that `A` allows.
  abbrev pub Finds : (Bytes → Type 0) → Option Item → Type 0
  Finds A none = (k : Bytes) → A k → view d k ≡ none
  Finds A (some i) = IsLast b view d A i

  module _ (keyed : IsKeyed) (A : Bytes → Type 0) (n : ℕ) (bound : Bound p A n) where
    gap_above :
        (i : Item) (h : ℕ)
        → IsLast b view d A i
        → item_key i ≡ p ++ form h
        → (j : ℕ) → h < j
        → j < n
        → held_at j ≡ none
    gap_above i h l q j a c = elim (Option-cases (held_at j)) [
      | inl e ↦ e
      | inr (w, f) ↦
          let fits : n ≤ 2 ^ 32 = bound.fits in
          let le : LeBytes (p ++ form j) (p ++ form h) =
            subst (λ (x : Bytes). LeBytes (p ++ form j) x) q
              (l.last (p ++ form j) w f (bound.below j c)) in
          let r : j ≤ h = form_le_inv j h (omega arith) (LeBytes-cancel_left p _ _ le) in
          absurd (omega arith)
    ]

    -- The last entry has the prefix: it is that of the last height with a value.
    read_inside :
        (i : Item) (rest : Bytes)
        → IsLast b view d A i
        → item_key i ≡ p ++ rest
        → read_under b p (some i) ≡ ok (before held_at n)
    unfolding read_under
    read_inside i rest l e =
        let (h, u, r) = keyed rest l.held (rw (← e) l.at_key) in
        let q : item_key i ≡ p ++ form h = e ∙ ap (λ (x : Bytes). p ++ x) r in
        let lt : h < n = bound.above h u (subst A q l.allowed) in
        let held : held_at h ≡ some l.held =
          subst (λ (x : Bytes). view d x ≡ some l.held) q l.at_key in
        let t : has_prefix p (item_key i) ≡ true = rw e (has_prefix-append p rest) in
        rw t (
          rw (l.item_value, ◌>>=◌)
            (ap ok (sym (before_at held_at n h l.held lt held (gap_above i h l q)))))

    -- It has not: no height below the bound has a value.
    read_outside :
        (i : Item)
        → IsLast b view d A i
        → has_prefix p (item_key i) ≡ false
        → read_under b p (some i) ≡ ok (before held_at n)
    unfolding read_under
    read_outside i l e = rw e (
        ap ok (
          sym (
            before-none held_at n (λ j lt. elim (Option-cases (held_at j)) [
              | inl f ↦ f
              | inr (w, f) ↦
                  let (rest, g) =
                    HasPrefix-between p (form j) bound.top (item_key i)
                      (l.last (p ++ form j) w f (bound.below j lt))
                      (bound.at_most (item_key i) l.allowed) in
                  absurd (clash p (item_key i) rest g e)
            ]))))

    pub read_under-before : (o : Option Item) → Finds A o → read_under b p o ≡ ok (before held_at n)
    read_under-before none h =
        unfold read_under in
        ap ok (sym (before-none held_at n (λ j lt. h (p ++ form j) (bound.below j lt))))
    read_under-before (some i) h = elim (Bool-cases (has_prefix p (item_key i))) [
      | inl t ↦ let (rest, e) = has_prefix→HasPrefix p (item_key i) t in read_inside i rest h e
      | inr f ↦ read_outside i h f
    ]
