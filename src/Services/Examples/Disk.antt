-- ===== src/Services/Examples/Disk.antt =====
-- A database as an association list, the latest write first; it meets `IsHealthy`.
use ontology_rosetta.Common.{
  ◌≡◌, refl, sym, ap, ◌∙◌, ◌⊎◌, inl, inr, Bool, true, false, Option, none, some, List, [], ◌∷◌,
  arith, subst, Bool-cases, if◌then◌else◌, ltb, ◌==◌, ◌||◌, ◌&&◌,
}
use ontology_rosetta.Common.Bytes.{
  Bytes, LtBytes, LeBytes, eq_bytes, eq_bytes→eq, eq_bytes_refl, LtBytes-trans, LtBytes-irrefl,
}
use native.Mathlib.Decide.{dec_lt}

abbrev pub Entries : Type 0
Entries = List (Bytes × Bytes)

unfoldable pub find : Entries → Bytes → Option Bytes
find [] k = none
find ((j, v) ∷ d) k = if eq_bytes j k then some v else find d k

-- bytes.Compare(xs, ys) < 0, as a test
unfoldable pub lt_bytes : Bytes → Bytes → Bool
lt_bytes xs [] = false
lt_bytes [] (y ∷ ys) = true
lt_bytes (x ∷ xs) (y ∷ ys) = ltb x y || (x == y && lt_bytes xs ys)

pub lt_bytes→Lt : (xs ys : Bytes) → lt_bytes xs ys ≡ true → LtBytes xs ys
unfolding lt_bytes
lt_bytes→Lt xs [] h = cc
lt_bytes→Lt [] (y ∷ ys) h = tt
lt_bytes→Lt (x ∷ xs) (y ∷ ys) h = ground (arith, lt_bytes→Lt xs ys)

pub lt_bytes→Le : (xs ys : Bytes) → lt_bytes xs ys ≡ false → LeBytes ys xs
unfolding lt_bytes
lt_bytes→Le [] [] h = inr refl
lt_bytes→Le (x ∷ xs) [] h = inl tt
lt_bytes→Le [] (y ∷ ys) h = cc
lt_bytes→Le (x ∷ xs) (y ∷ ys) h = elim (dec_lt y x) [
  | yes p ↦ inl (inl p)
  | no p ↦ let e : y ≡ x = ground arith in tail e (lt_bytes→Le xs ys (ground arith))
]
  where
    tail : y ≡ x → LeBytes ys xs → LeBytes (y ∷ ys) (x ∷ xs)
    tail e (inl l) = inl (inr (e, l))
    tail e (inr f) = inr (cc)

pub Lt→lt_bytes : (xs ys : Bytes) → LtBytes xs ys → lt_bytes xs ys ≡ true
unfolding lt_bytes
Lt→lt_bytes xs [] h = absurd h
Lt→lt_bytes [] (y ∷ ys) h = refl
Lt→lt_bytes (x ∷ xs) (y ∷ ys) (inl l) = ground arith
Lt→lt_bytes (x ∷ xs) (y ∷ ys) (inr (e, l)) = ground (arith, Lt→lt_bytes xs ys l)

pub Le→lt_bytes : (xs ys : Bytes) → LeBytes xs ys → lt_bytes ys xs ≡ false
Le→lt_bytes xs ys h = elim (Bool-cases (lt_bytes ys xs)) [
  | inr f ↦ f
  | inl t ↦ absurd (clash h (lt_bytes→Lt ys xs t))
]
  where
    clash : LeBytes xs ys → LtBytes ys xs → ⊥
    clash (inl l) k = LtBytes-irrefl xs (LtBytes-trans xs ys xs l k)
    clash (inr e) k = LtBytes-irrefl xs (subst (λ (z : Bytes). LtBytes z xs) (sym e) k)

pick : Bool → Bytes → Option Bytes → Option Bytes
pick false j r = r
pick true j none = some j
pick true j (some m) = if lt_bytes m j then some j else some m

-- The last key that the test allows.
unfoldable pub best : (Bytes → Bool) → Entries → Option Bytes
unfolding pick
best p [] = none
best p ((j, v) ∷ d) = pick (p j) j (best p d)

find_head : (j v : Bytes) (d : Entries) → find ((j, v) ∷ d) j ≡ some v
unfolding find
find_head j v d = rw (eq_bytes_refl j)

find-some :
    (j v k w : Bytes) (d : Entries)
    → find d k ≡ some w
    → (x : Bytes) × (find ((j, v) ∷ d) k ≡ some x)
unfolding find
find-some j v k w d e = elim (Bool-cases (eq_bytes j k)) [ inl t ↦ (v, rw t) | inr f ↦ (w, rw f e) ]

find_cons :
    (j v k w : Bytes) (d : Entries) → find ((j, v) ∷ d) k ≡ some w → (j ≡ k) ⊎ (find d k ≡ some w)
unfolding find
find_cons j v k w d e = elim (Bool-cases (eq_bytes j k)) [
  | inl t ↦ inl (eq_bytes→eq j k t)
  | inr f ↦ inr (sym (rw f) ∙ e)
]

pub record IsBest (p : Bytes → Bool) (d : Entries) (m : Bytes) : Type 0 where
  pub allowed : p m ≡ true
  pub held : Bytes
  pub at_key : find d m ≡ some held
  pub last : (k w : Bytes) → find d k ≡ some w → p k ≡ true → LeBytes k m

LeBytes-trans : (xs ys zs : Bytes) → LeBytes xs ys → LeBytes ys zs → LeBytes xs zs
LeBytes-trans xs ys zs (inr e) k = subst (λ (z : Bytes). LeBytes z zs) (sym e) k
LeBytes-trans xs ys zs (inl l) (inr e) = inl (subst (λ (z : Bytes). LtBytes xs z) e l)
LeBytes-trans xs ys zs (inl l) (inl k) = inl (LtBytes-trans xs ys zs l k)

-- What the search returns, and that it returns nothing only where nothing is allowed.
abbrev pub Best : (Bytes → Bool) → Entries → Option Bytes → Type 0
Best p d none = (k w : Bytes) → find d k ≡ some w → p k ≡ false
Best p d (some m) = IsBest p d m

Best-step :
    (p : Bytes → Bool) (j v : Bytes) (d : Entries) (r : Option Bytes) (t : Bool)
    → p j ≡ t
    → Best p d r
    → Best p ((j, v) ∷ d) (pick t j r)
unfolding pick
Best-step p j v d none false e h = λ k w f. elim (find_cons j v k w d f) [
  | inl q ↦ subst (λ (z : Bytes). p z ≡ false) q e
  | inr g ↦ h k w g
]
Best-step p j v d (some m) false e h = record {
  allowed = h.allowed;
  held = (find-some j v m h.held d h.at_key).0;
  at_key = (find-some j v m h.held d h.at_key).1;
  last = λ k w f a. elim (find_cons j v k w d f) [
    | inl q ↦ absurd (cc (e, a, ap p q))
    | inr g ↦ h.last k w g a
  ];
}
Best-step p j v d none true e h = record {
  allowed = e;
  held = v;
  at_key = find_head j v d;
  last = λ k w f a. elim (find_cons j v k w d f) [ inl q ↦ inr (sym q) | inr g ↦ cc (h k w g, a) ];
}
Best-step p j v d (some m) true e h = elim (Bool-cases (lt_bytes m j)) [
  | inl t ↦ rw t (record {
    allowed = e;
    held = v;
    at_key = find_head j v d;
    last = λ k w f a. elim (find_cons j v k w d f) [
      | inl q ↦ inr (sym q)
      | inr g ↦ LeBytes-trans k m j (h.last k w g a) (inl (lt_bytes→Lt m j t))
    ];
  })
  | inr t ↦ rw t (record {
    allowed = h.allowed;
    held = (find-some j v m h.held d h.at_key).0;
    at_key = (find-some j v m h.held d h.at_key).1;
    last = λ k w f a. elim (find_cons j v k w d f) [
      | inl q ↦ subst (λ (z : Bytes). LeBytes z m) q (lt_bytes→Le m j t)
      | inr g ↦ h.last k w g a
    ];
  })
]

pub best-Best : (p : Bytes → Bool) (d : Entries) → Best p d (best p d)
unfolding best find
best-Best p [] = λ k w f. cc
best-Best p ((j, v) ∷ d) = Best-step p j v d (best p d) (p j) refl (best-Best p d)
