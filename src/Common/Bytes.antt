-- ===== src/Common/Bytes.antt =====
-- Byte slices, and the order of `bytes.Compare`, by which the data store sorts its keys.
use ontology_rosetta.Common.{
  ℕ, ◌<◌, ◌≡◌, refl, sym, ◌↔◌, ◌≢◌, Bool-cases, ◌⊎◌, inl, inr, Bool, true, false, ◌&&◌, List, [],
  ◌∷◌, ◌++◌, arith, ◌==◌,
}
use native.Mathlib.Decide.{dec_lt}

abbrev pub Bytes : Type 0
Bytes = List ℕ

-- bytes.Equal
unfoldable pub eq_bytes : Bytes → Bytes → Bool
eq_bytes [] [] = true
eq_bytes (x ∷ xs) (y ∷ ys) = x == y && eq_bytes xs ys
eq_bytes _ _ = false

-- bytes.Compare(xs, ys) < 0
abbrev pub LtBytes : Bytes → Bytes → Type 0
LtBytes xs [] = ⊥
LtBytes [] (y ∷ ys) = Unit
LtBytes (x ∷ xs) (y ∷ ys) = (x < y) ⊎ ((x ≡ y) × LtBytes xs ys)

-- bytes.Compare(xs, ys) <= 0
abbrev pub LeBytes : Bytes → Bytes → Type 0
LeBytes xs ys = LtBytes xs ys ⊎ (xs ≡ ys)

-- bytes.HasPrefix(xs, p)
abbrev pub HasPrefix : Bytes → Bytes → Type 0
HasPrefix p xs = (rest : Bytes) × (xs ≡ p ++ rest)

-- bytes.HasPrefix
unfoldable pub has_prefix : Bytes → Bytes → Bool
has_prefix [] xs = true
has_prefix (b ∷ p) [] = false
has_prefix (b ∷ p) (x ∷ xs) = b == x && has_prefix p xs

pub eq_bytes_refl : (xs : Bytes) → eq_bytes xs xs ≡ true
unfolding eq_bytes
eq_bytes_refl [] = refl
eq_bytes_refl (x ∷ xs) = ground (arith, eq_bytes_refl xs)

pub eq_bytes→eq : (xs ys : Bytes) → eq_bytes xs ys ≡ true → xs ≡ ys
unfolding eq_bytes
eq_bytes→eq [] [] h = refl
eq_bytes→eq [] (y ∷ ys) h = cc
eq_bytes→eq (x ∷ xs) [] h = cc
eq_bytes→eq (x ∷ xs) (y ∷ ys) h = ground (arith, eq_bytes→eq xs ys)

pub eq_bytes_iff : (xs ys : Bytes) → (eq_bytes xs ys ≡ true) ↔ (xs ≡ ys)
eq_bytes_iff xs ys = (eq_bytes→eq xs ys, λ e. rw e (eq_bytes_refl ys))

pub eq_bytes_ne : (xs ys : Bytes) → xs ≢ ys → eq_bytes xs ys ≡ false
eq_bytes_ne xs ys h = elim (Bool-cases (eq_bytes xs ys)) [
  | inl t ↦ absurd (h (eq_bytes→eq xs ys t))
  | inr f ↦ f
]

pub LtBytes-append_left : (p xs ys : Bytes) → LtBytes xs ys → LtBytes (p ++ xs) (p ++ ys)
LtBytes-append_left [] xs ys h = h
LtBytes-append_left (b ∷ p) xs ys h = inr (refl, LtBytes-append_left p xs ys h)

pub LtBytes-cancel_left : (p xs ys : Bytes) → LtBytes (p ++ xs) (p ++ ys) → LtBytes xs ys
LtBytes-cancel_left [] xs ys h = h
LtBytes-cancel_left (b ∷ p) xs ys (inl lt) = absurd (omega arith)
LtBytes-cancel_left (b ∷ p) xs ys (inr (e, h)) = LtBytes-cancel_left p xs ys h

pub LtBytes-irrefl : (xs : Bytes) → LtBytes xs xs → ⊥
LtBytes-irrefl [] h = h
LtBytes-irrefl (x ∷ xs) (inl lt) = absurd (omega arith)
LtBytes-irrefl (x ∷ xs) (inr (e, h)) = LtBytes-irrefl xs h

pub LtBytes-trans : (xs ys zs : Bytes) → LtBytes xs ys → LtBytes ys zs → LtBytes xs zs
LtBytes-trans xs ys [] h k = k
LtBytes-trans [] [] (z ∷ zs) h k = k
LtBytes-trans [] (y ∷ ys) (z ∷ zs) h k = tt
LtBytes-trans (x ∷ xs) [] (z ∷ zs) h k = absurd h
LtBytes-trans (x ∷ xs) (y ∷ ys) (z ∷ zs) (inl h) (inl k) = inl (omega arith)
LtBytes-trans (x ∷ xs) (y ∷ ys) (z ∷ zs) (inl h) (inr (e, k)) = inl (omega arith)
LtBytes-trans (x ∷ xs) (y ∷ ys) (z ∷ zs) (inr (d, h)) (inl k) = inl (omega arith)
LtBytes-trans (x ∷ xs) (y ∷ ys) (z ∷ zs) (inr (d, h)) (inr (e, k)) =
    inr (omega arith, LtBytes-trans xs ys zs h k)

-- What stands between two slices with the prefix `p` has it too.
pub HasPrefix-between :
    (p xs ys k : Bytes) → LeBytes (p ++ xs) k → LeBytes k (p ++ ys) → HasPrefix p k
HasPrefix-between p xs ys k (inr e) h = (xs, sym e)
HasPrefix-between p xs ys k g (inr e) = (ys, e)
HasPrefix-between [] xs ys k g h = (k, refl)
HasPrefix-between (b ∷ p) xs ys [] (inl g) h = absurd g
HasPrefix-between (b ∷ p) xs ys (c ∷ k) (inl (inl g)) (inl (inl h)) = absurd (omega arith)
HasPrefix-between (b ∷ p) xs ys (c ∷ k) (inl (inl g)) (inl (inr (e, h))) = absurd (omega arith)
HasPrefix-between (b ∷ p) xs ys (c ∷ k) (inl (inr (d, g))) (inl (inl h)) = absurd (omega arith)
HasPrefix-between (b ∷ p) xs ys (c ∷ k) (inl (inr (d, g))) (inl (inr (e, h))) =
    let (rest, q) = HasPrefix-between p xs ys k (inl g) (inl h) in (rest, cc)

pub has_prefix-append : (p rest : Bytes) → has_prefix p (p ++ rest) ≡ true
unfolding has_prefix
has_prefix-append [] rest = refl
has_prefix-append (b ∷ p) rest = ground (arith, has_prefix-append p rest)

pub has_prefix→HasPrefix : (p xs : Bytes) → has_prefix p xs ≡ true → HasPrefix p xs
unfolding has_prefix
has_prefix→HasPrefix [] xs h = (xs, refl)
has_prefix→HasPrefix (b ∷ p) [] h = cc
has_prefix→HasPrefix (b ∷ p) (x ∷ xs) h =
    let (rest, e) = has_prefix→HasPrefix p xs (ground arith) in (rest, ground arith)

pub LeBytes-antisym : (xs ys : Bytes) → LeBytes xs ys → LeBytes ys xs → xs ≡ ys
LeBytes-antisym xs ys (inr e) k = e
LeBytes-antisym xs ys (inl h) (inr e) = sym e
LeBytes-antisym xs ys (inl h) (inl k) = absurd (LtBytes-irrefl xs (LtBytes-trans xs ys xs h k))

pub LtBytes-of_le_lt : (xs ys zs : Bytes) → LeBytes xs ys → LtBytes ys zs → LtBytes xs zs
LtBytes-of_le_lt xs ys zs (inl h) k = LtBytes-trans xs ys zs h k
LtBytes-of_le_lt xs ys zs (inr e) k = rw e k

pub LtBytes-total : (xs ys : Bytes) → LtBytes xs ys ⊎ LeBytes ys xs
LtBytes-total [] [] = inr (inr refl)
LtBytes-total [] (y ∷ ys) = inl tt
LtBytes-total (x ∷ xs) [] = inr (inl tt)
LtBytes-total (x ∷ xs) (y ∷ ys) = elim (dec_lt x y) [
  | yes p ↦ inl (inl p)
  | no p ↦ elim (dec_lt y x) [
    | yes q ↦ inr (inl (inl q))
    | no q ↦
        let e : x ≡ y = omega arith in
        elim (LtBytes-total xs ys) [
          | inl h ↦ inl (inr (e, h))
          | inr (inl h) ↦ inr (inl (inr (sym e, h)))
          | inr (inr h) ↦ inr (inr (cc (e, h)))
        ]
  ]
]
