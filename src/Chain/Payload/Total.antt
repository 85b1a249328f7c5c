-- ===== src/Chain/Payload/Total.antt =====
-- ParsePayload does not panic.
use ontology_rosetta.Common.{
  ℕ, zero, suc, ◌≤◌, ◌≡◌, ◌≢◌, refl, Bool, true, false, Option, none, some, List, [], ◌∷◌, length,
  ◌==◌, arith, if◌then◌else◌, ◌||◌,
}
use ontology_rosetta.Common.Bytes.{Bytes, eq_bytes}
use ontology_rosetta.Common.Result.{ok, err, ◌>>=◌, or_err, or_err-some}
use ontology_rosetta.Common.Text.{codes}
use ontology_rosetta.Services.Ontology.{Address, Library}
use ontology_rosetta.Chain.Payload.{
  Vm, Executor, Transfer, Parse, failed, bad_index, nil_addr, at, tail, expect, address_field,
  parse_transfer_fields, parse_transfer_from_fields, parse_transfer, parse_transfers,
  parse_app_transfer_multi, single, app_method, app_contract, parse_app, parse_sys_transfers,
  parse_sys_transfer_from, sys_method, parse_sys, opcode_of, parse_payload,
}

abbrev Safe {ℓ} : {A : Type ℓ} → Parse A → Type ℓ
Safe p = p ≢ err bad_index

bind-Safe {ℓ} :
    {A B : Type ℓ} (p : Parse A) (f : A → Parse B)
    → Safe p
    → ((a : A) → p ≡ ok a → Safe (f a))
    → Safe (p >>= f)
bind-Safe (ok a) f h g = g a refl
bind-Safe (err failed) f h g = λ e. cc e
bind-Safe (err bad_index) f h g = λ e. h refl

or_err-Safe {ℓ} : {A : Type ℓ} (o : Option A) → Safe (or_err o failed)
or_err-Safe none = λ e. cc e
or_err-Safe (some a) = λ e. cc e

then-Safe :
    {B : Type 0} (b : Bool) (f : Unit {0} → Parse B)
    → (b ≡ true → Safe (f tt))
    → Safe (expect b >>= f)
unfolding expect
then-Safe true f g = g refl
then-Safe false f g = λ e. cc e

if-Safe : {A : Type 0} (b : Bool) {p q : Parse A} → Safe p → Safe q → Safe (if b then p else q)
if-Safe true h k = h
if-Safe false h k = k

module _ (vm : Vm) (l : Library) where
  open vm use {Value, Stack}

  address_field-Safe : (v : Value) → Safe (address_field vm l v)
  unfolding address_field
  address_field-Safe v =
      bind-Safe (or_err (vm.as_bytes v) failed) _ (or_err-Safe _) (λ raw e. or_err-Safe _)

  fields-Safe :
      (a b c : Value) (vs : List Value) → Safe (parse_transfer_fields vm l (a ∷ b ∷ c ∷ vs))
  unfolding parse_transfer_fields at
  fields-Safe a b c vs = bind-Safe (address_field vm l a) _ (address_field-Safe a) (λ x e.
      bind-Safe (address_field vm l b) _ (address_field-Safe b)
        (λ y e'. bind-Safe (or_err (vm.as_big_int c) failed) _ (or_err-Safe _) (λ z q r. cc r)))

  from_fields-Safe :
      (a b c d : Value) (vs : List Value)
      → Safe (parse_transfer_from_fields vm l (a ∷ b ∷ c ∷ d ∷ vs))
  unfolding parse_transfer_from_fields at tail
  from_fields-Safe a b c d vs = bind-Safe (address_field vm l a) _ (address_field-Safe a) (λ x e.
      bind-Safe (parse_transfer_fields vm l (b ∷ c ∷ d ∷ vs)) _ (fields-Safe b c d vs)
        (λ y q r. cc r))

  three-Safe : (vs : List Value) → (length vs == 3) ≡ true → Safe (parse_transfer_fields vm l vs)
  three-Safe [] h = absurd (cc h)
  three-Safe (a ∷ []) h = absurd (cc h)
  three-Safe (a ∷ b ∷ []) h = absurd (cc h)
  three-Safe (a ∷ b ∷ c ∷ vs) h = fields-Safe a b c vs

  four-Safe :
      (vs : List Value) → (length vs == 4) ≡ true → Safe (parse_transfer_from_fields vm l vs)
  four-Safe [] h = absurd (cc h)
  four-Safe (a ∷ []) h = absurd (cc h)
  four-Safe (a ∷ b ∷ []) h = absurd (cc h)
  four-Safe (a ∷ b ∷ c ∷ []) h = absurd (cc h)
  four-Safe (a ∷ b ∷ c ∷ d ∷ vs) h = from_fields-Safe a b c d vs

  parse_transfer-Safe : (v : Value) → Safe (parse_transfer vm l v)
  unfolding parse_transfer
  parse_transfer-Safe v =
      bind-Safe (or_err (vm.as_struct v) failed) _ (or_err-Safe _)
        (λ fs e. then-Safe (length fs == 3) _ (three-Safe fs))

  parse_transfers-Safe : (vs : List Value) → Safe (parse_transfers vm l vs)
  unfolding parse_transfers
  parse_transfers-Safe [] = λ r. cc r
  parse_transfers-Safe (v ∷ vs) =
      bind-Safe (parse_transfer vm l v) _ (parse_transfer-Safe v)
        (λ x e. bind-Safe (parse_transfers vm l vs) _ (parse_transfers-Safe vs) (λ xs q r. cc r))

  single-Safe : (p : Parse Transfer) → Safe p → Safe (single vm l p)
  unfolding single
  single-Safe p h = bind-Safe p _ h (λ x e r. cc r)

  multi-Safe : (vs : List Value) → (length vs == 1) ≡ true → Safe (parse_app_transfer_multi vm l vs)
  unfolding parse_app_transfer_multi at
  multi-Safe [] h = absurd (cc h)
  multi-Safe (v ∷ vs) h =
      bind-Safe (or_err (vm.as_array v) failed) _ (or_err-Safe _) (λ xs e. parse_transfers-Safe xs)

  app_method-Safe : (meth : Bytes) (params : List Value) → Safe (app_method vm l meth params)
  unfolding app_method
  app_method-Safe meth params =
      if-Safe (eq_bytes meth (codes "transfer"))
        (then-Safe (length params == 3) _ (λ h. single-Safe _ (three-Safe params h)))
        (if-Safe (eq_bytes meth (codes "transferFrom"))
          (then-Safe (length params == 4) _ (λ h. single-Safe _ (four-Safe params h)))
          (if-Safe (eq_bytes meth (codes "transferMulti"))
            (then-Safe (length params == 1) _ (multi-Safe params)) (λ r. cc r)))

  app_contract-Safe : (a : Address) (s : Stack) → Safe (app_contract vm l a s)
  unfolding app_contract
  app_contract-Safe a s =
      if-Safe (eq_bytes a nil_addr)
        (bind-Safe (or_err (vm.pop_bytes s) failed) _ (or_err-Safe _) (λ p e.
          bind-Safe (or_err (l.address_parse p.0) failed) _ (or_err-Safe _) (λ c q r. cc r)))
        (λ r. cc r)

  parse_app-Safe : (e : Executor Stack) → Safe (parse_app vm l e)
  unfolding parse_app
  parse_app-Safe e = bind-Safe (or_err (vm.read_address e) failed) _ (or_err-Safe _) (λ a ea.
      bind-Safe (app_contract vm l a e.stack) _ (app_contract-Safe a e.stack) (λ p ep.
        bind-Safe (or_err (vm.pop_bytes p.1) failed) _ (or_err-Safe _) (λ m em.
          bind-Safe (or_err (vm.pop_array m.1) failed) _ (or_err-Safe _) (λ q eq.
            bind-Safe (app_method vm l m.0 q.0) _ (app_method-Safe m.0 q.0) (λ x ex r. cc r)))))

  sys_method-Safe : (meth : Bytes) (s : Stack) → Safe (sys_method vm l meth s)
  unfolding sys_method parse_sys_transfers parse_sys_transfer_from
  sys_method-Safe meth s =
      if-Safe (eq_bytes meth (codes "transfer") || eq_bytes meth (codes "transferV2"))
        (bind-Safe (or_err (vm.pop_array s) failed) _ (or_err-Safe _)
          (λ p e. parse_transfers-Safe p.0))
        (if-Safe (eq_bytes meth (codes "transferFrom") || eq_bytes meth (codes "transferFromV2"))
          (single-Safe _ (
            bind-Safe (or_err (vm.pop_struct s) failed) _ (or_err-Safe _)
              (λ p e. then-Safe (length p.0 == 4) _ (four-Safe p.0))))
          (λ r. cc r))

  parse_sys-Safe : (s : Stack) → Safe (parse_sys vm l s)
  unfolding parse_sys
  parse_sys-Safe s = bind-Safe (or_err (vm.pop_bytes s) failed) _ (or_err-Safe _) (λ v ev.
      bind-Safe (or_err (vm.pop_bytes v.1) failed) _ (or_err-Safe _) (λ c ec.
        bind-Safe (or_err (l.address_parse c.0) failed) _ (or_err-Safe _) (λ a ea.
          bind-Safe (or_err (vm.pop_bytes c.1) failed) _ (or_err-Safe _) (λ m em.
            bind-Safe (sys_method vm l m.0 m.1) _ (sys_method-Safe m.0 m.1) (λ x ex r. cc r)))))

  at-Safe : (xs : Bytes) (i : ℕ) → suc i ≤ length xs → Safe (at xs i)
  unfolding at
  at-Safe [] i h = absurd (omega arith)
  at-Safe (x ∷ xs) zero h = λ e. cc e
  at-Safe (x ∷ xs) (suc i) h = at-Safe xs i (omega arith)

  -- Where the machine stops at an operation that it does not support, its reader has read the
  -- operation's code.
  pub record HasRead : Type 0 where
    pub one_read : (code : Bytes) (e : Executor Stack) → vm.execute code ≡ some e → 1 ≤ e.position
    pub inside :
        (code : Bytes) (e : Executor Stack) → vm.execute code ≡ some e → e.position ≤ length e.code

  opcode_of-Safe :
      (e : Executor Stack) → 1 ≤ e.position → e.position ≤ length e.code → Safe (opcode_of vm l e)
  unfolding opcode_of
  opcode_of-Safe e h k = opcode_lem e.position refl h k
    where
      opcode_lem : (p : ℕ) → e.position ≡ p → 1 ≤ p → p ≤ length e.code → Safe (opcode_of vm l e)
      opcode_lem zero q h k = absurd (omega arith)
      opcode_lem (suc p) q h k = rw q (at-Safe e.code p k)

  -- ParsePayload returns its transfers or an error, and no index in it is out of range, whatever the
  -- code is.
  pub parse_payload-ne-bad_index :
      HasRead → (code : Bytes) → parse_payload vm l code ≢ err bad_index
  unfolding parse_payload
  parse_payload-ne-bad_index has code =
      bind-Safe (or_err (vm.execute code) failed) _ (or_err-Safe _) (λ e q.
        let s = or_err-some (vm.execute code) failed e q in
        bind-Safe (opcode_of vm l e) _
          (opcode_of-Safe e (has.one_read code e s) (has.inside code e s))
          (λ o r.
            if-Safe (o == vm.app_call) (parse_app-Safe e)
              (if-Safe (o == vm.sys_call) (parse_sys-Safe e.stack) (λ w. cc w))))
