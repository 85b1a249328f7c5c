-- ===== src/Services/Indexer/Decode/Parties.antt =====
-- The decoders give 20-byte addresses.
use ontology_rosetta.Common.{
  ℕ, ◌≡◌, refl, inl, inr, Bool, true, false, ◌||◌, not, Option, none, some, List, [], ◌∷◌, arith,
  Bool-cases, Option-cases, if◌then◌else◌, ◌==◌, ==_iff, length,
}
use ontology_rosetta.Common.Bytes.{Bytes, eq_bytes}
use ontology_rosetta.Common.Int.{ℤ, pos, negsuc}
use ontology_rosetta.Common.Result.{Result, ok, err, ◌>>=◌}
use ontology_rosetta.Common.Text.{codes}
use ontology_rosetta.Services.Ontology.{Address, IsAddress, Library, IsLibrary}
use ontology_rosetta.Services.Address.{Natives, is_null}
use ontology_rosetta.Services.Indexer.{Xfer}
use ontology_rosetta.Services.Indexer.Decode.{
  Elem, Event, Events, Erc20Transfer, Halt, Decoding, continue, string_of, int_of, value_of,
  is_short, native_transfer, bytes_of_elem, equal_fold, party, oep4_xfer, oep4_transfer,
  decode_states, decode_transfer, evm_xfer, parse_evm, decode_event,
}

-- go-ethereum's addresses are arrays of 20 bytes.
pub record IsEvents (ev : Events) : Type 0 where
  pub parties :
      (log : ev.Log) (tf : Erc20Transfer)
      → ev.unpack_transfer log ≡ some tf
      → IsAddress tf.from × IsAddress tf.to

abbrev pub IsXfer : Xfer → Type 0
IsXfer x = IsAddress x.from × IsAddress x.to

abbrev pub AllSome {ℓ} : {A : Type ℓ} → (A → Type 0) → Option A → Type 0
AllSome P none = Unit
AllSome P (some a) = P a

abbrev pub AllOk {ℓ} : {A : Type ℓ} → (A → Type 0) → Decoding A → Type 0
AllOk P (err e) = Unit
AllOk P (ok o) = AllSome P o

module _ {ℓ} {A : Type ℓ} (P : A → Type 0) where
  bind-AllOk {κ} :
      {B : Type κ} (r : Result Halt B) (f : B → Decoding A)
      → ((b : B) → AllOk P (f b))
      → AllOk P (r >>= f)
  bind-AllOk (ok b) f h = h b
  bind-AllOk (err e) f h = tt

  continue-AllOk {κ} :
      {B : Type κ} (o : Option B) (f : B → Decoding A)
      → ((b : B) → o ≡ some b → AllOk P (f b))
      → AllOk P (continue o f)
  continue-AllOk none f h = tt
  continue-AllOk (some b) f h = h b refl

  if-AllOk : (b : Bool) (x y : Decoding A) → AllOk P x → AllOk P y → AllOk P (if b then x else y)
  if-AllOk true x y p q = p
  if-AllOk false x y p q = q

  bind-AllSome {κ} :
      {B : Type κ} (o : Option B) (f : B → Option A)
      → ((b : B) → AllSome P (f b))
      → AllSome P (elim o [ none ↦ none | some b ↦ f b ])
  bind-AllSome none f h = tt
  bind-AllSome (some b) f h = h b

module _ (l : Library) (n : Natives) (ev : Events) (lib : IsLibrary l) (good : IsEvents ev) where
  native_transfer-IsXfer :
      (gas : ℕ) (contract : Address) (e0 e1 e2 e3 : Elem) (es : List Elem)
      → AllOk IsXfer (native_transfer l n ev gas contract e0 e1 e2 e3 es)
  unfolding native_transfer
  native_transfer-IsXfer gas contract e0 e1 e2 e3 es = bind-AllOk IsXfer (string_of e0) _ (λ s0.
      continue-AllOk IsXfer s0 _ (λ method _. bind-AllOk IsXfer (string_of e1) _ (λ s1.
        continue-AllOk IsXfer s1 _ (λ src _. bind-AllOk IsXfer (string_of e2) _ (λ s2.
          continue-AllOk IsXfer s2 _ (λ dst _.
            if-AllOk IsXfer (not (eq_bytes method (codes "transfer"))) _ _ tt (
              continue-AllOk IsXfer (l.address_from_base58 src) _ (λ from ef.
                continue-AllOk IsXfer (l.address_from_base58 dst) _ (λ to et.
                  bind-AllOk IsXfer (int_of e3) _ (λ a. continue-AllOk IsXfer a _ (λ amount _.
                    bind-AllOk IsXfer (value_of es) _ (λ v. continue-AllOk IsXfer v _ (λ value _. (
                      lib.from_base58-IsAddress src from ef,
                      lib.from_base58-IsAddress dst to et,
                    ))))))))))))))

  parse-IsAddress : (b : Bytes) (a : Address) → l.address_parse b ≡ some a → IsAddress a
  parse-IsAddress b a e = elim (Bool-cases (length b == 20)) [
    | inl t ↦
        let q : length b ≡ 20 = (==_iff (length b) 20).0 t in
        let r : b ≡ a = cc (lib.parse_some b q, e) in rw (← r) q
    | inr f ↦ cc (lib.parse_none b (λ q. cc (f, (==_iff (length b) 20).1 q)), e)
  ]

  party-IsAddress : (b : Bytes) → AllSome IsAddress (party l n ev b)
  unfolding party
  party-IsAddress b = elim (Bool-cases (is_null b)) [
    | inl t ↦ rw t (omega arith)
    | inr f ↦ rw f (parsed (l.address_parse b) refl)
  ]
    where
      parsed : (o : Option Address) → l.address_parse b ≡ o → AllSome IsAddress o
      parsed none e = tt
      parsed (some a) e = parse-IsAddress b a e

  oep4_transfer-IsXfer : (e0 e1 e2 e3 : Elem) → AllSome IsXfer (oep4_transfer l n ev e0 e1 e2 e3)
  unfolding oep4_transfer oep4_xfer
  oep4_transfer-IsXfer e0 e1 e2 e3 = bind-AllSome IsXfer (bytes_of_elem l n ev e0) _ (λ b0.
      bind-AllSome IsXfer (bytes_of_elem l n ev e1) _ (λ b1.
        bind-AllSome IsXfer (bytes_of_elem l n ev e2) _
          (λ b2. bind-AllSome IsXfer (bytes_of_elem l n ev e3) _ (λ b3. parties b0 b1 b2 b3))))
    where
      amount :
          (from to : Address) (z : ℤ)
          → IsAddress from
          → IsAddress to
          → AllSome IsXfer (oep4_xfer l n ev from to z)
      amount from to (pos a) lf lt = (lf, lt)
      amount from to (negsuc a) lf lt = tt

      both :
          (b1 b2 b3 : Bytes) (p q : Option Address)
          → AllSome IsAddress p
          → AllSome IsAddress q
          → AllSome IsXfer (elim p [
            | none ↦ none
            | some from ↦ elim q [
              | none ↦ none
              | some to ↦ oep4_xfer l n ev from to (ev.neo_int b3)
            ]
          ])
      both b1 b2 b3 none q ip iq = tt
      both b1 b2 b3 (some from) none ip iq = tt
      both b1 b2 b3 (some from) (some to) ip iq = amount from to (ev.neo_int b3) ip iq

      parties :
          (b0 b1 b2 b3 : Bytes)
          → AllSome IsXfer (
              if not (equal_fold b0 (codes "transfer")) then none else (elim (party l n ev b1) [
                | none ↦ none
                | some from ↦ elim (party l n ev b2) [
                  | none ↦ none
                  | some to ↦ oep4_xfer l n ev from to (ev.neo_int b3)
                ]
              ]))
      parties b0 b1 b2 b3 = elim (Bool-cases (equal_fold b0 (codes "transfer"))) [
        | inl t ↦ rw t (
            both b1 b2 b3 (party l n ev b1) (party l n ev b2) (party-IsAddress b1)
              (party-IsAddress b2))
        | inr f ↦ rw f tt
      ]

  states-IsXfer :
      (gas : ℕ) (contract : Address) (es : List Elem)
      → AllOk IsXfer (decode_states l n ev gas contract es)
  unfolding decode_states
  states-IsXfer gas contract [] = tt
  states-IsXfer gas contract (e0 ∷ []) = tt
  states-IsXfer gas contract (e0 ∷ e1 ∷ []) = tt
  states-IsXfer gas contract (e0 ∷ e1 ∷ e2 ∷ []) = tt
  states-IsXfer gas contract (e0 ∷ e1 ∷ e2 ∷ e3 ∷ es) = if-AllOk IsXfer (not (is_short es)) _ _ tt (
      if-AllOk IsXfer (eq_bytes contract n.ont || eq_bytes contract n.ong) _ _
        (native_transfer-IsXfer gas contract e0 e1 e2 e3 es) (oep4_transfer-IsXfer e0 e1 e2 e3))

  evm-IsXfer : (gas : ℕ) (log : ev.Log) → AllSome IsXfer (parse_evm l n ev gas log)
  unfolding parse_evm evm_xfer
  evm-IsXfer gas log =
      elim (Bool-cases (
        eq_bytes (ev.log_address log)
          (ev.eth_address (codes "0x0000000000000000000000000000000000000002")))) [
            | inl t ↦ rw t (unpacked (ev.unpack_transfer log) refl)
            | inr f ↦ rw f tt
          ]
    where
      unpacked :
          (o : Option Erc20Transfer)
          → ev.unpack_transfer log ≡ o
          → AllSome IsXfer (evm_xfer l n ev gas o)
      unpacked none e = tt
      unpacked (some tf) e = good.parties log tf e

  -- Whatever an event holds, a transfer that is decoded from it is between 20-byte addresses.
  pub decode_event-IsXfer : (gas : ℕ) (e : Event) → AllOk IsXfer (decode_event l n ev gas e)
  unfolding decode_event decode_transfer
  decode_event-IsXfer gas e = elim (Option-cases (ev.evm_log e)) [
    | inr (log, q) ↦ rw (q, decode_event) (evm-IsXfer gas log)
    | inl q ↦ rw (q, decode_event) (listed (e.states))
  ]
    where
      listed :
          (o : Option (List Elem))
          → AllOk IsXfer
              (elim o [ none ↦ ok none | some elems ↦ decode_states l n ev gas e.contract elems ])
      listed none = tt
      listed (some elems) = states-IsXfer gas e.contract elems
