-- ===== src/Services/Store/Kept.antt =====
-- The parts of a chain that is indexed, and the tokens.
use ontology_rosetta.Common.{ℕ, zero, suc, ◌≤◌, ◌≡◌, sym, ap, arith, subst}
use ontology_rosetta.Common.Result.{ok, or_err, bind-ok}
use ontology_rosetta.Services.Types.{BlockState}
use ontology_rosetta.Services.Badger.{Badger, Proto, other_error}
use ontology_rosetta.Services.Store.{Store, set_height, update_block, set_block, index_chain}
use native.Mathlib.Decide.{dec_lt}

module _ (b : Badger) (p : Proto) where
  pub set_block-tokens :
      (state : BlockState) (s s' : Store b) → set_block b p state s ≡ ok s' → s'.tokens ≡ s.tokens
  unfolding set_block set_height
  set_block-tokens state s s' e =
      let (encoded, _, e1) = bind-ok (or_err (p.marshal state.block) other_error) _ s' e in
      let (d, _, e2) = bind-ok (update_block b state encoded s.db) _ s' e1 in
      let q : set_height b state.id.height state.synced (record s { db = d }) ≡ s' = cc e2 in
      ap (λ (t : Store b). t.tokens) (sym q)

  pub index_chain-suc :
      (chain : ℕ → BlockState) (s s' : Store b) (k : ℕ)
      → index_chain b p chain s (suc k) ≡ ok s'
      → (t : Store b) × (index_chain b p chain s k ≡ ok t) × (set_block b p (chain k) t ≡ ok s')
  unfolding index_chain
  index_chain-suc chain s s' k e = bind-ok (index_chain b p chain s k) _ s' e

  -- Every part of a chain that is indexed was indexed.
  pub index_chain-prefix :
      (chain : ℕ → BlockState) (s s' : Store b) (k i : ℕ)
      → i ≤ k
      → index_chain b p chain s k ≡ ok s'
      → (t : Store b) × (index_chain b p chain s i ≡ ok t)
  index_chain-prefix chain s s' zero i le e =
      let q : zero ≡ i = omega arith in
      (s', subst (λ (x : ℕ). index_chain b p chain s x ≡ ok s') q e)
  index_chain-prefix chain s s' (suc k) i le e = elim (dec_lt i (suc k)) [
    | yes lt ↦
        let (t, f, _) = index_chain-suc chain s s' k e in
        index_chain-prefix chain s t k i (omega arith) f
    | no nlt ↦
        let q : suc k ≡ i = omega arith in
        (s', subst (λ (x : ℕ). index_chain b p chain s x ≡ ok s') q e)
  ]
