-- ===== src/Services/Construction/Metadata/Gas.antt =====
-- The loop of getGasPrice: where it ends, and where it does not.
use ontology_rosetta.Common.{
  ℕ, zero, suc, ◌+◌, ◌-◌, ◌%◌, ◌^◌, ◌≤◌, ◌<◌, ◌≡◌, ◌≢◌, refl, inl, inr, true, false, none, arith,
  Bool-cases, ltb, leb,
}
use ontology_rosetta.Lexinum.{IsU32}
use ontology_rosetta.Services.Construction.Metadata.{
  Chain, has_transactions, gas_loop, get_gas_price,
}

-- From `height` the loop comes below `end` within the fuel.
gas_loop-ends :
    (c : Chain) (end f height : ℕ)
    → 0 < end
    → height < 2 ^ 32
    → height + 2 ≤ f + end
    → 0 < f
    → gas_loop c end f height ≢ none
unfolding gas_loop
gas_loop-ends c end zero height p u h q e = omega arith
gas_loop-ends c end (suc f) height p u h q e = elim (Bool-cases (leb end height)) [
  | inr r ↦ cc (rw r at e)
  | inl t ↦ elim (Bool-cases (has_transactions (c.root height))) [
    | inl v ↦ cc (rw (t, v) at e)
    | inr v ↦
        let low : end ≤ height = ground arith in
        gas_loop-ends c end f ((height + 0xffff_ffff) % 2 ^ 32) p (omega arith) (omega arith)
          (omega arith) (rw (t, v) at e)
  ]
]

-- Above the height 100 getGasPrice ends: 102 rounds are enough.
pub get_gas_price-ends :
    (c : Chain) (start : ℕ) → 100 < start → IsU32 start → get_gas_price c 102 start ≢ none
unfolding get_gas_price
get_gas_price-ends c start h u =
    let t : ltb 100 start ≡ true = ground arith in
    rw t (
      gas_loop-ends c (start - 100) 102 start (omega arith) (omega arith) (omega arith)
        (omega arith))

gas_loop-diverges :
    (c : Chain) (f height : ℕ)
    → ((h : ℕ) → has_transactions (c.root h) ≡ false)
    → gas_loop c 0 f height ≡ none
unfolding gas_loop
gas_loop-diverges c zero height none_at = refl
gas_loop-diverges c (suc f) height none_at =
    let t : leb 0 height ≡ true = ground arith in
    rw (t, none_at height) (gas_loop-diverges c f ((height + 0xffff_ffff) % 2 ^ 32) none_at)

-- Up to the height 100, getGasPrice does not end with any fuel when no header that the node answers
-- with has transactions: the height wraps around below zero.
pub get_gas_price-diverges :
    (c : Chain) (fuel start : ℕ)
    → start ≤ 100
    → ((h : ℕ) → has_transactions (c.root h) ≡ false)
    → get_gas_price c fuel start ≡ none
unfolding get_gas_price
get_gas_price-diverges c fuel start le none_at =
    let t : ltb 100 start ≡ false = ground arith in rw t (gas_loop-diverges c fuel start none_at)
