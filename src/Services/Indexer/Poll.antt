-- ===== src/Services/Indexer/Poll.antt =====
-- One round of the outer loop of IndexBlocks in services/store.go, without the cancellation of its
-- context: the heights that the node has beyond the indexed one.
pub mod Round
use ontology_rosetta.Common.{
  ℕ, zero, suc, ◌+◌, ◌%◌, ◌^◌, Option, none, some, List, ltb, leb, if◌then◌else◌,
}
use ontology_rosetta.Common.Result.{Result, ok, err, ◌>>=◌}
use ontology_rosetta.Services.Ontology.{Address, Library}
use ontology_rosetta.Services.Address.{Natives}
use ontology_rosetta.Services.Types.{CurrencyInfo, BlockState}
use ontology_rosetta.Services.Badger.{Badger, Proto, DbError}
use ontology_rosetta.Services.Store.{Store, set_block, get_height}
use ontology_rosetta.Services.Indexer.Decode.{Events, Halt}
use ontology_rosetta.Services.Indexer.Build.{SrcBlock, EventsAt, build_state}

-- What the node answers during the round; `block` is `none` where GetBlockByHeight fails.
pub record Answers : Type 0 where
  pub latest : ℕ
  pub block : ℕ → Option SrcBlock
  pub events : ℕ → EventsAt

-- How a round ends beside normally, where `no_fuel` is a loop that did not end.
pub data Stopped : Type 0 where
  halted : Halt → Stopped
  no_fuel : Stopped

-- The height behind the indexed one; the first height is tried again.
abbrev pub next_height : ℕ → ℕ
next_height height = if ltb 0 height then (height + 1) % 2 ^ 32 else height

module _ (b : Badger) (p : Proto) (l : Library) (n : Natives) (ev : Events) where
  -- `continue outer` where setBlock fails.
  pub store_block :
      Store b
      → Result DbError (Store b)
      → (Store b → Result Stopped (Store b))
      → Result Stopped (Store b)
  store_block s (err e) more = ok s
  store_block s (ok s') more = more s'

  pub built :
      Store b
      → Option (Result Halt BlockState)
      → (BlockState → Result Stopped (Store b))
      → Result Stopped (Store b)
  built s none more = err no_fuel
  built s (some (err h)) more = err (halted h)
  built s (some (ok state)) more = more state

  -- The inner loop, from `height`.
  pub poll_loop : Answers → ℕ → ℕ → Store b → Result Stopped (Store b)
  unfolding store_block built
  poll_loop q zero height s = err no_fuel
  poll_loop q (suc f) height s =
      let rest = poll_loop q f ((height + 1) % 2 ^ 32) in
      if leb height q.latest
      then (elim (q.block height) [
        | none ↦ ok s
        | some src ↦
            built s (build_state l n ev s.tokens src (q.events height) height q.latest)
              (λ state. store_block s (set_block b p state s) rest)
      ])
      else ok s

  pub poll : Answers → ℕ → Store b → Result Stopped (Store b)
  poll q fuel s = poll_loop q fuel (next_height (get_height b s)) s
