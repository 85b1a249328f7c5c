-- ===== src/Services/Keys.antt =====
-- The keys of the data store (services/store.go).
use ontology_rosetta.Common.{
  ℕ, zero, suc, ◌+◌, ◌*◌, ◌/◌, ◌%◌, [], ◌∷◌, Option, some, none, ap, ◌≡◌, arith,
}
use ontology_rosetta.Common.Bytes.{Bytes}
use ontology_rosetta.Common.Text.{codes}
use ontology_rosetta.Lexinum.{IsU32}

-- binary.LittleEndian.PutUint32
unfoldable pub put_uint32 : ℕ → Bytes
put_uint32 v = v % 256 ∷ v / 256 % 256 ∷ v / 65536 % 256 ∷ v / 16777216 % 256 ∷ []

-- binary.LittleEndian.Uint32; `none` is the panic on a slice of less than four bytes.
unfoldable pub uint32 : Bytes → Option ℕ
uint32 (a ∷ b ∷ c ∷ d ∷ rest) = some (a + b * 256 + c * 65536 + d * 16777216)
uint32 _ = none

pub uint32-put_uint32 : (v : ℕ) → IsU32 v → uint32 (put_uint32 v) ≡ some v
unfolding uint32 put_uint32
uint32-put_uint32 v h = ap some (omega arith)

-- `copy(dst, src)` into a zeroed array of `n` bytes.
unfoldable pub copy_into : ℕ → Bytes → Bytes
copy_into zero src = []
copy_into (suc n) [] = 0 ∷ copy_into n []
copy_into (suc n) (b ∷ src) = b ∷ copy_into n src

unfoldable pub block_hash2height_key : Bytes → Bytes
block_hash2height_key hash = b'c' ∷ copy_into 32 hash

unfoldable pub block_height2hash_key : ℕ → Bytes
block_height2hash_key height = b'd' ∷ put_uint32 height

unfoldable pub block_key : ℕ → Bytes
block_key height = b'b' ∷ put_uint32 height

-- The key that setBlock and checkUnsignedTxHash build.
unfoldable pub txn_hash_key : Bytes → Bytes
txn_hash_key hash = b'e' ∷ copy_into 32 hash

unfoldable pub height_key : Bytes
height_key = codes "height"
