-- ===== src/Common/Text.antt =====
-- Text as the list of its bytes, and its literals.
use Prim.Native.Char.{code}
use Prim.Native.String.{String}
use ontology_rosetta.Common.{ℕ, List, [], ◌∷◌}

abbrev pub Text : Type 0
Text = List ℕ

-- The code points of a literal: its bytes, if it is ASCII.
abbrev pub codes : String → Text
codes String.[] = []
codes (String.◌∷◌ c s) = code c ∷ codes s
