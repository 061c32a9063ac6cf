-- ===== src/Common/Text.antt =====
-- Text literals as the bytes that the C++ code holds.
use Prim.Native.Char.{code}
use Prim.Native.String.{String}
use mathlib.Core.List.{[], ◌∷◌}
use mtasc.Common.Slices.{Bytes}

-- The code points of a text: its bytes, since every literal of the program is ASCII.
abbrev pub codes : String → Bytes
codes String.[] = []
codes (String.◌∷◌ c s) = code c ∷ codes s

abbrev pub crlf : Bytes
crlf = 13 ∷ 10 ∷ []
