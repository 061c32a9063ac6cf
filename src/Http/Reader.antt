-- ===== src/Http/Reader.antt =====
-- A receiver of HTTP/1.1, independent of the client: lines end by CR LF, the head ends at the first
-- empty line, and what follows is the body.
use mtasc.Common.{
  ℕ, zero, suc, ◌≡◌, ◌≢◌, refl, ◌<◌, List, [], ◌∷◌, ◌++◌, Bytes, crlf, length, Bool, false, ◌&&◌,
  ◌==◌, ==_false, if◌then◌else◌, Option, none, some, Lacks, arith,
}

abbrev pub starts_with_lf : Bytes → Bool
starts_with_lf [] = false
starts_with_lf (c ∷ s) = c == 10

abbrev pub behind_first : Bytes → Bytes
behind_first [] = []
behind_first (c ∷ s) = s

abbrev pub cons_line : ℕ → Option (Bytes × Bytes) → Option (Bytes × Bytes)
cons_line c none = none
cons_line c (some (line, rest)) = some (c ∷ line, rest)

-- A line and what follows its CR LF.
unfoldable pub read_line : Bytes → Option (Bytes × Bytes)
read_line [] = none
read_line (c ∷ s) =
    if (c == 13) && starts_with_lf s then some ([], behind_first s) else cons_line c (read_line s)

abbrev pub cons_head : Bytes → Option (List Bytes × Bytes) → Option (List Bytes × Bytes)
cons_head line none = none
cons_head line (some (lines, body)) = some (line ∷ lines, body)

-- The lines of the head and what follows its empty line, for heads of fewer lines than the fuel.
unfoldable pub read_head : ℕ → Bytes → Option (List Bytes × Bytes)
read_head zero s = none
read_head (suc fuel) s = elim (read_line s) [
  | none ↦ none
  | some ([], body) ↦ some ([], body)
  | some (c ∷ line, rest) ↦ cons_head (c ∷ line) (read_head fuel rest)
]

-- The text of a head, its empty line and what follows.
abbrev pub join_lines : List Bytes → Bytes → Bytes
join_lines [] body = crlf ++ body
join_lines (line ∷ lines) body = line ++ (crlf ++ join_lines lines body)

-- A line that is not empty and holds no CR.
pub record IsLine (line : Bytes) : Type 0 where
  pub filled : line ≢ []
  pub no_cr : Lacks 13 line

abbrev pub AllLines : List Bytes → Type 0
AllLines [] = Unit {0}
AllLines (line ∷ lines) = IsLine line × AllLines lines

read_line_lem :
    (line rest : Bytes) → Lacks 13 line → read_line (line ++ (crlf ++ rest)) ≡ some (line, rest)
unfolding read_line
read_line_lem [] rest h = refl
read_line_lem (c ∷ line) rest h = rw (==_false c 13 h.0, read_line_lem line rest h.1)

-- The receiver reads back the lines and the body of a text that is joined from them.
pub read_head-join_lines :
    (fuel : ℕ) (lines : List Bytes) (body : Bytes)
    → AllLines lines
    → length lines < fuel
    → read_head fuel (join_lines lines body) ≡ some (lines, body)
unfolding read_head
read_head-join_lines zero lines body w h = absurd (omega arith)
read_head-join_lines (suc fuel) [] body w h = rw (read_line_lem [] body tt, read_head)
read_head-join_lines (suc fuel) ([] ∷ lines) body w h = absurd (w.0.filled refl)
read_head-join_lines (suc fuel) ((c ∷ line) ∷ lines) body w h = rw (
  read_line_lem (c ∷ line) (join_lines lines body) w.0.no_cr,
  read_head,
  read_head-join_lines fuel lines body w.1 (omega arith),
)
