-- ===== src/Url/Params.antt =====
-- `urlHttpParser::M_parserQueryParamter`: the parameters of a query.
pub mod Total
pub mod RoundTrip
pub mod Chain
pub mod Valueless
pub mod Unordered
mod Tests
use mtasc.Common.{
  ℕ, zero, suc, ◌+◌, ◌-◌, ◌^◌, List, [], ◌∷◌, Bytes, slice, codes, char_at, bytes_eq, length, drop,
  ltb, leb, ◌==◌, if◌then◌else◌, Option, none, some, Outcome, ok, thrown, out_of_range, out_of_fuel,
  deref, ◌>>=◌,
}

-- `std::map<std::string, std::string>`. The program assigns and looks up, and never depends on the
-- order, so the pairs are kept in the order in which the keys came.
abbrev pub ParamMap : Type 0
ParamMap = List (Bytes × Bytes)

-- `map[key] = value`
unfoldable pub assign : Bytes → Bytes → ParamMap → ParamMap
assign k v [] = (k, v) ∷ []
assign k v ((j, w) ∷ m) = if bytes_eq j k then (j, v) ∷ m else (j, w) ∷ assign k v m

unfoldable pub lookup : Bytes → ParamMap → Option Bytes
lookup k [] = none
lookup k ((j, w) ∷ m) = if bytes_eq j k then some w else lookup k m

-- `std::string::npos`
abbrev pub npos : ℕ
npos = 2 ^ 64 - 1

-- The position of the first `c` in a suffix that starts at position `i`.
unfoldable pub find_in : ℕ → Bytes → ℕ → Option ℕ
find_in c [] i = none
find_in c (x ∷ xs) i = if x == c then some i else find_in c xs (i + 1)

-- `s.find(c, pos)`, with `none` for `npos`.
abbrev pub find : Bytes → ℕ → ℕ → Option ℕ
find s c pos = find_in c (drop pos s) pos

-- `s.substr(pos, n)`
unfoldable pub substr : Bytes → ℕ → ℕ → Outcome Bytes
substr s pos n = if leb pos (length s) then ok (slice s pos n) else thrown out_of_range

abbrev pub empty_parameter : Bytes
empty_parameter = codes "[EMPYTY-PARAMTER]"

-- `if (M_fullUrl_path[M_parser_ops] == '?') M_parser_ops ++;`
unfoldable pub skip_mark : Bytes → ℕ → Outcome ℕ
skip_mark s pos = do c ← deref (char_at s pos); ok (if c == b'?' then pos + 1 else pos)

abbrev pub amp_or_end : Bytes → Option ℕ → ℕ
amp_or_end s none = length s
amp_or_end s (some amp) = amp

-- `M_eq_ops - M_parser_ops`, which wraps for `npos`.
abbrev pub key_count : Option ℕ → ℕ → ℕ
key_count none pos = npos - pos
key_count (some eq) pos = eq - pos

-- The assignment under the test `M_eq_ops != npos && M_eq_ops < M_amp_ops`.
unfoldable pub store : Bytes → ParamMap → Bytes → Option ℕ → ℕ → Outcome ParamMap
store s m key none amp = ok (assign key empty_parameter m)
store s m key (some eq) amp =
    if ltb eq amp
    then (substr s (eq + 1) (amp - eq - 1) >>= λ value. ok (assign key value m))
    else ok (assign key empty_parameter m)

-- The body of the loop: the next position and the map.
unfoldable pub parameter : Bytes → ℕ → ParamMap → Outcome (ℕ × ParamMap)
unfolding skip_mark store substr
parameter s pos m = do
  ops ← skip_mark s pos
  key ← substr s ops (key_count (find s b'=' ops) ops)
  m' ← store s m key (find s b'=' ops) (amp_or_end s (find s b'&' ops))
  ok (amp_or_end s (find s b'&' ops) + 1, m')

-- `while (M_parser_ops < size())`, with fuel.
unfoldable pub loop : ℕ → Bytes → ℕ → ParamMap → Outcome ParamMap
loop zero s pos m = out_of_fuel
loop (suc fuel) s pos m =
    let rest = parameter s pos m >>= λ next. loop fuel s next.0 next.1 in
    if ltb pos (length s) then rest else ok m

-- Each round moves the position on, so one round for each character is enough.
unfoldable pub parse_params : Bytes → Outcome ParamMap
unfolding loop parameter
parse_params s = loop (length s + 1) s 0 []
