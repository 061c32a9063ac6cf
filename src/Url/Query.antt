-- ===== src/Url/Query.antt =====
-- `urlHttpParser::parserQueryUrl`: scheme, host, port, path, query and parameters of a URL.
pub mod Scan
pub mod Total
pub mod Texts
pub mod RoundTrip
pub mod Pathless
mod Tests
use mtasc.Common.{
  ℕ, zero, suc, ◌+◌, ◌-◌, [], ◌∷◌, Bytes, slice, codes, char_at, bytes_eq, length, drop, Bool,
  false, ◌||◌, ◌==◌, if◌then◌else◌, Option, none, some, Outcome, ok, out_of_fuel, deref, ◌>>=◌,
}
use mtasc.Number.{ℤ, stoi, to_uint16}
use mtasc.Url.Params.{ParamMap, parse_params}

-- `queryParserState`
pub data State : Type 0 where
  parser_sign parser_host parser_port parser_query parser_end : State

-- `queryUrlParserResult`. The port has no initialiser: `none` is its indeterminate value.
pub record Result : Type 0 where
  pub addrs_host : Bytes
  pub basic_path : Bytes
  pub http_sign : Bytes
  pub query_path : Bytes
  pub addrs_port : Option ℕ
  pub is_enable_tls : Bool
  pub query_paramter_map : ParamMap

abbrev pub initial_result : Result
initial_result = record {
  addrs_host = [];
  basic_path = [];
  http_sign = [];
  query_path = [];
  addrs_port = none;
  is_enable_tls = false;
  query_paramter_map = [];
}

-- The local variables of the loop.
pub record Loop : Type 0 where
  pub state : State
  pub char_pos : ℕ
  pub char_start : ℕ
  pub result : Result

-- One round of the loop: it goes on, or the function returns.
pub data Turn : Type 0 where
  again : Loop → Turn
  returned : Result → Turn

-- `break` out of the switch, which goes on to `++M_parser_char_ops`.
abbrev pub advance : Loop → Outcome Turn
advance l = ok (again (record l { char_pos = l.char_pos + 1 }))

unfoldable pub found_sign : Bytes → Loop → ℕ → Outcome Turn
found_sign s l following =
    let sign : Bytes = slice s l.char_start (l.char_pos - l.char_start) in
    if following == b'/'
    then ok (
        again (record {
          state = parser_host;
          char_pos = l.char_pos + 3;
          char_start = l.char_pos + 3;
          result = record l.result {
            http_sign = sign;
            is_enable_tls = bytes_eq sign (codes "https");
          };
        }))
    else advance l

-- Both branches `break`, so the pointer goes past the `:` or the `/`.
unfoldable pub found_host : Bytes → Loop → ℕ → Outcome Turn
found_host s l c =
    let host : Bytes = slice s l.char_start (l.char_pos - l.char_start) in
    if c == b':'
    then advance (record l {
      state = parser_port;
      char_start = l.char_pos + 1;
      result = record l.result { addrs_host = host };
    })
    else advance (record l {
      state = parser_query;
      char_start = l.char_pos;
      result = record l.result { addrs_host = host };
    })

unfoldable pub found_port : Loop → ℤ → Outcome Turn
found_port l port = ok (
    again (record l {
      state = parser_query;
      char_start = l.char_pos;
      result = record l.result { addrs_port = some (to_uint16 port) };
    }))

-- The walk of `M_query_end` to a `#` or the end: the characters that it passes.
unfoldable pub until_fragment : Bytes → ℕ
until_fragment [] = 0
until_fragment (c ∷ s) = if c == b'#' then 0 else suc (until_fragment s)

unfoldable pub found_query : Bytes → Loop → Outcome Turn
found_query s l = ok (
    again (record l {
      state = parser_end;
      result = record l.result {
        basic_path = slice s l.char_start (l.char_pos - l.char_start);
        query_path = slice s l.char_pos (until_fragment (drop l.char_pos s));
      };
    }))

unfoldable pub finish : Loop → ParamMap → Outcome Turn
finish l m = ok (returned (record l.result { query_paramter_map = m }))

-- The switch of the loop, at the character under the pointer.
unfoldable pub step : State → Bytes → Loop → ℕ → Outcome Turn
unfolding found_sign found_host found_port found_query finish
step parser_sign s l c =
    if c == b':' then (deref (char_at s (l.char_pos + 1)) >>= found_sign s l) else advance l
step parser_host s l c = if c == b':' || c == b'/' then found_host s l c else advance l
step parser_port s l c =
    if c == b'/'
    then (stoi (slice s l.char_start (l.char_pos - l.char_start)) >>= found_port l)
    else advance l
step parser_query s l c = if c == b'?' || c == b'#' then found_query s l else advance l
step parser_end s l c = parse_params l.result.query_path >>= finish l

-- What is done with a round.
abbrev pub after : (Loop → Outcome Result) → Turn → Outcome Result
after k (again l) = k l
after k (returned r) = ok r

-- `while (M_parser_char_ops != M_parser_char_end)`, with fuel.
unfoldable pub loop : ℕ → Bytes → Loop → Outcome Result
loop zero s l = out_of_fuel
loop (suc fuel) s l =
    let rest = deref (char_at s l.char_pos) >>= λ c. step l.state s l c >>= after (loop fuel s) in
    if l.char_pos == length s then ok l.result else rest

abbrev pub initial_loop : Loop
initial_loop = record { state = parser_sign; char_pos = 0; char_start = 0; result = initial_result }

-- A round moves the pointer on or moves the state on, so these rounds are enough.
unfoldable pub parse : Bytes → Outcome Result
unfolding loop step
parse s = loop (length s + 6) s initial_loop
