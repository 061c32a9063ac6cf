-- ===== src/Url/Basic.antt =====
-- `urlHttpParser::parserBasicUrl`: scheme, host, port and path of a URL by a state machine.
pub mod Scan
pub mod Total
pub mod RoundTrip
pub mod Hostless
mod Tests
use mtasc.Common.{
  ℕ, zero, suc, ◌+◌, ◌-◌, [], ◌∷◌, Bytes, slice, codes, char_at, bytes_eq, length, Bool, false,
  ◌||◌, ◌==◌, if◌then◌else◌, Option, none, some, Outcome, ok, out_of_fuel, deref, ◌>>=◌,
}
use mtasc.Number.{ℤ, stoi, to_uint16}

-- `basicParserState`
pub data State : Type 0 where
  parser_sign parser_host parser_port parser_path parser_end : State

-- `basicUrlParserResult`. The port has no initialiser: `none` is its indeterminate value.
pub record Result : Type 0 where
  pub addrs_host : Bytes
  pub addrs_path : Bytes
  pub http_sign : Bytes
  pub addrs_port : Option ℕ
  pub is_enable_tls : Bool

abbrev pub initial_result : Result
initial_result = record {
  addrs_host = [];
  addrs_path = [];
  http_sign = [];
  addrs_port = none;
  is_enable_tls = false;
}

-- The local variables of the loop.
pub record Loop : Type 0 where
  pub state : State
  pub char_pos : ℕ
  pub char_start : ℕ
  pub result : Result

-- One round of the loop: it goes on, or the function returns.
pub data Turn : Type 0 where
  again : Loop → Turn
  returned : Result → Turn

-- `break` out of the switch, which goes on to `++M_parser_char_pos`.
abbrev pub advance : Loop → Outcome Turn
advance l = ok (again (record l { char_pos = l.char_pos + 1 }))

unfoldable pub found_sign : Bytes → Loop → ℕ → Outcome Turn
found_sign s l following =
    let sign : Bytes = slice s l.char_start (l.char_pos - l.char_start) in
    if following == b'/'
    then ok (
        again (record {
          state = parser_host;
          char_pos = l.char_pos + 3;
          char_start = l.char_pos + 3;
          result = record l.result {
            http_sign = sign;
            is_enable_tls = bytes_eq sign (codes "https");
          };
        }))
    else advance l

unfoldable pub found_host : Bytes → Loop → ℕ → Outcome Turn
found_host s l c =
    let host : Bytes = slice s l.char_start (l.char_pos - l.char_start) in
    if c == b':'
    then advance (record l {
      state = parser_port;
      char_start = l.char_pos + 1;
      result = record l.result { addrs_host = host };
    })
    else ok (
        again (record l {
          state = parser_path;
          char_start = l.char_pos;
          result = record l.result { addrs_host = host };
        }))

unfoldable pub found_port : Loop → ℤ → Outcome Turn
found_port l port = ok (
    again (record l {
      state = parser_path;
      char_start = l.char_pos;
      result = record l.result { addrs_port = some (to_uint16 port) };
    }))

-- `M_path.empty() ? "/" : M_path`
abbrev pub path_or_root : Bytes → Bytes
path_or_root [] = codes "/"
path_or_root (c ∷ s) = c ∷ s

-- The switch of the loop, at the character under the pointer.
unfoldable pub step : State → Bytes → Loop → ℕ → Outcome Turn
unfolding found_sign found_host found_port
step parser_sign s l c =
    if c == b':' then (deref (char_at s (l.char_pos + 1)) >>= found_sign s l) else advance l
step parser_host s l c = if c == b':' || c == b'/' then found_host s l c else advance l
step parser_port s l c =
    if c == b'/'
    then (stoi (slice s l.char_start (l.char_pos - l.char_start)) >>= found_port l)
    else advance l
step parser_path s l c = ok (
    again (record l {
      state = parser_end;
      result = record l.result {
        addrs_path = path_or_root (slice s l.char_start (length s - l.char_start));
      };
    }))
step parser_end s l c = ok (returned l.result)

-- What is done with a round.
abbrev pub after : (Loop → Outcome Result) → Turn → Outcome Result
after k (again l) = k l
after k (returned r) = ok r

-- `while (M_parser_char_pos != M_parser_char_end)`, with fuel.
unfoldable pub loop : ℕ → Bytes → Loop → Outcome Result
loop zero s l = out_of_fuel
loop (suc fuel) s l =
    let rest = deref (char_at s l.char_pos) >>= λ c. step l.state s l c >>= after (loop fuel s) in
    if l.char_pos == length s then ok l.result else rest

abbrev pub initial_loop : Loop
initial_loop = record { state = parser_sign; char_pos = 0; char_start = 0; result = initial_result }

-- A round moves the pointer on or moves the state on, so these rounds are enough.
unfoldable pub parse : Bytes → Outcome Result
unfolding loop step
parse s = loop (length s + 6) s initial_loop
