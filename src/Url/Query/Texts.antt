-- ===== src/Url/Query/Texts.antt =====
-- URLs with a query, in parts and as texts, and the rounds of the query parser on the parts.
use mtasc.Common.{
  ℕ, suc, ◌+◌, ◌-◌, ◌≤◌, ◌<◌, ◌^◌, ◌≡◌, refl, ap, ◌∙◌, [], ◌∷◌, ◌++◌, Bytes, codes, slice, At,
  At-start, At-skip, At-token, Lacks, length, length-append, take, take-append, Option, none, some,
  ok, arith, bytes_eq, ==_false,
}
use mtasc.Number.{to_string}
use mtasc.Url.Params.{ParamMap, parse_params}
use mtasc.Url.Query.{
  parser_sign, parser_host, parser_query, Result, loop, parse, initial_result, until_fragment,
}
use mtasc.Url.Query.Scan.{at_loop, sign-Quiet, query-Quiet, scan, sign_round, query_rounds}

-- The whole text up to the first character behind `://`, with the rounds of `parse`.
pub parse_sign :
    (sign rest : Bytes)
    → Lacks b':' sign
    → let s = sign ++ (codes "://" ++ rest) in
      At s (length sign + 3) rest
      × (parse s
          ≡ loop (length rest + 8) s (
              at_loop parser_host (length sign + 3) (length sign + 3) (record initial_result {
                http_sign = sign;
                is_enable_tls = bytes_eq sign (codes "https");
              })))
unfolding parse
parse_sign sign rest h = (
  rw e at (At-skip (codes "://") whole),
  ap (λ n. loop n s (at_loop parser_sign 0 0 initial_result)) rounds
      ∙ scan parser_sign sign (codes "://" ++ rest) (suc (length rest + 8)) s 0 0 initial_result
          (sign-Quiet sign h) (At-start s)
      ∙ ap (λ p. loop (suc (length rest + 8)) s (at_loop parser_sign p 0 initial_result)) e
      ∙ sign_round (length rest + 8) s 0 initial_result (length sign) sign rest
          (rw e at (At-token sign (codes "://" ++ rest) (At-start s))) (rw e at whole),
)
  where
    s : Bytes
    s = sign ++ (codes "://" ++ rest)

    whole : At s (0 + length sign) (codes "://" ++ rest)
    whole = At-skip sign (At-start s)

    e : 0 + length sign ≡ length sign
    e = omega arith

    rounds : length s + 6 ≡ length sign + suc (length rest + 8)
    rounds = omega (arith, length-append sign (codes "://" ++ rest))

-- A URL with a path and a query, in parts: the path behind its first slash, the query behind its
-- `?`, and the fragment with its `#`, if there is one.
pub record Url : Type 0 where
  pub sign : Bytes
  pub host : Bytes
  pub port : Option ℕ
  pub path : Bytes
  pub query : Bytes
  pub fragment : Option Bytes

abbrev pub fragment_text : Option Bytes → Bytes
fragment_text none = []
fragment_text (some name) = b'#' ∷ name

abbrev pub query_text : Bytes → Option Bytes → Bytes
query_text query fragment = b'?' ∷ (query ++ fragment_text fragment)

-- What stands behind the host.
abbrev pub tail_text : Option ℕ → Bytes → Bytes
tail_text none rest = b'/' ∷ rest
tail_text (some port) rest = b':' ∷ (to_string port ++ b'/' ∷ rest)

abbrev pub text : Url → Bytes
text u =
    u.sign
    ++ (codes "://" ++ (u.host ++ tail_text u.port (u.path ++ query_text u.query u.fragment)))

abbrev pub FitsPort : Option ℕ → Type 0
FitsPort none = Unit {0}
FitsPort (some port) = port < 2 ^ 16

-- No part holds a character that ends it, and the port has 16 bits.
pub record IsWellFormed (u : Url) : Type 0 where
  pub sign_clean : Lacks b':' u.sign
  pub host_colon : Lacks b':' u.host
  pub host_slash : Lacks b'/' u.host
  pub port_fits : FitsPort u.port
  pub path_query : Lacks b'?' u.path
  pub path_fragment : Lacks b'#' u.path
  pub query_fragment : Lacks b'#' u.query

abbrev pub result_of : Url → ParamMap → Result
result_of u params = record {
  addrs_host = u.host;
  basic_path = b'/' ∷ u.path;
  http_sign = u.sign;
  query_path = b'?' ∷ u.query;
  addrs_port = u.port;
  is_enable_tls = bytes_eq u.sign (codes "https");
  query_paramter_map = params;
}

until_fragment_lem :
    (query : Bytes) (fragment : Option Bytes)
    → Lacks b'#' query
    → until_fragment (query ++ fragment_text fragment) ≡ length query
unfolding until_fragment
until_fragment_lem [] none h = refl
until_fragment_lem [] (some name) h = refl
until_fragment_lem (c ∷ query) fragment h =
    rw (==_false c b'#' h.0) (ap suc (until_fragment_lem query fragment h.1))

-- The walk from the `?` takes the query and leaves the fragment.
query_taken :
    (query : Bytes) (fragment : Option Bytes)
    → Lacks b'#' query
    → take (until_fragment (query_text query fragment)) (query_text query fragment) ≡ b'?' ∷ query
unfolding until_fragment
query_taken query fragment h =
    rw (until_fragment_lem query fragment h)
      (ap (◌∷◌ b'?') (take-append query (fragment_text fragment)))

-- From inside the path on; `path` is what is still to be scanned of it.
pub path_phase :
    (fuel : ℕ) (s : Bytes) (pos start : ℕ) (r : Result) (whole path query : Bytes)
    (fragment : Option Bytes) (m : ParamMap)
    → Lacks b'?' path
    → Lacks b'#' path
    → Lacks b'#' query
    → parse_params (b'?' ∷ query) ≡ ok m
    → At s pos (path ++ query_text query fragment)
    → slice s start (pos + length path - start) ≡ whole
    → length path + 2 ≤ fuel
    → loop fuel s (at_loop parser_query pos start r)
      ≡ ok (record r { basic_path = whole; query_path = b'?' ∷ query; query_paramter_map = m })
path_phase fuel s pos start r whole path query fragment m h k g e a w big =
    ap (λ n. loop n s (at_loop parser_query pos start r)) rounds
    ∙ scan parser_query path (query_text query fragment) (suc (suc left)) s pos start r
        (query-Quiet path h k) a
    ∙ query_rounds left s start r (pos + length path) b'?' whole (query ++ fragment_text fragment) m
        refl w (At-skip path a) (rw (query_taken query fragment g) e)
    ∙ rw (query_taken query fragment g)
  where
    left : ℕ
    left = fuel - length path - 2

    rounds : fuel ≡ length path + suc (suc left)
    rounds = omega arith
