-- ===== src/Url/Query/RoundTrip.antt =====
-- The query parser reads back the parts of a URL that is written with a path and a query.
use mtasc.Common.{
  ℕ, zero, suc, ◌+◌, ◌-◌, ◌≤◌, ◌<◌, ◌^◌, ◌≡◌, refl, ap, ◌∙◌, [], ◌∷◌, ◌++◌, Bytes, codes, slice, At,
  At-skip, At-token, length, length-append, Option, none, some, ok, arith, bytes_eq,
}
use native.Mathlib.Nat.{mod-eq_of_lt}
use mtasc.Number.{to_string}
use mtasc.Number.RoundTrip.{stoi-to_string, to_string-AllDigits, AllDigits-Lacks}
use mtasc.Url.Params.{ParamMap, parse_params}
use mtasc.Url.Params.Total.{parse_params_total}
use mtasc.Url.Query.{parser_host, parser_port, parser_query, Result, loop, parse, initial_result}
use mtasc.Url.Query.Scan.{
  at_loop, host-Quiet, port-Quiet, scan, host_round, host_port_round, port_round,
}
use mtasc.Url.Query.Texts.{
  parse_sign, Url, query_text, tail_text, text, FitsPort, IsWellFormed, result_of, path_phase,
}

-- The path with its slash, from a pointer one past its first character.
slash_token :
    {s : Bytes} {pos : ℕ} (path rest : Bytes)
    → At s pos (b'/' ∷ (path ++ rest))
    → slice s pos (pos + 1 + length path - pos) ≡ b'/' ∷ path
slash_token {s} {pos} path rest a =
    let e : pos + 1 + length path - pos ≡ pos + suc (length path) - pos = omega arith in
    ap (slice s pos) e ∙ At-token (b'/' ∷ path) rest a

module _ (u : Url) (w : IsWellFormed u) {m : ParamMap}
    (params : parse_params (b'?' ∷ u.query) ≡ ok m) where
  abbrev behind_slash : Bytes
  behind_slash = u.path ++ query_text u.query u.fragment

  -- From the slash behind the host.
  slash_phase :
      (fuel : ℕ) (s : Bytes) (pos start : ℕ) (r : Result)
      → slice s start (pos - start) ≡ u.host
      → At s pos (b'/' ∷ behind_slash)
      → length u.path + 3 ≤ fuel
      → loop fuel s (at_loop parser_host pos start r)
        ≡ ok (record r {
          addrs_host = u.host;
          basic_path = b'/' ∷ u.path;
          query_path = b'?' ∷ u.query;
          query_paramter_map = m;
        })
  slash_phase zero s pos start r e a big = absurd (omega arith)
  slash_phase (suc fuel) s pos start r e a big =
      host_round fuel s start r pos u.host behind_slash e a
      ∙ path_phase fuel s (pos + 1) pos (record r { addrs_host = u.host }) (b'/' ∷ u.path) u.path
          u.query u.fragment m w.path_query w.path_fragment w.query_fragment params
          (At-skip (b'/' ∷ []) a) (slash_token u.path (query_text u.query u.fragment) a)
          (omega arith)

  -- From the first digit of the port.
  port_phase :
      (fuel : ℕ) (s : Bytes) (pos : ℕ) (r : Result) (port : ℕ)
      → port < 2 ^ 16
      → At s pos (to_string port ++ b'/' ∷ behind_slash)
      → length (to_string port) + length u.path + 4 ≤ fuel
      → loop fuel s (at_loop parser_port pos pos r)
        ≡ ok (record r {
          addrs_port = some port;
          basic_path = b'/' ∷ u.path;
          query_path = b'?' ∷ u.query;
          query_paramter_map = m;
        })
  port_phase fuel s pos r port h a big =
      ap (λ n. loop n s (at_loop parser_port pos pos r)) rounds
      ∙ scan parser_port digits (b'/' ∷ behind_slash) (suc left) s pos pos r
          (port-Quiet digits (AllDigits-Lacks b'/' refl digits (to_string-AllDigits port))) a
      ∙ port_round left s pos r (pos + length digits) port digits behind_slash
          (At-token digits (b'/' ∷ behind_slash) a) (stoi-to_string port (omega arith))
          (At-skip digits a)
      ∙ ap
          (λ n. loop left s (
            at_loop parser_query (pos + length digits) (pos + length digits)
              (record r { addrs_port = some n })))
          (mod-eq_of_lt h)
      ∙ path_phase left s (pos + length digits) (pos + length digits)
          (record r { addrs_port = some port }) (b'/' ∷ u.path) (b'/' ∷ u.path) u.query u.fragment m
          (omega arith, w.path_query) (omega arith, w.path_fragment) w.query_fragment params
          (At-skip digits a)
          (At-token (b'/' ∷ u.path) (query_text u.query u.fragment) (At-skip digits a))
          (omega arith)
    where
      digits : Bytes
      digits = to_string port

      left : ℕ
      left = fuel - length digits - 1

      rounds : fuel ≡ length digits + suc left
      rounds = omega arith

  tail_phase :
      (port : Option ℕ) (fuel : ℕ) (s : Bytes) (pos : ℕ) (r : Result)
      → FitsPort port
      → r.addrs_port ≡ none
      → At s pos (u.host ++ tail_text port behind_slash)
      → length (u.host ++ tail_text port behind_slash) + 4 ≤ fuel
      → loop fuel s (at_loop parser_host pos pos r)
        ≡ ok (record r {
          addrs_host = u.host;
          addrs_port = port;
          basic_path = b'/' ∷ u.path;
          query_path = b'?' ∷ u.query;
          query_paramter_map = m;
        })
  tail_phase none fuel s pos r f e a big =
      let rest : Bytes = b'/' ∷ behind_slash in
      let left : ℕ = fuel - length u.host in
      let rounds : fuel ≡ length u.host + left = omega (arith, length-append u.host rest) in
      let size : length rest ≡ length u.path + length (query_text u.query u.fragment) + 1 =
        omega (arith, length-append u.path (query_text u.query u.fragment)) in
      ap (λ n. loop n s (at_loop parser_host pos pos r)) rounds
      ∙ scan parser_host u.host rest left s pos pos r (host-Quiet u.host w.host_colon w.host_slash)
          a
      ∙ slash_phase left s (pos + length u.host) pos r (At-token u.host rest a) (At-skip u.host a)
          (omega (arith, length-append u.host rest))
      ∙ ap
          (λ p. ok (record r {
            addrs_host = u.host;
            addrs_port = p;
            basic_path = b'/' ∷ u.path;
            query_path = b'?' ∷ u.query;
            query_paramter_map = m;
          }))
          e
  tail_phase (some port) fuel s pos r f e a big =
      let digits : Bytes = to_string port in
      let rest : Bytes = b':' ∷ (digits ++ b'/' ∷ behind_slash) in
      let left : ℕ = fuel - length u.host - 1 in
      let rounds : fuel ≡ length u.host + suc left = omega (arith, length-append u.host rest) in
      let size : length rest
          ≡ length digits + length u.path + length (query_text u.query u.fragment) + 2 =
        omega (
          arith,
          length-append digits (b'/' ∷ behind_slash),
          length-append u.path (query_text u.query u.fragment),
        ) in
      ap (λ n. loop n s (at_loop parser_host pos pos r)) rounds
      ∙ scan parser_host u.host rest (suc left) s pos pos r
          (host-Quiet u.host w.host_colon w.host_slash) a
      ∙ host_port_round left s pos r (pos + length u.host) u.host (digits ++ b'/' ∷ behind_slash)
          (At-token u.host rest a) (At-skip u.host a)
      ∙ port_phase left s (pos + length u.host + 1) (record r { addrs_host = u.host }) port f
          (At-skip (b':' ∷ []) (At-skip u.host a)) (omega (arith, length-append u.host rest))

-- A well-formed URL with a path and a query is parsed into exactly its parts, the path with its
-- slash and the query with its `?` but without the fragment, and the parameter map is that of the
-- query; TLS is on when the scheme is `https`, and a port that is not written stays indeterminate.
pub parse-query_text :
    (u : Url)
    → IsWellFormed u
    → (m : ParamMap) × (parse_params (b'?' ∷ u.query) ≡ ok m)
      × (parse (text u) ≡ ok (result_of u m))
parse-query_text u w =
    let (m, params) = parse_params_total (b'?' ∷ u.query) in
    let rest : Bytes = u.host ++ tail_text u.port (u.path ++ query_text u.query u.fragment) in
    let (behind, started) = parse_sign u.sign rest w.sign_clean in
    (
      m,
      params,
      started
          ∙ tail_phase u w params u.port (length rest + 8) (text u) (length u.sign + 3)
              (record initial_result {
                http_sign = u.sign;
                is_enable_tls = bytes_eq u.sign (codes "https");
              })
              w.port_fits refl behind (omega arith),
    )
