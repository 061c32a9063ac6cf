-- ===== src/Url/Basic/RoundTrip.antt =====
-- The basic parser reads back the parts of a URL that is written with a path.
use mtasc.Common.{
  ℕ, suc, ◌+◌, ◌-◌, ◌≤◌, ◌<◌, ◌^◌, ◌%◌, ◌≡◌, refl, ap, ◌∙◌, [], ◌∷◌, ◌++◌, Bytes, codes, At,
  At-start, At-skip, length, length-append, Lacks, At-token, Option, none, some, ok, arith,
  bytes_eq,
}
use native.Mathlib.Nat.{mod-eq_of_lt}
use mtasc.Number.{to_string}
use mtasc.Number.RoundTrip.{stoi-to_string, to_string-AllDigits, AllDigits-Lacks}
use mtasc.Url.Basic.{parser_sign, parser_host, parser_port, Result, loop, parse, initial_result}
use mtasc.Url.Basic.Scan.{
  at_loop, sign-Quiet, host-Quiet, port-Quiet, scan, sign_round, host_round, host_port_round,
  port_round, path_rounds,
}

-- A URL with a path, in parts; the path is what follows its first slash.
pub record Url : Type 0 where
  pub sign : Bytes
  pub host : Bytes
  pub port : Option ℕ
  pub path : Bytes

-- What stands behind the host.
abbrev pub tail_text : Option ℕ → Bytes → Bytes
tail_text none path = b'/' ∷ path
tail_text (some port) path = b':' ∷ (to_string port ++ b'/' ∷ path)

abbrev pub text : Url → Bytes
text u = u.sign ++ (codes "://" ++ (u.host ++ tail_text u.port u.path))

abbrev pub FitsPort : Option ℕ → Type 0
FitsPort none = Unit {0}
FitsPort (some port) = port < 2 ^ 16

-- The scheme holds no colon, the host neither a colon nor a slash, and the port has 16 bits.
pub record IsWellFormed (u : Url) : Type 0 where
  pub sign_clean : Lacks b':' u.sign
  pub host_colon : Lacks b':' u.host
  pub host_slash : Lacks b'/' u.host
  pub port_fits : FitsPort u.port

abbrev pub result_of : Url → Result
result_of u = record {
  addrs_host = u.host;
  addrs_path = b'/' ∷ u.path;
  http_sign = u.sign;
  addrs_port = u.port;
  is_enable_tls = bytes_eq u.sign (codes "https");
}

-- From the first character of the host on.
host_phase :
    (fuel : ℕ) (s : Bytes) (pos : ℕ) (r : Result) (host path : Bytes)
    → Lacks b':' host
    → Lacks b'/' host
    → At s pos (host ++ b'/' ∷ path)
    → loop (length host + suc (suc (suc fuel))) s (at_loop parser_host pos pos r)
      ≡ ok (record r { addrs_host = host; addrs_path = b'/' ∷ path })
host_phase fuel s pos r host path h k a =
    scan parser_host host (b'/' ∷ path) (suc (suc (suc fuel))) s pos pos r (host-Quiet host h k) a
    ∙ host_round (suc (suc fuel)) s pos r (pos + length host) host path
        (At-token host (b'/' ∷ path) a) (At-skip host a)
    ∙ path_rounds fuel s (pos + length host) b'/' path (record r { addrs_host = host })
        (At-skip host a)

-- From the first digit of the port on.
port_phase :
    (fuel : ℕ) (s : Bytes) (pos : ℕ) (r : Result) (port : ℕ) (path : Bytes)
    → port < 2 ^ 16
    → At s pos (to_string port ++ b'/' ∷ path)
    → loop (length (to_string port) + suc (suc (suc fuel))) s (at_loop parser_port pos pos r)
      ≡ ok (record r { addrs_port = some port; addrs_path = b'/' ∷ path })
port_phase fuel s pos r port path h a =
    scan parser_port digits (b'/' ∷ path) (suc (suc (suc fuel))) s pos pos r
      (port-Quiet digits (AllDigits-Lacks b'/' refl digits (to_string-AllDigits port))) a
    ∙ port_round (suc (suc fuel)) s pos r (pos + length digits) port digits path
        (At-token digits (b'/' ∷ path) a) (stoi-to_string port (omega arith)) (At-skip digits a)
    ∙ path_rounds fuel s (pos + length digits) b'/' path
        (record r { addrs_port = some (port % 2 ^ 16) }) (At-skip digits a)
    ∙ ap (λ n. ok (record r { addrs_port = some n; addrs_path = b'/' ∷ path })) (mod-eq_of_lt h)
  where
    digits : Bytes
    digits = to_string port

-- The rounds that the part behind the scheme takes.
tail_phase :
    (fuel : ℕ) (s : Bytes) (pos : ℕ) (r : Result) (host : Bytes) (port : Option ℕ) (path : Bytes)
    → Lacks b':' host
    → Lacks b'/' host
    → FitsPort port
    → r.addrs_port ≡ none
    → At s pos (host ++ tail_text port path)
    → length s - pos + 3 ≤ fuel
    → loop fuel s (at_loop parser_host pos pos r)
      ≡ ok (record r { addrs_host = host; addrs_port = port; addrs_path = b'/' ∷ path })
tail_phase fuel s pos r host none path h k f e a big =
    let rounds : fuel ≡ length host + suc (suc (suc (fuel - length host - 3))) =
      omega (arith, a.size_is, length-append host (b'/' ∷ path)) in
    ap (λ n. loop n s (at_loop parser_host pos pos r)) rounds
    ∙ host_phase (fuel - length host - 3) s pos r host path h k a
    ∙ ap (λ p. ok (record r { addrs_host = host; addrs_port = p; addrs_path = b'/' ∷ path })) e
tail_phase fuel s pos r host (some port) path h k f e a big =
    let digits : Bytes = to_string port in
    let left : ℕ = fuel - length host - length digits - 4 in
    let rounds : fuel ≡ length host + suc (length digits + suc (suc (suc left))) = omega (
      arith,
      a.size_is,
      length-append host (b':' ∷ (digits ++ b'/' ∷ path)),
      length-append digits (b'/' ∷ path),
    ) in
    ap (λ n. loop n s (at_loop parser_host pos pos r)) rounds
    ∙ scan parser_host host (b':' ∷ (digits ++ b'/' ∷ path))
        (suc (length digits + suc (suc (suc left)))) s pos pos r (host-Quiet host h k) a
    ∙ host_port_round (length digits + suc (suc (suc left))) s pos r (pos + length host) host
        (digits ++ b'/' ∷ path) (At-token host (b':' ∷ (digits ++ b'/' ∷ path)) a) (At-skip host a)
    ∙ port_phase left s (pos + length host + 1) (record r { addrs_host = host }) port path f
        (At-skip (b':' ∷ []) (At-skip host a))

-- From the start of the text to the first character behind the scheme's `://`.
pub sign_phase :
    (s sign rest : Bytes) (fuel : ℕ)
    → Lacks b':' sign
    → At s 0 (sign ++ (codes "://" ++ rest))
    → loop (length sign + suc fuel) s (at_loop parser_sign 0 0 initial_result)
      ≡ loop fuel s (
          at_loop parser_host (length sign + 3) (length sign + 3) (record initial_result {
            http_sign = sign;
            is_enable_tls = bytes_eq sign (codes "https");
          }))
sign_phase s sign rest fuel h a =
    let e : 0 + length sign ≡ length sign = omega arith in
    scan parser_sign sign (codes "://" ++ rest) (suc fuel) s 0 0 initial_result (sign-Quiet sign h)
      a
    ∙ ap (λ p. loop (suc fuel) s (at_loop parser_sign p 0 initial_result)) e
    ∙ sign_round fuel s 0 initial_result (length sign) sign rest
        (rw e at (At-token sign (codes "://" ++ rest) a)) (rw e at (At-skip sign a))

-- The whole text up to the first character behind `://`, with the rounds of `parse`.
pub parse_sign :
    (sign rest : Bytes)
    → Lacks b':' sign
    → let s = sign ++ (codes "://" ++ rest) in
      At s (length sign + 3) rest
      × (parse s
          ≡ loop (length rest + 8) s (
              at_loop parser_host (length sign + 3) (length sign + 3) (record initial_result {
                http_sign = sign;
                is_enable_tls = bytes_eq sign (codes "https");
              })))
unfolding parse
parse_sign sign rest h = (
  rw e at (At-skip (codes "://") (At-skip sign (At-start s))),
  ap (λ n. loop n s (at_loop parser_sign 0 0 initial_result)) rounds
      ∙ sign_phase s sign rest (length rest + 8) h (At-start s),
)
  where
    s : Bytes
    s = sign ++ (codes "://" ++ rest)

    e : 0 + length sign ≡ length sign
    e = omega arith

    rounds : length s + 6 ≡ length sign + suc (length rest + 8)
    rounds = omega (arith, length-append sign (codes "://" ++ rest))

-- A well-formed URL with a path is parsed into exactly its parts, with TLS on when the scheme is
-- `https`; a port that is not written stays indeterminate.
pub parse-text : (u : Url) → IsWellFormed u → parse (text u) ≡ ok (result_of u)
parse-text u w =
    let rest : Bytes = u.host ++ tail_text u.port u.path in
    let (behind, started) = parse_sign u.sign rest w.sign_clean in
    started
    ∙ tail_phase (length rest + 8) (text u) (length u.sign + 3)
        (record initial_result {
          http_sign = u.sign;
          is_enable_tls = bytes_eq u.sign (codes "https");
        })
        u.host u.port u.path w.host_colon w.host_slash w.port_fits refl behind
        (omega (arith, behind.size_is))
