-- ===== src/Url/Basic/Hostless.antt =====
-- What the basic parser makes of texts without a path or without `://`.
use mtasc.Common.{
  ℕ, suc, ◌+◌, ◌≡◌, ap, ◌∙◌, [], ◌∷◌, ◌++◌, append-nil, Bytes, codes, At, At-start, At-skip, length,
  length-append, Lacks, At-token, ok, out_of_bounds, arith, bytes_eq, ◌≢◌, ◌<◌, ==_false,
  char_at_beyond, At-char,
}
use mtasc.Url.Basic.{
  parser_sign, parser_host, parser_port, Loop, Result, loop, parse, initial_result, step,
  found_sign,
}
use mtasc.Url.Basic.Scan.{
  at_loop, Quiet, sign-Quiet, host-Quiet, port-Quiet, scan, loop_end, host_port_round, loop_round,
}
use mtasc.Url.Basic.RoundTrip.{parse_sign}

abbrev pub signed_result : Bytes → Result
signed_result sign = record initial_result {
  http_sign = sign;
  is_enable_tls = bytes_eq sign (codes "https");
}

-- A run that no test meets, up to the end of the text, leaves the result as it is.
scan_to_end :
    (st : _) (xs : Bytes) (fuel : ℕ) (s : Bytes) (pos start : ℕ) (r : Result)
    → Quiet st xs
    → At s pos xs
    → loop (length xs + suc fuel) s (at_loop st pos start r) ≡ ok r
scan_to_end st xs fuel s pos start r q a =
    let whole : At s pos (xs ++ []) = rw (append-nil xs) a in
    scan st xs [] (suc fuel) s pos start r q whole
    ∙ loop_end fuel s (at_loop st (pos + length xs) start r) (At-skip xs whole)

-- A text without a colon gives an empty result.
pub parse_without_sign : (s : Bytes) → Lacks b':' s → parse s ≡ ok initial_result
unfolding parse
parse_without_sign s h =
    scan_to_end parser_sign s 5 s 0 0 initial_result (sign-Quiet s h) (At-start s)

-- A URL that ends behind its host loses the host: the parser stores it only at the `:` or `/`
-- that follows.
pub parse_without_path :
    (sign host : Bytes)
    → Lacks b':' sign
    → Lacks b':' host
    → Lacks b'/' host
    → parse (sign ++ (codes "://" ++ host)) ≡ ok (signed_result sign)
parse_without_path sign host h k m =
    let (behind, started) = parse_sign sign host h in
    started ∙ scan_to_end parser_host host 7 _ _ _ (signed_result sign) (host-Quiet host k m) behind

-- A URL that ends behind its port keeps the host and loses the port.
pub parse_without_path_port :
    (sign host port : Bytes)
    → Lacks b':' sign
    → Lacks b':' host
    → Lacks b'/' host
    → Lacks b'/' port
    → parse (sign ++ (codes "://" ++ (host ++ b':' ∷ port)))
      ≡ ok (record (signed_result sign) { addrs_host = host })
parse_without_path_port sign host port h k m n =
    let rest : Bytes = host ++ b':' ∷ port in
    let s : Bytes = sign ++ (codes "://" ++ rest) in
    let (behind, started) = parse_sign sign rest h in
    let rounds : length rest + 8 ≡ length host + suc (length port + 8) =
      omega (arith, length-append host (b':' ∷ port)) in
    started
    ∙ ap
        (λ f.
          loop f s (at_loop parser_host (length sign + 3) (length sign + 3) (signed_result sign)))
        rounds
    ∙ scan parser_host host (b':' ∷ port) (suc (length port + 8)) s (length sign + 3)
        (length sign + 3) (signed_result sign) (host-Quiet host k m) behind
    ∙ host_port_round (length port + 8) s (length sign + 3) (signed_result sign)
        (length sign + 3 + length host) host port (At-token host (b':' ∷ port) behind)
        (At-skip host behind)
    ∙ scan_to_end parser_port port 7 s (length sign + 3 + length host + 1)
        (length sign + 3 + length host + 1) (record (signed_result sign) { addrs_host = host })
        (port-Quiet port n) (At-skip (b':' ∷ []) (At-skip host behind))

loop_past :
    (fuel : ℕ) (s : Bytes) (l : Loop) → length s < l.char_pos → loop (suc fuel) s l ≡ out_of_bounds
unfolding loop
loop_past fuel s l h =
    let past : l.char_pos ≢ length s = omega arith in
    rw (==_false l.char_pos (length s) past, char_at_beyond s l.char_pos h)

short_sign_round :
    (fuel : ℕ) (s : Bytes) (pos start : ℕ) (r : Result)
    → At s pos (codes ":/")
    → loop (suc (suc fuel)) s (at_loop parser_sign pos start r) ≡ out_of_bounds
unfolding step found_sign
short_sign_round fuel s pos start r a =
    loop_round (suc fuel) s (at_loop parser_sign pos start r) b':' (codes "/") a
    ∙ rw (At-char (At-skip (codes ":") a)) (loop_past fuel s _ (omega (arith, a.size_is)))

-- A text that ends right behind the first `:/` makes the parser read outside it, whatever stands
-- before: the pointer is moved by three where two characters are left.
pub parse_out_of_bounds :
    (sign : Bytes) → Lacks b':' sign → parse (sign ++ codes ":/") ≡ out_of_bounds
unfolding parse
parse_out_of_bounds sign h =
    ap (λ f. loop f s (at_loop parser_sign 0 0 initial_result)) rounds
    ∙ scan parser_sign sign (codes ":/") (suc (suc 6)) s 0 0 initial_result (sign-Quiet sign h)
        (At-start s)
    ∙ short_sign_round 6 s (0 + length sign) 0 initial_result behind
  where
    s : Bytes
    s = sign ++ codes ":/"

    rounds : length s + 6 ≡ length sign + suc (suc 6)
    rounds = omega (arith, length-append sign (codes ":/"))

    behind : At s (0 + length sign) (codes ":/")
    behind = At-skip sign (At-start s)
