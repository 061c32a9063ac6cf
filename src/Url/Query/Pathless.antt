-- ===== src/Url/Query/Pathless.antt =====
-- What the query parser makes of a URL that has no query or fragment.
use mtasc.Common.{
  ℕ, suc, ◌+◌, ◌≡◌, ap, ◌∙◌, [], ◌∷◌, ◌++◌, append-nil, Bytes, codes, At, At-skip, length,
  length-append, Lacks, At-token, ok, arith, bytes_eq,
}
use mtasc.Url.Query.{State, parser_host, parser_query, Result, loop, parse, initial_result}
use mtasc.Url.Query.Scan.{at_loop, Quiet, host-Quiet, query-Quiet, scan, loop_end, host_round}
use mtasc.Url.Query.Texts.{parse_sign}

abbrev pub signed_result : Bytes → Result
signed_result sign = record initial_result {
  http_sign = sign;
  is_enable_tls = bytes_eq sign (codes "https");
}

scan_to_end :
    (st : State) (xs : Bytes) (fuel : ℕ) (s : Bytes) (pos start : ℕ) (r : Result)
    → Quiet st xs
    → At s pos xs
    → loop (length xs + suc fuel) s (at_loop st pos start r) ≡ ok r
scan_to_end st xs fuel s pos start r q a =
    let whole : At s pos (xs ++ []) = rw (append-nil xs) a in
    scan st xs [] (suc fuel) s pos start r q whole
    ∙ loop_end fuel s (at_loop st (pos + length xs) start r) (At-skip xs whole)

-- A URL with a path and neither a query nor a fragment loses its path: the parser stores it only
-- at the `?` or `#` that follows, so both parts of the path stay empty.
pub parse_without_query :
    (sign host path : Bytes)
    → Lacks b':' sign
    → Lacks b':' host
    → Lacks b'/' host
    → Lacks b'?' path
    → Lacks b'#' path
    → parse (sign ++ (codes "://" ++ (host ++ b'/' ∷ path)))
      ≡ ok (record (signed_result sign) { addrs_host = host })
parse_without_query sign host path h k n p q =
    let rest : Bytes = host ++ b'/' ∷ path in
    let s : Bytes = sign ++ (codes "://" ++ rest) in
    let (behind, started) = parse_sign sign rest h in
    let rounds : length rest + 8 ≡ length host + suc (length path + 8) =
      omega (arith, length-append host (b'/' ∷ path)) in
    started
    ∙ ap
        (λ f.
          loop f s (at_loop parser_host (length sign + 3) (length sign + 3) (signed_result sign)))
        rounds
    ∙ scan parser_host host (b'/' ∷ path) (suc (length path + 8)) s (length sign + 3)
        (length sign + 3) (signed_result sign) (host-Quiet host k n) behind
    ∙ host_round (length path + 8) s (length sign + 3) (signed_result sign)
        (length sign + 3 + length host) host path (At-token host (b'/' ∷ path) behind)
        (At-skip host behind)
    ∙ scan_to_end parser_query path 7 s (length sign + 3 + length host + 1)
        (length sign + 3 + length host) (record (signed_result sign) { addrs_host = host })
        (query-Quiet path p q) (At-skip (b'/' ∷ []) (At-skip host behind))
