-- ===== src/Url/Query/Tests.antt =====
-- Runs of the query parser on concrete URLs.
use mtasc.Common.{◌≡◌, refl, some, ◌++◌, arith, Lacks-of_lacks, none, codes, ok, true, [], ◌∷◌}
use mtasc.Url.Params.{ParamMap, parse_params, find_in, assign}
use mtasc.Url.Query.{parse, until_fragment}
use mtasc.Url.Safety.{Safe}
use mtasc.Url.Query.Total.{parse_query-Safe}
use mtasc.Url.Query.Texts.{Url, IsWellFormed, text, result_of}
use mtasc.Url.Query.RoundTrip.{parse-query_text}
use mtasc.Url.Query.Pathless.{signed_result, parse_without_query}

parse_test :
    parse (codes "https://www.test.org/user/name?n=Jack&a=2#top")
    ≡ ok (record {
      addrs_host = codes "www.test.org";
      basic_path = codes "/user/name";
      http_sign = codes "https";
      query_path = codes "?n=Jack&a=2";
      addrs_port = none;
      is_enable_tls = true;
      query_paramter_map = (codes "n", codes "Jack") ∷ (codes "a", codes "2") ∷ [];
    })
unfolding parse until_fragment parse_params find_in assign
parse_test = refl

parse_query-Safe_example : Safe (codes "http://a:x/?b") (parse (codes "http://a:x/?b"))
parse_query-Safe_example = parse_query-Safe (codes "http://a:x/?b")

abbrev test_url : Url
test_url = record {
  sign = codes "http";
  host = codes "test.org";
  port = some 80;
  path = codes "user/name";
  query = codes "n=Jack&a=2";
  fragment = some (codes "top");
}

test_url-IsWellFormed : IsWellFormed test_url
test_url-IsWellFormed = record {
  sign_clean = Lacks-of_lacks b':' (codes "http") refl;
  host_colon = Lacks-of_lacks b':' (codes "test.org") refl;
  host_slash = Lacks-of_lacks b'/' (codes "test.org") refl;
  port_fits = omega arith;
  path_query = Lacks-of_lacks b'?' (codes "user/name") refl;
  path_fragment = Lacks-of_lacks b'#' (codes "user/name") refl;
  query_fragment = Lacks-of_lacks b'#' (codes "n=Jack&a=2") refl;
}

parse-query_text_example :
    (m : ParamMap) × (parse_params (codes "?n=Jack&a=2") ≡ ok m)
    × (parse (text test_url) ≡ ok (result_of test_url m))
parse-query_text_example = parse-query_text test_url test_url-IsWellFormed

url_with_path_only :
    parse (codes "http" ++ (codes "://" ++ (codes "test.org" ++ b'/' ∷ codes "user")))
    ≡ ok (record (signed_result (codes "http")) { addrs_host = codes "test.org" })
url_with_path_only =
    parse_without_query (codes "http") (codes "test.org") (codes "user")
      (Lacks-of_lacks b':' (codes "http") refl) (Lacks-of_lacks b':' (codes "test.org") refl)
      (Lacks-of_lacks b'/' (codes "test.org") refl) (Lacks-of_lacks b'?' (codes "user") refl)
      (Lacks-of_lacks b'#' (codes "user") refl)
