-- ===== src/Url/Basic/Tests.antt =====
-- Runs of the basic parser on concrete URLs.
use mtasc.Common.{◌≡◌, ◌∷◌, ◌++◌, refl, arith, Lacks-of_lacks, some, codes, ok, true, out_of_bounds}
use mtasc.Number.{stoi, signed_int, unsigned_int, positive_int, digits_value, to_uint16}
use mtasc.Url.Basic.{parse, initial_result}
use mtasc.Url.Safety.{Safe}
use mtasc.Url.Basic.Total.{parse-Safe}
use mtasc.Url.Basic.RoundTrip.{Url, IsWellFormed, text, result_of, parse-text}
use mtasc.Url.Basic.Hostless.{
  signed_result, parse_without_sign, parse_without_path, parse_without_path_port,
  parse_out_of_bounds,
}

parse_test :
    parse (codes "https://www.test.org:8080/path/")
    ≡ ok (record {
      addrs_host = codes "www.test.org";
      addrs_path = codes "/path/";
      http_sign = codes "https";
      addrs_port = some 8080;
      is_enable_tls = true;
    })
unfolding parse stoi signed_int unsigned_int positive_int digits_value to_uint16
parse_test = refl

parse_runs_past_the_end : parse (codes "a:/") ≡ out_of_bounds
unfolding parse
parse_runs_past_the_end = refl

parse-Safe_example : Safe (codes "http://a:x/") (parse (codes "http://a:x/"))
parse-Safe_example = parse-Safe (codes "http://a:x/")

abbrev test_url : Url
test_url = record {
  sign = codes "https";
  host = codes "www.test.org";
  port = some 8080;
  path = codes "path/";
}

test_url-IsWellFormed : IsWellFormed test_url
test_url-IsWellFormed = record {
  sign_clean = Lacks-of_lacks b':' (codes "https") refl;
  host_colon = Lacks-of_lacks b':' (codes "www.test.org") refl;
  host_slash = Lacks-of_lacks b'/' (codes "www.test.org") refl;
  port_fits = omega arith;
}

parse-text_example : parse (text test_url) ≡ ok (result_of test_url)
parse-text_example = parse-text test_url test_url-IsWellFormed

url_without_sign : parse (codes "www.test.org/a") ≡ ok initial_result
url_without_sign =
    parse_without_sign (codes "www.test.org/a") (Lacks-of_lacks b':' (codes "www.test.org/a") refl)

parse_without_path_example :
    parse (codes "https" ++ (codes "://" ++ codes "test.org")) ≡ ok (signed_result (codes "https"))
parse_without_path_example =
    parse_without_path (codes "https") (codes "test.org") (Lacks-of_lacks b':' (codes "https") refl)
      (Lacks-of_lacks b':' (codes "test.org") refl) (Lacks-of_lacks b'/' (codes "test.org") refl)

url_with_port_only :
    parse (codes "https" ++ (codes "://" ++ (codes "test.org" ++ b':' ∷ codes "8080")))
    ≡ ok (record (signed_result (codes "https")) { addrs_host = codes "test.org" })
url_with_port_only =
    parse_without_path_port (codes "https") (codes "test.org") (codes "8080")
      (Lacks-of_lacks b':' (codes "https") refl) (Lacks-of_lacks b':' (codes "test.org") refl)
      (Lacks-of_lacks b'/' (codes "test.org") refl) (Lacks-of_lacks b'/' (codes "8080") refl)

parse_out_of_bounds_test : parse (codes "http" ++ codes ":/") ≡ out_of_bounds
parse_out_of_bounds_test =
    parse_out_of_bounds (codes "http") (Lacks-of_lacks b':' (codes "http") refl)
