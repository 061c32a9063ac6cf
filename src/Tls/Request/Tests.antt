-- ===== src/Tls/Request/Tests.antt =====
-- The request of test/test_tls.cc.
use mtasc.Common.{◌≡◌, refl, [], ◌∷◌, codes, some, ok, arith}
use mtasc.Tcp.{Callback, no_error}
use mtasc.Tcp.Write.{strlen}
use mtasc.Tls.{Tls}
use mtasc.Tls.Session.{session, session-Wrote}
use mtasc.Tls.Samples.{test_tls_system, test_options, test_context, new_tls}
use mtasc.Http.{get, Headers, create_httpv1_template}
use mtasc.Http.Sendable.{IsSendable}
use mtasc.Tls.Request.{TlsArrives, session-TlsArrives}
use mtasc.Common.{Lacks-of_lacks, length, ◌≤◌}

session-Wrote_test :
    (cb : Callback) × (t' : Tls) × (session 1 test_tls_system test_options test_context
        (codes "hello")
        new_tls
      ≡ ok (some cb, t'))
    × (cb.error ≡ no_error)
    × (cb.count ≡ 5)
    × (t'.io.sent ≡ codes "hello")
unfolding strlen
session-Wrote_test =
    session-Wrote 1 test_tls_system test_options test_context (codes "hello") new_tls 16000 refl
      refl refl refl refl refl (omega arith) (omega arith)

abbrev json_header : Headers
json_header = (codes "Content-type", codes "application/json") ∷ []

request-IsSendable : IsSendable (codes "www.baidu.com") (codes "/") (codes "NULL") json_header
request-IsSendable = record {
  host_no_cr = Lacks-of_lacks 13 (codes "www.baidu.com") refl;
  path_no_cr = Lacks-of_lacks 13 (codes "/") refl;
  headers_complete = (
    record {
      name_filled = refl;
      value_filled = refl;
      name_no_cr = Lacks-of_lacks 13 (codes "Content-type") refl;
      value_no_cr = Lacks-of_lacks 13 (codes "application/json") refl;
    },
    tt,
  );
  host_no_nul = Lacks-of_lacks 0 (codes "www.baidu.com") refl;
  path_no_nul = Lacks-of_lacks 0 (codes "/") refl;
  headers_no_nul = (
    (
      Lacks-of_lacks 0 (codes "Content-type") refl,
      Lacks-of_lacks 0 (codes "application/json") refl,
    ),
    tt,
  );
  body_no_nul = Lacks-of_lacks 0 (codes "NULL") refl;
}

request_is_short :
    length
      (create_httpv1_template (codes "www.baidu.com") (codes "/") (codes "NULL") get json_header)
    ≤ 16001
unfolding create_httpv1_template mtasc.Http.add_headers mtasc.Http.finish_template
    mtasc.Http.method_to_str
request_is_short = omega arith

session-TlsArrives_example :
    (cb : Callback) × (t' : Tls) × (session 1 test_tls_system test_options test_context
        (create_httpv1_template (codes "www.baidu.com") (codes "/") (codes "NULL") get json_header)
        new_tls
      ≡ ok (some cb, t'))
    × TlsArrives []
        (codes "GET / HTTP/1.1"
          ∷ codes "Host: www.baidu.com"
          ∷ codes "Content-type: application/json"
          ∷ codes "Connection: close"
          ∷ [])
        (codes "\r\n")
        cb
        t'
unfolding mtasc.Http.method_to_str
session-TlsArrives_example =
    session-TlsArrives 1 test_tls_system test_options test_context new_tls (codes "www.baidu.com")
      (codes "/") (codes "NULL") get json_header 16000 request-IsSendable refl refl refl refl refl
      refl request_is_short
