-- ===== src/Client/Tests.antt =====
-- The calls of the tool at concrete URLs.
use mtasc.Common.{
  thrown, out_of_range, ℕ, ◌<◌, ◌++◌, length, ◌>>=◌, ◌≡◌, refl, List, [], ◌∷◌, codes, ok, some,
  true, false, none, Lacks-of_lacks, arith,
}
use mtasc.Url.Params.{ParamMap, parse_params}
use mtasc.Url.Basic.RoundTrip as BasicText
use mtasc.Url.Query.Texts as QueryText
use mtasc.Http.{get, post, Headers, create_httpv1_template}
use mtasc.Number.{pos, to_string, stoi, signed_int, unsigned_int, positive_int, digits_value}
use mtasc.Client.{
  sync_parser_basic_uri, sync_parser_query_url, Request, basic_uri, httpv1_tmp, Reply, basic_url,
  template, sync_reply, drain,
}
use mtasc.Buffer.{fresh_buffer}
use mtasc.Tcp.{ClientContext, System, Io, Callback, closed, wrote}
use mtasc.Tcp.Write.{async_write}
use mtasc.Http.Sendable.{IsSendable}
use mtasc.Client.Send.{Arrives, request-Arrives}
use mtasc.Client.Sync.{sync_basic-text, sync_query-text}
use mtasc.Client.Async.{sync_all, drain-sync_all, computations, async_replies}

abbrev basic_test : BasicText.Url
basic_test = record {
  sign = codes "https";
  host = codes "test.org";
  port = some 443;
  path = codes "a";
}

basic_test-IsWellFormed : BasicText.IsWellFormed basic_test
basic_test-IsWellFormed = record {
  sign_clean = Lacks-of_lacks b':' (codes "https") refl;
  host_colon = Lacks-of_lacks b':' (codes "test.org") refl;
  host_slash = Lacks-of_lacks b'/' (codes "test.org") refl;
  port_fits = omega arith;
}

basic_of_test :
    sync_parser_basic_uri (BasicText.text basic_test)
    ≡ ok (record {
      addrs_host = codes "test.org";
      addrs_path = codes "/a";
      addrs_port = some 443;
      this_url_enable_tls = true;
    })
basic_of_test = sync_basic-text basic_test basic_test-IsWellFormed

abbrev query_test : QueryText.Url
query_test = record {
  sign = codes "http";
  host = codes "test.org";
  port = none;
  path = codes "a";
  query = codes "b=1";
  fragment = some (codes "c");
}

query_test-IsWellFormed : QueryText.IsWellFormed query_test
query_test-IsWellFormed = record {
  sign_clean = Lacks-of_lacks b':' (codes "http") refl;
  host_colon = Lacks-of_lacks b':' (codes "test.org") refl;
  host_slash = Lacks-of_lacks b'/' (codes "test.org") refl;
  port_fits = tt;
  path_query = Lacks-of_lacks b'?' (codes "a") refl;
  path_fragment = Lacks-of_lacks b'#' (codes "a") refl;
  query_fragment = Lacks-of_lacks b'#' (codes "b=1") refl;
}

test_query_parsed :
    (m : ParamMap) × (parse_params (codes "?b=1") ≡ ok m)
    × (sync_parser_query_url (QueryText.text query_test)
        ≡ ok (record {
          addrs_host = codes "test.org";
          addrs_query_path = codes "?b=1";
          addrs_port = none;
          this_url_enable_tls = false;
          addrs_basic_path = codes "/a";
          full_path = codes "/a?b=1";
          query_paramter_map = m;
        }))
test_query_parsed = sync_query-text query_test query_test-IsWellFormed

-- Every `write` takes three bytes.
abbrev three_bytes : System
three_bytes = record { on_select = λ i. none; on_recv = λ i. closed; on_write = λ i. wrote 3 }

abbrev test_context : ClientContext
test_context = record {
  resovler_addrs = true;
  client_message = [];
  client_message_length = 0;
  socketfd = pos 3;
  this_addr_invalid = false;
  connect_rety_count = 0;
  max_rety_count = 2;
  client_retry_write_bytes = 0;
  client_write_bytes = 0;
  is_retry_success = false;
}

abbrev test_io : Io
test_io = record { calls = 0; errno = 0; buffer = fresh_buffer; sent = codes "<"; arrived = [] }

abbrev test_headers : Headers
test_headers = (codes "Accept", codes "text") ∷ []

test_request-IsSendable : IsSendable (codes "test.org") (codes "/a?b=1") (codes "body") test_headers
test_request-IsSendable = record {
  host_no_cr = Lacks-of_lacks 13 (codes "test.org") refl;
  path_no_cr = Lacks-of_lacks 13 (codes "/a?b=1") refl;
  headers_complete = (
    record {
      name_filled = refl;
      value_filled = refl;
      name_no_cr = Lacks-of_lacks 13 (codes "Accept") refl;
      value_no_cr = Lacks-of_lacks 13 (codes "text") refl;
    },
    tt,
  );
  host_no_nul = Lacks-of_lacks 0 (codes "test.org") refl;
  path_no_nul = Lacks-of_lacks 0 (codes "/a?b=1") refl;
  headers_no_nul =
      ((Lacks-of_lacks 0 (codes "Accept") refl, Lacks-of_lacks 0 (codes "text") refl), tt);
  body_no_nul = Lacks-of_lacks 0 (codes "body") refl;
}

template_is_short :
    length
      (create_httpv1_template (codes "test.org") (codes "/a?b=1") (codes "body") post test_headers)
    < 200
unfolding create_httpv1_template mtasc.Http.add_headers mtasc.Http.finish_template
    mtasc.Http.method_to_str to_string mtasc.Number.decimal
template_is_short = omega arith

request-Arrives_example :
    (out : Callback × Io) × ((sync_parser_query_url (QueryText.text query_test) >>= λ r.
    async_write 200 three_bytes test_context
      (create_httpv1_template r.addrs_host r.full_path (codes "body") post test_headers)
      test_io)
      ≡ ok out)
    × Arrives test_io
        (codes "POST /a?b=1 HTTP/1.1"
          ∷ codes "Host: test.org"
          ∷ codes "Accept: text"
          ∷ (codes "Content-Length: " ++ to_string 4)
          ∷ codes "Connection: close"
          ∷ [])
        (codes "\r\nbody")
        out
unfolding mtasc.Http.method_to_str
request-Arrives_example =
    request-Arrives query_test post test_headers (codes "body") three_bytes test_context test_io 200
      query_test-IsWellFormed test_request-IsSendable (λ i. (2, refl)) refl template_is_short

abbrev test_calls : List (ℕ × Request)
test_calls =
    (7, basic_uri (BasicText.text basic_test))
    ∷ (8, httpv1_tmp (codes "test.org") (codes "/a") [] get [])
    ∷ []

abbrev test_replies : List (ℕ × Reply)
test_replies =
    (
      7,
      basic_url (record {
        addrs_host = codes "test.org";
        addrs_path = codes "/a";
        addrs_port = some 443;
        this_url_enable_tls = true;
      }),
    )
    ∷ (8, template (create_httpv1_template (codes "test.org") (codes "/a") [] get []))
    ∷ []

first_reply :
    sync_reply (basic_uri (BasicText.text basic_test))
    ≡ ok (
        basic_url (record {
          addrs_host = codes "test.org";
          addrs_path = codes "/a";
          addrs_port = some 443;
          this_url_enable_tls = true;
        }))
unfolding sync_reply
first_reply = rw basic_of_test

second_reply :
    sync_reply (httpv1_tmp (codes "test.org") (codes "/a") [] get [])
    ≡ ok (template (create_httpv1_template (codes "test.org") (codes "/a") [] get []))
unfolding sync_reply
second_reply = refl

test_calls_answered : drain 5 (computations test_calls) ≡ ok test_replies
test_calls_answered =
    async_replies test_calls test_replies (refl, first_reply, (refl, second_reply, tt))

-- A port that no `int` holds.
abbrev failing_calls : List (ℕ × Request)
failing_calls =
    (7, httpv1_tmp (codes "test.org") (codes "/a") [] get [])
    ∷ (8, basic_uri (codes "http://test.org:99999999999/a"))
    ∷ []

drain-sync_all_example : drain 5 (computations failing_calls) ≡ sync_all failing_calls
drain-sync_all_example = drain-sync_all failing_calls

-- The reply of the first call is never given.
unanswered : sync_all failing_calls ≡ thrown out_of_range
unfolding sync_reply sync_parser_basic_uri mtasc.Url.Basic.parse stoi signed_int unsigned_int
    positive_int digits_value
unanswered = refl
