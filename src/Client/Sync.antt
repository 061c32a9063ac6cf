-- ===== src/Client/Sync.antt =====
-- The synchronous URL calls of the tool, from the text of a URL to the fields that a client reads.
use mtasc.Common.{
  ◌≡◌, ◌∷◌, ◌++◌, Bytes, codes, bytes_eq, Outcome, ok, thrown, out_of_bounds, out_of_fuel, ◌>>=◌,
}
use mtasc.Url.Safety.{Safe}
use mtasc.Url.Params.{ParamMap, parse_params}
use mtasc.Url.Basic
use mtasc.Url.Query
use mtasc.Url.Basic.Total as BasicTotal
use mtasc.Url.Basic.RoundTrip as BasicText
use mtasc.Url.Query.Total as QueryTotal
use mtasc.Url.Query.Texts as QueryText
use mtasc.Url.Query.RoundTrip as QueryRoundTrip
use mtasc.Client.{sync_parser_basic_uri, sync_parser_query_url}

-- From a well-formed URL with a path `syncParserBasicUri` gives its host, its path with the slash,
-- its port if it is written, and whether its scheme is `https`.
pub sync_basic-text :
    (u : BasicText.Url)
    → BasicText.IsWellFormed u
    → sync_parser_basic_uri (BasicText.text u)
      ≡ ok (record {
        addrs_host = u.host;
        addrs_path = b'/' ∷ u.path;
        addrs_port = u.port;
        this_url_enable_tls = bytes_eq u.sign (codes "https");
      })
unfolding sync_parser_basic_uri
sync_basic-text u w = rw (BasicText.parse-text u w)

-- From a well-formed URL with a path and a query `syncParserQueryUrl` gives its parts, the
-- parameters of its query, and as the full path just what the URL has between the host or port and
-- the fragment.
pub sync_query-text :
    (u : QueryText.Url)
    → QueryText.IsWellFormed u
    → (m : ParamMap) × (parse_params (b'?' ∷ u.query) ≡ ok m)
      × (sync_parser_query_url (QueryText.text u)
          ≡ ok (record {
            addrs_host = u.host;
            addrs_query_path = b'?' ∷ u.query;
            addrs_port = u.port;
            this_url_enable_tls = bytes_eq u.sign (codes "https");
            addrs_basic_path = b'/' ∷ u.path;
            full_path = b'/' ∷ (u.path ++ b'?' ∷ u.query);
            query_paramter_map = m;
          }))
unfolding sync_parser_query_url
sync_query-text u w =
    let (m, params, parsed) = QueryRoundTrip.parse-query_text u w in (m, params, rw parsed)

Safe-bind :
    {A B : Type 0} (s : Bytes) (o : Outcome A) (f : A → B) → Safe s o → Safe s (o >>= λ a. ok (f a))
Safe-bind s (ok a) f h = tt
Safe-bind s (thrown e) f h = tt
Safe-bind s out_of_bounds f h = h
Safe-bind s out_of_fuel f h = h

-- Both URL calls end on every text, with a result or an exception, unless the text ends right
-- behind `:/`.
pub sync_urls-Safe :
    (url : Bytes) → Safe url (sync_parser_basic_uri url) × Safe url (sync_parser_query_url url)
unfolding sync_parser_basic_uri sync_parser_query_url
sync_urls-Safe url = (
  Safe-bind url (Basic.parse url) _ (BasicTotal.parse-Safe url),
  Safe-bind url (Query.parse url) _ (QueryTotal.parse_query-Safe url),
)
