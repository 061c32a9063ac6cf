-- ===== src/Client/Send.antt =====
-- A request from the text of a URL to the bytes on the wire, as a client sends it: it parses the
-- URL, makes the template from the host and the full path, and writes that to a connected socket.
use mtasc.Common.{
  ℕ, ◌<◌, ◌≡◌, ap, ◌∙◌, List, ◌∷◌, ◌++◌, Bytes, crlf, length, take_all, false, not, ◌||◌, some, ok,
  ◌>>=◌, arith, suc,
}
use mtasc.Url.Query.Texts as QueryText
use mtasc.Http.{HttpMethod, Headers, create_httpv1_template}
use mtasc.Http.Reader.{read_head}
use mtasc.Http.Lines.{head_lines, sent_body}
use mtasc.Http.Sendable.{IsSendable, message-no_nul, message_filled, read_message}
use mtasc.Tcp.{ClientContext, System, Io, Callback, no_error, is_negative}
use mtasc.Tcp.Write.{strlen, is_empty, async_write}
use mtasc.Tcp.Write.Complete.{AlwaysWrites, async_write-Wrote, strlen-length}
use mtasc.Client.{sync_parser_query_url}
use mtasc.Client.Sync.{sync_query-text}

-- The path and the query, as they stand in the URL.
abbrev pub full_path_of : QueryText.Url → Bytes
full_path_of u = b'/' ∷ (u.path ++ b'?' ∷ u.query)

-- What has become of a request when its callback is called: without an error, for as many bytes as
-- followed those sent before, and a receiver of these reads the lines, and behind them the rest.
pub record Arrives (io : Io) (lines : List Bytes) (rest : Bytes) (out : Callback × Io)
    : Type 0 where
  pub no_failure : out.0.error ≡ no_error
  pub bytes : Bytes
  pub all_counted : out.0.count ≡ length bytes
  pub on_the_wire : out.1.sent ≡ io.sent ++ bytes
  pub is_read : read_head (suc (length lines)) bytes ≡ some (lines, rest)

-- The write of the template.
written_message :
    (u : QueryText.Url) (method : HttpMethod) (headers : Headers) (body : Bytes) (sys : System)
    (c : ClientContext) (io : Io) (fuel : ℕ)
    → IsSendable u.host (full_path_of u) body headers
    → AlwaysWrites sys
    → (is_negative c.socketfd || c.this_addr_invalid || not c.resovler_addrs) ≡ false
    → length (create_httpv1_template u.host (full_path_of u) body method headers) < fuel
    → (out : Callback × Io) × (async_write fuel sys c
          (create_httpv1_template u.host (full_path_of u) body method headers)
          io
        ≡ ok out)
      × Arrives io
          (head_lines method u.host (full_path_of u) headers body)
          (crlf ++ sent_body method body)
          out
written_message u method headers body sys c io fuel w writes guard big =
    let message : Bytes = create_httpv1_template u.host (full_path_of u) body method headers in
    let size : strlen message ≡ length message =
      strlen-length message (message-no_nul u.host (full_path_of u) body method headers w) in
    let filled : is_empty message ≡ false =
      message_filled u.host (full_path_of u) body method headers w in
    let (out, e, wrote) =
      async_write-Wrote sys c message io fuel writes (rw (guard, filled)) (omega (arith, size)) in
    (
      out,
      e,
      record {
        no_failure = wrote.no_failure;
        bytes = message;
        all_counted = wrote.full_count ∙ size;
        on_the_wire =
            wrote.on_the_wire
            ∙ ap (λ b. io.sent ++ b) (take_all (strlen message) message (omega (arith, size)));
        is_read = read_message u.host (full_path_of u) body method headers w;
      },
    )

-- A request for a well-formed URL arrives, if nothing in it is a NUL, no line of its head holds a
-- CR and every header has a name and a value: parsing the text of the URL, making the template from
-- the parsed host and full path and writing it with `async_write` ends in a callback without an
-- error, if every `write` takes at least a byte, the context passes the guard and the fuel is above
-- the length of the template. The callback counts just the bytes that went out behind what was sent
-- before. A receiver of them reads the request line with the path and the query of the URL, the
-- host of the URL, the headers in their order, and the closing lines, and behind the empty line one
-- more CR LF and the body of a POST.
pub request-Arrives :
    (u : QueryText.Url) (method : HttpMethod) (headers : Headers) (body : Bytes) (sys : System)
    (c : ClientContext) (io : Io) (fuel : ℕ)
    → QueryText.IsWellFormed u
    → IsSendable u.host (full_path_of u) body headers
    → AlwaysWrites sys
    → (is_negative c.socketfd || c.this_addr_invalid || not c.resovler_addrs) ≡ false
    → length (create_httpv1_template u.host (full_path_of u) body method headers) < fuel
    → (out : Callback × Io) × ((sync_parser_query_url (QueryText.text u) >>= λ r.
          async_write fuel sys c
            (create_httpv1_template r.addrs_host r.full_path body method headers)
            io)
        ≡ ok out)
      × Arrives io
          (head_lines method u.host (full_path_of u) headers body)
          (crlf ++ sent_body method body)
          out
request-Arrives u method headers body sys c io fuel well w writes guard big =
    let (m, params, parsed) = sync_query-text u well in
    let (out, e, arrived) =
      written_message u method headers body sys c io fuel w writes guard big in
    (out, rw parsed e, arrived)
