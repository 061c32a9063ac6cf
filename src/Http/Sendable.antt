-- ===== src/Http/Sendable.antt =====
-- Requests that arrive whole: those whose text no NUL ends, and whose head a receiver can read.
use mtasc.Common.{
  suc, ◌≡◌, refl, List, [], ◌∷◌, ◌++◌, Bytes, codes, crlf, length, false, some, Lacks, Lacks-append,
  arith,
}
use mtasc.Number.{to_string}
use mtasc.Number.RoundTrip.{AllDigits-Lacks, to_string-AllDigits}
use mtasc.Http.{HttpMethod, get, post, method_to_str, Headers, empty, create_httpv1_template}
use mtasc.Http.Reader.{read_head, join_lines}
use mtasc.Http.Lines.{
  AllHeaders, request_line, header_lines, closing_lines, head_lines, sent_body, template_lem,
}
use mtasc.Http.Shape.{read_head-template}

-- No header holds a NUL.
abbrev pub NoHeaderNul : Headers → Type 0
NoHeaderNul [] = Unit {0}
NoHeaderNul (h ∷ headers) = (Lacks 0 h.0 × Lacks 0 h.1) × NoHeaderNul headers

-- Nothing in the request is a NUL, no line of its head holds a CR, and every header has a name and
-- a value.
pub record IsSendable (host path body : Bytes) (headers : Headers) : Type 0 where
  pub host_no_cr : Lacks 13 host
  pub path_no_cr : Lacks 13 path
  pub headers_complete : AllHeaders headers
  pub host_no_nul : Lacks 0 host
  pub path_no_nul : Lacks 0 path
  pub headers_no_nul : NoHeaderNul headers
  pub body_no_nul : Lacks 0 body

abbrev NoLineNul : List Bytes → Type 0
NoLineNul [] = Unit {0}
NoLineNul (line ∷ lines) = Lacks 0 line × NoLineNul lines

join_lines-no_nul :
    (lines : List Bytes) (body : Bytes)
    → NoLineNul lines
    → Lacks 0 body
    → Lacks 0 (join_lines lines body)
join_lines-no_nul [] body h k = (omega arith, (omega arith, k))
join_lines-no_nul (line ∷ lines) body h k =
    Lacks-append 0 line (crlf ++ join_lines lines body) h.0
      (omega arith, (omega arith, join_lines-no_nul lines body h.1 k))

header_lines-no_nul :
    (headers : Headers) (behind : List Bytes)
    → NoHeaderNul headers
    → NoLineNul behind
    → NoLineNul (header_lines headers behind)
header_lines-no_nul [] behind h k = k
header_lines-no_nul ((name, value) ∷ headers) behind h k = (
  Lacks-append 0 name (codes ": " ++ value) h.0.0 (omega arith, (omega arith, h.0.1)),
  header_lines-no_nul headers behind h.1 k,
)

closing_lines-no_nul : (method : HttpMethod) (body : Bytes) → NoLineNul (closing_lines method body)
closing_lines-no_nul get body = (omega arith, tt)
closing_lines-no_nul post body = (
  Lacks-append 0 (codes "Content-Length: ") (to_string (length body)) (omega arith)
      (AllDigits-Lacks 0 refl (to_string (length body)) (to_string-AllDigits (length body))),
  (omega arith, tt),
)

request_line-no_nul :
    (method : HttpMethod) (path : Bytes) → Lacks 0 path → Lacks 0 (request_line method path)
unfolding method_to_str
request_line-no_nul get path h =
    Lacks-append 0 (codes "GET ") (path ++ codes " HTTP/1.1") (omega arith)
      (Lacks-append 0 path (codes " HTTP/1.1") h (omega arith))
request_line-no_nul post path h =
    Lacks-append 0 (codes "POST ") (path ++ codes " HTTP/1.1") (omega arith)
      (Lacks-append 0 path (codes " HTTP/1.1") h (omega arith))

sent_body-no_nul :
    (method : HttpMethod) (body : Bytes) → Lacks 0 body → Lacks 0 (sent_body method body)
sent_body-no_nul get body h = tt
sent_body-no_nul post body h = h

-- A request without a NUL is a text without one.
template-no_nul :
    (host path body : Bytes) (method : HttpMethod) (headers : Headers)
    → AllHeaders headers
    → Lacks 0 host
    → Lacks 0 path
    → NoHeaderNul headers
    → Lacks 0 body
    → Lacks 0 (create_httpv1_template host path body method headers)
template-no_nul host path body method headers w h k n b =
    rw (template_lem host path body method headers w) (
      join_lines-no_nul (head_lines method host path headers body) (crlf ++ sent_body method body)
        (
          request_line-no_nul method path k,
          (
            Lacks-append 0 (codes "Host: ") host (omega arith) h,
            header_lines-no_nul headers (closing_lines method body) n
                (closing_lines-no_nul method body),
          ),
        )
        (omega arith, (omega arith, sent_body-no_nul method body b)))

template_filled :
    (host path body : Bytes) (method : HttpMethod) (headers : Headers)
    → AllHeaders headers
    → empty (create_httpv1_template host path body method headers) ≡ false
unfolding method_to_str
template_filled host path body get headers w = rw (template_lem host path body get headers w)
template_filled host path body post headers w = rw (template_lem host path body post headers w)

module _ (host path body : Bytes) (method : HttpMethod) (headers : Headers)
    (w : IsSendable host path body headers) where
  pub message-no_nul : Lacks 0 (create_httpv1_template host path body method headers)
  message-no_nul =
      template-no_nul host path body method headers w.headers_complete w.host_no_nul w.path_no_nul
        w.headers_no_nul w.body_no_nul

  pub message_filled : empty (create_httpv1_template host path body method headers) ≡ false
  message_filled = template_filled host path body method headers w.headers_complete

  pub read_message :
      read_head
        (suc (length (head_lines method host path headers body)))
        (create_httpv1_template host path body method headers)
      ≡ some (head_lines method host path headers body, crlf ++ sent_body method body)
  read_message =
      read_head-template host path body method headers
        (suc (length (head_lines method host path headers body))) w.host_no_cr w.path_no_cr
        w.headers_complete (omega arith)
