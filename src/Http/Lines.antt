-- ===== src/Http/Lines.antt =====
-- What a receiver reads of the requests that the client writes.
use mtasc.Common.{
  ◌≡◌, refl, ◌∙◌, List, [], ◌∷◌, ◌++◌, append_assoc, Bytes, codes, crlf, length, false, Lacks,
}
use mtasc.Number.{to_string}
use mtasc.Http.{
  HttpMethod, get, post, method_to_str, Headers, empty, all_written, add_headers, connection_close,
  finish_template, create_httpv1_template, request_start,
}
use mtasc.Http.Reader.{join_lines}

-- A header with a name and a value, neither with a CR.
pub record IsHeader (header : Bytes × Bytes) : Type 0 where
  pub name_filled : empty header.0 ≡ false
  pub value_filled : empty header.1 ≡ false
  pub name_no_cr : Lacks 13 header.0
  pub value_no_cr : Lacks 13 header.1

abbrev pub AllHeaders : Headers → Type 0
AllHeaders [] = Unit {0}
AllHeaders (h ∷ headers) = IsHeader h × AllHeaders headers

abbrev pub header_line : Bytes × Bytes → Bytes
header_line (name, value) = name ++ (codes ": " ++ value)

abbrev pub request_line : HttpMethod → Bytes → Bytes
request_line method path = method_to_str method ++ (codes " " ++ (path ++ codes " HTTP/1.1"))

abbrev pub host_line : Bytes → Bytes
host_line host = codes "Host: " ++ host

abbrev pub header_lines : Headers → List Bytes → List Bytes
header_lines [] behind = behind
header_lines (h ∷ headers) behind = header_line h ∷ header_lines headers behind

-- The lines behind the headers.
abbrev pub closing_lines : HttpMethod → Bytes → List Bytes
closing_lines get body = connection_close ∷ []
closing_lines post body =
    (codes "Content-Length: " ++ to_string (length body)) ∷ connection_close ∷ []

abbrev pub head_lines : HttpMethod → Bytes → Bytes → Headers → Bytes → List Bytes
head_lines method host path headers body =
    request_line method path ∷ host_line host ∷ header_lines headers (closing_lines method body)

abbrev pub sent_body : HttpMethod → Bytes → Bytes
sent_body get body = []
sent_body post body = body

pub add_headers_lem :
    (headers : Headers) (t : Bytes) (behind : List Bytes) (body : Bytes)
    → AllHeaders headers
    → (t' : Bytes) × (add_headers t headers ≡ all_written t')
      × (t' ++ join_lines behind body ≡ t ++ join_lines (header_lines headers behind) body)
unfolding add_headers
add_headers_lem [] t behind body w = (t, refl, refl)
add_headers_lem ((name, value) ∷ headers) t behind body w =
    let (t', e, f) =
      add_headers_lem headers (t ++ (((name ++ codes ": ") ++ value) ++ crlf)) behind body w.1 in
    (t', rw (w.0.name_filled, w.0.value_filled) e, f ∙ simp append_assoc)

finish_lem :
    (method : HttpMethod) (body t : Bytes)
    → finish_template body method t
      ≡ t ++ join_lines (closing_lines method body) (crlf ++ sent_body method body)
unfolding finish_template
finish_lem get body t = simp append_assoc
finish_lem post body t = simp append_assoc

pub start_lem :
    (method : HttpMethod) (path host : Bytes) (lines : List Bytes) (body : Bytes)
    → request_start method path host ++ join_lines lines body
      ≡ join_lines (request_line method path ∷ host_line host ∷ lines) body
start_lem method path host lines body = simp append_assoc

-- The text of a request whose headers all have a name and a value.
pub template_lem :
    (host path body : Bytes) (method : HttpMethod) (headers : Headers)
    → AllHeaders headers
    → create_httpv1_template host path body method headers
      ≡ join_lines (head_lines method host path headers body) (crlf ++ sent_body method body)
unfolding create_httpv1_template
template_lem host path body method headers w =
    let (t, e, f) =
      add_headers_lem headers (request_start method path host) (closing_lines method body)
        (crlf ++ sent_body method body) w in
    rw e (
      finish_lem method body t
      ∙ f
      ∙ start_lem method path host (header_lines headers (closing_lines method body))
          (crlf ++ sent_body method body))
