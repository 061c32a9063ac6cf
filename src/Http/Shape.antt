-- ===== src/Http/Shape.antt =====
-- What a receiver makes of a whole request.
use mtasc.Common.{
  ℕ, ◌<◌, ◌≡◌, ◌≢◌, refl, ◌∙◌, List, [], ◌∷◌, ◌++◌, append_assoc, Bytes, codes, crlf, length, true,
  false, not, ◌&&◌, some, Lacks, Lacks-append, arith, inl, inr, ◌⊎◌,
}
use mtasc.Number.{to_string}
use mtasc.Number.RoundTrip.{AllDigits-Lacks, to_string-AllDigits}
use mtasc.Http.{
  HttpMethod, get, post, method_to_str, Headers, empty, returned, add_headers, connection_close,
  create_httpv1_template, request_start,
}
use mtasc.Http.Reader.{read_head, join_lines, IsLine, AllLines, read_head-join_lines}
use mtasc.Http.Lines.{
  IsHeader, AllHeaders, header_line, request_line, host_line, header_lines, closing_lines,
  head_lines, sent_body, template_lem, start_lem,
}

method_no_cr : (method : HttpMethod) → Lacks 13 (method_to_str method)
unfolding method_to_str
method_no_cr get = omega arith
method_no_cr post = omega arith

request_line-IsLine :
    (method : HttpMethod) (path : Bytes) → Lacks 13 path → IsLine (request_line method path)
request_line-IsLine method path h = record {
  filled = not_empty method;
  no_cr =
      Lacks-append 13 (method_to_str method) (codes " " ++ (path ++ codes " HTTP/1.1"))
        (method_no_cr method)
        (omega arith, Lacks-append 13 path (codes " HTTP/1.1") h (omega arith));
}
  where
    not_empty : (method : HttpMethod) → request_line method path ≢ []
    not_empty get e = unfold method_to_str in cc
    not_empty post e = unfold method_to_str in cc

host_line-IsLine : (host : Bytes) → Lacks 13 host → IsLine (host_line host)
host_line-IsLine host h = record {
  filled = λ e. cc;
  no_cr = Lacks-append 13 (codes "Host: ") host (omega arith) h;
}

header_line-IsLine : (h : Bytes × Bytes) → IsHeader h → IsLine (header_line h)
header_line-IsLine ([], value) w = absurd (cc w.name_filled)
header_line-IsLine (c ∷ name, value) w = record {
  filled = λ e. cc;
  no_cr =
      Lacks-append 13 (c ∷ name) (codes ": " ++ value) w.name_no_cr
        (omega arith, (omega arith, w.value_no_cr));
}

closing_lines-AllLines : (method : HttpMethod) (body : Bytes) → AllLines (closing_lines method body)
closing_lines-AllLines get body = (record { filled = λ e. cc; no_cr = omega arith }, tt)
closing_lines-AllLines post body = (
  record {
    filled = λ e. cc;
    no_cr =
        Lacks-append 13 (codes "Content-Length: ") (to_string (length body)) (omega arith)
          (AllDigits-Lacks 13 refl (to_string (length body)) (to_string-AllDigits (length body)));
  },
  (record { filled = λ e. cc; no_cr = omega arith }, tt),
)

header_lines-AllLines :
    (headers : Headers) (behind : List Bytes)
    → AllHeaders headers
    → AllLines behind
    → AllLines (header_lines headers behind)
header_lines-AllLines [] behind w b = b
header_lines-AllLines (h ∷ headers) behind w b =
    (header_line-IsLine h w.0, header_lines-AllLines headers behind w.1 b)

-- A receiver reads from a request whose path, host and headers hold no CR, and whose headers all
-- have a name and a value, exactly these lines: the request line, the host, the headers in their
-- order, for a POST the length of the body in decimal, and `Connection: close`. Behind the empty
-- line that ends the head it finds one more CR LF, and then, for a POST, the body.
pub read_head-template :
    (host path body : Bytes) (method : HttpMethod) (headers : Headers) (fuel : ℕ)
    → Lacks 13 host
    → Lacks 13 path
    → AllHeaders headers
    → length (head_lines method host path headers body) < fuel
    → read_head fuel (create_httpv1_template host path body method headers)
      ≡ some (head_lines method host path headers body, crlf ++ sent_body method body)
read_head-template host path body method headers fuel h k w f =
    rw (template_lem host path body method headers w) (
      read_head-join_lines fuel (head_lines method host path headers body)
        (crlf ++ sent_body method body)
        (
          request_line-IsLine method path k,
          (
            host_line-IsLine host h,
            header_lines-AllLines headers (closing_lines method body) w
                (closing_lines-AllLines method body),
          ),
        )
        f)

abbrev pub IsIncomplete : Bytes × Bytes → Type 0
IsIncomplete h = (empty h.0 ≡ true) ⊎ (empty h.1 ≡ true)

incomplete_test :
    (name value : Bytes) → empty value ≡ true → (not (empty name) && not (empty value)) ≡ false
incomplete_test name value h = ground arith

add_headers_incomplete :
    (before : Headers) (h : Bytes × Bytes) (behind : Headers) (t : Bytes)
    → AllHeaders before
    → IsIncomplete h
    → (t' : Bytes) × (add_headers t (before ++ h ∷ behind) ≡ returned t')
      × (t' ≡ t ++ join_lines (header_lines before (connection_close ∷ [])) crlf)
unfolding add_headers
add_headers_incomplete [] (name, value) behind t w (inl e) =
    ((t ++ (connection_close ++ crlf)) ++ (crlf ++ crlf), rw e, simp append_assoc)
add_headers_incomplete [] (name, value) behind t w (inr e) = (
  (t ++ (connection_close ++ crlf)) ++ (crlf ++ crlf),
  rw (incomplete_test name value e),
  simp append_assoc,
)
add_headers_incomplete ((name, value) ∷ before) h behind t w e =
    let (t', f, g) =
      add_headers_incomplete before h behind (t ++ (((name ++ codes ": ") ++ value) ++ crlf)) w.1
        e in
    (t', rw (w.0.name_filled, w.0.value_filled) f, g ∙ simp append_assoc)

-- A header without a name or a value ends the request: whatever the method, the body and the
-- headers behind it, what is written is the head of a request without a body, with the headers
-- before it. Those have a name and a value each, and hold no CR.
pub template_incomplete :
    (host path body : Bytes) (method : HttpMethod) (before : Headers) (h : Bytes × Bytes)
    (behind : Headers)
    → AllHeaders before
    → IsIncomplete h
    → create_httpv1_template host path body method (before ++ h ∷ behind)
      ≡ join_lines
          (request_line method path ∷ host_line host ∷ header_lines before (connection_close ∷ []))
          crlf
unfolding create_httpv1_template
template_incomplete host path body method before h behind w e =
    let (t, f, g) = add_headers_incomplete before h behind (request_start method path host) w e in
    rw f (g ∙ start_lem method path host (header_lines before (connection_close ∷ [])) crlf)
