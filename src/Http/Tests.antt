-- ===== src/Http/Tests.antt =====
-- Requests with concrete headers.
use mtasc.Common.{◌≡◌, refl, [], ◌∷◌, ◌++◌, Bytes, codes, crlf, some, arith, inr, Lacks-of_lacks}
use mtasc.Http.{post, connection_close, create_httpv1_template}
use mtasc.Http.Reader.{read_head, join_lines}
use mtasc.Http.Lines.{IsHeader, head_lines, request_line, host_line, header_lines}
use mtasc.Http.Shape.{read_head-template, template_incomplete}

abbrev accept : Bytes × Bytes
accept = (codes "Accept", codes "*/*")

accept-IsHeader : IsHeader accept
accept-IsHeader = record {
  name_filled = refl;
  value_filled = refl;
  name_no_cr = Lacks-of_lacks 13 (codes "Accept") refl;
  value_no_cr = Lacks-of_lacks 13 (codes "*/*") refl;
}

read_head-template_example :
    read_head 6
      (create_httpv1_template (codes "test.org") (codes "/a") (codes "xyz") post (accept ∷ []))
    ≡ some (
      head_lines post (codes "test.org") (codes "/a") (accept ∷ []) (codes "xyz"),
      crlf ++ codes "xyz",
    )
read_head-template_example =
    read_head-template (codes "test.org") (codes "/a") (codes "xyz") post (accept ∷ []) 6
      (Lacks-of_lacks 13 (codes "test.org") refl) (Lacks-of_lacks 13 (codes "/a") refl)
      (accept-IsHeader, tt) (omega arith)

template_incomplete_example :
    create_httpv1_template
      (codes "test.org")
      (codes "/a")
      (codes "xyz")
      post
      (accept ∷ (codes "Cookie", []) ∷ accept ∷ [])
    ≡ join_lines
        (request_line post (codes "/a")
          ∷ host_line (codes "test.org")
          ∷ header_lines (accept ∷ []) (connection_close ∷ []))
        crlf
template_incomplete_example =
    template_incomplete (codes "test.org") (codes "/a") (codes "xyz") post (accept ∷ [])
      (codes "Cookie", []) (accept ∷ []) (accept-IsHeader, tt) (inr refl)
