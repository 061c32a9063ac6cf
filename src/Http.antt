-- ===== src/Http.antt =====
-- lib/M_maker_httpv1_template.cc and include/client/clientapp/method.hpp: the text of an HTTP/1.1
-- request. The headers come as the list in which the `std::unordered_map` is iterated.
pub mod Reader
pub mod Lines
pub mod Shape
pub mod Sendable
mod Tests
use mtasc.Common.{
  List, [], ◌∷◌, ◌++◌, Bytes, codes, crlf, length, Bool, true, false, not, ◌&&◌, if◌then◌else◌,
}
use mtasc.Number.{to_string}

-- `httpMethod`
pub data HttpMethod : Type 0 where
  get post : HttpMethod

unfoldable pub method_to_str : HttpMethod → Bytes
method_to_str get = codes "GET"
method_to_str post = codes "POST"

abbrev pub Headers : Type 0
Headers = List (Bytes × Bytes)

abbrev pub empty : Bytes → Bool
empty [] = true
empty (c ∷ s) = false

-- What the loop over the headers comes to: the text so far, or the early return.
pub data Written : Type 0 where
  all_written : Bytes → Written
  returned : Bytes → Written

abbrev pub connection_close : Bytes
connection_close = codes "Connection: close"

unfoldable pub add_headers : Bytes → Headers → Written
add_headers t [] = all_written t
add_headers t ((name, value) ∷ headers) =
    let rest = add_headers (t ++ (((name ++ codes ": ") ++ value) ++ crlf)) headers in
    if not (empty name) && not (empty value)
    then rest
    else returned ((t ++ (connection_close ++ crlf)) ++ (crlf ++ crlf))

-- The part behind the loop.
unfoldable pub finish_template : Bytes → HttpMethod → Bytes → Bytes
finish_template body get t = (t ++ (connection_close ++ crlf)) ++ (crlf ++ crlf)
finish_template body post t =
    (((t ++ ((codes "Content-Length: " ++ to_string (length body)) ++ crlf))
        ++ (connection_close ++ crlf))
      ++ (crlf ++ crlf))
    ++ body

abbrev pub written_text : Bytes → HttpMethod → Written → Bytes
written_text body method (all_written t) = finish_template body method t
written_text body method (returned t) = t

abbrev pub request_start : HttpMethod → Bytes → Bytes → Bytes
request_start method path host =
    (((method_to_str method ++ codes " ") ++ path) ++ codes " ")
    ++ (codes "HTTP/1.1" ++ crlf)
    ++ ((codes "Host: " ++ host) ++ crlf)

-- `syncCreateHttpv1template`
unfoldable pub create_httpv1_template : Bytes → Bytes → Bytes → HttpMethod → Headers → Bytes
unfolding add_headers finish_template method_to_str
create_httpv1_template host path body method headers =
    written_text body method (add_headers (request_start method path host) headers)
