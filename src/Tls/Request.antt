-- ===== src/Tls/Request.antt =====
-- The requests of test/test_tls.cc: a client that makes its TLS objects, shakes hands and writes
-- the template of a request.
mod Tests
use mtasc.Common.{
  ℕ, suc, ◌+◌, ◌<◌, ◌≤◌, ◌≡◌, ap, ◌∙◌, ◌++◌, List, [], ◌∷◌, Bytes, crlf, true, false, Option, some,
  ok, length, take_all, arith,
}
use mtasc.Http.{HttpMethod, Headers, empty, create_httpv1_template}
use mtasc.Http.Reader.{read_head}
use mtasc.Http.Lines.{head_lines, sent_body}
use mtasc.Http.Sendable.{IsSendable, message-no_nul, message_filled, read_message}
use mtasc.Tcp.{ClientContext, Callback, no_error, is_negative}
use mtasc.Tcp.Write.{strlen}
use mtasc.Tcp.Write.Complete.{strlen-length}
use mtasc.Tls.{TlsSystem, Tls, shaken, tls_wrote}
use mtasc.Tls.Create.{OpensslOptions, loads_certs}
use mtasc.Tls.Session.{session, session-Wrote}

-- What has become of a request when its last callback is called: without an error, for as many
-- bytes as followed those sent before, and a receiver of these reads the lines, and behind them the
-- rest.
pub record TlsArrives (start : Bytes) (lines : List Bytes) (rest : Bytes) (cb : Callback) (t : Tls)
    : Type 0 where
  pub no_failure : cb.error ≡ no_error
  pub bytes : Bytes
  pub all_counted : cb.count ≡ length bytes
  pub on_the_wire : t.io.sent ≡ start ++ bytes
  pub is_read : read_head (suc (length lines)) bytes ≡ some (lines, rest)

filled_length : (s : Bytes) → empty s ≡ false → 0 < length s
filled_length [] h = absurd (cc h)
filled_length (c ∷ s) h = omega arith

-- A request over TLS arrives, if nothing in it is a NUL, no line of its head holds a CR and every
-- header has a name and a value: where OpenSSL makes its objects, loads the certificates, shakes
-- hands at once and takes as many bytes as the template has, `async_create_tls`,
-- `async_try_connect_tls` and `async_write_tls` of the template all succeed on a socket that is not
-- negative. The last callback counts just the bytes that went out behind what was sent before, and
-- a receiver of them reads the request line, the host, the headers in their order and the closing
-- lines, and behind the empty line one more CR LF and the body of a POST.
pub session-TlsArrives :
    (fuel : ℕ) (sys : TlsSystem) (options : OpensslOptions) (c : ClientContext) (t : Tls)
    (host path body : Bytes) (method : HttpMethod) (headers : Headers) (n : ℕ)
    → IsSendable host path body headers
    → is_negative c.socketfd ≡ false
    → sys.on_ctx_new t.io.calls ≡ true
    → sys.on_ssl_new (t.io.calls + 1) ≡ true
    → loads_certs sys options t ≡ true
    → sys.on_ssl_connect (t.io.calls + 1 + 1) ≡ shaken
    → sys.on_ssl_write (t.io.calls + 1 + 1 + 1) ≡ tls_wrote n
    → length (create_httpv1_template host path body method headers) ≤ suc n
    → (cb : Callback) × (t' : Tls) × (session fuel sys options c
          (create_httpv1_template host path body method headers)
          t
        ≡ ok (some cb, t'))
      × TlsArrives t.io.sent
          (head_lines method host path headers body)
          (crlf ++ sent_body method body)
          cb
          t'
session-TlsArrives fuel sys options c t host path body method headers n w fd made ssl loaded first
      wrote all =
    let message : Bytes = create_httpv1_template host path body method headers in
    let size : strlen message ≡ length message =
      strlen-length message (message-no_nul host path body method headers w) in
    let filled : 0 < length message =
      filled_length message (message_filled host path body method headers w) in
    let (cb, t', e, good, count, sent) =
      session-Wrote fuel sys options c message t n fd made ssl loaded first wrote
        (omega (arith, size, filled)) (omega (arith, size, all)) in
    (
      cb,
      t',
      e,
      record {
        no_failure = good;
        bytes = message;
        all_counted = count ∙ size;
        on_the_wire =
            sent
            ∙ ap (λ b. t.io.sent ++ b) (take_all (strlen message) message (omega (arith, size)));
        is_read = read_message host path body method headers w;
      },
    )
