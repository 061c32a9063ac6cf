-- ===== src/Tls/Session.antt =====
-- The calls of a TLS client in the order in which its callbacks make them: `async_create_tls`, then
-- `async_try_connect_tls`, then `async_write_tls`, each with the context that the last callback
-- got.
use mtasc.Common.{
  ℕ, zero, suc, ◌+◌, ◌<◌, ◌≤◌, ◌≡◌, refl, ap, sym, ◌∙◌, ◌++◌, Bytes, true, false, Option, some,
  Outcome, ok, ◌>>=◌, take,
}
use mtasc.Tcp.{moved, ClientContext, Callback, ErrorCode, system_error, no_error, is_negative}
use mtasc.Tcp.Write.{strlen}
use mtasc.Tls.{TlsSystem, Tls, shaken, tls_wrote, use_ssl, counted_call}
use mtasc.Tls.Objects.{IsUsable, IsUsable-live}
use mtasc.Tls.Create.{OpensslOptions, loads_certs, async_create_tls}
use mtasc.Tls.Create.Unchecked.{async_create_tls-Created}
use mtasc.Tls.Handshake.{ssl_connect, async_try_connect_tls}
use mtasc.Tls.Handshake.Want.{connect_with-IsUsable}
use mtasc.Tls.Write.{async_write_tls}
use mtasc.Tls.Write.Refused.{async_write_tls-Wrote}

-- A client goes on only if its callback gets no error.
abbrev pub on_success :
    ErrorCode → Outcome (Option Callback × Tls) → Callback × Tls → Outcome (Option Callback × Tls)
on_success (system_error zero) next (cb, t) = next
on_success e next (cb, t) = ok (some cb, t)

abbrev pub write_when : ℕ → TlsSystem → Bytes → Callback × Tls → Outcome (Option Callback × Tls)
write_when fuel sys message (cb, t) =
    on_success cb.error (async_write_tls fuel sys cb.context message t) (cb, t)

abbrev pub connect_when : ℕ → TlsSystem → Bytes → Callback × Tls → Outcome (Option Callback × Tls)
connect_when fuel sys message (cb, t) =
    on_success cb.error (async_try_connect_tls sys cb.context t >>= write_when fuel sys message)
      (cb, t)

unfoldable pub session :
    ℕ → TlsSystem → OpensslOptions → ClientContext → Bytes → Tls → Outcome (Option Callback × Tls)
session fuel sys options c message t =
    async_create_tls sys options c t >>= connect_when fuel sys message

-- A handshake that succeeds at once.
async_try_connect_tls-shaken :
    (sys : TlsSystem) (c : ClientContext) (t : Tls)
    → IsUsable t.configure.openssl_ptr t
    → is_negative c.socketfd ≡ false
    → sys.on_ssl_connect t.io.calls ≡ shaken
    → async_try_connect_tls sys c t
      ≡ ok (record { error = no_error; count = 0; context = moved c }, counted_call t)
unfolding async_try_connect_tls ssl_connect
async_try_connect_tls-shaken sys c t usable fd first =
    connect_with-IsUsable sys c t t.configure.openssl_ptr usable fd ∙ rw (usable.1, first)

-- Where OpenSSL makes its objects, loads the certificates, shakes hands at once and takes the whole
-- message, which is not empty up to its first zero byte, the three calls of a client on a socket
-- that is not negative all succeed: the last callback gets the number of these bytes, and they have
-- been sent behind what was sent before.
pub session-Wrote :
    (fuel : ℕ) (sys : TlsSystem) (options : OpensslOptions) (c : ClientContext) (message : Bytes)
    (t : Tls) (n : ℕ)
    → is_negative c.socketfd ≡ false
    → sys.on_ctx_new t.io.calls ≡ true
    → sys.on_ssl_new (t.io.calls + 1) ≡ true
    → loads_certs sys options t ≡ true
    → sys.on_ssl_connect (t.io.calls + 1 + 1) ≡ shaken
    → sys.on_ssl_write (t.io.calls + 1 + 1 + 1) ≡ tls_wrote n
    → 0 < strlen message
    → strlen message ≤ suc n
    → (cb : Callback) × (t' : Tls) × (session fuel sys options c message t ≡ ok (some cb, t'))
      × (cb.error ≡ no_error)
      × (cb.count ≡ strlen message)
      × (t'.io.sent ≡ t.io.sent ++ take (strlen message) message)
unfolding session
session-Wrote fuel sys options c message t n fd made ssl loaded first wrote some_bytes all =
    let (out, e, o) = async_create_tls-Created sys options c t made ssl loaded in
    let fd' : is_negative out.0.context.socketfd ≡ false =
      ap (λ x. is_negative x.socketfd) o.same_context ∙ fd in
    let shook =
      async_try_connect_tls-shaken sys out.0.context out.1 o.usable fd'
        (ap sys.on_ssl_connect o.calls ∙ first) in
    let connected : Tls = counted_call out.1 in
    let usable : IsUsable (some (t.next_object + 1)) connected =
      IsUsable-live (some (t.next_object + 1)) out.1 connected refl
        (o.usable.0, sym (ap (λ s. use_ssl s out.1) o.pointer) ∙ o.usable.1) in
    let (cb, t', w, good, count, sent) =
      async_write_tls-Wrote fuel sys (moved out.0.context) message connected (t.next_object + 1) fd'
        o.pointer usable n (ap (λ i. sys.on_ssl_write (i + 1)) o.calls ∙ wrote) some_bytes all in
    (
      cb,
      t',
      rw (e, o.no_failure, shook, w),
      good,
      count,
      sent ∙ ap (λ s. s ++ take (strlen message) message) o.sent,
    )
