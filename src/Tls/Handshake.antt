-- ===== src/Tls/Handshake.antt =====
-- `async_try_connect_tls` and `M_ssl_handshake_retry`.
pub mod Want
pub mod Freed
use mtasc.Common.{
  ℕ, zero, suc, ◌+◌, Bool, true, false, ◌||◌, ◌==◌, ltb, Option, none, some, if◌then◌else◌, Outcome,
  ok, thrown, runtime_error, out_of_fuel, ◌>>=◌,
}
use mtasc.Number.{negsuc}
use mtasc.Tcp.{
  moved, ClientContext, Callback, ErrorCode, no_error, bad_file_descriptor, timed_out, system_error,
  is_negative, retry_result, etimedout,
}
use mtasc.Tls.{
  TlsSystem, Tls, Handshaken, shaken, unshaken, use_ssl, ssl_get_error, tls_select, failed_call,
  counted_call, ssl_error_ssl, ssl_error_want_read, ssl_error_want_write, ssl_error_syscall,
  econnreset,
}
use mtasc.Tls.Create.{create_new_retry_tls}

abbrev pub is_want : ℕ → Bool
is_want e = e == ssl_error_want_read || e == ssl_error_want_write

abbrev pub answer_connect : Handshaken → Tls → Bool × Tls
answer_connect shaken t = (true, counted_call t)
answer_connect (unshaken f) t = (false, failed_call f t)

-- `SSL_connect`; `true` is 1.
unfoldable pub ssl_connect : TlsSystem → Option ℕ → Tls → Outcome (Bool × Tls)
unfolding use_ssl
ssl_connect sys ssl t = use_ssl ssl t >>= λ p. ok (answer_connect (sys.on_ssl_connect t.io.calls) t)

-- What the next round of the retry takes: the object, the context and the state.
abbrev pub Again : Type 0
Again = Option ℕ → ClientContext → Tls → Outcome (ClientContext × Tls)

-- A new attempt with the same object.
abbrev pub want_round :
    Again → Option ℕ → ClientContext → Bool × Tls → Outcome (ClientContext × Tls)
want_round again ssl c (true, t) = ok (retry_result c true, t)
want_round again ssl c (false, t) =
    if ltb c.max_rety_count c.connect_rety_count
    then ok (retry_result c false, t)
    else again ssl c t

-- A new attempt with a new object. Behind a failure the code asks for the error of the configured
-- object, which the retry has freed.
abbrev pub reset_round :
    Again → Option ℕ → ClientContext → Bool × Tls → Outcome (ClientContext × Tls)
reset_round again ssl c (true, t) =
    ok (retry_result c true, record t { configure = record t.configure { openssl_ptr = ssl } })
reset_round again ssl c (false, t) =
    if ltb c.max_rety_count c.connect_rety_count
    then ok (retry_result c false, t)
    else (ssl_get_error t.configure.openssl_ptr (negsuc 0) t >>= λ e. again ssl c t)

-- The switch over the error of the handshake.
abbrev pub renewed_round :
    Again → TlsSystem → ℕ → ClientContext → Option ℕ × Tls → Outcome (ClientContext × Tls)
renewed_round again sys err c (ssl, t) =
    if err == ssl_error_syscall
    then if t.io.errno == econnreset || t.io.errno == etimedout
      then (ssl_connect sys ssl t >>= reset_round again ssl c)
      else ok (retry_result c false, t)
    else if err == ssl_error_ssl
    then thrown runtime_error
    else again ssl c t

-- `while (M_connect_rety_count < M_max_rety_count)`, with fuel.
unfoldable pub handshake_loop :
    ℕ → TlsSystem → ℕ → Option ℕ → Option ℕ → ClientContext → Tls → Outcome (ClientContext × Tls)
handshake_loop zero sys err ctx ssl c t = out_of_fuel
handshake_loop (suc fuel) sys err ctx ssl c t =
    let counted : ClientContext = record c { connect_rety_count = c.connect_rety_count + 1 } in
    let next : Again = handshake_loop fuel sys err ctx in
    let wanted = ssl_connect sys ssl t >>= want_round next ssl counted in
    let renewed = create_new_retry_tls sys ssl ctx t >>= renewed_round next sys err counted in
    if ltb c.connect_rety_count c.max_rety_count
    then if is_want err then wanted else renewed
    else ok (retry_result c false, t)

-- `M_ssl_handshake_retry`; each round counts, so the limit bounds the rounds.
unfoldable pub ssl_handshake_retry :
    TlsSystem → ℕ → Option ℕ → Option ℕ → ClientContext → Tls → Outcome (ClientContext × Tls)
ssl_handshake_retry sys err ctx ssl c t =
    if is_negative c.socketfd
    then thrown runtime_error
    else handshake_loop (c.max_rety_count + 1) sys err ctx ssl (record c { connect_rety_count = 0 })
        t

abbrev pub called : ErrorCode → ClientContext → Tls → Outcome (Callback × Tls)
called e c t = ok (record { error = e; count = 0; context = moved c }, t)

abbrev pub retried : ClientContext × Tls → Outcome (Callback × Tls)
retried (c, t) =
    if c.is_retry_success then called no_error c t else called (system_error t.io.errno) c t

abbrev pub retry_from : TlsSystem → ℕ → ClientContext → Tls → Outcome (Callback × Tls)
retry_from sys err c t =
    ssl_handshake_retry sys err t.configure.openssl_ctx_ptr t.configure.openssl_ptr c t >>= retried

abbrev pub awaited : TlsSystem → ℕ → ClientContext → Bool × Tls → Outcome (Callback × Tls)
awaited sys err c (true, t) = retry_from sys err c t
awaited sys err c (false, t) = called timed_out c t

-- What follows the error that `SSL_get_error` gives.
abbrev pub unshaken_with : TlsSystem → ClientContext → Tls → ℕ → Outcome (Callback × Tls)
unshaken_with sys c t err =
    if err == 0 || is_want err then awaited sys err c (tls_select sys t) else retry_from sys err c t

abbrev pub handshaken : TlsSystem → ClientContext → Bool × Tls → Outcome (Callback × Tls)
handshaken sys c (true, t) = called no_error c t
handshaken sys c (false, t) =
    ssl_get_error t.configure.openssl_ptr (negsuc 0) t >>= unshaken_with sys c t

abbrev pub connect_with : TlsSystem → ClientContext → Tls → Option ℕ → Outcome (Callback × Tls)
connect_with sys c t none = called bad_file_descriptor c t
connect_with sys c t (some p) =
    if is_negative c.socketfd
    then called bad_file_descriptor c t
    else ssl_connect sys (some p) t >>= handshaken sys c

-- `async_try_connect_tls`, with the callback that is queued in the end.
unfoldable pub async_try_connect_tls : TlsSystem → ClientContext → Tls → Outcome (Callback × Tls)
unfolding ssl_handshake_retry ssl_connect
async_try_connect_tls sys c t = connect_with sys c t t.configure.openssl_ptr
