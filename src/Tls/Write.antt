-- ===== src/Tls/Write.antt =====
-- `async_write_tls` and `M_ssl_write_retry`.
pub mod Refused
pub mod Closed
use mtasc.Common.{
  ℕ, zero, suc, ◌+◌, ◌∷◌, [], ◌++◌, Bytes, Bool, true, false, not, ◌||◌, ◌==◌, ltb, leb, length,
  take, drop, min, Option, none, some, if◌then◌else◌, Outcome, ok, thrown, runtime_error,
  out_of_bounds, out_of_fuel, ◌>>=◌,
}
use mtasc.Number.{ℤ, pos, negsuc}
use mtasc.Tcp.{
  moved, ClientContext, Callback, ErrorCode, no_error, bad_file_descriptor, io_error,
  connection_reset, is_negative, retry_result, eagain, eintr, enobufs, etimedout,
}
use mtasc.Tcp.Write.{strlen}
use mtasc.Tls.{
  TlsSystem, Tls, TlsWritten, tls_wrote, tls_shut, tls_refused, use_ssl, ssl_get_error, tls_select,
  failed_call, counted_call, free_object, ssl_error_want_read, ssl_error_want_write,
}

-- The return value of `SSL_write`: a count above 0, 0, or -1.
pub data WriteRet : Type 0 where
  count : ℕ → WriteRet
  shut minus_one : WriteRet

abbrev pub ret_of : ℕ → WriteRet
ret_of zero = shut
ret_of (suc n) = count (suc n)

unfoldable pub answer_write : TlsWritten → Bytes → Tls → WriteRet × Tls
answer_write (tls_wrote n) offered t = (
  ret_of (min (suc n) (length offered)),
  record t {
    io = record t.io { calls = t.io.calls + 1; sent = t.io.sent ++ take (suc n) offered };
  },
)
answer_write tls_shut offered t = (shut, counted_call t)
answer_write (tls_refused f) offered t = (minus_one, failed_call f t)

unfoldable pub ssl_write : TlsSystem → Option ℕ → Bytes → Tls → Outcome (WriteRet × Tls)
unfolding use_ssl answer_write
ssl_write sys ssl offered t =
    use_ssl ssl t >>= λ p. ok (answer_write (sys.on_ssl_write t.io.calls) offered t)

-- `sizeof(M_strfull_len - M_write_toal_data)` bytes from the position on; the terminator counts.
abbrev pub eight_bytes : Bytes → ℕ → Outcome Bytes
eight_bytes message total =
    if leb (total + 8) (length message + 1)
    then ok (take 8 (drop total (message ++ 0 ∷ [])))
    else out_of_bounds

abbrev pub inner_round :
    (ClientContext → ℕ → Tls → Outcome (ClientContext × Tls))
    → ClientContext
    → ℕ
    → ℕ
    → WriteRet × Tls
    → Outcome (ClientContext × Tls)
inner_round again c total full (minus_one, t) =
    if leb c.max_rety_count c.connect_rety_count
    then ok (retry_result c false, t)
    else again c total t
inner_round again c total full (shut, t) = ok (retry_result c false, t)
inner_round again c total full (count n, t) =
    if n + total == full
    then ok (retry_result c true, t)
    else again (record c { client_retry_write_bytes = total + n }) (total + n) t

-- `while (M_write_toal_data < M_strfull_len)`, with fuel; behind it the retry has failed.
unfoldable pub inner_loop :
    ℕ → TlsSystem → Option ℕ → ℕ → ClientContext → ℕ → Tls → Outcome (ClientContext × Tls)
inner_loop zero sys ssl full c total t = out_of_fuel
inner_loop (suc fuel) sys ssl full c total t =
    let next = inner_loop fuel sys ssl full in
    let round = eight_bytes c.client_message total >>= λ offered.
    ssl_write sys ssl offered t >>= inner_round next c total full in
    if ltb total full then round else ok (retry_result c false, t)

-- The test of `errno`, which holds for every value.
abbrev pub is_not_transient : ℕ → Bool
is_not_transient e =
    not (e == eagain)
    || not (e == eagain)
    || not (e == eintr)
    || not (e == enobufs)
    || not (e == etimedout)

abbrev pub awaited :
    ℕ → TlsSystem → Option ℕ → ℕ → ClientContext → ℕ → Bool × Tls → Outcome (ClientContext × Tls)
awaited fuel sys ssl full c total (true, t) = inner_loop fuel sys ssl full c total t
awaited fuel sys ssl full c total (false, t) =
    if leb c.max_rety_count c.connect_rety_count
    then ok (retry_result c false, t)
    else inner_loop fuel sys ssl full c total t

-- A round of the retry, with the round counted. The constant `SSL_ERROR_SYSCALL` stands as a test.
abbrev pub retry_round :
    ℕ → TlsSystem → Option ℕ → ℕ → ClientContext → ℕ → Tls → ℕ → Outcome (ClientContext × Tls)
retry_round fuel sys ssl full c total t err =
    if err == ssl_error_want_write || err == ssl_error_want_read || true
    then if is_not_transient t.io.errno
      then ok (retry_result c false, t)
      else awaited fuel sys ssl full c total (tls_select sys t)
    else ok (c, t)

abbrev pub retry_with :
    ℕ
    → TlsSystem
    → Option ℕ
    → Option ℕ
    → ℤ
    → ℕ
    → ℕ
    → ClientContext
    → Tls
    → Outcome (ClientContext × Tls)
retry_with fuel sys ssl none ret full total c t = thrown runtime_error
retry_with fuel sys ssl (some ctx) ret full total c t =
    let counted : ClientContext = record c { connect_rety_count = 0 + 1 } in
    if is_negative c.socketfd
    then thrown runtime_error
    else if ltb 0 c.max_rety_count
    then (ssl_get_error ssl ret t >>= retry_round fuel sys ssl full counted total t)
    else ok (retry_result (record c { connect_rety_count = 0 }) false, t)

-- `M_ssl_write_retry`, called with a pointer that is not null; every path of its loop returns in
-- the first round. The fuel is for the inner loop.
unfoldable pub ssl_write_retry :
    ℕ
    → TlsSystem
    → Option ℕ
    → Option ℕ
    → ℤ
    → ℕ
    → ℕ
    → ClientContext
    → Tls
    → Outcome (ClientContext × Tls)
unfolding inner_loop
ssl_write_retry fuel sys ssl ctx ret full total c t = retry_with fuel sys ssl ctx ret full total c t

-- The callback, if one is queued.
abbrev pub called : ErrorCode → ℕ → ClientContext → Tls → Outcome (Option Callback × Tls)
called e n c t = ok (some (record { error = e; count = n; context = moved c }), t)

abbrev pub retried : ClientContext × Tls → Outcome (Option Callback × Tls)
retried (c, t) =
    if c.is_retry_success
    then called no_error c.client_retry_write_bytes c t
    else called io_error 0 c t

-- `SSL_shutdown`, `SSL_CTX_free`, `SSL_free` and `CLOSE_FD`; the pointers stay as they are.
abbrev pub shut_down : ℕ → ClientContext → Tls → Tls
shut_down p c t = record t { live = free_object p t.live; closed_fds = c.socketfd ∷ t.closed_fds }

-- What follows `SSL_write`. The -1 is subtracted from the length for the retry.
abbrev pub written :
    ℕ → TlsSystem → ℕ → ClientContext → WriteRet × Tls → Outcome (Option Callback × Tls)
written fuel sys p c (minus_one, t) = ssl_get_error (some p) (negsuc 0) t >>= λ err.
    ssl_write_retry fuel sys (some p) t.configure.openssl_ctx_ptr (pos err) c.client_message_length
      (c.client_message_length + 1) c t
    >>= retried
written fuel sys p c (count n, t) = called no_error n c t
written fuel sys p c (shut, t) = called connection_reset 0 c (shut_down p c t)

abbrev pub write_with :
    ℕ → TlsSystem → ClientContext → Bytes → Tls → Option ℕ → Outcome (Option Callback × Tls)
write_with fuel sys c message t none = ok (none, t)
write_with fuel sys c message t (some p) =
    let c' : ClientContext = record c {
      client_message = message;
      client_message_length = strlen message;
    } in
    ssl_write sys (some p) (take (strlen message) message) t >>= written fuel sys p c'

-- `async_write_tls`, with the callback that is queued in the end. Without an object none is.
unfoldable pub async_write_tls :
    ℕ → TlsSystem → ClientContext → Bytes → Tls → Outcome (Option Callback × Tls)
unfolding ssl_write_retry ssl_write
async_write_tls fuel sys c message t =
    if is_negative c.socketfd
    then called bad_file_descriptor 0 c t
    else write_with fuel sys c message t t.configure.openssl_ptr
