-- ===== src/Tls/ReadUntil.antt =====
-- `async_read_until_tls` and `M_ssl_read_until_retry`. What `print_tls_ERR` prints is left out.
pub mod Tight
pub mod Searched
pub mod Ends
pub mod Undefined
use mtasc.Common.{
  ℕ, zero, suc, ◌+◌, ◌-◌, ◌∷◌, ◌++◌, Bytes, Bool, true, false, ◌||◌, ◌==◌, ltb, leb, length, take,
  drop, Option, none, some, if◌then◌else◌, Outcome, ok, thrown, runtime_error, out_of_bounds,
  out_of_fuel, ◌>>=◌,
}
use mtasc.Number.{ℤ, negsuc}
use mtasc.Buffer.{ReadBuffer, fresh_buffer, readable_bytes, peek_data}
use mtasc.Tcp.{
  moved, ClientContext, Callback, ErrorCode, no_error, bad_file_descriptor, io_error,
  connection_reset, timed_out, is_negative, retry_result,
}
use mtasc.Tcp.Recv.{RecvRet, got, eof, minus_one, append_received, is_prefix, search_buffer}
use mtasc.Tcp.ReadUntil.{ReadState, verify, reading, found, error, close}
use mtasc.Tls.{
  TlsSystem, Tls, TlsReceived, tls_bytes, tls_closed, tls_failed, use_ssl, ssl_get_error,
  tls_select, failed_call, counted_call, ssl_error_want_read, ssl_error_want_write,
  ssl_error_syscall,
}

unfoldable pub answer_read : TlsReceived → ℕ → Tls → RecvRet × Tls
answer_read (tls_bytes b bs) size t = (
  got (take size (b ∷ bs)),
  record t {
    io = record t.io { calls = t.io.calls + 1; arrived = t.io.arrived ++ take size (b ∷ bs) };
  },
)
answer_read tls_closed size t = (eof, counted_call t)
answer_read (tls_failed f) size t = (minus_one, failed_call f t)

-- `SSL_read(ssl, cache, size)`
unfoldable pub ssl_read : TlsSystem → Option ℕ → ℕ → Tls → Outcome (RecvRet × Tls)
unfolding use_ssl answer_read
ssl_read sys ssl size t =
    use_ssl ssl t >>= λ p. ok (answer_read (sys.on_ssl_read t.io.calls) size t)

-- `appendTobuffer` of the bytes that were read.
unfoldable pub appended : Bytes → Tls → Outcome Tls
appended bs t = append_received bs t.io >>= λ io. ok (record t { io = io })

-- What follows a failed `SSL_read` of the retry; behind the loop the retry has failed.
abbrev pub read_failed :
    (ClientContext → Tls → Outcome (ClientContext × Tls))
    → ClientContext
    → Tls
    → ℕ
    → Outcome (ClientContext × Tls)
read_failed again c t err =
    let next = again c t in
    if err == ssl_error_want_read || err == ssl_error_want_write
    then if ltb c.connect_rety_count c.max_rety_count then next else ok (retry_result c false, t)
    else ok (retry_result c false, t)

abbrev pub retry_round :
    (ClientContext → Tls → Outcome (ClientContext × Tls))
    → Option ℕ
    → ClientContext
    → RecvRet × Tls
    → Outcome (ClientContext × Tls)
retry_round again ssl c (minus_one, t) = ssl_get_error ssl (negsuc 0) t >>= read_failed again c t
retry_round again ssl c (got bs, t) =
    appended bs t
    >>= again (
        if leb c.max_rety_count c.connect_rety_count
        then record c { max_rety_count = c.max_rety_count - 1 }
        else c)
retry_round again ssl c (eof, t) = ok (retry_result c false, t)

-- `while (M_max_rety_count > M_connect_rety_count)`, with fuel.
unfoldable pub retry_loop :
    ℕ → TlsSystem → Option ℕ → Bytes → ClientContext → Tls → Outcome (ClientContext × Tls)
retry_loop zero sys ssl delimiter c t = out_of_fuel
retry_loop (suc fuel) sys ssl delimiter c t =
    let counted : ClientContext = record c { connect_rety_count = c.connect_rety_count + 1 } in
    let rest =
      ssl_read sys ssl 1086 t >>= retry_round (retry_loop fuel sys ssl delimiter) ssl counted in
    if ltb c.connect_rety_count c.max_rety_count
    then if leb counted.max_rety_count counted.connect_rety_count
      then ok (retry_result counted false, t)
      else if search_buffer delimiter t.io.buffer
      then ok (retry_result counted true, t)
      else rest
    else ok (retry_result c false, t)

abbrev pub waited :
    TlsSystem → Option ℕ → Bytes → ClientContext → Bool × Tls → Outcome (ClientContext × Tls)
waited sys ssl delimiter c (true, t) = retry_loop (c.max_rety_count + 1) sys ssl delimiter c t
waited sys ssl delimiter c (false, t) = ok (retry_result c false, t)

-- The three errors that are retried; two of them wait for the socket first.
abbrev pub retry_error :
    TlsSystem → Option ℕ → Bytes → ClientContext → Tls → ℕ → Outcome (ClientContext × Tls)
retry_error sys ssl delimiter c t err =
    if err == ssl_error_syscall || err == ssl_error_want_write || err == ssl_error_want_read
    then if err == ssl_error_want_read || err == ssl_error_want_write || err == 2
      then waited sys ssl delimiter c (tls_select sys t)
      else retry_loop (c.max_rety_count + 1) sys ssl delimiter c t
    else ok (retry_result c false, t)

-- `M_ssl_read_until_retry`; each round counts, so the limit bounds the rounds.
unfoldable pub ssl_read_until_retry :
    TlsSystem
    → Option ℕ
    → Option ℕ
    → ℤ
    → Bytes
    → ClientContext
    → Tls
    → Outcome (ClientContext × Tls)
unfolding retry_loop
ssl_read_until_retry sys none ctx ret delimiter c t = thrown runtime_error
ssl_read_until_retry sys (some p) none ret delimiter c t = thrown runtime_error
ssl_read_until_retry sys (some p) (some x) ret delimiter c t =
    if is_negative c.socketfd
    then thrown runtime_error
    else ssl_get_error (some p) ret t
      >>= retry_error sys (some p) delimiter (record c { connect_rety_count = 0 }) t

-- A round of the loop: a new state, or the callback is queued.
pub data Turn : Type 0 where
  again : ReadState → Tls → Turn
  called : Callback → Tls → Turn

abbrev pub called_with : ErrorCode → ℕ → ClientContext → Tls → Turn
called_with e n c t = called (record { error = e; count = n; context = moved c }) t

-- The `memcmp` of `case VERIFY`: it compares behind the bytes that can be read.
unfoldable pub compare_end : Bytes → ReadBuffer → Outcome Bool
compare_end delimiter b =
    if leb (readable_bytes b + length delimiter) (length (peek_data b))
    then ok (is_prefix delimiter (drop (readable_bytes b) (peek_data b)))
    else out_of_bounds

-- It does so once for each position where the delimiter fits, until they are equal.
unfoldable pub scan : ℕ → Bytes → ReadBuffer → Outcome Bool
unfolding compare_end
scan zero delimiter b = ok false
scan (suc n) delimiter b =
    let rest = scan n delimiter b in
    compare_end delimiter b >>= λ hit. if hit then ok true else rest

abbrev pub retried : ClientContext × Tls → Outcome Turn
retried (c, t) =
    if c.is_retry_success
    then ok (called_with no_error (readable_bytes t.io.buffer) c t)
    else ssl_get_error t.configure.openssl_ptr (negsuc 0) t >>= λ err.
        ok (called_with io_error 0 c t)

-- `case ERROR`, which only a negative `SSL_read` leads to.
unfoldable pub error_case : TlsSystem → ClientContext → Bytes → Tls → Outcome Turn
unfolding ssl_read_until_retry
error_case sys c delimiter t =
    ssl_read_until_retry sys t.configure.openssl_ptr t.configure.openssl_ctx_ptr (negsuc 0)
      delimiter c t
    >>= retried

-- What follows `SSL_read` in `case READING`. On a return of 0 the callback is queued with the read
-- buffer, but the case runs on into `case FOUND`, which reads through the pointer that was moved.
abbrev pub received : RecvRet × Tls → Outcome Turn
received (minus_one, t) = ok (again error t)
received (eof, t) = out_of_bounds
received (got bs, t) = appended bs t >>= λ t'. ok (again verify t')

abbrev pub selected : TlsSystem → ClientContext → Bool × Tls → Outcome Turn
selected sys c (true, t) = ssl_read sys t.configure.openssl_ptr 596 t >>= received
selected sys c (false, t) = ok (called_with timed_out 0 c t)

unfoldable pub reading_case : TlsSystem → ClientContext → Tls → Outcome Turn
unfolding ssl_read
reading_case sys c t = selected sys c (tls_select sys t)

-- The switch; `case VERIFY` runs on into `case READING`.
unfoldable pub step : ReadState → TlsSystem → ClientContext → Bytes → Tls → Outcome Turn
unfolding scan reading_case error_case
step verify sys c delimiter t =
    let rest = reading_case sys c t in
    scan (readable_bytes t.io.buffer + 1 - length delimiter) delimiter t.io.buffer >>= λ hit.
    if hit then ok (again found t) else rest
step reading sys c delimiter t = reading_case sys c t
step found sys c delimiter t = ok (called_with no_error (readable_bytes t.io.buffer) c t)
step error sys c delimiter t = error_case sys c delimiter t
step close sys c delimiter t = ok (called_with connection_reset (readable_bytes t.io.buffer) c t)

abbrev pub after :
    (ReadState → Tls → Outcome (Option Callback × Tls)) → Turn → Outcome (Option Callback × Tls)
after k (again st t) = k st t
after k (called cb t) = ok (some cb, t)

-- `while (M_new_state != FOUND)`, with fuel; nothing is called behind it.
unfoldable pub loop :
    ℕ → ReadState → TlsSystem → ClientContext → Bytes → Tls → Outcome (Option Callback × Tls)
loop zero st sys c delimiter t = out_of_fuel
loop (suc fuel) found sys c delimiter t = ok (none, t)
loop (suc fuel) st sys c delimiter t =
    step st sys c delimiter t >>= after (λ st' t'. loop fuel st' sys c delimiter t')

abbrev pub is_null : Option ℕ → Bool
is_null none = true
is_null (some p) = false

-- `async_read_until_tls`, with the callback that is queued in the end, if there is one. Each round
-- but the last two reads at least a byte, and fewer than the delimiter has.
unfoldable pub async_read_until_tls :
    TlsSystem → ClientContext → Bytes → Tls → Outcome (Option Callback × Tls)
unfolding loop step
async_read_until_tls sys c delimiter t =
    let start : Tls = record t { io = record t.io { buffer = fresh_buffer } } in
    if is_negative c.socketfd
      || is_null t.configure.openssl_ptr
      || is_null t.configure.openssl_ctx_ptr
      || length delimiter == 0
    then ok (some (record { error = bad_file_descriptor; count = 0; context = moved c }), start)
    else loop (length delimiter + 2) verify sys c delimiter start
