-- ===== src/Tls/Write/Refused.antt =====
-- A TLS write that OpenSSL refuses, and one that it takes whole.
use mtasc.Common.{
  ℕ, zero, suc, ◌+◌, ◌≤◌, ◌<◌, ◌≡◌, refl, ap, ◌∙◌, ◌++◌, Bytes, true, false, ◌||◌, ◌==◌, Bool-cases,
  inl, inr, Option, some, ok, ◌>>=◌, arith, ltb, length, take, length-take, take_all, min,
}
use mtasc.Number.{negsuc, pos}
use mtasc.Tcp.{moved, ClientContext, Callback, no_error, io_error, is_negative, retry_result}
use mtasc.Tcp.Write.{strlen}
use mtasc.Tcp.Write.Complete.{strlen-le}
use mtasc.Tls.{
  reported_of, ssl_error_want_read, ssl_error_want_write, TlsSystem, Tls, Failure, tls_refused,
  tls_wrote, failed_call,
}
use mtasc.Tls.Objects.{IsUsable, IsUsable-live, ssl_get_error-IsUsable}
use mtasc.Tls.Write.{
  count, ssl_write, is_not_transient, retry_with, ssl_write_retry, written, write_with,
  async_write_tls, answer_write, ret_of,
}

not_transient : (e : ℕ) → is_not_transient e ≡ true
not_transient e = ground arith

always_retried : (e : ℕ) → (e == ssl_error_want_write || e == ssl_error_want_read || true) ≡ true
always_retried e = ground arith

-- The test of `errno` in the retry holds for every value, so it gives up at once.
retry_gives_up :
    (fuel : ℕ) (sys : TlsSystem) (ssl : Option ℕ) (ctx : Option ℕ) (x n total : ℕ) (err : ℕ)
    (c : ClientContext) (t : Tls)
    → ctx ≡ some x
    → is_negative c.socketfd ≡ false
    → IsUsable ssl t
    → (c' : ClientContext) × (ssl_write_retry fuel sys ssl ctx (pos err) n total c t ≡ ok (c', t))
      × (c'.is_retry_success ≡ false)
unfolding ssl_write_retry
retry_gives_up fuel sys ssl ctx x n total err c t e fd usable =
    let start = ap (λ s. retry_with fuel sys ssl s (pos err) n total c t) e in
    elim (Bool-cases (ltb 0 c.max_rety_count)) [
      | inl more ↦ (
        retry_result (record c { connect_rety_count = 0 + 1 }) false,
        start
            ∙ rw (
              fd,
              more,
              ssl_get_error-IsUsable ssl (pos err) t usable,
              always_retried (reported_of (pos err) t),
              not_transient t.io.errno,
            ),
        refl,
      )
      | inr none_left ↦ (
        retry_result (record c { connect_rety_count = 0 }) false,
        start ∙ rw (fd, none_left),
        refl,
      )
    ]

ret_of-count : (n : ℕ) → 0 < n → ret_of n ≡ count n
ret_of-count zero h = absurd (omega (arith, h))
ret_of-count (suc n) h = refl

module _ (fuel : ℕ) (sys : TlsSystem) (c : ClientContext) (message : Bytes) (t : Tls) (p : ℕ)
    (fd : is_negative c.socketfd ≡ false) (pointer : t.configure.openssl_ptr ≡ some p)
    (usable : IsUsable (some p) t) where
  abbrev writing : ClientContext
  writing = record c { client_message = message; client_message_length = strlen message }

  write_started :
      async_write_tls fuel sys c message t
      ≡ (ssl_write sys (some p) (take (strlen message) message) t >>= written fuel sys p writing)
  unfolding async_write_tls
  write_started = (rw fd) ∙ ap (write_with fuel sys c message t) pointer

  -- The task writes once: where `SSL_write` returns -1, on a socket with a live object and a
  -- context, the callback gets `io_error` and a count of 0 whatever OpenSSL and `errno` report,
  -- for any retry limit and any fuel: no byte is sent, and there is no second call.
  pub async_write_tls_refused :
      (f : Failure) (x : ℕ)
      → t.configure.openssl_ctx_ptr ≡ some x
      → sys.on_ssl_write t.io.calls ≡ tls_refused f
      → (cb : Callback) × (t' : Tls) × (async_write_tls fuel sys c message t ≡ ok (some cb, t'))
        × (cb.error ≡ io_error)
        × (cb.count ≡ 0)
        × (t'.io.sent ≡ t.io.sent)
        × (t'.io.calls ≡ t.io.calls + 1)
  unfolding ssl_write answer_write
  async_write_tls_refused f x context refused =
      let left : Tls = failed_call f t in
      let usable' : IsUsable (some p) left = IsUsable-live (some p) t left refl usable in
      let (c', e, failed) =
        retry_gives_up fuel sys (some p) t.configure.openssl_ctx_ptr x (strlen message)
          (strlen message + 1) f.reported writing left context fd usable' in
      (
        record { error = io_error; count = 0; context = moved c' },
        left,
        write_started
            ∙ rw (
              usable.1,
              refused,
              ssl_get_error-IsUsable (some p) (negsuc 0) left usable',
              e,
              failed,
            ),
        refl,
        refl,
        refl,
        refl,
      )

  -- Where `SSL_write` takes at least the message up to its first zero byte, which is not empty, the
  -- callback gets no error and the number of these bytes, and they have been sent.
  pub async_write_tls-Wrote :
      (n : ℕ)
      → sys.on_ssl_write t.io.calls ≡ tls_wrote n
      → 0 < strlen message
      → strlen message ≤ suc n
      → (cb : Callback) × (t' : Tls) × (async_write_tls fuel sys c message t ≡ ok (some cb, t'))
        × (cb.error ≡ no_error)
        × (cb.count ≡ strlen message)
        × (t'.io.sent ≡ t.io.sent ++ take (strlen message) message)
  unfolding ssl_write answer_write
  async_write_tls-Wrote n wrote some_bytes all =
      let offered : Bytes = take (strlen message) message in
      let size : length offered ≡ strlen message =
        omega (arith, length-take (strlen message) message, strlen-le message) in
      let taken : min (suc n) (length offered) ≡ strlen message = ground (arith, size, all) in
      let whole : take (suc n) offered ≡ offered =
        take_all (suc n) offered (omega (arith, size, all)) in
      (
        record { error = no_error; count = strlen message; context = moved writing },
        record t { io = record t.io { calls = t.io.calls + 1; sent = t.io.sent ++ offered } },
        write_started
            ∙ rw (usable.1, wrote, taken, whole, ret_of-count (strlen message) some_bytes),
        refl,
        refl,
        refl,
      )
