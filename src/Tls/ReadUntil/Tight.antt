-- ===== src/Tls/ReadUntil/Tight.antt =====
-- A read buffer that grows from empty has no storage behind its unread bytes, so the comparison of
-- `async_read_until_tls` is outside of it.
use mtasc.Common.{
  ℕ, zero, suc, ◌+◌, ◌≤◌, ◌<◌, ◌≡◌, ap, ◌∙◌, ◌++◌, Bytes, length, length-append, length-drop, some,
  ok, out_of_bounds, arith, leb-false, if◌then◌else◌,
}
use mtasc.Buffer.{ReadBuffer, fresh_buffer, readable_bytes, peek_data}
use mtasc.Buffer.Valid.{IsValid, size_limit, contents, readable_bytes-contents}
use mtasc.Buffer.Refine.{append_to_buffer_lem}
use mtasc.Tcp.Recv.{append_received}
use mtasc.Number.{negsuc}
use mtasc.Tls.Objects.{ssl_get_error-IsUsable}
use mtasc.Tls.{TlsSystem, Tls, use_ssl, is_live, ssl_get_error, reported_of}
use mtasc.Tls.ReadUntil.{answer_read, ssl_read, appended, compare_end, scan}

-- The buffer is valid, with no storage behind the unread bytes and with room for `n` more.
pub record IsTight (n : ℕ) (b : ReadBuffer) : Type 0 where
  pub valid : IsValid b
  pub fits : length b.buffer + n < size_limit
  pub tight : length b.buffer ≤ length (contents b)

-- The socket has the live object `p`, the context `x` and a tight buffer.
pub record IsReady (p x n : ℕ) (t : Tls) : Type 0 where
  pub pointer : t.configure.openssl_ptr ≡ some p
  pub context : t.configure.openssl_ctx_ptr ≡ some x
  pub usable : use_ssl (some p) t ≡ ok p
  pub buffer : IsTight n t.io.buffer

pub IsTight-fewer : {m n : ℕ} {b : ReadBuffer} → m ≤ n → IsTight n b → IsTight m b
IsTight-fewer h b = record { valid = b.valid; fits = omega (arith, h, b.fits); tight = b.tight }

pub fresh_buffer-IsTight : (n : ℕ) → n < size_limit → IsTight n fresh_buffer
fresh_buffer-IsTight n h = record {
  valid = record { ordered = omega arith; stored = omega arith; small = omega arith };
  fits = omega (arith, h);
  tight = omega arith;
}

-- Bytes that are appended to a tight buffer leave it tight.
pub appended-IsReady :
    (bs : Bytes) (p x m n : ℕ) (t : Tls)
    → length bs ≤ m
    → IsReady p x (m + n) t
    → (t' : Tls) × (appended bs t ≡ ok t')
      × IsReady p x n t'
      × (contents t'.io.buffer ≡ contents t.io.buffer ++ bs)
unfolding appended append_received use_ssl
appended-IsReady bs p x m n t le r =
    let (b, e, a) =
      append_to_buffer_lem t.io.buffer bs r.buffer.valid (omega (arith, r.buffer.fits)) in
    let size = ap length a.queued ∙ length-append (contents t.io.buffer) bs in
    (
      record t { io = record t.io { buffer = b } },
      rw e,
      record {
        pointer = r.pointer;
        context = r.context;
        usable = r.usable;
        buffer = record {
          valid = a.valid;
          fits = omega (arith, a.growth, r.buffer.fits);
          tight = omega (arith, a.growth, r.buffer.tight, size);
        };
      },
      a.queued,
    )

compare_end-IsTight :
    (delimiter : Bytes) (n : ℕ) (b : ReadBuffer)
    → 0 < length delimiter
    → IsTight n b
    → compare_end delimiter b ≡ out_of_bounds
unfolding compare_end peek_data
compare_end-IsTight delimiter n b some_bytes t = rw (
    leb-false (readable_bytes b + length delimiter) (length (peek_data b)) (
      omega (
        arith,
        t.tight,
        some_bytes,
        readable_bytes-contents t.valid,
        length-drop b.read_pointer b.buffer,
      )))

-- The comparison is outside the storage as soon as the delimiter fits into the bytes.
pub scan-outside :
    (delimiter : Bytes) (k n : ℕ) (b : ReadBuffer)
    → 0 < length delimiter
    → 0 < k
    → IsTight n b
    → scan k delimiter b ≡ out_of_bounds
unfolding scan
scan-outside delimiter zero n b some_bytes h t = absurd (omega (arith, h))
scan-outside delimiter (suc k) n b some_bytes h t =
    rw (compare_end-IsTight delimiter n b some_bytes t)

module _ (p x : ℕ) where
  -- A call that leaves the configuration, the objects and the buffer alone.
  pub IsReady-call :
      (m n : ℕ) (t t' : Tls)
      → m ≤ n
      → t'.configure ≡ t.configure
      → t'.live ≡ t.live
      → t'.io.buffer ≡ t.io.buffer
      → IsReady p x n t
      → IsReady p x m t'
  unfolding use_ssl
  IsReady-call m n t t' h e l b r = record {
    pointer = ap (λ s. s.openssl_ptr) e ∙ r.pointer;
    context = ap (λ s. s.openssl_ctx_ptr) e ∙ r.context;
    usable = ap (λ s. if is_live p s then ok p else out_of_bounds) l ∙ r.usable;
    buffer = rw b (IsTight-fewer h r.buffer);
  }

  pub get_error-IsReady :
      (n : ℕ) (t : Tls)
      → IsReady p x n t
      → ssl_get_error (some p) (negsuc 0) t ≡ ok (reported_of (negsuc 0) t)
  get_error-IsReady n t r = ssl_get_error-IsUsable (some p) (negsuc 0) t (p, r.usable)

  pub ssl_read-IsReady :
      (sys : TlsSystem) (n size : ℕ) (t : Tls)
      → IsReady p x n t
      → ssl_read sys t.configure.openssl_ptr size t
        ≡ ok (answer_read (sys.on_ssl_read t.io.calls) size t)
  unfolding ssl_read
  ssl_read-IsReady sys n size t r = ap (λ s. ssl_read sys s size t) r.pointer ∙ rw r.usable
