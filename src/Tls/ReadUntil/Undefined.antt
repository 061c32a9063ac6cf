-- ===== src/Tls/ReadUntil/Undefined.antt =====
-- The first record that `async_read_until_tls` reads.
use mtasc.Common.{
  ℕ, zero, suc, ◌+◌, ◌-◌, ◌≤◌, ◌<◌, ◌≡◌, refl, ap, ◌∙◌, ◌∷◌, ◌++◌, Bytes, false, ==_false, length,
  length-append, length-take, take, none, some, ok, out_of_bounds, ◌>>=◌, arith,
}
use mtasc.Buffer.{fresh_buffer, readable_bytes}
use mtasc.Buffer.Valid.{contents, readable_bytes-contents}
use mtasc.Tcp.{ClientContext, is_negative}
use mtasc.Tcp.Recv.{answer_select, select}
use mtasc.Tcp.ReadUntil.{verify}
use mtasc.Tls.{TlsSystem, Tls, TlsReceived, tls_bytes, tls_closed, use_ssl, tls_select, with_io}
use mtasc.Tls.ReadUntil.{
  answer_read, is_null, received, selected, scan, reading_case, step, after, loop,
  async_read_until_tls,
}
use mtasc.Tls.ReadUntil.Tight.{
  IsReady, IsReady-call, ssl_read-IsReady, fresh_buffer-IsTight, appended-IsReady, scan-outside,
}

-- The peer closes the connection, or sends at least as many bytes as the delimiter has.
pub data IsWhole (delimiter : Bytes) : TlsReceived → Type 0 where
  whole_closed : IsWhole delimiter tls_closed
  whole_bytes :
      (b : ℕ) (bs : Bytes) → length delimiter ≤ suc (length bs) → IsWhole delimiter (tls_bytes b bs)

module _ (p x : ℕ) (sys : TlsSystem) (c : ClientContext) (delimiter : Bytes)
    (some_bytes : 0 < length delimiter) where
  loop-outside :
      (k n : ℕ) (t : Tls)
      → IsReady p x n t
      → length delimiter ≤ length (contents t.io.buffer)
      → loop (suc k) verify sys c delimiter t ≡ out_of_bounds
  unfolding loop step
  loop-outside k n t r fits =
      let readable = readable_bytes-contents r.buffer.valid in
      rw (
        scan-outside delimiter (readable_bytes t.io.buffer + 1 - length delimiter) n t.io.buffer
          some_bytes (omega (arith, fits, readable)) r.buffer)

  received-outside :
      (k n : ℕ) (t : Tls) (a : TlsReceived)
      → length delimiter ≤ 596
      → IsWhole delimiter a
      → IsReady p x (596 + n) t
      → (received (answer_read a 596 t) >>= after (λ st t'. loop (suc k) st sys c delimiter t'))
        ≡ out_of_bounds
  unfolding answer_read
  received-outside k n t a small whole_closed r = refl
  received-outside k n t a small (whole_bytes b bs le) r =
      let read : Bytes = take 596 (b ∷ bs) in
      let counted : Tls = record t {
        io = record t.io { calls = t.io.calls + 1; arrived = t.io.arrived ++ read };
      } in
      let size = length-take 596 (b ∷ bs) in
      let (t', e, r', queued) =
        appended-IsReady read p x 596 n counted (omega (arith, size))
          (IsReady-call p x (596 + n) (596 + n) t counted (omega arith) refl refl refl r) in
      let more = ap length queued ∙ length-append (contents t.io.buffer) read in
      rw e (loop-outside k n t' r' (omega (arith, more, size, le, small)))

  selected-outside :
      (k n : ℕ) (t : Tls)
      → length delimiter ≤ 596
      → IsWhole delimiter (sys.on_ssl_read (t.io.calls + 1))
      → IsReady p x (596 + n) t
      → (selected sys c (with_io t (answer_select none t.io))
          >>= after (λ st t'. loop (suc k) st sys c delimiter t'))
        ≡ out_of_bounds
  unfolding answer_select
  selected-outside k n t small whole r =
      let t' : Tls = record t { io = record t.io { calls = t.io.calls + 1 } } in
      let r' : IsReady p x (596 + n) t' =
        IsReady-call p x (596 + n) (596 + n) t t' (omega arith) refl refl refl r in
      rw (ssl_read-IsReady p x sys (596 + n) 596 t' r')
        (received-outside k n t' (sys.on_ssl_read t'.io.calls) small whole r')

-- If the first `select` returns, and the first `SSL_read` then gets the end of the connection, or
-- at least as many bytes as the delimiter has, `async_read_until_tls` runs into undefined
-- behaviour, whether the delimiter is among the bytes or not. The socket is not negative and has a
-- live object and a context, and the delimiter has 1 to 596 bytes.
pub async_read_until_tls_undefined :
    (sys : TlsSystem) (c : ClientContext) (delimiter : Bytes) (t : Tls) (p x : ℕ)
    → is_negative c.socketfd ≡ false
    → t.configure.openssl_ptr ≡ some p
    → t.configure.openssl_ctx_ptr ≡ some x
    → use_ssl (some p) t ≡ ok p
    → 0 < length delimiter
    → length delimiter ≤ 596
    → sys.system.on_select t.io.calls ≡ none
    → IsWhole delimiter (sys.on_ssl_read (t.io.calls + 1))
    → async_read_until_tls sys c delimiter t ≡ out_of_bounds
unfolding async_read_until_tls use_ssl loop step scan reading_case tls_select select readable_bytes
async_read_until_tls_undefined sys c delimiter t p x fd pointer context usable some_bytes small
      waits whole =
    let start : Tls = record t { io = record t.io { buffer = fresh_buffer } } in
    let object : is_null t.configure.openssl_ptr ≡ false = ap is_null pointer in
    let options : is_null t.configure.openssl_ctx_ptr ≡ false = ap is_null context in
    let rounds : length delimiter + 2 ≡ suc (suc (length delimiter)) = omega arith in
    let none_fit : 0 + 1 - length delimiter ≡ zero = omega (arith, some_bytes) in
    rw
      (
        fd,
        object,
        options,
        ==_false (length delimiter) 0 (omega (arith, some_bytes)),
        rounds,
        none_fit,
        waits,
      )
      (selected-outside p x sys c delimiter some_bytes (length delimiter) 0 start small whole
        (record {
          pointer = pointer;
          context = context;
          usable = usable;
          buffer = fresh_buffer-IsTight 596 (omega arith);
        }))
