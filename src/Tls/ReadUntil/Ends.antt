-- ===== src/Tls/ReadUntil/Ends.antt =====
-- How `async_read_until_tls` ends.
use native.Mathlib.Decide.{dec_lt}
use mtasc.Common.{
  ℕ, zero, suc, ◌+◌, ◌-◌, ◌*◌, ◌≤◌, ◌<◌, ◌^◌, ◌≡◌, ◌≢◌, refl, ap, ◌∙◌, ◌++◌, ◌∷◌, Bytes, true,
  false, ==_false, length, length-append, length-take, take, Bool-cases, inl, inr, Option, none,
  some, Outcome, ok, out_of_bounds, ◌>>=◌, arith,
}
use mtasc.Number.{negsuc}
use mtasc.Buffer.{fresh_buffer, readable_bytes}
use mtasc.Buffer.Valid.{contents, readable_bytes-contents}
use mtasc.Tcp.{
  moved, ClientContext, Callback, no_error, io_error, timed_out, is_negative, retry_result,
}
use mtasc.Tcp.Recv.{answer_select, select}
use mtasc.Tcp.ReadUntil.{verify, error}
use mtasc.Tls.{
  TlsSystem, Tls, TlsReceived, tls_bytes, tls_closed, tls_failed, failed_call, with_io, use_ssl,
  ssl_get_error, reported_of, tls_select,
}
use mtasc.Tcp.Search.{HasInside}
use mtasc.Tls.ReadUntil.{
  is_null, answer_read, Turn, scan, error_case, received, selected, reading_case, step, after, loop,
  async_read_until_tls,
}
use mtasc.Tls.ReadUntil.Searched.{ssl_read_until_retry-Searched}
use mtasc.Tls.ReadUntil.Tight.{
  IsReady-call, get_error-IsReady, ssl_read-IsReady, IsReady, fresh_buffer-IsTight,
  appended-IsReady, scan-outside,
}

-- The task is over: with undefined behaviour, or with one callback, which has no error only if the
-- delimiter has been read, and then the number of the bytes in the buffer.
pub data Ended (delimiter : Bytes) : Outcome (Option Callback × Tls) → Type 0 where
  undefined_end : Ended delimiter out_of_bounds
  found_end :
      (cb : Callback) (t : Tls)
      → cb.error ≡ no_error
      → cb.count ≡ length (contents t.io.buffer)
      → HasInside delimiter (contents t.io.buffer)
      → Ended delimiter (ok (some cb, t))
  failed_end :
      (cb : Callback) (t : Tls)
      → cb.error ≢ no_error
      → cb.count ≡ 0
      → Ended delimiter (ok (some cb, t))

module _ (p x : ℕ) (sys : TlsSystem) (delimiter : Bytes) where
  -- `case ERROR` ends the task.
  error-Ended :
      (fuel : ℕ) (c : ClientContext) (t : Tls)
      → 0 < fuel
      → is_negative c.socketfd ≡ false
      → IsReady p x (1086 * (c.max_rety_count + 1)) t
      → Ended delimiter (loop fuel error sys c delimiter t)
  unfolding loop step error_case
  error-Ended zero c t f fd r = absurd (omega (arith, f))
  error-Ended (suc fuel) c t f fd r =
      let (out, e, left, found) = ssl_read_until_retry-Searched p x sys delimiter c t fd r in
      rw e (elim (Bool-cases out.0.is_retry_success) [
        | inl good ↦ rw good (
            found_end
              (record {
                error = no_error;
                count = readable_bytes out.1.io.buffer;
                context = moved (retry_result out.0 true);
              })
              out.1 refl (readable_bytes-contents left.buffer.valid) (found good))
        | inr bad ↦
            let asked : ssl_get_error out.1.configure.openssl_ptr (negsuc 0) out.1
                ≡ ok (reported_of (negsuc 0) out.1) =
              ap (λ s. ssl_get_error s (negsuc 0) out.1) left.pointer
              ∙ get_error-IsReady p x 0 out.1 left in
            rw (bad, asked)
              (failed_end
                (record { error = io_error; count = 0; context = moved (retry_result out.0 false) })
                out.1 (λ e. absurd (cc)) refl)
      ])

  -- What `loop` does in the rounds that are left.
  abbrev Rounds : ℕ → ClientContext → Outcome Turn → Type 0
  Rounds fuel c o = Ended delimiter (o >>= after (λ st t. loop fuel st sys c delimiter t))

  received-Ended :
      (fuel n : ℕ) (c : ClientContext) (t : Tls) (a : TlsReceived)
      → 0 < fuel
      → is_negative c.socketfd ≡ false
      → 1086 * (c.max_rety_count + 1) ≤ n
      → IsReady p x (596 + n) t
      → ((t' : Tls)
          → length (contents t.io.buffer) < length (contents t'.io.buffer)
          → IsReady p x n t'
          → Ended delimiter (loop fuel verify sys c delimiter t'))
      → Rounds fuel c (received (answer_read a 596 t))
  unfolding answer_read
  received-Ended fuel n c t (tls_bytes b bs) f fd room r ih =
      let read : Bytes = take 596 (b ∷ bs) in
      let counted : Tls = record t {
        io = record t.io { calls = t.io.calls + 1; arrived = t.io.arrived ++ read };
      } in
      let size = length-take 596 (b ∷ bs) in
      let (t', e, r', queued) =
        appended-IsReady read p x 596 n counted (omega (arith, size))
          (IsReady-call p x (596 + n) (596 + n) t counted (omega arith) refl refl refl r) in
      let more = ap length queued ∙ length-append (contents t.io.buffer) read in
      rw e (ih t' (omega (arith, more, size)) r')
  received-Ended fuel n c t tls_closed f fd room r ih = undefined_end
  received-Ended fuel n c t (tls_failed why) f fd room r ih =
      error-Ended fuel c (failed_call why t) f fd (
        IsReady-call p x (1086 * (c.max_rety_count + 1)) (596 + n) t (failed_call why t)
          (omega (arith, room)) refl refl refl r)

  selected-Ended :
      (fuel n : ℕ) (c : ClientContext) (t : Tls) (o : Option ℕ)
      → 0 < fuel
      → is_negative c.socketfd ≡ false
      → 1086 * (c.max_rety_count + 1) ≤ n
      → IsReady p x (596 + n) t
      → ((t' : Tls)
          → length (contents t.io.buffer) < length (contents t'.io.buffer)
          → IsReady p x n t'
          → Ended delimiter (loop fuel verify sys c delimiter t'))
      → Rounds fuel c (selected sys c (with_io t (answer_select o t.io)))
  unfolding answer_select
  selected-Ended fuel n c t none f fd room r ih =
      let t' : Tls = record t { io = record t.io { calls = t.io.calls + 1 } } in
      let r' : IsReady p x (596 + n) t' =
        IsReady-call p x (596 + n) (596 + n) t t' (omega arith) refl refl refl r in
      rw (ssl_read-IsReady p x sys (596 + n) 596 t' r')
        (received-Ended fuel n c t' (sys.on_ssl_read t'.io.calls) f fd room r' ih)
  selected-Ended fuel n c t (some e) f fd room r ih =
      let t' : Tls = record t { io = record t.io { calls = t.io.calls + 1; errno = e } } in
      failed_end (record { error = timed_out; count = 0; context = moved c }) t' (λ h. absurd (cc))
        refl

  -- A round finds the delimiter's length outside the buffer, or reads at least a byte.
  loop-Ended :
      (fuel : ℕ) (c : ClientContext) (t : Tls)
      → is_negative c.socketfd ≡ false
      → 0 < length delimiter
      → 1 < fuel
      → length delimiter + 2 ≤ length (contents t.io.buffer) + fuel
      → IsReady p x (596 * fuel + 1086 * (c.max_rety_count + 1)) t
      → Ended delimiter (loop fuel verify sys c delimiter t)
  unfolding loop step reading_case tls_select select scan
  loop-Ended zero c t fd some_bytes f enough r = absurd (omega (arith, f))
  loop-Ended (suc fuel) c t fd some_bytes f enough r =
      let readable = readable_bytes-contents r.buffer.valid in
      elim (dec_lt (readable_bytes t.io.buffer) (length delimiter)) [
        | no fits ↦
            rw
              (scan-outside delimiter (readable_bytes t.io.buffer + 1 - length delimiter)
                (596 * suc fuel + 1086 * (c.max_rety_count + 1)) t.io.buffer some_bytes
                (omega (arith, fits)) r.buffer)
              undefined_end
        | yes short ↦
            let none_fit : readable_bytes t.io.buffer + 1 - length delimiter ≡ zero =
              omega (arith, short) in
            rw none_fit (
              selected-Ended fuel (596 * fuel + 1086 * (c.max_rety_count + 1)) c t
                (sys.system.on_select t.io.calls) (omega (arith, f)) fd (omega arith)
                (IsReady-call p x (596 + (596 * fuel + 1086 * (c.max_rety_count + 1)))
                  (596 * suc fuel + 1086 * (c.max_rety_count + 1)) t t (omega arith) refl refl refl
                  r)
                (λ t' more r'.
                  loop-Ended fuel c t' fd some_bytes (omega (arith, f, enough, short, readable))
                    (omega (arith, more, enough)) r'))
      ]

-- On every sequence of answers `async_read_until_tls` ends after at most as many rounds as the
-- delimiter has bytes, and two: with undefined behaviour, or with one callback, which has no error
-- only if the delimiter is among the bytes in the buffer, and then their number; any other error
-- has the count 0. The socket is not negative and has a live object and a context, the delimiter
-- is not empty, and its length and the retry limit fit into an `int`.
pub async_read_until_tls-Ended :
    (sys : TlsSystem) (c : ClientContext) (delimiter : Bytes) (t : Tls) (p x : ℕ)
    → is_negative c.socketfd ≡ false
    → t.configure.openssl_ptr ≡ some p
    → t.configure.openssl_ctx_ptr ≡ some x
    → use_ssl (some p) t ≡ ok p
    → 0 < length delimiter
    → length delimiter < 2 ^ 31
    → c.max_rety_count < 2 ^ 31
    → Ended delimiter (async_read_until_tls sys c delimiter t)
unfolding async_read_until_tls use_ssl
async_read_until_tls-Ended sys c delimiter t p x fd pointer context usable some_bytes short few =
    let start : Tls = record t { io = record t.io { buffer = fresh_buffer } } in
    let run =
      loop-Ended p x sys delimiter (length delimiter + 2) c start fd some_bytes (omega arith)
        (omega arith)
        (record {
          pointer = pointer;
          context = context;
          usable = usable;
          buffer =
              fresh_buffer-IsTight (596 * (length delimiter + 2) + 1086 * (c.max_rety_count + 1))
                (omega (arith, short, few));
        }) in
    let object : is_null t.configure.openssl_ptr ≡ false = ap is_null pointer in
    let options : is_null t.configure.openssl_ctx_ptr ≡ false = ap is_null context in
    rw (fd, object, options, ==_false (length delimiter) 0 (omega (arith, some_bytes))) run
