-- ===== src/Tls/ReadUntil/Searched.antt =====
-- What the retry of `async_read_until_tls` finds.
use native.Mathlib.Decide.{dec_lt}
use mtasc.Common.{
  ℕ, zero, suc, ◌+◌, ◌-◌, ◌*◌, ◌≤◌, ◌<◌, ◌≡◌, refl, ap, ◌∙◌, ◌++◌, ◌∷◌, Bytes, true, false, ◌||◌,
  ◌==◌, leb, ltb, length-take, take, Bool-cases, inl, inr, if◌then◌else◌, Option, none, some,
  Outcome, ok, arith, ltb-true, ltb-false,
}
use mtasc.Number.{negsuc}
use mtasc.Buffer.Valid.{contents}
use mtasc.Tcp.{ClientContext, is_negative, retry_result}
use mtasc.Tcp.Recv.{answer_select, select, search_buffer}
use mtasc.Tls.{
  TlsSystem, Tls, TlsReceived, tls_bytes, tls_closed, tls_failed, failed_call, counted_call,
  with_io, ssl_error_want_read, ssl_error_want_write, ssl_error_syscall, tls_select,
}
use mtasc.Tcp.Search.{HasInside, search_buffer-HasInside}
use mtasc.Tls.ReadUntil.{
  answer_read, ssl_read, read_failed, retry_round, retry_loop, waited, retry_error,
  ssl_read_until_retry,
}
use mtasc.Tls.ReadUntil.Tight.{IsReady-call, get_error-IsReady, IsReady, appended-IsReady}

-- A retry returns, and has found the delimiter if it reports success.
abbrev pub Searched : ℕ → ℕ → Bytes → Outcome (ClientContext × Tls) → Type 0
Searched p x delimiter o =
    (out : ClientContext × Tls) × (o ≡ ok out)
    × IsReady p x 0 out.1
    × (out.0.is_retry_success ≡ true → HasInside delimiter (contents out.1.io.buffer))

module _ (p x : ℕ) (sys : TlsSystem) (delimiter : Bytes) where
  failed-Searched :
      (n : ℕ) (c : ClientContext) (t : Tls)
      → IsReady p x n t
      → Searched p x delimiter (ok (retry_result c false, t))
  failed-Searched n c t r = (
    (retry_result c false, t),
    refl,
    IsReady-call p x 0 n t t (omega arith) refl refl refl r,
    λ e. absurd (cc),
  )

  found-Searched :
      (n : ℕ) (c : ClientContext) (t : Tls)
      → IsReady p x n t
      → search_buffer delimiter t.io.buffer ≡ true
      → Searched p x delimiter (ok (retry_result c true, t))
  found-Searched n c t r e = (
    (retry_result c true, t),
    refl,
    IsReady-call p x 0 n t t (omega arith) refl refl refl r,
    λ _. (search_buffer-HasInside delimiter t.io.buffer r.buffer.valid).0 e,
  )

  -- A retry whose next rounds end.
  abbrev Continues : ℕ → ℕ → (ClientContext → Tls → Outcome (ClientContext × Tls)) → Type 0
  Continues n left next =
      (c : ClientContext) (t : Tls)
      → c.max_rety_count - c.connect_rety_count ≤ left
      → IsReady p x n t
      → Searched p x delimiter (next c t)

  read_failed-Searched :
      (n left err : ℕ) (next : ClientContext → Tls → Outcome (ClientContext × Tls))
      (c : ClientContext) (t : Tls)
      → Continues n left next
      → c.max_rety_count - c.connect_rety_count ≤ left
      → IsReady p x n t
      → Searched p x delimiter (read_failed next c t err)
  read_failed-Searched n left err next c t ih few r =
      elim (Bool-cases (err == ssl_error_want_read || err == ssl_error_want_write)) [
        | inr other ↦ rw other (failed-Searched n c t r)
        | inl wanted ↦ elim (Bool-cases (ltb c.connect_rety_count c.max_rety_count)) [
          | inl more ↦ rw (wanted, more) (ih c t few r)
          | inr last ↦ rw (wanted, last) (failed-Searched n c t r)
        ]
      ]

  retry_round-Searched :
      (n left : ℕ) (next : ClientContext → Tls → Outcome (ClientContext × Tls)) (c : ClientContext)
      (t : Tls) (a : TlsReceived)
      → Continues n left next
      → c.max_rety_count - c.connect_rety_count ≤ left
      → IsReady p x (1086 + n) t
      → Searched p x delimiter (retry_round next (some p) c (answer_read a 1086 t))
  unfolding answer_read
  retry_round-Searched n left next c t (tls_bytes b bs) ih few r =
      let read : Bytes = take 1086 (b ∷ bs) in
      let counted : Tls = record t {
        io = record t.io { calls = t.io.calls + 1; arrived = t.io.arrived ++ read };
      } in
      let c' : ClientContext =
        if leb c.max_rety_count c.connect_rety_count
        then record c { max_rety_count = c.max_rety_count - 1 }
        else c in
      let (t', e, r', _) =
        appended-IsReady read p x 1086 n counted (omega (arith, length-take 1086 (b ∷ bs)))
          (IsReady-call p x (1086 + n) (1086 + n) t counted (omega arith) refl refl refl r) in
      rw e (ih c' t' (ground (arith, few)) r')
  retry_round-Searched n left next c t tls_closed ih few r =
      failed-Searched n c (counted_call t)
        (IsReady-call p x n (1086 + n) t (counted_call t) (omega arith) refl refl refl r)
  retry_round-Searched n left next c t (tls_failed f) ih few r =
      let r' : IsReady p x n (failed_call f t) =
        IsReady-call p x n (1086 + n) t (failed_call f t) (omega arith) refl refl refl r in
      rw (get_error-IsReady p x n (failed_call f t) r')
        (read_failed-Searched n left f.reported next c (failed_call f t) ih few r')

  retry_loop-Searched :
      (fuel left : ℕ) (c : ClientContext) (t : Tls)
      → left < fuel
      → c.max_rety_count - c.connect_rety_count ≤ left
      → IsReady p x (1086 * fuel) t
      → Searched p x delimiter (retry_loop fuel sys (some p) delimiter c t)
  unfolding retry_loop ssl_read
  retry_loop-Searched zero left c t f few r = absurd (omega arith)
  retry_loop-Searched (suc fuel) left c t f few r =
      let counted : ClientContext = record c { connect_rety_count = c.connect_rety_count + 1 } in
      elim (dec_lt c.connect_rety_count c.max_rety_count) [
        | no done ↦
            rw (ltb-false c.connect_rety_count c.max_rety_count (omega arith))
              (failed-Searched (1086 * suc fuel) c t r)
        | yes more ↦
            rw (ltb-true c.connect_rety_count c.max_rety_count more)
              (elim (Bool-cases (leb counted.max_rety_count counted.connect_rety_count)) [
                | inl last ↦ rw last (failed-Searched (1086 * suc fuel) counted t r)
                | inr some_left ↦ elim (Bool-cases (search_buffer delimiter t.io.buffer)) [
                  | inl there ↦
                      rw (some_left, there) (found-Searched (1086 * suc fuel) counted t r there)
                  | inr missing ↦
                      rw (some_left, missing, r.usable)
                        (retry_round-Searched (1086 * fuel) (left - 1)
                          (retry_loop fuel sys (some p) delimiter) counted t
                          (sys.on_ssl_read t.io.calls)
                          (λ c' t' few' r'.
                            retry_loop-Searched fuel (left - 1) c' t' (omega arith) few' r')
                          (omega arith)
                          (IsReady-call p x (1086 + 1086 * fuel) (1086 * suc fuel) t t (omega arith)
                            refl refl refl r))
                ]
              ])
      ]

  whole_retry :
      (c : ClientContext) (t : Tls)
      → IsReady p x (1086 * (c.max_rety_count + 1)) t
      → Searched p x delimiter (retry_loop (c.max_rety_count + 1) sys (some p) delimiter c t)
  whole_retry c t r =
      retry_loop-Searched (c.max_rety_count + 1) c.max_rety_count c t (omega arith) (omega arith) r

  waited-Searched :
      (o : Option ℕ) (c : ClientContext) (t : Tls)
      → IsReady p x (1086 * (c.max_rety_count + 1)) t
      → Searched p x delimiter (waited sys (some p) delimiter c (with_io t (answer_select o t.io)))
  unfolding answer_select
  waited-Searched none c t r =
      let t' : Tls = record t { io = record t.io { calls = t.io.calls + 1 } } in
      whole_retry c t' (
        IsReady-call p x (1086 * (c.max_rety_count + 1)) (1086 * (c.max_rety_count + 1)) t t'
          (omega arith) refl refl refl r)
  waited-Searched (some e) c t r =
      let t' : Tls = record t { io = record t.io { calls = t.io.calls + 1; errno = e } } in
      failed-Searched 0 c t'
        (IsReady-call p x 0 (1086 * (c.max_rety_count + 1)) t t' (omega arith) refl refl refl r)

  retry_error-Searched :
      (err : ℕ) (c : ClientContext) (t : Tls)
      → IsReady p x (1086 * (c.max_rety_count + 1)) t
      → Searched p x delimiter (retry_error sys (some p) delimiter c t err)
  unfolding tls_select select
  retry_error-Searched err c t r =
      elim (Bool-cases
        (err == ssl_error_syscall || err == ssl_error_want_write || err == ssl_error_want_read)) [
          | inr other ↦ rw other (failed-Searched (1086 * (c.max_rety_count + 1)) c t r)
          | inl retries ↦
              elim (Bool-cases
                (err == ssl_error_want_read || err == ssl_error_want_write || err == 2)) [
                  | inl wait ↦
                      rw (retries, wait) (waited-Searched (sys.system.on_select t.io.calls) c t r)
                  | inr ready ↦ rw (retries, ready) (whole_retry c t r)
                ]
        ]

  pub ssl_read_until_retry-Searched :
      (c : ClientContext) (t : Tls)
      → is_negative c.socketfd ≡ false
      → IsReady p x (1086 * (c.max_rety_count + 1)) t
      → Searched p x delimiter (
          ssl_read_until_retry sys t.configure.openssl_ptr t.configure.openssl_ctx_ptr
            (negsuc 0)
            delimiter
            c
            t)
  unfolding ssl_read_until_retry
  ssl_read_until_retry-Searched c t fd r =
      let start : ClientContext = record c { connect_rety_count = 0 } in
      let (out, e, left, found) = retry_error-Searched t.ssl_error start t r in
      (
        out,
        ap (λ s. ssl_read_until_retry sys s t.configure.openssl_ctx_ptr (negsuc 0) delimiter c t)
              r.pointer
            ∙ ap (λ s. ssl_read_until_retry sys (some p) s (negsuc 0) delimiter c t) r.context
            ∙ (rw (fd, get_error-IsReady p x (1086 * (c.max_rety_count + 1)) t r))
            ∙ e,
        left,
        found,
      )
