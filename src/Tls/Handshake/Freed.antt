-- ===== src/Tls/Handshake/Freed.antt =====
-- The handshake whose retry makes a new object: what becomes of the one that is configured.
use mtasc.Common.{
  ℕ, suc, ◌+◌, ◌<◌, ◌≡◌, refl, ap, ◌∙◌, List, ◌∷◌, true, false, ◌||◌, ◌==◌, ==_refl, ==_false,
  Option, some, ok, thrown, runtime_error, out_of_bounds, ◌>>=◌, arith, ltb-true, ltb-false,
  if◌then◌else◌,
}
use mtasc.Number.{negsuc}
use mtasc.Tcp.{moved, ClientContext, Callback, system_error, is_negative, retry_result, etimedout}
use mtasc.Tls.{
  TlsSystem, Tls, Failure, unshaken, use_ssl, failed_call, counted_call, is_live, free_object,
  econnreset, ssl_error_syscall, ssl_error_ssl,
}
use mtasc.Tls.Objects.{IsUsable, Dangles, ssl_get_error-Dangles}
use mtasc.Tls.Create.{create_new_retry_tls, free_ssl, new_ssl, new_checked}
use mtasc.Tls.Handshake.{
  is_want, ssl_connect, handshake_loop, renewed_round, ssl_handshake_retry, connect_with,
  async_try_connect_tls, retried,
}
use mtasc.Tls.Handshake.Want.{handshaken-unshaken}

-- The socket owns a live object and a context.
pub record Owns (t : Tls) (p ctx : ℕ) (rest : List ℕ) : Type 0 where
  pub pointer : t.configure.openssl_ptr ≡ some p
  pub context : t.configure.openssl_ctx_ptr ≡ some ctx
  pub objects : t.live ≡ p ∷ rest
  pub once : is_live p rest ≡ false
  pub fresh : p < t.next_object

-- The state behind `free` and `SSL_new`.
abbrev pub renewed_state : Tls → List ℕ → Tls
renewed_state t rest = record (counted_call t) {
  next_object = t.next_object + 1;
  live = t.next_object ∷ rest;
}

owned :
    {t : Tls} {p ctx : ℕ} {rest : List ℕ} → Owns t p ctx rest → IsUsable t.configure.openssl_ptr t
unfolding use_ssl
owned {t} {p} o = (p, ap (λ s. use_ssl s t) o.pointer ∙ rw (o.objects, ==_refl p))

connect_with-Dangles :
    (sys : TlsSystem) (c : ClientContext) (t : Tls) (ssl : Option ℕ)
    → is_negative c.socketfd ≡ false
    → Dangles ssl t
    → connect_with sys c t ssl ≡ out_of_bounds
unfolding ssl_connect use_ssl
connect_with-Dangles sys c t ssl fd (p, e, freed) = ap (connect_with sys c t) e ∙ rw (fd, freed)

renewed-dangles :
    {t : Tls} {p ctx : ℕ} {rest : List ℕ}
    → Owns t p ctx rest
    → is_live p (t.next_object ∷ rest) ≡ false
renewed-dangles {t} {p} o = rw (==_false t.next_object p (omega (arith, o.fresh))) o.once

free_ssl-Owns :
    {t : Tls} {p ctx : ℕ} {rest : List ℕ}
    → Owns t p ctx rest
    → free_ssl t.configure.openssl_ptr t ≡ ok (record t { live = rest })
unfolding free_ssl
free_ssl-Owns {t} {p} o =
    ap (λ s. free_ssl s t) o.pointer
    ∙ ap (λ l. if is_live p l then ok (record t { live = free_object p l }) else out_of_bounds)
        o.objects
    ∙ rw (==_refl p)

create_new_retry_tls_lem :
    (sys : TlsSystem) (t : Tls) (p ctx : ℕ) (rest : List ℕ)
    → Owns t p ctx rest
    → sys.on_ssl_new t.io.calls ≡ true
    → create_new_retry_tls sys t.configure.openssl_ptr t.configure.openssl_ctx_ptr t
      ≡ ok (some t.next_object, renewed_state t rest)
unfolding create_new_retry_tls new_ssl
create_new_retry_tls_lem sys t p ctx rest o made =
    ap (λ r. r >>= new_checked sys t.configure.openssl_ctx_ptr) (free_ssl-Owns o)
    ∙ ap (λ x. new_checked sys x (record t { live = rest })) o.context
    ∙ rw made

-- The first round of a retry that renews the object.
first_round :
    (sys : TlsSystem) (c : ClientContext) (t : Tls) (p ctx err : ℕ) (rest : List ℕ)
    → Owns t p ctx rest
    → is_negative c.socketfd ≡ false
    → 0 < c.max_rety_count
    → is_want err ≡ false
    → sys.on_ssl_new t.io.calls ≡ true
    → ssl_handshake_retry sys err t.configure.openssl_ctx_ptr t.configure.openssl_ptr c t
      ≡ renewed_round
          (handshake_loop c.max_rety_count sys err t.configure.openssl_ctx_ptr)
          sys
          err
          (record c { connect_rety_count = 0 + 1 })
          (some t.next_object, renewed_state t rest)
unfolding ssl_handshake_retry handshake_loop
first_round sys c t p ctx err rest o fd more other made =
    let rounds : c.max_rety_count + 1 ≡ suc c.max_rety_count = omega arith in
    rw (
      fd,
      rounds,
      ltb-true 0 c.max_rety_count more,
      other,
      create_new_retry_tls_lem sys t p ctx rest o made,
    )

module _ (sys : TlsSystem) (c : ClientContext) (t : Tls) (f : Failure) (p ctx : ℕ) (rest : List ℕ)
    (o : Owns t p ctx rest) (fd : is_negative c.socketfd ≡ false) (more : 0 < c.max_rety_count)
    (first : sys.on_ssl_connect t.io.calls ≡ unshaken f)
    (made : sys.on_ssl_new (t.io.calls + 1) ≡ true) where
  abbrev after_first : Tls
  after_first = failed_call f t

  Owns-after_first : Owns after_first p ctx rest
  Owns-after_first = record {
    pointer = o.pointer;
    context = o.context;
    objects = o.objects;
    once = o.once;
    fresh = o.fresh;
  }

  retry_first :
      (f.reported == 0 || is_want f.reported) ≡ false
      → is_want f.reported ≡ false
      → async_try_connect_tls sys c t ≡ (
          renewed_round
            (handshake_loop c.max_rety_count sys f.reported t.configure.openssl_ctx_ptr)
            sys
            f.reported
            (record c { connect_rety_count = 0 + 1 })
            (some t.next_object, renewed_state after_first rest)
          >>= retried)
  retry_first no_wait other =
      handshaken-unshaken sys c t f (owned o) fd first
      ∙ (rw no_wait)
      ∙ ap (λ r. r >>= retried)
          (first_round sys c after_first p ctx f.reported rest Owns-after_first fd more other made)

  -- A handshake that fails with `SSL_ERROR_SSL` makes the task throw, so its callback is never
  -- called, where the retry limit is not 0, the socket owns its objects and `SSL_new` succeeds.
  pub handshake_throws :
      f.reported ≡ ssl_error_ssl → async_try_connect_tls sys c t ≡ thrown runtime_error
  handshake_throws e = retry_first (rw e) (rw e) ∙ rw e

  -- A handshake that a reset or a timeout of the connection ended is tried again with a new object
  -- after the old one is freed. If this attempt fails too, the code asks OpenSSL for the error of
  -- the freed object, which is undefined behaviour. The retry limit is above 0, the socket is not
  -- negative and owns a live object, once, that is older than the next one, and a context, and
  -- `SSL_new` makes the new object.
  pub handshake_uses_freed :
      f.reported ≡ ssl_error_syscall
      → (f.errno == econnreset || f.errno == etimedout) ≡ true
      → (g : Failure) → sys.on_ssl_connect (t.io.calls + 1 + 1) ≡ unshaken g
      → async_try_connect_tls sys c t ≡ out_of_bounds
  unfolding ssl_connect use_ssl
  handshake_uses_freed e reset g second =
      retry_first (rw e) (rw e)
      ∙ rw (
        e,
        reset,
        ==_refl t.next_object,
        second,
        ltb-false c.max_rety_count (0 + 1) (omega arith),
        ssl_get_error-Dangles t.configure.openssl_ptr (negsuc 0)
            (failed_call g (renewed_state after_first rest)) (p, o.pointer, renewed-dangles o),
      )

  -- A handshake that any other failure of a system call ended is given up, but the object is freed
  -- all the same: the callback gets the code of `errno`, the configured pointer dangles, and the
  -- next `async_try_connect_tls` on the socket is undefined behaviour. The conditions are those of
  -- the retry above: a retry limit above 0, a socket that is not negative and owns a live object,
  -- once, that is older than the next one, and a context, and an `SSL_new` that makes a new object.
  pub handshake_frees :
      f.reported ≡ ssl_error_syscall
      → (f.errno == econnreset || f.errno == etimedout) ≡ false
      → (out : Callback × Tls) × (async_try_connect_tls sys c t ≡ ok out)
        × (out.0.error ≡ system_error f.errno)
        × Dangles out.1.configure.openssl_ptr out.1
        × (async_try_connect_tls sys c out.1 ≡ out_of_bounds)
  unfolding async_try_connect_tls
  handshake_frees e other =
      let left : Tls = renewed_state after_first rest in
      let dangles : Dangles t.configure.openssl_ptr left = (p, o.pointer, renewed-dangles o) in
      (
        (
          record {
            error = system_error f.errno;
            count = 0;
            context = moved (retry_result c false);
          },
          left,
        ),
        retry_first (rw e) (rw e) ∙ rw (e, other),
        refl,
        dangles,
        connect_with-Dangles sys c left t.configure.openssl_ptr fd dangles,
      )
