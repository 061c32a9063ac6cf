-- ===== src/Tls/Handshake/Want.antt =====
-- The handshake that wants to be tried again.
use mtasc.Common.{
  ℕ, zero, suc, ◌+◌, ◌-◌, ◌≤◌, ◌<◌, ◌≡◌, refl, sym, ◌∙◌, ◌>>=◌, ◌==◌, Bool, true, false, ◌||◌,
  Bool-cases, inl, inr, ◌⊎◌, Option, none, some, Outcome, ok, arith, ltb-true, ltb-false,
}
use mtasc.Number.{negsuc}
use mtasc.Tcp.{moved, ClientContext, Callback, no_error, system_error, is_negative, retry_result}
use mtasc.Tcp.Recv.{select, answer_select}
use mtasc.Tls.{
  TlsSystem, Tls, Failure, Handshaken, shaken, unshaken, use_ssl, failed_call, counted_call,
  tls_select,
}
use mtasc.Tls.Objects.{IsUsable, IsUsable-live, ssl_get_error-IsUsable}
use mtasc.Tls.Handshake.{
  is_want, answer_connect, ssl_connect, Again, want_round, handshake_loop, ssl_handshake_retry,
  connect_with, handshaken, async_try_connect_tls, retried, unshaken_with,
}

abbrev pub is_shaken : Handshaken → Bool
is_shaken shaken = true
is_shaken (unshaken f) = false

-- One of so many calls of `SSL_connect`, from this number on, succeeds.
abbrev pub some_shaken : TlsSystem → ℕ → ℕ → Bool
some_shaken sys i zero = false
some_shaken sys i (suc n) = is_shaken (sys.on_ssl_connect i) || some_shaken sys (i + 1) n

-- The retry returns; it succeeds if one of the attempts that its limit leaves does, and the objects
-- are left alone.
pub record Retried (sys : TlsSystem) (rounds : ℕ) (t : Tls) (out : ClientContext × Tls)
    : Type 0 where
  pub success : out.0.is_retry_success ≡ some_shaken sys t.io.calls rounds
  pub same_configure : out.1.configure ≡ t.configure
  pub same_live : out.1.live ≡ t.live

abbrev Retries : TlsSystem → ℕ → Tls → Outcome (ClientContext × Tls) → Type 0
Retries sys rounds t o = (out : ClientContext × Tls) × (o ≡ ok out) × Retried sys rounds t out

want_round-Retries :
    (sys : TlsSystem) (again : Again) (ssl : Option ℕ) (c : ClientContext) (t : Tls) (n : ℕ)
    (a : Handshaken)
    → c.connect_rety_count ≤ c.max_rety_count
    → a ≡ sys.on_ssl_connect t.io.calls
    → ((t' : Tls)
        → t'.live ≡ t.live
        → t'.io.calls ≡ t.io.calls + 1
        → t'.configure ≡ t.configure
        → Retries sys n t' (again ssl c t'))
    → Retries sys (suc n) t (want_round again ssl c (answer_connect a t))
want_round-Retries sys again ssl c t n shaken le e ih = (
  (retry_result c true, counted_call t),
  refl,
  record { success = rw (← e); same_configure = refl; same_live = refl },
)
want_round-Retries sys again ssl c t n (unshaken f) le e ih =
    let (out, g, r) = ih (failed_call f t) refl refl refl in
    (
      out,
      rw (ltb-false c.max_rety_count c.connect_rety_count le) g,
      record {
        success = r.success ∙ rw (← e);
        same_configure = r.same_configure;
        same_live = r.same_live;
      },
    )

handshake_loop-Retries :
    (fuel : ℕ) (sys : TlsSystem) (err : ℕ) (ctx ssl : Option ℕ) (c : ClientContext) (t : Tls)
    (n : ℕ)
    → n ≡ c.max_rety_count - c.connect_rety_count
    → n < fuel
    → is_want err ≡ true
    → IsUsable ssl t
    → Retries sys n t (handshake_loop fuel sys err ctx ssl c t)
unfolding handshake_loop ssl_connect
handshake_loop-Retries zero sys err ctx ssl c t n left f want usable = absurd (omega arith)
handshake_loop-Retries (suc fuel) sys err ctx ssl c t zero left f want usable = (
  (retry_result c false, t),
  rw (ltb-false c.connect_rety_count c.max_rety_count (omega arith)),
  record { success = refl; same_configure = refl; same_live = refl },
)
handshake_loop-Retries (suc fuel) sys err ctx ssl c t (suc n) left f want usable =
    let counted : ClientContext = record c { connect_rety_count = c.connect_rety_count + 1 } in
    let (out, e, r) =
      want_round-Retries sys (handshake_loop fuel sys err ctx) ssl counted t n
        (sys.on_ssl_connect t.io.calls) (omega arith) refl
        (λ t' live calls same.
          handshake_loop-Retries fuel sys err ctx ssl counted t' n (omega arith) (omega arith) want
            (IsUsable-live ssl t t' live usable)) in
    (out, rw (ltb-true c.connect_rety_count c.max_rety_count (omega arith), want, usable.1) e, r)

pub connect_with-IsUsable :
    (sys : TlsSystem) (c : ClientContext) (t : Tls) (ssl : Option ℕ)
    → IsUsable ssl t
    → is_negative c.socketfd ≡ false
    → connect_with sys c t ssl ≡ (ssl_connect sys ssl t >>= handshaken sys c)
unfolding use_ssl
connect_with-IsUsable sys c t none (p, h) fd = absurd (cc)
connect_with-IsUsable sys c t (some q) (p, h) fd = rw fd

-- The first attempt fails, and the error is known.
pub handshaken-unshaken :
    (sys : TlsSystem) (c : ClientContext) (t : Tls) (f : Failure)
    → IsUsable t.configure.openssl_ptr t
    → is_negative c.socketfd ≡ false
    → sys.on_ssl_connect t.io.calls ≡ unshaken f
    → async_try_connect_tls sys c t ≡ unshaken_with sys c (failed_call f t) f.reported
unfolding async_try_connect_tls ssl_connect
handshaken-unshaken sys c t f usable fd first =
    connect_with-IsUsable sys c t t.configure.openssl_ptr usable fd
    ∙ rw (
      usable.1,
      first,
      ssl_get_error-IsUsable t.configure.openssl_ptr (negsuc 0) (failed_call f t)
          (IsUsable-live t.configure.openssl_ptr t (failed_call f t) refl usable),
    )

-- A handshake that OpenSSL wants to be tried again is tried again, with the same object, until it
-- succeeds, but at most as often as the limit says: if one of these attempts succeeds, the callback
-- gets no error; if none does, it gets the code of `errno`, which is no error where `errno` is 0.
-- The configured object stays the same and live. The object is live, the socket is not negative,
-- and the wait for it does not fail.
pub async_try_connect_tls_want :
    (sys : TlsSystem) (c : ClientContext) (t : Tls) (f : Failure)
    → IsUsable t.configure.openssl_ptr t
    → is_negative c.socketfd ≡ false
    → sys.on_ssl_connect t.io.calls ≡ unshaken f
    → is_want f.reported ≡ true
    → sys.system.on_select (t.io.calls + 1) ≡ none
    → (out : Callback × Tls) × (async_try_connect_tls sys c t ≡ ok out)
      × (((some_shaken sys (t.io.calls + 1 + 1) c.max_rety_count ≡ true) × (out.0.error ≡ no_error))
          ⊎ ((some_shaken sys (t.io.calls + 1 + 1) c.max_rety_count ≡ false)
              × (out.0.error ≡ system_error out.1.io.errno)))
      × (out.1.configure ≡ t.configure)
      × (out.1.live ≡ t.live)
unfolding ssl_handshake_retry tls_select select answer_select
async_try_connect_tls_want sys c t f usable fd first want waits =
    let ready : Tls = record (failed_call f t) {
      io = record t.io { calls = t.io.calls + 1 + 1; errno = f.errno };
    } in
    let (r, e, done) =
      handshake_loop-Retries (c.max_rety_count + 1) sys f.reported t.configure.openssl_ctx_ptr
        t.configure.openssl_ptr (record c { connect_rety_count = 0 }) ready c.max_rety_count
        (omega arith) (omega arith) want
        (IsUsable-live t.configure.openssl_ptr t ready refl usable) in
    let steps : async_try_connect_tls sys c t ≡ retried r =
      handshaken-unshaken sys c t f usable fd first ∙ rw (want_in f.reported want, waits, fd, e) in
    elim (Bool-cases r.0.is_retry_success) [
      | inl good ↦ (
        (record { error = no_error; count = 0; context = moved r.0 }, r.1),
        steps ∙ rw good,
        inl (sym done.success ∙ good, refl),
        done.same_configure,
        done.same_live,
      )
      | inr bad ↦ (
        (record { error = system_error r.1.io.errno; count = 0; context = moved r.0 }, r.1),
        steps ∙ rw bad,
        inr (sym done.success ∙ bad, refl),
        done.same_configure,
        done.same_live,
      )
    ]
  where
    want_in : (e : ℕ) → is_want e ≡ true → (e == 0 || is_want e) ≡ true
    want_in e h = ground arith
