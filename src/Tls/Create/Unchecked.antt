-- ===== src/Tls/Create/Unchecked.antt =====
-- What `async_create_tls` makes, and what it does not check.
use mtasc.Common.{
  ℕ, ◌+◌, ◌∷◌, ◌≡◌, refl, ap, ◌∙◌, true, false, Bool-cases, Option-cases, inl, inr, ◌⊎◌, Option,
  none, some, Outcome, ok, out_of_bounds, ◌>>=◌, ==_refl, if◌then◌else◌,
}
use mtasc.Tcp.{Io, moved, ClientContext, Callback, no_error, system_error}
use mtasc.Tls.{TlsSystem, Tls, counted_call, use_ssl}
use mtasc.Tls.Objects.{IsUsable}
use mtasc.Tls.Create.{
  OpensslOptions, init_client_openssl, certs_failure, loads_certs, create_tls_context, create_tls,
  with_context, async_create_tls, new_context, new_ssl,
}

-- The library is initialised behind the call, and nothing else has changed.
pub record Initialised (t ready : Tls) : Type 0 where
  pub is_ready : ready.configure.openssl_init ≡ true
  pub same_io : ready.io ≡ t.io
  pub same_path : ready.configure.ca_cert_path ≡ t.configure.ca_cert_path
  pub same_next : ready.next_object ≡ t.next_object
  pub same_pointer : ready.configure.openssl_ptr ≡ t.configure.openssl_ptr

init_client_openssl-Initialised : (t : Tls) → Initialised t (init_client_openssl t)
unfolding init_client_openssl
init_client_openssl-Initialised t = elim (Bool-cases t.configure.openssl_init) [
  | inl yet ↦ rw yet (record {
    is_ready = refl;
    same_io = refl;
    same_path = refl;
    same_next = refl;
    same_pointer = refl;
  })
  | inr new ↦ rw new (record {
    is_ready = refl;
    same_io = refl;
    same_path = refl;
    same_next = refl;
    same_pointer = refl;
  })
]

-- What a creation that succeeds makes, from the number of the next object on.
pub record Created (c : ClientContext) (io : Io) (next : ℕ) (out : Callback × Tls) : Type 0 where
  pub no_failure : out.0.error ≡ no_error
  pub same_context : out.0.context ≡ moved c
  pub pointer : out.1.configure.openssl_ptr ≡ some (next + 1)
  pub context : out.1.configure.openssl_ctx_ptr ≡ some next
  pub usable : IsUsable out.1.configure.openssl_ptr out.1
  pub calls : out.1.io.calls ≡ io.calls + 1 + 1
  pub sent : out.1.io.sent ≡ io.sent

pub loads_certs-none :
    (sys : TlsSystem) (options : OpensslOptions) (t : Tls)
    → loads_certs sys options t ≡ true
    → certs_failure sys options t ≡ none
loads_certs-none sys options t h = elim (Option-cases (certs_failure sys options t)) [
  | inl loaded ↦ loaded
  | inr (e, failed) ↦ absurd (cc (rw failed at h))
]

-- The state behind a context that is made.
abbrev pub with_new_context : Tls → Option ℕ → Tls
with_new_context s ctx = record (counted_call s) {
  next_object = s.next_object + 1;
  configure = record s.configure { openssl_ctx_ptr = ctx };
}

abbrev failed_context : Tls → ℕ → Tls
failed_context s e = record (with_new_context s none) {
  io = record s.io { calls = s.io.calls + 1; errno = e };
}

module _ (sys : TlsSystem) (options : OpensslOptions) (c : ClientContext) (s : Tls)
    (made : sys.on_ctx_new s.io.calls ≡ true) where
  -- The task of the call, from the state in which it begins.
  abbrev task : Outcome (Callback × Tls)
  task = create_tls_context sys options s >>= with_context sys c

  task_without_certs :
      (e : ℕ)
      → certs_failure sys options s ≡ some e
      → task
        ≡ ok (record { error = system_error e; count = 0; context = moved c }, failed_context s e)
  unfolding create_tls_context new_context
  task_without_certs e certs = rw (made, certs)

  task_with_ssl :
      loads_certs sys options s ≡ true
      → sys.on_ssl_new (s.io.calls + 1) ≡ true
      → (out : Callback × Tls) × (task ≡ ok out) × Created c s.io s.next_object out
  unfolding create_tls_context new_context create_tls new_ssl use_ssl
  task_with_ssl certs ssl =
      let left : Tls = with_new_context s (some s.next_object) in
      let p : ℕ = s.next_object + 1 in
      (
        (
          record { error = no_error; count = 0; context = moved c },
          record (counted_call left) {
            next_object = p + 1;
            live = p ∷ s.live;
            configure = record left.configure { openssl_ptr = some p };
          },
        ),
        rw (made, loads_certs-none sys options s certs, ssl),
        record {
          no_failure = refl;
          same_context = refl;
          pointer = refl;
          context = refl;
          usable = (p, rw (==_refl p));
          calls = refl;
          sent = refl;
        },
      )

  task_without_ssl :
      loads_certs sys options s ≡ true
      → sys.on_ssl_new (s.io.calls + 1) ≡ false
      → task ≡ out_of_bounds
  unfolding create_tls_context new_context create_tls new_ssl
  task_without_ssl certs ssl = rw (made, loads_certs-none sys options s certs, ssl)

module _ (sys : TlsSystem) (options : OpensslOptions) (c : ClientContext) (t : Tls) where
  async_create_tls_lem :
      async_create_tls sys options c t
      ≡ (create_tls_context sys options (init_client_openssl t) >>= with_context sys c)
  unfolding async_create_tls
  async_create_tls_lem = rw (init_client_openssl-Initialised t).is_ready

  same_failure : certs_failure sys options (init_client_openssl t) ≡ certs_failure sys options t
  same_failure =
      ap
        (λ path.
          if options.enable_custom_cert
          then sys.on_load_verify_file path
          else sys.on_default_verify_paths)
        (init_client_openssl-Initialised t).same_path

  certs_ready : loads_certs sys options (init_client_openssl t) ≡ loads_certs sys options t
  certs_ready = rw same_failure

  pub async_create_tls-Created :
      sys.on_ctx_new t.io.calls ≡ true
      → sys.on_ssl_new (t.io.calls + 1) ≡ true
      → loads_certs sys options t ≡ true
      → (out : Callback × Tls) × (async_create_tls sys options c t ≡ ok out)
        × Created c t.io t.next_object out
  async_create_tls-Created made ssl loaded =
      let s : Tls = init_client_openssl t in
      let i = init_client_openssl-Initialised t in
      let (out, e, o) =
        task_with_ssl sys options c s (ap (λ io. sys.on_ctx_new io.calls) i.same_io ∙ made)
          (certs_ready ∙ loaded) (ap (λ io. sys.on_ssl_new (io.calls + 1)) i.same_io ∙ ssl) in
      (
        out,
        async_create_tls_lem ∙ e,
        record {
          no_failure = o.no_failure;
          same_context = o.same_context;
          pointer = o.pointer ∙ ap (λ n. some (n + 1)) i.same_next;
          context = o.context ∙ ap some i.same_next;
          usable = o.usable;
          calls = o.calls ∙ ap (λ io. io.calls + 1 + 1) i.same_io;
          sent = o.sent ∙ ap (λ io. io.sent) i.same_io;
        },
      )

  -- From the first object of OpenSSL on, `async_create_tls` makes either a connection object that
  -- is live and configured, with its context, and its callback gets no error; or, if the
  -- certificates cannot be loaded, its callback gets the code of the `errno` of that failure, and
  -- no context is configured. `SSL_CTX_new` and `SSL_new` succeed.
  pub async_create_tls-IsUsable :
      sys.on_ctx_new t.io.calls ≡ true
      → sys.on_ssl_new (t.io.calls + 1) ≡ true
      → (out : Callback × Tls) × (async_create_tls sys options c t ≡ ok out)
        × (((loads_certs sys options t ≡ true)
              × (out.0.error ≡ no_error)
              × IsUsable out.1.configure.openssl_ptr out.1
              × (out.1.configure.openssl_ctx_ptr ≡ some t.next_object))
            ⊎ ((e : ℕ) × (certs_failure sys options t ≡ some e)
                × (out.0.error ≡ system_error e)
                × (out.1.configure.openssl_ctx_ptr ≡ none)))
  async_create_tls-IsUsable made ssl =
      let s : Tls = init_client_openssl t in
      let i = init_client_openssl-Initialised t in
      let made_s : sys.on_ctx_new s.io.calls ≡ true =
        ap (λ io. sys.on_ctx_new io.calls) i.same_io ∙ made in
      let ssl_s : sys.on_ssl_new (s.io.calls + 1) ≡ true =
        ap (λ io. sys.on_ssl_new (io.calls + 1)) i.same_io ∙ ssl in
      elim (Option-cases (certs_failure sys options t)) [
        | inl loaded ↦
            let (out, e, o) = async_create_tls-Created made ssl (rw loaded) in
            (out, e, inl (rw loaded, o.no_failure, o.usable, o.context))
        | inr (e, missing) ↦ (
          (record { error = system_error e; count = 0; context = moved c }, failed_context s e),
          async_create_tls_lem
              ∙ task_without_certs sys options c s made_s e (same_failure ∙ missing),
          inr (e, missing, refl, refl),
        )
      ]

  -- If `SSL_new` fails, `async_create_tls` hands the null pointer to OpenSSL: the test that stands
  -- behind is on the context again, and comes too late. The certificates can be loaded.
  pub async_create_tls_unchecked :
      sys.on_ctx_new t.io.calls ≡ true
      → loads_certs sys options t ≡ true
      → sys.on_ssl_new (t.io.calls + 1) ≡ false
      → async_create_tls sys options c t ≡ out_of_bounds
  async_create_tls_unchecked made loaded ssl =
      let s : Tls = init_client_openssl t in
      let i = init_client_openssl-Initialised t in
      async_create_tls_lem
      ∙ task_without_ssl sys options c s (ap (λ io. sys.on_ctx_new io.calls) i.same_io ∙ made)
          (certs_ready ∙ loaded) (ap (λ io. sys.on_ssl_new (io.calls + 1)) i.same_io ∙ ssl)
