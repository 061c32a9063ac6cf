-- ===== src/Tls/Lifetime.antt =====
-- The move and the destruction of a `socketSSL` and of its `client_ssl_configure`.
use mtasc.Common.{
  ℕ, ◌+◌, ◌≡◌, refl, ap, ◌∙◌, ◌∷◌, List, Bytes, true, false, ==_refl, Bool-cases, inl, inr, ◌⊎◌,
  Option, none, some, if◌then◌else◌, Outcome, ok, out_of_bounds, ◌>>=◌,
}
use mtasc.Buffer.{fresh_buffer}
use mtasc.Tcp.{moved, ClientContext, Callback, bad_file_descriptor, is_negative}
use mtasc.Tls.{TlsSystem, ClientSslConfigure, Tls, is_live}
use mtasc.Tls.Create.{OpensslOptions, loads_certs, async_create_tls}
use mtasc.Tls.Create.Unchecked.{async_create_tls-IsUsable}
use mtasc.Tls.Handshake.{async_try_connect_tls}
use mtasc.Tls.Write.{async_write_tls}
use mtasc.Tls.ReadUntil.{async_read_until_tls}

-- Both constructors from another configuration: the pointers are copied, then set to null.
unfoldable pub moved_configure : ClientSslConfigure → ClientSslConfigure
moved_configure other = record other {
  openssl_init = false;
  openssl_ptr = none;
  openssl_ctx_ptr = none;
}

-- Both assignments, to a configuration that is not the other one.
unfoldable pub assign_configure : ClientSslConfigure → ClientSslConfigure → ClientSslConfigure
assign_configure this other = record this {
  openssl_init = false;
  openssl_ptr = none;
  openssl_ctx_ptr = none;
  ca_cert_path = other.ca_cert_path;
  tls_verify_depth = other.tls_verify_depth;
}

-- `socketSSL(socketSSL&&)`, which makes the state of the new socket.
unfoldable pub move_socket : Tls → Tls
unfolding moved_configure
move_socket t = record t { configure = moved_configure t.configure }

-- `operator=(socketSSL&&)`
unfoldable pub assign_socket : ClientSslConfigure → Tls → Tls
unfolding assign_configure
assign_socket other t = record t { configure = assign_configure t.configure other }

-- `free`, with the memory that was given back before.
abbrev pub free_memory : ℕ → List ℕ → Outcome (List ℕ)
free_memory p freed = if is_live p freed then out_of_bounds else ok (p ∷ freed)

-- `SSL_CTX_free`, which counts a reference off in the memory of the context.
abbrev pub ssl_ctx_free : ℕ → List ℕ → Outcome (List ℕ)
ssl_ctx_free x freed = if is_live x freed then out_of_bounds else ok freed

abbrev pub destroy_both : Option ℕ → Option ℕ → List ℕ → Outcome (List ℕ)
destroy_both none ssl freed = ok freed
destroy_both (some x) none freed = ok freed
destroy_both (some x) (some p) freed = free_memory p freed >>= ssl_ctx_free x

-- `~client_ssl_configure`
unfoldable pub destroy_configure : ClientSslConfigure → List ℕ → Outcome (List ℕ)
destroy_configure c freed = destroy_both c.openssl_ctx_ptr c.openssl_ptr freed

abbrev pub destroy_context : Option ℕ → List ℕ → Outcome (List ℕ)
destroy_context none freed = ok freed
destroy_context (some x) freed = free_memory x freed >>= ssl_ctx_free x

-- `~socketSSL`, behind which the configuration is destroyed.
unfoldable pub destroy_socket : ClientSslConfigure → List ℕ → Outcome (List ℕ)
unfolding destroy_configure
destroy_socket c freed = destroy_context c.openssl_ctx_ptr freed >>= destroy_configure c

-- What the calls on a socket without an object do.
pub record IsInert (t : Tls) : Type 0 where
  pub no_handshake :
      (sys : TlsSystem) (c : ClientContext)
      → async_try_connect_tls sys c t
        ≡ ok (record { error = bad_file_descriptor; count = 0; context = moved c }, t)
  pub no_write :
      (fuel : ℕ) (sys : TlsSystem) (c : ClientContext) (message : Bytes)
      → is_negative c.socketfd ≡ false
      → async_write_tls fuel sys c message t ≡ ok (none, t)
  pub no_read :
      (sys : TlsSystem) (c : ClientContext) (delimiter : Bytes)
      → async_read_until_tls sys c delimiter t
        ≡ ok (
          some (record { error = bad_file_descriptor; count = 0; context = moved c }),
          record t { io = record t.io { buffer = fresh_buffer } },
        )

without_object :
    (t : Tls) (other : ClientSslConfigure)
    → IsInert (record t { configure = moved_configure other })
unfolding async_try_connect_tls async_write_tls async_read_until_tls moved_configure
without_object t other = record {
  no_handshake = λ sys c. refl;
  no_write = λ fuel sys c message fd. rw fd;
  no_read = λ sys c delimiter. elim (Bool-cases (is_negative c.socketfd)) [
    | inl negative ↦ rw negative
    | inr opened ↦ rw opened
  ];
}

-- A `socketSSL` that is moved from another, by construction or by assignment, does not take over
-- the connection, whatever the other holds: the handshake and the read report
-- `bad_file_descriptor`, and a write on a descriptor that is not negative does nothing and never
-- calls its callback.
pub move_socket-IsInert :
    (t target : Tls) → IsInert (move_socket t) × IsInert (assign_socket t.configure target)
unfolding move_socket assign_socket assign_configure moved_configure
move_socket-IsInert t target = (
  without_object t t.configure,
  without_object target
      (record t.configure { openssl_init = false; openssl_ptr = none; openssl_ctx_ptr = none }),
)

destroy_context-some :
    (c : ClientSslConfigure) (x : ℕ) (freed : List ℕ)
    → c.openssl_ctx_ptr ≡ some x
    → destroy_socket c freed ≡ out_of_bounds
unfolding destroy_socket
destroy_context-some c x freed e =
    ap (λ o. destroy_context o freed >>= destroy_configure c) e
    ∙ elim (Bool-cases (is_live x freed)) [ inl gone ↦ rw gone | inr live ↦ rw (live, ==_refl x) ]

destroy_context-none :
    (c : ClientSslConfigure) (freed : List ℕ)
    → c.openssl_ctx_ptr ≡ none
    → destroy_socket c freed ≡ ok freed
unfolding destroy_socket destroy_configure
destroy_context-none c freed e =
    ap (λ o. destroy_context o freed >>= destroy_configure c) e
    ∙ ap (λ o. destroy_both o c.openssl_ptr freed) e

-- A `socketSSL` whose `async_create_tls` has made its objects cannot be destroyed: the destructor
-- gives the memory of the context back and then has OpenSSL free the context. One whose creation
-- failed for want of the certificates is destroyed without harm. `SSL_CTX_new` and `SSL_new`
-- succeed.
pub destroy_socket-async_create_tls :
    (sys : TlsSystem) (options : OpensslOptions) (c : ClientContext) (t : Tls) (freed : List ℕ)
    → sys.on_ctx_new t.io.calls ≡ true
    → sys.on_ssl_new (t.io.calls + 1) ≡ true
    → (out : Callback × Tls) × (async_create_tls sys options c t ≡ ok out)
      × (((loads_certs sys options t ≡ true)
            × (destroy_socket out.1.configure freed ≡ out_of_bounds))
          ⊎ ((loads_certs sys options t ≡ false)
              × (destroy_socket out.1.configure freed ≡ ok freed)))
destroy_socket-async_create_tls sys options c t freed made ssl =
    let (out, e, ends) = async_create_tls-IsUsable sys options c t made ssl in
    elim ends [
      | inl (loaded, _, _, context) ↦
          (out, e, inl (loaded, destroy_context-some out.1.configure t.next_object freed context))
      | inr (_, missing, _, context) ↦
          (out, e, inr (rw missing, destroy_context-none out.1.configure freed context))
    ]
