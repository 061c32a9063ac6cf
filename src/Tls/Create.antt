-- ===== src/Tls/Create.antt =====
-- `async_create_tls`, the functions that make OpenSSL objects, and the settings of the socket.
pub mod Unchecked
use mtasc.Common.{
  ℕ, ◌+◌, ◌∷◌, [], Bytes, Bool, true, false, not, Option, none, some, if◌then◌else◌, Outcome, ok,
  out_of_bounds, ◌>>=◌,
}
use mtasc.Tcp.{
  moved, ClientContext, Callback, ErrorCode, no_error, bad_file_descriptor, system_error,
}
use mtasc.Tls.{TlsSystem, Tls, free_object, is_live, counted_call}

pub record OpensslOptions : Type 0 where
  pub enable_custom_cert : Bool
  pub enable_client_key : Bool
  pub enable_tls_v1 : Bool

abbrev pub is_empty_path : Bytes → Bool
is_empty_path [] = true
is_empty_path (c ∷ s) = false

-- `load_custom_CA_cert` keeps the first path.
unfoldable pub load_custom_ca_cert : Bytes → Tls → Tls
load_custom_ca_cert path t =
    if is_empty_path t.configure.ca_cert_path
    then record t { configure = record t.configure { ca_cert_path = path } }
    else t

unfoldable pub set_tls_verify_depth : ℕ → Tls → Tls
set_tls_verify_depth n t = record t { configure = record t.configure { tls_verify_depth = n } }

unfoldable pub init_client_openssl : Tls → Tls
init_client_openssl t =
    if not t.configure.openssl_init
    then record t { configure = record t.configure { openssl_init = true } }
    else t

-- `SSL_CTX_new`
unfoldable pub new_context : TlsSystem → Tls → Option ℕ × Tls
new_context sys t =
    if sys.on_ctx_new t.io.calls
    then (some t.next_object, record (counted_call t) { next_object = t.next_object + 1 })
    else (none, counted_call t)

-- Where the certificates come from, and the `errno` if they cannot be loaded.
abbrev pub certs_failure : TlsSystem → OpensslOptions → Tls → Option ℕ
certs_failure sys options t =
    if options.enable_custom_cert
    then sys.on_load_verify_file t.configure.ca_cert_path
    else sys.on_default_verify_paths

abbrev is_none : Option ℕ → Bool
is_none none = true
is_none (some e) = false

abbrev pub loads_certs : TlsSystem → OpensslOptions → Tls → Bool
loads_certs sys options t = is_none (certs_failure sys options t)

-- Either call that fails ends the creation.
abbrev pub checked_context : ℕ → Tls → Option ℕ → Option ℕ × Tls
checked_context ctx t none = (some ctx, t)
checked_context ctx t (some e) = (none, record t { io = record t.io { errno = e } })

-- `SSL_CTX_set_verify` stands first, and is not given a null pointer.
abbrev pub configured_context :
    TlsSystem → OpensslOptions → Option ℕ × Tls → Outcome (Option ℕ × Tls)
configured_context sys options (none, t) = out_of_bounds
configured_context sys options (some ctx, t) =
    ok (checked_context ctx t (certs_failure sys options t))

-- `M_create_tls_context`
unfoldable pub create_tls_context : TlsSystem → OpensslOptions → Tls → Outcome (Option ℕ × Tls)
unfolding new_context
create_tls_context sys options t = configured_context sys options (new_context sys t)

-- `SSL_new`
unfoldable pub new_ssl : TlsSystem → Tls → Option ℕ × Tls
new_ssl sys t =
    if sys.on_ssl_new t.io.calls
    then (
      some t.next_object,
      record (counted_call t) { next_object = t.next_object + 1; live = t.next_object ∷ t.live },
    )
    else (none, counted_call t)

-- `SSL_set_tlsext_host_name` and `SSL_set_fd` behind an `SSL_new` that is not checked.
abbrev pub set_unchecked : Option ℕ × Tls → Outcome (Option ℕ × Tls)
set_unchecked (none, t) = out_of_bounds
set_unchecked (some p, t) = ok (some p, t)

-- `M_create_tls`
unfoldable pub create_tls : TlsSystem → Option ℕ → Tls → Outcome (Option ℕ × Tls)
unfolding new_ssl
create_tls sys none t = ok (none, t)
create_tls sys (some ctx) t = set_unchecked (new_ssl sys t)

-- `free`, which a null pointer passes unharmed.
unfoldable pub free_ssl : Option ℕ → Tls → Outcome Tls
free_ssl none t = ok t
free_ssl (some p) t =
    if is_live p t.live then ok (record t { live = free_object p t.live }) else out_of_bounds

abbrev pub new_checked : TlsSystem → Option ℕ → Tls → Outcome (Option ℕ × Tls)
new_checked sys none t = out_of_bounds
new_checked sys (some ctx) t = ok (new_ssl sys t)

-- `M_creater_new_retry_tls`, which checks the result of `SSL_new`.
unfoldable pub create_new_retry_tls :
    TlsSystem → Option ℕ → Option ℕ → Tls → Outcome (Option ℕ × Tls)
unfolding free_ssl new_ssl
create_new_retry_tls sys bad ctx t = free_ssl bad t >>= new_checked sys ctx

-- The callback of `async_create_tls` gets no count.
abbrev pub created : ErrorCode → ClientContext → Tls → Outcome (Callback × Tls)
created e c t = ok (record { error = e; count = 0; context = moved c }, t)

abbrev pub with_ssl : ClientContext → Option ℕ × Tls → Outcome (Callback × Tls)
with_ssl c (ssl, t) =
    created no_error c (record t { configure = record t.configure { openssl_ptr = ssl } })

-- The second test of the task is on the context again, which is not null here.
abbrev pub with_context : TlsSystem → ClientContext → Option ℕ × Tls → Outcome (Callback × Tls)
with_context sys c (none, t) =
    created (system_error t.io.errno) c
      (record t { configure = record t.configure { openssl_ctx_ptr = none } })
with_context sys c (some ctx, t) =
    create_tls sys (some ctx)
      (record t { configure = record t.configure { openssl_ctx_ptr = some ctx } })
    >>= with_ssl c

-- `async_create_tls`, with the callback that is queued in the end.
unfoldable pub async_create_tls :
    TlsSystem → OpensslOptions → ClientContext → Tls → Outcome (Callback × Tls)
unfolding create_tls_context create_tls init_client_openssl
async_create_tls sys options c t =
    let ready : Tls = init_client_openssl t in
    let task = create_tls_context sys options ready >>= with_context sys c in
    if not ready.configure.openssl_init then created bad_file_descriptor c ready else task
