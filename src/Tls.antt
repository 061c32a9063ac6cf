-- ===== src/Tls.antt =====
-- `socketSSL` of include/client/socket/SSL/socket_ssl.hpp. OpenSSL is a parameter, as the operating
-- system is: its calls are answered by their number, and the answers are any. What the code relies
-- on is that `SSL_get_error` reports the last call that failed, and that no call may be given a
-- null pointer or an object that was freed; this is the undefined behaviour `out_of_bounds`.
pub mod Objects
pub mod Create
pub mod Handshake
pub mod Write
pub mod ReadUntil
pub mod Lifetime
pub mod Session
pub mod Request
mod Samples
mod Tests
use mtasc.Common.{
  ℕ, suc, zero, ◌+◌, ◌∷◌, [], List, Bytes, Bool, false, ◌||◌, ◌==◌, Option, none, some,
  if◌then◌else◌, Outcome, ok, out_of_bounds,
}
use mtasc.Number.{ℤ, pos, negsuc}
use mtasc.Tcp.{System, Io}
use mtasc.Tcp.Recv.{select}

abbrev pub ssl_error_ssl : ℕ
ssl_error_ssl = 1

abbrev pub ssl_error_want_read : ℕ
ssl_error_want_read = 2

abbrev pub ssl_error_want_write : ℕ
ssl_error_want_write = 3

abbrev pub ssl_error_syscall : ℕ
ssl_error_syscall = 5

abbrev pub econnreset : ℕ
econnreset = 104

-- How a call of OpenSSL fails: what `SSL_get_error` then reports, and `errno`.
pub record Failure : Type 0 where
  pub reported : ℕ
  pub errno : ℕ

-- How `SSL_connect` ends: it returns 1, or not.
pub data Handshaken : Type 0 where
  shaken : Handshaken
  unshaken : Failure → Handshaken

-- How `SSL_read` ends: some bytes, 0, or -1.
pub data TlsReceived : Type 0 where
  tls_bytes : ℕ → Bytes → TlsReceived
  tls_closed : TlsReceived
  tls_failed : Failure → TlsReceived

-- How `SSL_write` ends: it took one byte and that many more, 0, or -1.
pub data TlsWritten : Type 0 where
  tls_wrote : ℕ → TlsWritten
  tls_shut : TlsWritten
  tls_refused : Failure → TlsWritten

-- The answers of the operating system and of OpenSSL. The certificates are loaded, or the call
-- fails with an `errno`.
pub record TlsSystem : Type 0 where
  pub system : System
  pub on_ctx_new : ℕ → Bool
  pub on_load_verify_file : Bytes → Option ℕ
  pub on_default_verify_paths : Option ℕ
  pub on_ssl_new : ℕ → Bool
  pub on_ssl_connect : ℕ → Handshaken
  pub on_ssl_read : ℕ → TlsReceived
  pub on_ssl_write : ℕ → TlsWritten

-- `client_ssl_configure`; `none` is a null pointer.
pub record ClientSslConfigure : Type 0 where
  pub openssl_init : Bool
  pub ca_cert_path : Bytes
  pub openssl_ptr : Option ℕ
  pub openssl_ctx_ptr : Option ℕ
  pub tls_verify_depth : ℕ

-- What the calls change: the sockets' part, the last error of OpenSSL, the `SSL` objects that are
-- not freed, the number of the next object, the descriptors that were closed, and the configuration
-- of the socket.
pub record Tls : Type 0 where
  pub io : Io
  pub ssl_error : ℕ
  pub live : List ℕ
  pub next_object : ℕ
  pub closed_fds : List ℤ
  pub configure : ClientSslConfigure

abbrev pub is_live : ℕ → List ℕ → Bool
is_live p [] = false
is_live p (x ∷ xs) = x == p || is_live p xs

abbrev pub free_object : ℕ → List ℕ → List ℕ
free_object p [] = []
free_object p (x ∷ xs) = if x == p then xs else x ∷ free_object p xs

-- A pointer as an argument of OpenSSL.
unfoldable pub use_ssl : Option ℕ → Tls → Outcome ℕ
use_ssl none t = out_of_bounds
use_ssl (some p) t = if is_live p t.live then ok p else out_of_bounds

abbrev pub reported_of : ℤ → Tls → ℕ
reported_of (pos (suc n)) t = 0
reported_of (pos zero) t = t.ssl_error
reported_of (negsuc n) t = t.ssl_error

-- `SSL_get_error`, which reports no error for a return value that is positive.
unfoldable pub ssl_get_error : Option ℕ → ℤ → Tls → Outcome ℕ
ssl_get_error none ret t = out_of_bounds
ssl_get_error (some p) ret t = if is_live p t.live then ok (reported_of ret t) else out_of_bounds

abbrev pub with_io : Tls → Bool × Io → Bool × Tls
with_io t (b, io) = (b, record t { io = io })

-- `select` on the socket; `false` is a negative return.
unfoldable pub tls_select : TlsSystem → Tls → Bool × Tls
tls_select sys t = with_io t (select sys.system t.io)

-- The call is counted and has failed.
abbrev pub failed_call : Failure → Tls → Tls
failed_call f t = record t {
  io = record t.io { calls = t.io.calls + 1; errno = f.errno };
  ssl_error = f.reported;
}

-- The call is counted.
abbrev pub counted_call : Tls → Tls
counted_call t = record t { io = record t.io { calls = t.io.calls + 1 } }
