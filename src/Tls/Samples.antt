-- ===== src/Tls/Samples.antt =====
-- Answers of the operating system and of OpenSSL, and sockets, for the tests.
use mtasc.Common.{[], ◌∷◌, crlf, if◌then◌else◌, ◌==◌, some, none, true, false}
use mtasc.Number.{pos}
use mtasc.Buffer.{fresh_buffer}
use mtasc.Tcp.{ClientContext, System, wrote, closed}
use mtasc.Tls.{
  Failure, shaken, unshaken, tls_bytes, tls_failed, tls_wrote, tls_shut, tls_refused, TlsSystem,
  Tls,
}
use mtasc.Tls.Create.{OpensslOptions}

abbrev pub test_system : System
test_system = record { on_select = λ i. none; on_recv = λ i. closed; on_write = λ i. wrote 2 }

abbrev pub want_read : Failure
want_read = record { reported = 2; errno = 11 }

abbrev pub protocol_error : Failure
protocol_error = record { reported = 1; errno = 0 }

abbrev pub reset : Failure
reset = record { reported = 5; errno = 104 }

abbrev pub broken_pipe : Failure
broken_pipe = record { reported = 5; errno = 32 }

-- Everything succeeds, the handshake and the first read at the second attempt.
abbrev pub test_tls_system : TlsSystem
test_tls_system = record {
  system = test_system;
  on_ctx_new = λ i. true;
  on_load_verify_file = λ path. none;
  on_default_verify_paths = none;
  on_ssl_new = λ i. true;
  on_ssl_connect = λ i. if i == 0 then unshaken want_read else shaken;
  on_ssl_read = λ i. if i == 1 then tls_failed want_read else tls_bytes b'O' (b'K' ∷ crlf);
  on_ssl_write = λ i. tls_wrote 16000;
}

abbrev pub no_ssl : TlsSystem
no_ssl = record test_tls_system { on_ssl_new = λ i. false }

-- Every handshake fails in this way.
abbrev pub failing : Failure → TlsSystem
failing f = record test_tls_system { on_ssl_connect = λ i. unshaken f }

abbrev pub refusing : TlsSystem
refusing = record test_tls_system { on_ssl_write = λ i. tls_refused want_read }

abbrev pub closing : TlsSystem
closing = record test_tls_system { on_ssl_write = λ i. tls_shut }

-- Every read returns a line.
abbrev pub line_sender : TlsSystem
line_sender = record test_tls_system { on_ssl_read = λ i. tls_bytes b'O' (b'K' ∷ crlf) }

abbrev pub test_options : OpensslOptions
test_options = record {
  enable_custom_cert = false;
  enable_client_key = false;
  enable_tls_v1 = false;
}

abbrev pub test_context : ClientContext
test_context = record {
  resovler_addrs = true;
  client_message = [];
  client_message_length = 0;
  socketfd = pos 3;
  this_addr_invalid = false;
  connect_rety_count = 0;
  max_rety_count = 3;
  client_retry_write_bytes = 0;
  client_write_bytes = 0;
  is_retry_success = false;
}

abbrev pub new_tls : Tls
new_tls = record {
  io = record { calls = 0; errno = 0; buffer = fresh_buffer; sent = []; arrived = [] };
  ssl_error = 0;
  live = [];
  next_object = 1;
  closed_fds = [];
  configure = record {
    openssl_init = false;
    ca_cert_path = [];
    openssl_ptr = none;
    openssl_ctx_ptr = none;
    tls_verify_depth = 0;
  };
}

-- Object 2 is configured, with the context 1.
abbrev pub test_tls : Tls
test_tls = record new_tls {
  live = 2 ∷ [];
  next_object = 3;
  configure = record {
    openssl_init = true;
    ca_cert_path = [];
    openssl_ptr = some 2;
    openssl_ctx_ptr = some 1;
    tls_verify_depth = 0;
  };
}
