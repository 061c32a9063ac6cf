-- ===== src/Tls/Tests.antt =====
-- The TLS socket against a concrete OpenSSL.
use mtasc.Common.{
  ℕ, ◌≡◌, ◌⊎◌, refl, [], ◌∷◌, Bytes, codes, crlf, some, none, true, false, ok, out_of_bounds,
  thrown, runtime_error, arith,
}
use mtasc.Number.{pos}
use mtasc.Buffer.{
  readable_bytes, append_to_buffer, ensure_writeable_bytes, memcpy, resize, peek_data,
}
use mtasc.Tcp.Recv.{select, search_buffer, append_received}
use mtasc.Buffer.Valid.{contents}
use mtasc.Tcp.{Callback, no_error, io_error, connection_reset, system_error}
use mtasc.Tcp.Write.{strlen}
use mtasc.Tls.{Tls, use_ssl, tls_select, ssl_get_error}
use mtasc.Tls.Objects.{IsUsable, Dangles}
use mtasc.Tls.Create.{certs_failure, loads_certs, async_create_tls}
use mtasc.Tls.Create.Unchecked.{async_create_tls-IsUsable, async_create_tls_unchecked}
use mtasc.Tls.Handshake.{async_try_connect_tls}
use mtasc.Tls.Handshake.Want.{some_shaken, async_try_connect_tls_want}
use mtasc.Tls.Handshake.Freed.{Owns, handshake_throws, handshake_uses_freed, handshake_frees}
use mtasc.Tls.Lifetime.{
  IsInert, move_socket, assign_socket, destroy_socket, move_socket-IsInert,
  destroy_socket-async_create_tls,
}
use mtasc.Tls.Write.{async_write_tls}
use mtasc.Tls.Write.Refused.{async_write_tls_refused, async_write_tls-Wrote}
use mtasc.Tls.Write.Closed.{async_write_tls_closed}
use mtasc.Tls.ReadUntil.{async_read_until_tls, appended}
use mtasc.Tls.ReadUntil.Ends.{Ended, async_read_until_tls-Ended}
use mtasc.Tls.ReadUntil.Undefined.{whole_bytes, async_read_until_tls_undefined}
use mtasc.Tls.Samples.{
  want_read, protocol_error, reset, broken_pipe, test_tls_system, no_ssl, failing, refusing,
  closing, line_sender, test_options, test_context, new_tls, test_tls,
}

usable : use_ssl (some 2) test_tls ≡ ok 2
unfolding use_ssl
usable = refl

owned : Owns test_tls 2 1 []
owned = record { pointer = refl; context = refl; objects = refl; once = refl; fresh = omega arith }

async_create_tls-IsUsable_example :
    (out : Callback × Tls) × (async_create_tls test_tls_system test_options test_context new_tls
      ≡ ok out)
    × (((loads_certs test_tls_system test_options new_tls ≡ true)
          × (out.0.error ≡ no_error)
          × IsUsable out.1.configure.openssl_ptr out.1
          × (out.1.configure.openssl_ctx_ptr ≡ some 1))
        ⊎ ((e : ℕ) × (certs_failure test_tls_system test_options new_tls ≡ some e)
            × (out.0.error ≡ system_error e)
            × (out.1.configure.openssl_ctx_ptr ≡ none)))
async_create_tls-IsUsable_example =
    async_create_tls-IsUsable test_tls_system test_options test_context new_tls refl refl

no_ssl_object : async_create_tls no_ssl test_options test_context new_tls ≡ out_of_bounds
no_ssl_object = async_create_tls_unchecked no_ssl test_options test_context new_tls refl refl refl

async_try_connect_tls_want_example :
    (out : Callback × Tls) × (async_try_connect_tls test_tls_system test_context test_tls ≡ ok out)
    × (((some_shaken test_tls_system 2 3 ≡ true) × (out.0.error ≡ no_error))
        ⊎ ((some_shaken test_tls_system 2 3 ≡ false) × (out.0.error ≡ system_error out.1.io.errno)))
    × (out.1.configure ≡ test_tls.configure)
    × (out.1.live ≡ test_tls.live)
async_try_connect_tls_want_example =
    async_try_connect_tls_want test_tls_system test_context test_tls want_read (2, usable) refl refl
      refl refl

protocol_failure :
    async_try_connect_tls (failing protocol_error) test_context test_tls ≡ thrown runtime_error
protocol_failure =
    handshake_throws (failing protocol_error) test_context test_tls protocol_error 2 1 [] owned refl
      (omega arith) refl refl refl

handshake_uses_freed_example :
    async_try_connect_tls (failing reset) test_context test_tls ≡ out_of_bounds
handshake_uses_freed_example =
    handshake_uses_freed (failing reset) test_context test_tls reset 2 1 [] owned refl (omega arith)
      refl refl refl refl reset refl

handshake_frees_example :
    (out : Callback × Tls) × (async_try_connect_tls (failing broken_pipe) test_context test_tls
      ≡ ok out)
    × (out.0.error ≡ system_error 32)
    × Dangles out.1.configure.openssl_ptr out.1
    × (async_try_connect_tls (failing broken_pipe) test_context out.1 ≡ out_of_bounds)
handshake_frees_example =
    handshake_frees (failing broken_pipe) test_context test_tls broken_pipe 2 1 [] owned refl
      (omega arith) refl refl refl refl

async_write_tls_refused_example :
    (cb : Callback) × (t' : Tls) × (async_write_tls 1 refusing test_context (codes "hello") test_tls
      ≡ ok (some cb, t'))
    × (cb.error ≡ io_error)
    × (cb.count ≡ 0)
    × (t'.io.sent ≡ [])
    × (t'.io.calls ≡ 1)
async_write_tls_refused_example =
    async_write_tls_refused 1 refusing test_context (codes "hello") test_tls 2 refl refl (2, usable)
      want_read 1 refl refl

write_of_test :
    (cb : Callback) × (t' : Tls) × (async_write_tls 1 test_tls_system test_context
        (codes "hello")
        test_tls
      ≡ ok (some cb, t'))
    × (cb.error ≡ no_error)
    × (cb.count ≡ 5)
    × (t'.io.sent ≡ codes "hello")
unfolding strlen
write_of_test =
    async_write_tls-Wrote 1 test_tls_system test_context (codes "hello") test_tls 2 refl refl
      (2, usable) 16000 refl (omega arith) (omega arith)

async_write_tls_closed_example :
    (cb : Callback) × (t' : Tls) × (async_write_tls 1 closing test_context (codes "hello") test_tls
      ≡ ok (some cb, t'))
    × (cb.error ≡ connection_reset)
    × (t'.closed_fds ≡ pos 3 ∷ [])
    × Dangles t'.configure.openssl_ptr t'
    × ((again : Bytes) → async_write_tls 1 closing test_context again t' ≡ out_of_bounds)
async_write_tls_closed_example =
    async_write_tls_closed 1 closing test_context (codes "hello") test_tls 2 1 [] owned refl refl

async_read_until_tls-Ended_example :
    Ended crlf (async_read_until_tls test_tls_system test_context crlf test_tls)
async_read_until_tls-Ended_example =
    async_read_until_tls-Ended test_tls_system test_context crlf test_tls 2 1 refl refl refl usable
      (omega arith) (omega arith) (omega arith)

-- The line is found by the retry.
found_by_retry :
    (cb : Callback) × (t' : Tls) × (async_read_until_tls test_tls_system test_context crlf test_tls
      ≡ ok (some cb, t'))
    × (cb.error ≡ no_error)
    × (contents t'.io.buffer ≡ b'O' ∷ b'K' ∷ crlf)
unfolding async_read_until_tls readable_bytes tls_select select ssl_get_error search_buffer appended
    append_received append_to_buffer ensure_writeable_bytes memcpy resize peek_data
found_by_retry = (_, _, refl, refl, refl)

async_read_until_tls_undefined_example :
    async_read_until_tls line_sender test_context crlf test_tls ≡ out_of_bounds
async_read_until_tls_undefined_example =
    async_read_until_tls_undefined line_sender test_context crlf test_tls 2 1 refl refl refl usable
      (omega arith) (omega arith) refl (whole_bytes b'O' (b'K' ∷ crlf) (omega arith))

move_socket-IsInert_test :
    IsInert (move_socket test_tls) × IsInert (assign_socket test_tls.configure new_tls)
move_socket-IsInert_test = move_socket-IsInert test_tls new_tls

destroy_socket-async_create_tls_example :
    (out : Callback × Tls) × (async_create_tls test_tls_system test_options test_context new_tls
      ≡ ok out)
    × (((loads_certs test_tls_system test_options new_tls ≡ true)
          × (destroy_socket out.1.configure [] ≡ out_of_bounds))
        ⊎ ((loads_certs test_tls_system test_options new_tls ≡ false)
            × (destroy_socket out.1.configure [] ≡ ok [])))
destroy_socket-async_create_tls_example =
    destroy_socket-async_create_tls test_tls_system test_options test_context new_tls [] refl refl
