-- ===== src/Tls/Write/Closed.antt =====
-- A TLS write on a connection that is closed.
use mtasc.Common.{ℕ, ◌≡◌, refl, ap, ◌∙◌, ◌∷◌, List, Bytes, false, ==_refl, some, ok, out_of_bounds}
use mtasc.Tcp.{moved, ClientContext, Callback, connection_reset, is_negative}
use mtasc.Tcp.Write.{strlen}
use mtasc.Tls.{TlsSystem, Tls, tls_shut, use_ssl, counted_call, is_live, free_object}
use mtasc.Tls.Objects.{Dangles}
use mtasc.Tls.Handshake.Freed.{Owns}
use mtasc.Tls.Write.{ssl_write, write_with, async_write_tls, answer_write, shut_down}

-- A write with a pointer that dangles.
async_write_tls-Dangles :
    (fuel : ℕ) (sys : TlsSystem) (c : ClientContext) (message : Bytes) (t : Tls)
    → is_negative c.socketfd ≡ false
    → Dangles t.configure.openssl_ptr t
    → async_write_tls fuel sys c message t ≡ out_of_bounds
unfolding async_write_tls ssl_write use_ssl
async_write_tls-Dangles fuel sys c message t fd (p, e, freed) =
    (rw fd) ∙ ap (write_with fuel sys c message t) e ∙ rw freed

free_object-first : (p : ℕ) (rest : List ℕ) → free_object p (p ∷ rest) ≡ rest
free_object-first p rest = rw (==_refl p)

usable_first : {t : Tls} {p ctx : ℕ} {rest : List ℕ} → Owns t p ctx rest → use_ssl (some p) t ≡ ok p
unfolding use_ssl
usable_first {t} {p} o = rw (o.objects, ==_refl p)

-- Where `SSL_write` reports a closed connection on a socket that is not negative and owns a live
-- object, once, and a context, the callback gets
-- `connection_reset`, the object is freed and the descriptor closed; but the pointer is kept, so
-- the next `async_write_tls` on this socket uses the freed object, which is undefined behaviour.
pub async_write_tls_closed :
    (fuel : ℕ) (sys : TlsSystem) (c : ClientContext) (message : Bytes) (t : Tls) (p ctx : ℕ)
    (rest : List ℕ)
    → Owns t p ctx rest
    → is_negative c.socketfd ≡ false
    → sys.on_ssl_write t.io.calls ≡ tls_shut
    → (cb : Callback) × (t' : Tls) × (async_write_tls fuel sys c message t ≡ ok (some cb, t'))
      × (cb.error ≡ connection_reset)
      × (t'.closed_fds ≡ c.socketfd ∷ t.closed_fds)
      × Dangles t'.configure.openssl_ptr t'
      × ((again : Bytes) → async_write_tls fuel sys c again t' ≡ out_of_bounds)
unfolding async_write_tls ssl_write answer_write
async_write_tls_closed fuel sys c message t p ctx rest o fd shut =
    let writing : ClientContext = record c {
      client_message = message;
      client_message_length = strlen message;
    } in
    let left : Tls = shut_down p writing (counted_call t) in
    let gone : is_live p left.live ≡ false =
      ap (λ l. is_live p (free_object p l)) o.objects
      ∙ ap (is_live p) (free_object-first p rest)
      ∙ o.once in
    let dangles : Dangles left.configure.openssl_ptr left = (p, o.pointer, gone) in
    (
      record { error = connection_reset; count = 0; context = moved writing },
      left,
      (rw fd) ∙ ap (write_with fuel sys c message t) o.pointer ∙ rw (usable_first o, shut),
      refl,
      refl,
      dangles,
      λ again. async_write_tls-Dangles fuel sys c again left fd dangles,
    )
