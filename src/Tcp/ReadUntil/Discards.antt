-- ===== src/Tcp/ReadUntil/Discards.antt =====
-- What the read-until task makes of the first bytes that it receives.
use mtasc.Common.{
  ℕ, suc, ◌+◌, ◌≡◌, ◌≢◌, refl, ap, ◌∷◌, ◌++◌, Bytes, false, ◌||◌, ◌==◌, ==_false, Bool-cases, inl,
  inr, ok, arith, take, length-take, ltb, none,
}
use mtasc.Buffer.{fresh_buffer, readable_bytes, peek_data}
use mtasc.Buffer.Valid.{contents}
use mtasc.Tcp.{
  moved, ClientContext, System, Io, bytes, Callback, system_error, is_negative, retry_result,
  default_limit, eagain, eintr, eisconn,
}
use mtasc.Tcp.Recv.{answer_recv, recv, answer_select, select, select_socket, search_buffer}
use mtasc.Tcp.Room.{append_received-ends}
use mtasc.Tcp.ReadUntil.{
  retry_loop, retry_tcp_read_until, called, error_case, received, reading_case, async_read_until,
}

-- On an `errno` that asks for no new attempt the retry gives up at once.
retry_loop_fatal :
    (fuel : ℕ) (sys : System) (delimiter : Bytes) (c : ClientContext) (io : Io)
    → (io.errno == eisconn) ≡ false
    → (io.errno == eagain || io.errno == eintr) ≡ false
    → retry_loop (suc fuel) sys delimiter c io ≡ ok (retry_result c false, io)
unfolding retry_loop
retry_loop_fatal fuel sys delimiter c io h k =
    elim (Bool-cases (ltb c.connect_rety_count c.max_rety_count)) [
      | inl more ↦ rw (more, h, k)
      | inr done ↦ rw done
    ]

error_case_fatal :
    (sys : System) (delimiter : Bytes) (c : ClientContext) (io : Io)
    → is_negative c.socketfd ≡ false
    → (io.errno == eisconn) ≡ false
    → (io.errno == eagain || io.errno == eintr) ≡ false
    → (c' : ClientContext) × (error_case sys c delimiter io
        ≡ ok (called (record { error = system_error io.errno; count = 0; context = moved c' }) io))
unfolding error_case retry_tcp_read_until
error_case_fatal sys delimiter c io fd h k =
    let limited : ClientContext = record (default_limit c) { connect_rety_count = 0 } in
    let rounds : limited.max_rety_count + 1 ≡ suc limited.max_rety_count = omega arith in
    (
      retry_result limited false,
      rw (fd, rounds, retry_loop_fatal limited.max_rety_count sys delimiter limited io h k),
    )

search_fresh : (d : ℕ) (ds : Bytes) → search_buffer (d ∷ ds) fresh_buffer ≡ false
unfolding search_buffer readable_bytes peek_data
search_fresh d ds = refl

not_transient : (e : ℕ) → e ≢ eagain → e ≢ eintr → (e == eagain || e == eintr) ≡ false
not_transient e h k = ground arith

-- The first bytes that arrive are not searched for the delimiter: while `errno` holds none of the
-- values on which the retry goes on (EINTR, EAGAIN, 106), the callback of `async_read_until` gets
-- the code of that `errno`, which is a success if it is 0, and the count 0, whatever the bytes are,
-- although the buffer that comes with it holds the 4096 or fewer that `recv` gave. The socket is
-- not negative, the wait does not fail, and the delimiter is not empty.
pub first_bytes_uncounted :
    (sys : System) (c : ClientContext) (d : ℕ) (ds : Bytes) (io : Io) (b : ℕ) (bs : Bytes)
    → is_negative c.socketfd ≡ false
    → sys.on_select io.calls ≡ none
    → sys.on_recv (io.calls + 1) ≡ bytes b bs
    → io.errno ≢ eisconn
    → io.errno ≢ eagain
    → io.errno ≢ eintr
    → (out : Callback × Io) × (async_read_until sys c (d ∷ ds) io ≡ ok out)
      × (out.0.error ≡ system_error io.errno)
      × (out.0.count ≡ 0)
      × (contents out.1.buffer ≡ take 4096 (b ∷ bs))
unfolding async_read_until reading_case select_socket select answer_select received recv answer_recv
first_bytes_uncounted sys c d ds io b bs fd ready arrives h k m =
    let read : Io = record io {
      calls = io.calls + 1 + 1;
      buffer = fresh_buffer;
      arrived = io.arrived ++ take 4096 (b ∷ bs);
    } in
    let cache : Bytes = take 4096 (b ∷ bs) in
    let (filled, e, room, held, same_errno, _, _) =
      append_received-ends cache 4096 read (omega (arith, length-take 4096 (b ∷ bs))) 0 (record {
        valid = record { ordered = omega arith; stored = omega arith; small = omega arith };
        fits = omega arith;
      }) in
    let (c', f) =
      error_case_fatal sys (d ∷ ds) c filled fd (rw same_errno (==_false io.errno eisconn h))
        (rw same_errno (not_transient io.errno k m)) in
    (
      (record { error = system_error filled.errno; count = 0; context = moved c' }, filled),
      rw (search_fresh d ds, fd, ready, arrives, e, f),
      ap system_error same_errno,
      refl,
      held,
    )
