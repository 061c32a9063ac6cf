-- ===== src/Tcp/Room.antt =====
-- The room in the read buffer, and what a call of `recv` does.
use mtasc.Common.{
  ℕ, ◌+◌, ◌≤◌, ◌<◌, ◌≡◌, refl, ◌∷◌, ◌++◌, Bytes, ok, arith, length, length-take, take,
}
use mtasc.Buffer.{ReadBuffer}
use mtasc.Buffer.Valid.{IsValid, size_limit, contents}
use mtasc.Buffer.Refine.{append_to_buffer_lem}
use mtasc.Tcp.{System, Io, Received, bytes, closed, failed}
use mtasc.Tcp.Recv.{RecvRet, got, eof, minus_one, answer_recv, recv, append_received}

-- The buffer is valid, and has room for `n` more bytes below half the address space.
pub record HasRoom (n : ℕ) (b : ReadBuffer) : Type 0 where
  pub valid : IsValid b
  pub fits : length b.buffer + n < size_limit

pub append_received-ends :
    (bs : Bytes) (n : ℕ) (io : Io)
    → length bs ≤ n
    → (m : ℕ) → HasRoom (n + m) io.buffer
    → (io' : Io) × (append_received bs io ≡ ok io')
      × HasRoom m io'.buffer
      × (contents io'.buffer ≡ contents io.buffer ++ bs)
      × (io'.errno ≡ io.errno)
      × (io'.calls ≡ io.calls)
      × (io'.arrived ≡ io.arrived)
unfolding append_received
append_received-ends bs n io le m r =
    let (b, e, a) = append_to_buffer_lem io.buffer bs r.valid (omega (arith, r.fits)) in
    (
      record io { buffer = b },
      rw e,
      record { valid = a.valid; fits = omega (arith, a.growth, r.fits) },
      a.queued,
      refl,
      refl,
      refl,
    )

-- What a call of `recv` leaves alone, and what it returns: at least a byte, and no more than the
-- cache holds.
pub data Recv (size : ℕ) (io : Io) : RecvRet × Io → Type 0 where
  got_some :
      (bs : Bytes) (io' : Io)
      → length bs ≤ size
      → 0 < length bs
      → io'.buffer ≡ io.buffer
      → io'.arrived ≡ io.arrived ++ bs
      → Recv size io (got bs, io')
  got_end : (io' : Io) → io'.buffer ≡ io.buffer → io'.arrived ≡ io.arrived → Recv size io (eof, io')
  got_error :
      (io' : Io) → io'.buffer ≡ io.buffer → io'.arrived ≡ io.arrived → Recv size io (minus_one, io')

answer_recv-Recv :
    (a : Received) (size : ℕ) (io : Io) → 0 < size → Recv size io (answer_recv a size io)
unfolding answer_recv
answer_recv-Recv (bytes b bs) size io h =
    got_some (take size (b ∷ bs))
      (record io { calls = io.calls + 1; arrived = io.arrived ++ take size (b ∷ bs) })
      (omega (arith, length-take size (b ∷ bs))) (omega (arith, length-take size (b ∷ bs))) refl
      refl
answer_recv-Recv closed size io h = got_end (record io { calls = io.calls + 1 }) refl refl
answer_recv-Recv (failed e) size io h =
    got_error (record io { calls = io.calls + 1; errno = e }) refl refl

pub recv-Recv : (sys : System) (size : ℕ) (io : Io) → 0 < size → Recv size io (recv sys size io)
unfolding recv
recv-Recv sys size io h = answer_recv-Recv (sys.on_recv io.calls) size io h
