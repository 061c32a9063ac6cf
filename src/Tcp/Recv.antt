-- ===== src/Tcp/Recv.antt =====
-- `select` and `recv` as the read tasks call them, and the searches in the read buffer.
use mtasc.Common.{
  ℕ, ◌+◌, [], ◌∷◌, ◌++◌, Bytes, Bool, true, false, ◌&&◌, ◌||◌, ◌==◌, take, Option, none, some,
  Outcome, ok, out_of_bounds, ◌>>=◌, if◌then◌else◌,
}
use mtasc.Buffer.{ReadBuffer, readable_bytes, peek_data, append_to_buffer}
use mtasc.Tcp.{System, Io, Received, bytes, closed, failed, is_negative}
use mtasc.Number.{ℤ}

-- The return value of `recv`: the bytes in the cache array, 0, or -1.
pub data RecvRet : Type 0 where
  got : Bytes → RecvRet
  eof : RecvRet
  minus_one : RecvRet

unfoldable pub answer_recv : Received → ℕ → Io → RecvRet × Io
answer_recv (bytes b bs) size io = (
  got (take size (b ∷ bs)),
  record io { calls = io.calls + 1; arrived = io.arrived ++ take size (b ∷ bs) },
)
answer_recv closed size io = (eof, record io { calls = io.calls + 1 })
answer_recv (failed e) size io = (minus_one, record io { calls = io.calls + 1; errno = e })

-- `recv(fd, cache, size, 0)`
unfoldable pub recv : System → ℕ → Io → RecvRet × Io
unfolding answer_recv
recv sys size io = answer_recv (sys.on_recv io.calls) size io

unfoldable pub answer_select : Option ℕ → Io → Bool × Io
answer_select none io = (true, record io { calls = io.calls + 1 })
answer_select (some e) io = (false, record io { calls = io.calls + 1; errno = e })

-- `select` on a socket that is not negative; `false` is a negative return. A timeout is no failure.
unfoldable pub select : System → Io → Bool × Io
unfolding answer_select
select sys io = answer_select (sys.on_select io.calls) io

-- `FD_SET` and `select` where the code has not tested the descriptor. `FD_SET` on a negative one is
-- undefined.
unfoldable pub select_socket : System → ℤ → Io → Outcome (Bool × Io)
unfolding select
select_socket sys fd io = if is_negative fd then out_of_bounds else ok (select sys io)

-- `appendTobuffer` of the received bytes.
unfoldable pub append_received : Bytes → Io → Outcome Io
append_received bs io = append_to_buffer io.buffer bs >>= λ b. ok (record io { buffer = b })

abbrev pub is_prefix : Bytes → Bytes → Bool
is_prefix [] s = true
is_prefix (c ∷ d) [] = false
is_prefix (c ∷ d) (x ∷ s) = (x == c) && is_prefix d s

-- The `memcmp` at each position where the delimiter still fits.
unfoldable pub contains : Bytes → Bytes → Bool
contains d [] = is_prefix d []
contains d (x ∷ s) = is_prefix d (x ∷ s) || contains d s

-- The search through the `readableBytes()` bytes from `peekData()`.
unfoldable pub search_buffer : Bytes → ReadBuffer → Bool
unfolding contains
search_buffer delimiter b = contains delimiter (take (readable_bytes b) (peek_data b))
