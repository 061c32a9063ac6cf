-- ===== src/Tcp/ReadUntil.antt =====
-- `async_read_until` and `M_retryTcpRead_until`.
mod Retry
pub mod Ends
pub mod Discards
mod Tests
use mtasc.Common.{
  ℕ, zero, suc, ◌+◌, Bytes, Bool, true, false, ◌||◌, ◌==◌, ltb, leb, if◌then◌else◌, Outcome, ok,
  thrown, runtime_error, out_of_fuel, ◌>>=◌,
}
use mtasc.Buffer.{fresh_buffer, readable_bytes}
use mtasc.Tcp.{
  moved, ClientContext, System, Io, no_error, system_error, Callback, is_negative, retry_result,
  default_limit, eagain, eintr, eisconn,
}
use mtasc.Tcp.Recv.{
  RecvRet, got, eof, minus_one, recv, select_socket, append_received, search_buffer,
}

-- What follows a `read` of the retry.
abbrev pub retry_round :
    (ClientContext → Io → Outcome (ClientContext × Io))
    → ClientContext
    → RecvRet × Io
    → Outcome (ClientContext × Io)
retry_round again c (minus_one, io) =
    if leb c.max_rety_count c.connect_rety_count then ok (retry_result c false, io) else again c io
retry_round again c (eof, io) =
    if readable_bytes io.buffer == 0
    then ok (retry_result c false, io)
    else ok (retry_result c true, io)
retry_round again c (got bs, io) = append_received bs io >>= again c

-- `while (M_connect_rety_count < M_max_rety_count)`, with fuel.
unfoldable pub retry_loop : ℕ → System → Bytes → ClientContext → Io → Outcome (ClientContext × Io)
retry_loop zero sys delimiter c io = out_of_fuel
retry_loop (suc fuel) sys delimiter c io =
    let counted : ClientContext = record c { connect_rety_count = c.connect_rety_count + 1 } in
    let rest = retry_round (retry_loop fuel sys delimiter) counted (recv sys 1086 io) in
    if ltb c.connect_rety_count c.max_rety_count
    then if io.errno == eisconn
      then ok (retry_result c true, io)
      else if io.errno == eagain || io.errno == eintr
      then if search_buffer delimiter io.buffer then ok (retry_result counted true, io) else rest
      else ok (retry_result c false, io)
    else ok (retry_result c false, io)

-- `M_retryTcpRead_until`; each round counts, so the limit bounds the rounds.
unfoldable pub retry_tcp_read_until :
    System → ClientContext → Bytes → Io → Outcome (ClientContext × Io)
retry_tcp_read_until sys c delimiter io =
    if is_negative c.socketfd
    then thrown runtime_error
    else let limited : ClientContext = record (default_limit c) { connect_rety_count = 0 } in
      retry_loop (limited.max_rety_count + 1) sys delimiter limited io

-- `M_READ_STATE`
pub data ReadState : Type 0 where
  verify reading found error close : ReadState

-- One round of `while (M_newState != FOUND)`: a new state, or the callback is queued.
pub data Turn : Type 0 where
  again : ReadState → Io → Turn
  called : Callback → Io → Turn

abbrev pub error_callback : ClientContext × Io → Turn
error_callback (c, io) =
    if c.is_retry_success
    then called (record { error = no_error; count = readable_bytes io.buffer; context = moved c })
        io
    else called (record { error = system_error io.errno; count = 0; context = moved c }) io

-- `case ERROR`
unfoldable pub error_case : System → ClientContext → Bytes → Io → Outcome Turn
error_case sys c delimiter io =
    retry_tcp_read_until sys c delimiter io >>= λ r. ok (error_callback r)

-- What follows `recv` in `case READING`. There is no `break` behind the append: the case runs on
-- into `case ERROR`, so the new state VERIFY is never looked at.
unfoldable pub received : System → ClientContext → Bytes → RecvRet × Io → Outcome Turn
received sys c delimiter (minus_one, io) = ok (again error io)
received sys c delimiter (got bs, io) = append_received bs io >>= error_case sys c delimiter
received sys c delimiter (eof, io) = ok (again close io)

abbrev pub selected : System → ClientContext → Bytes → Bool × Io → Outcome Turn
selected sys c delimiter (true, io) = received sys c delimiter (recv sys 4096 io)
selected sys c delimiter (false, io) = ok (again error io)

unfoldable pub reading_case : System → ClientContext → Bytes → Io → Outcome Turn
unfolding select_socket
reading_case sys c delimiter io = select_socket sys c.socketfd io >>= selected sys c delimiter

-- The switch; `case VERIFY` runs on into `case READING`.
unfoldable pub step : ReadState → System → ClientContext → Bytes → Io → Outcome Turn
unfolding reading_case error_case received
step verify sys c delimiter io =
    if search_buffer delimiter io.buffer
    then ok (again found io)
    else reading_case sys c delimiter io
step reading sys c delimiter io = reading_case sys c delimiter io
step found sys c delimiter io = ok (again found io)
step error sys c delimiter io = error_case sys c delimiter io
step close sys c delimiter io =
    if readable_bytes io.buffer == 0
    then ok (called (record { error = no_error; count = 0; context = moved c }) io)
    else ok (
        called (record { error = no_error; count = readable_bytes io.buffer; context = moved c })
          io)

abbrev pub after : (ReadState → Io → Outcome (Callback × Io)) → Turn → Outcome (Callback × Io)
after k (again st io) = k st io
after k (called cb io) = ok (cb, io)

-- The loop of the task, with fuel.
unfoldable pub loop : ℕ → ReadState → System → ClientContext → Bytes → Io → Outcome (Callback × Io)
loop zero st sys c delimiter io = out_of_fuel
loop (suc fuel) found sys c delimiter io =
    ok (record { error = no_error; count = readable_bytes io.buffer; context = moved c }, io)
loop (suc fuel) st sys c delimiter io =
    step st sys c delimiter io >>= after (λ st' io'. loop fuel st' sys c delimiter io')

-- `async_read_until`, with the callback that is queued in the end; two rounds are enough.
unfoldable pub async_read_until : System → ClientContext → Bytes → Io → Outcome (Callback × Io)
unfolding loop step
async_read_until sys c delimiter io =
    loop 2 verify sys c delimiter (record io { buffer = fresh_buffer })
