-- ===== src/Tcp/Read.antt =====
-- `async_read` and `M_retryTcpRead`.
mod Retry
pub mod Delivers
mod Tests
use mtasc.Common.{
  ℕ, zero, suc, ◌+◌, Bool, true, false, ◌&&◌, ◌||◌, ◌==◌, ltb, leb, length, if◌then◌else◌, Outcome,
  ok, out_of_fuel, ◌>>=◌,
}
use mtasc.Buffer.{readable_bytes}
use mtasc.Tcp.{
  moved, ClientContext, System, Io, no_error, system_error, Callback, retry_result, default_limit,
  eagain, eintr, eisconn,
}
use mtasc.Tcp.Recv.{RecvRet, got, eof, minus_one, recv, select_socket, append_received}

-- What follows the bytes that a `recv` of the retry appended. The last test holds always.
abbrev pub retry_got :
    (ClientContext → Io → Outcome (ClientContext × Io))
    → ClientContext
    → ℕ
    → ℕ
    → Io
    → Outcome (ClientContext × Io)
retry_got again c cache n io =
    if ltb n cache && ltb c.connect_rety_count c.max_rety_count
    then again c io
    else if leb cache n || ltb n cache
    then ok (retry_result c true, io)
    else ok (retry_result c false, io)

-- What follows a `recv` of the retry, with the round counted.
abbrev pub retry_round :
    (ClientContext → Io → Outcome (ClientContext × Io))
    → ClientContext
    → ℕ
    → RecvRet × Io
    → Outcome (ClientContext × Io)
retry_round again c cache (minus_one, io) =
    if leb c.connect_rety_count c.max_rety_count then ok (retry_result c false, io) else again c io
retry_round again c cache (got bs, io) =
    append_received bs io >>= retry_got again c cache (length bs)
retry_round again c cache (eof, io) =
    if leb 0 (readable_bytes io.buffer)
    then ok (retry_result c true, io)
    else ok (retry_result c false, io)

-- `while (M_connect_rety_count < M_max_rety_count)`, with fuel.
unfoldable pub retry_loop : ℕ → System → ℕ → ClientContext → Io → Outcome (ClientContext × Io)
retry_loop zero sys cache c io = out_of_fuel
retry_loop (suc fuel) sys cache c io =
    let counted : ClientContext = record c { connect_rety_count = c.connect_rety_count + 1 } in
    let rest = retry_round (retry_loop fuel sys cache) counted cache (recv sys 1096 io) in
    if ltb c.connect_rety_count c.max_rety_count
    then if io.errno == eagain || io.errno == eintr then rest else ok (retry_result c false, io)
    else ok (retry_result c false, io)

-- `M_retryTcpRead`; each round counts, so the limit bounds the rounds.
unfoldable pub retry_tcp_read : System → ClientContext → ℕ → ℕ → Io → Outcome (ClientContext × Io)
retry_tcp_read sys c errno_copy cache io =
    let limited : ClientContext = record (default_limit c) { connect_rety_count = 0 } in
    let rest = retry_loop (limited.max_rety_count + 1) sys cache limited io in
    if errno_copy == eisconn then ok (retry_result c true, io) else rest

-- `BASIC_READ_STATE`
pub data ReadState : Type 0 where
  reading close error verify done : ReadState

-- One round of the loop: a new state, or the callback is queued.
pub data Turn : Type 0 where
  again : ReadState → Io → Turn
  called : Callback → Io → Turn

unfoldable pub received : RecvRet × Io → Outcome Turn
received (minus_one, io) = ok (again error io)
received (got bs, io) = append_received bs io >>= λ io'. ok (again verify io')
received (eof, io) = ok (again close io)

abbrev pub selected : System → Bool × Io → Outcome Turn
selected sys (true, io) = received (recv sys 4096 io)
selected sys (false, io) = ok (again error io)

-- A failed retry passes on the context from before it.
abbrev pub retried : ClientContext → ClientContext × Io → Turn
retried c (c', io) =
    if c'.is_retry_success
    then called (record { error = no_error; count = readable_bytes io.buffer; context = moved c' })
        io
    else called (record { error = system_error io.errno; count = 0; context = moved c }) io

-- The switch.
unfoldable pub step : ReadState → System → ClientContext → ℕ → Io → Outcome Turn
unfolding received select_socket
step reading sys c cache io = select_socket sys c.socketfd io >>= selected sys
step close sys c cache io =
    if readable_bytes io.buffer == 0
    then ok (called (record { error = no_error; count = 0; context = moved c }) io)
    else ok (
        called (record { error = no_error; count = readable_bytes io.buffer; context = moved c })
          io)
step verify sys c cache io =
    if leb cache (readable_bytes io.buffer) then ok (again done io) else ok (again reading io)
step error sys c cache io =
    if io.errno == eisconn
    then ok (called (record { error = no_error; count = 0; context = moved c }) io)
    else (retry_tcp_read sys c io.errno cache io >>= λ r. ok (retried c r))
step done sys c cache io =
    ok
      (called (record { error = no_error; count = readable_bytes io.buffer; context = moved c }) io)

abbrev pub after : (ReadState → Io → Outcome (Callback × Io)) → Turn → Outcome (Callback × Io)
after k (again st io) = k st io
after k (called cb io) = ok (cb, io)

-- The loop of the task, with fuel.
unfoldable pub loop : ℕ → ReadState → System → ClientContext → ℕ → Io → Outcome (Callback × Io)
loop zero st sys c cache io = out_of_fuel
loop (suc fuel) st sys c cache io =
    step st sys c cache io >>= after (λ st' io'. loop fuel st' sys c cache io')

-- `if (M_chache_size <= 0) M_chache_size = 4096`
abbrev pub cache_size : ℕ → ℕ
cache_size n = if n == 0 then 4096 else n

-- `async_read` into the buffer of `io`, with the callback that is queued in the end.
unfoldable pub async_read : ℕ → System → ClientContext → ℕ → Io → Outcome (Callback × Io)
unfolding loop step
async_read fuel sys c size io = loop fuel reading sys c (cache_size size) io
