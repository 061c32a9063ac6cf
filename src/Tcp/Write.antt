-- ===== src/Tcp/Write.antt =====
-- `async_write` and `M_retryTcpwrite`.
pub mod Complete
pub mod Failed
mod Tests
use mtasc.Common.{
  ℕ, zero, suc, ◌+◌, ◌-◌, ◌^◌, [], ◌∷◌, ◌++◌, Bytes, Bool, true, false, not, ◌||◌, ◌==◌, ltb, leb,
  length, take, if◌then◌else◌, Outcome, ok, out_of_fuel, out_of_bounds, ◌>>=◌, min, slice,
}
use mtasc.Tcp.{
  moved, ClientContext, System, Io, Written, wrote, refused, no_error, bad_file_descriptor,
  bad_address, io_error, Callback, is_negative, retry_result, eagain, eintr, enobufs, enomem,
  etimedout,
}

-- `strlen(c_str())`: up to the first NUL.
unfoldable pub strlen : Bytes → ℕ
strlen [] = 0
strlen (c ∷ s) = if c == 0 then 0 else suc (strlen s)

-- The return value of `write`: a count, or -1.
pub data WriteRet : Type 0 where
  count : ℕ → WriteRet
  minus_one : WriteRet

unfoldable pub answer_write : Written → Bytes → Io → WriteRet × Io
answer_write (wrote n) offered io = (
  count (min n (length offered)),
  record io { calls = io.calls + 1; sent = io.sent ++ take n offered },
)
answer_write (refused e) offered io = (minus_one, record io { calls = io.calls + 1; errno = e })

-- `write(fd, c_str() + from, n)`
unfoldable pub write : System → Bytes → ℕ → ℕ → Io → WriteRet × Io
unfolding answer_write
write sys message from n io = answer_write (sys.on_write io.calls) (slice message from n) io

-- The conversion of the return value to `size_t`.
abbrev pub size_of_ret : WriteRet → ℕ
size_of_ret (count n) = n
size_of_ret minus_one = 2 ^ 64 - 1

-- The `errno` values on which a write is tried again.
abbrev pub is_retry_errno : ℕ → Bool
is_retry_errno e = e == eagain || e == eintr || e == enobufs || e == enomem || e == etimedout

-- What the inner `while (M_total_write < M_strfull_len)` comes to: it returns, or it ends.
pub data Inner : Type 0 where
  inner_returned : ClientContext → Io → Inner
  inner_ended : ClientContext → ℕ → Io → Inner

abbrev pub inner_round :
    (ClientContext → ℕ → Io → Outcome Inner) → ClientContext → ℕ → ℕ → WriteRet × Io → Outcome Inner
inner_round again c total full (minus_one, io) =
    if leb c.connect_rety_count c.max_rety_count
    then ok (inner_returned (retry_result c false) io)
    else again c total io
inner_round again c total full (count n, io) =
    if n + total == full
    then ok (inner_returned (record (retry_result c true) { client_retry_write_bytes = total }) io)
    else again (record c { client_retry_write_bytes = total + n }) (total + n) io

unfoldable pub retry_inner : ℕ → System → ℕ → ClientContext → ℕ → Io → Outcome Inner
retry_inner zero sys full c total io = out_of_fuel
retry_inner (suc fuel) sys full c total io =
    let rest =
      inner_round (retry_inner fuel sys full) c total full
        (write sys c.client_message total (full - total) io) in
    if ltb total full then rest else ok (inner_ended c total io)

-- Behind both loops.
abbrev pub retry_finish : ClientContext → ℕ → ℕ → ClientContext
retry_finish c total full =
    if leb total full
    then record (retry_result c true) { client_retry_write_bytes = total }
    else retry_result c false

abbrev pub after_inner :
    (ClientContext → ℕ → Io → Outcome (ClientContext × Io)) → Inner → Outcome (ClientContext × Io)
after_inner again (inner_returned c io) = ok (c, io)
after_inner again (inner_ended c total io) = again c total io

-- The outer `while (M_connect_rety_count < M_max_rety_count)`, with fuel for it and for the inner.
unfoldable pub retry_outer :
    ℕ → ℕ → System → ℕ → ClientContext → ℕ → Io → Outcome (ClientContext × Io)
retry_outer zero inner sys full c total io = out_of_fuel
retry_outer (suc fuel) inner sys full c total io =
    let rest =
      retry_inner inner sys full (record c { connect_rety_count = c.connect_rety_count + 1 }) total
        io
      >>= after_inner (retry_outer fuel inner sys full) in
    if ltb c.connect_rety_count c.max_rety_count then rest else ok (retry_finish c total full, io)

-- `M_retryTcpwrite`; the outer loop runs at most `M_max_rety_count` times.
unfoldable pub retry_tcp_write :
    ℕ → System → ClientContext → ℕ → ℕ → ℕ → Io → Outcome (ClientContext × Io)
retry_tcp_write inner sys c total full errno_copy io =
    if is_negative c.socketfd || c.this_addr_invalid || not c.resovler_addrs
    then ok (retry_result c false, io)
    else if is_retry_errno errno_copy
    then retry_outer (c.max_rety_count + 1) inner sys full (record c { connect_rety_count = 0 })
        total io
    else ok (retry_result c false, io)

-- The callback behind a failed `write`. The retry works on the context by reference, so what the
-- branches pass on is the context that it returns; `total` is what was written before. The last
-- branch adds two numbers of type `int`, which is undefined where the sum does not fit.
abbrev pub failed_callback : ℕ → ClientContext → Outcome Callback
failed_callback total c =
    if c.is_retry_success
    then if c.client_write_bytes == 0
      then ok (record { error = bad_address; count = total; context = moved c })
      else ok (record { error = no_error; count = c.client_write_bytes + total; context = moved c })
    else if ltb (total + total) (2 ^ 31)
    then ok (record { error = io_error; count = total + total; context = moved c })
    else out_of_bounds

abbrev pub write_round :
    (ℕ → Io → Outcome (Callback × Io))
    → ℕ
    → System
    → ClientContext
    → ℕ
    → ℕ
    → WriteRet × Io
    → Outcome (Callback × Io)
write_round again fuel sys c total full (minus_one, io) =
    retry_tcp_write fuel sys c (size_of_ret minus_one) full io.errno io >>= λ r.
    failed_callback total r.0 >>= λ cb. ok (cb, r.1)
write_round again fuel sys c total full (count n, io) = again (total + n) io

-- The loop of the write task; `M_written` and `M_total_write` are always equal.
unfoldable pub write_loop : ℕ → System → ClientContext → ℕ → Io → Outcome (Callback × Io)
write_loop zero sys c total io = out_of_fuel
write_loop (suc fuel) sys c total io =
    let full = strlen c.client_message in
    let rest =
      write_round (write_loop fuel sys c) fuel sys c total full
        (write sys c.client_message total (full - total) io) in
    if ltb total full
    then rest
    else ok (record { error = no_error; count = total; context = moved c }, io)

abbrev pub is_empty : Bytes → Bool
is_empty [] = true
is_empty (c ∷ s) = false

-- `async_write`, with the callback that is queued in the end.
unfoldable pub async_write : ℕ → System → ClientContext → Bytes → Io → Outcome (Callback × Io)
unfolding write_loop write strlen
async_write fuel sys c message io =
    if is_negative c.socketfd || c.this_addr_invalid || not c.resovler_addrs || is_empty message
    then ok (record { error = bad_file_descriptor; count = 0; context = moved c }, io)
    else write_loop fuel sys
        (record c { client_message = message; client_message_length = strlen message }) 0 io
