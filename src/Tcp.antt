-- ===== src/Tcp.antt =====
-- `socketTcp` of include/client/socket/TCP/socket_tcp.hpp. The operating system is a parameter: a
-- call of it is answered by its number in the order of all calls, and the answers are any.
-- `SLEEP`, and how long `select` waits, have no effect on the state.
pub mod Lifetime
pub mod Write
pub mod Recv
pub mod Room
pub mod Held
pub mod Search
pub mod Read
pub mod ReadUntil
pub mod Connect
pub mod Resolve
pub mod Chunked
use mtasc.Common.{ℕ, suc, Bytes, Bool, true, false, ◌==◌, Option, if◌then◌else◌}
use mtasc.Number.{ℤ, pos, negsuc}
use mtasc.Buffer.{ReadBuffer}

-- The `errno` values that the code tests.
abbrev pub eintr : ℕ
eintr = 4

abbrev pub eagain : ℕ
eagain = 11

abbrev pub enomem : ℕ
enomem = 12

abbrev pub enobufs : ℕ
enobufs = 105

-- Written `106` in the source.
abbrev pub eisconn : ℕ
eisconn = 106

abbrev pub etimedout : ℕ
etimedout = 110

-- `client_context`, as far as reading and writing use it. The buffer is shared by all copies of a
-- context, so it stands in `Io`. A negative retry limit acts as 0 in every test.
pub record ClientContext : Type 0 where
  pub resovler_addrs : Bool
  pub client_message : Bytes
  pub client_message_length : ℕ
  pub socketfd : ℤ
  pub this_addr_invalid : Bool
  pub connect_rety_count : ℕ
  pub max_rety_count : ℕ
  pub client_retry_write_bytes : ℕ
  pub client_write_bytes : ℕ
  pub is_retry_success : Bool

-- A context as its move constructor leaves it: the round count of the retries is not carried over.
-- Every callback gets a context that was moved, and every retry sets the count to 0 first.
abbrev pub moved : ClientContext → ClientContext
moved c = record c { connect_rety_count = 0 }

abbrev pub is_negative : ℤ → Bool
is_negative (pos n) = false
is_negative (negsuc n) = true

-- How `recv` or `read` ends: some bytes, the end of the stream, or -1 with its `errno`.
pub data Received : Type 0 where
  bytes : ℕ → Bytes → Received
  closed : Received
  failed : ℕ → Received

-- How `write` ends: a count, which is cut to what was offered, or -1 with its `errno`.
pub data Written : Type 0 where
  wrote : ℕ → Written
  refused : ℕ → Written

-- The answers of the operating system, by the number of the call. `select` fails with an `errno`
-- or returns.
pub record System : Type 0 where
  pub on_select : ℕ → Option ℕ
  pub on_recv : ℕ → Received
  pub on_write : ℕ → Written

-- What a worker shares with the operating system and with the other copies of the context. `sent`
-- and `arrived` record what went out by `write` and what came in by `recv`, for the statements.
pub record Io : Type 0 where
  pub calls : ℕ
  pub errno : ℕ
  pub buffer : ReadBuffer
  pub sent : Bytes
  pub arrived : Bytes

-- The `std::error_code` that a callback gets: one of `std::errc`, or an `errno`.
pub data ErrorCode : Type 0 where
  bad_file_descriptor bad_address io_error invalid_argument : ErrorCode
  address_not_available timed_out connection_reset : ErrorCode
  system_error : ℕ → ErrorCode

-- The code 0 is no error, in the system category too.
abbrev pub no_error : ErrorCode
no_error = system_error 0

-- What the callback is called with, beside the buffer.
pub record Callback : Type 0 where
  pub error : ErrorCode
  pub count : ℕ
  pub context : ClientContext

-- `M_max_rety_count <= 0` sets it to 10.
abbrev pub default_limit : ClientContext → ClientContext
default_limit c = record c {
  max_rety_count = if c.max_rety_count == 0 then 10 else c.max_rety_count;
}

abbrev pub retry_result : ClientContext → Bool → ClientContext
retry_result c b = record c { is_retry_success = b }
