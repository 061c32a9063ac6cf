-- ===== src/Tcp/Connect.antt =====
-- `async_try_connect_tcp`, `M_tryIpaddrs` and `M_retryTcpConnect`. The answers of the operating
-- system are any, by the number of the call; a new descriptor is one that was never open before.
-- Timeouts and socket options have no effect on the state.
pub mod Addresses
pub mod Retry
pub mod Ends
pub mod Accepts
mod Tests
use mtasc.Common.{
  ℕ, zero, suc, ◌+◌, List, [], ◌∷◌, ◌++◌, Bytes, Bool, true, false, ◌&&◌, ◌||◌, ◌==◌, ltb,
  if◌then◌else◌, Option, none, some, Outcome, ok, thrown, runtime_error, out_of_fuel, ◌>>=◌,
}
use mtasc.Number.{ℤ, pos, negsuc}
use mtasc.Tcp.{
  ErrorCode, no_error, bad_file_descriptor, address_not_available, timed_out, connection_reset,
  system_error, eagain, eintr, eisconn, etimedout,
}

-- `AF_INET` and `AF_INET6`
pub data Family : Type 0 where
  inet inet6 : Family

abbrev pub is_family : Family → Family → Bool
is_family inet inet = true
is_family inet6 inet6 = true
is_family inet inet6 = false
is_family inet6 inet = false

-- A node of `struct addrinfo`; a null pointer is the empty list.
pub record AddrInfo : Type 0 where
  pub family : Family
  pub addr : ℕ

-- `client_context`, as far as resolving and connecting use it.
pub record ConnectContext : Type 0 where
  pub addrs_host : Option Bytes
  pub addrs_port : ℕ
  pub resovler_addrs : List AddrInfo
  pub socketfd : ℤ
  pub is_enable_ipv6 : Bool
  pub this_addr_invalid : Bool
  pub connect_rety_count : ℕ
  pub max_rety_count : ℕ
  pub is_retry_success : Bool

-- How `select` ends: the socket is ready, the time is out, or -1 with its `errno`.
pub data Selected : Type 0 where
  ready timeout : Selected
  select_failed : ℕ → Selected

-- The answers of the operating system. `getaddrinfo` fails or gives a list; `socket` and `connect`
-- succeed or fail with an `errno`.
pub record Os : Type 0 where
  pub on_getaddrinfo : Family → Bytes → ℕ → Option (List AddrInfo)
  pub on_socket : ℕ → Option ℕ
  pub on_connect : ℕ → Option ℕ
  pub on_wait : ℕ → Selected

-- What the calls change. `attempts` records the calls of `connect` with whether each succeeded, for
-- the statements.
pub record Net : Type 0 where
  pub calls : ℕ
  pub errno : ℕ
  pub next_fd : ℕ
  pub open_fds : List ℕ
  pub attempts : List (AddrInfo × Bool)

abbrev pub answer_socket : Option ℕ → Net → Option ℕ × Net
answer_socket none net = (
  some net.next_fd,
  record net {
    calls = net.calls + 1;
    next_fd = net.next_fd + 1;
    open_fds = net.next_fd ∷ net.open_fds;
  },
)
answer_socket (some e) net = (none, record net { calls = net.calls + 1; errno = e })

-- `socket`; `none` is -1.
unfoldable pub open_socket : Os → Net → Option ℕ × Net
open_socket os net = answer_socket (os.on_socket net.calls) net

abbrev pub answer_connect : Option ℕ → AddrInfo → Net → Bool × Net
answer_connect none a net =
    (true, record net { calls = net.calls + 1; attempts = net.attempts ++ (a, true) ∷ [] })
answer_connect (some e) a net = (
  false,
  record net { calls = net.calls + 1; errno = e; attempts = net.attempts ++ (a, false) ∷ [] },
)

-- `connect`; `true` is 0.
unfoldable pub connect : Os → AddrInfo → Net → Bool × Net
connect os a net = answer_connect (os.on_connect net.calls) a net

abbrev pub remove_fd : ℕ → List ℕ → List ℕ
remove_fd fd [] = []
remove_fd fd (x ∷ fds) = if x == fd then fds else x ∷ remove_fd fd fds

-- `CLOSE_FD`
unfoldable pub close_fd : ℕ → Net → Net
close_fd fd net = record net { open_fds = remove_fd fd net.open_fds }

abbrev pub wanted_family : ConnectContext → Family
wanted_family c = if c.is_enable_ipv6 then inet6 else inet

abbrev pub tested :
    (Net → Outcome (ConnectContext × Net))
    → ConnectContext
    → ℕ
    → Bool × Net
    → Outcome (ConnectContext × Net)
tested next c fd (true, net) = ok (record c { socketfd = pos fd }, net)
tested next c fd (false, net) = next (close_fd fd net)

abbrev pub opened :
    (Net → Outcome (ConnectContext × Net))
    → Os
    → ConnectContext
    → AddrInfo
    → Option ℕ × Net
    → Outcome (ConnectContext × Net)
opened next os c a (none, net) = thrown runtime_error
opened next os c a (some fd, net) = tested next c fd (connect os a net)

-- The loop of `M_tryIpaddrs`.
unfoldable pub try_addrs :
    Os → ConnectContext → List AddrInfo → Net → Outcome (ConnectContext × Net)
try_addrs os c [] net = ok (record c { this_addr_invalid = true }, net)
try_addrs os c (a ∷ rest) net =
    let test = opened (try_addrs os c rest) os c a (open_socket os net) in
    if is_family a.family (wanted_family c) then test else try_addrs os c rest net

abbrev pub try_list : Os → ConnectContext → Net → List AddrInfo → Outcome (ConnectContext × Net)
try_list os c net [] = thrown runtime_error
try_list os c net (a ∷ rest) = try_addrs os c (a ∷ rest) net

-- `M_tryIpaddrs`
unfoldable pub try_ipaddrs : Os → ConnectContext → Net → Outcome (ConnectContext × Net)
unfolding try_addrs
try_ipaddrs os c net = try_list os c net c.resovler_addrs

-- What follows a `connect` of the retry, with the round counted.
abbrev pub reconnected :
    (ConnectContext → Net → Outcome (ConnectContext × Net))
    → ConnectContext
    → Bool × Net
    → Outcome (ConnectContext × Net)
reconnected again c (true, net) = ok (record c { is_retry_success = true }, net)
reconnected again c (false, net) =
    if c.max_rety_count == c.connect_rety_count then ok (c, net) else again c net

abbrev pub is_not_zero : ℕ → Bool
is_not_zero zero = false
is_not_zero (suc n) = true

-- `while (M_connect_rety_count < M_max_rety_count)`, with fuel, on the first address of the list.
unfoldable pub connect_loop :
    ℕ → Os → AddrInfo → ConnectContext → Net → Outcome (ConnectContext × Net)
connect_loop zero os a c net = out_of_fuel
connect_loop (suc fuel) os a c net =
    let counted : ConnectContext = record c { connect_rety_count = c.connect_rety_count + 1 } in
    let round = reconnected (connect_loop fuel os a) counted (connect os a net) in
    if ltb c.connect_rety_count c.max_rety_count
    then if net.errno == eisconn
      then ok (record c { is_retry_success = true }, net)
      else if net.errno == eagain
          || net.errno == eintr
          || net.errno == etimedout
          || (is_not_zero net.errno && ltb c.connect_rety_count c.max_rety_count)
      then round
      else ok (c, net)
    else ok (c, net)

-- `M_max_rety_count <= 0` sets it to 10.
abbrev pub connect_limit : ConnectContext → ConnectContext
connect_limit c = record c {
  max_rety_count = if c.max_rety_count == 0 then 10 else c.max_rety_count;
}

-- `M_retryTcpConnect`; each round counts, so the limit bounds the rounds.
unfoldable pub retry_tcp_connect :
    Os → AddrInfo → ConnectContext → Net → Outcome (ConnectContext × Net)
retry_tcp_connect os a c net =
    connect_loop ((connect_limit c).max_rety_count + 1) os a (connect_limit c) net

-- What a call comes to: the error and the context of the callback that it queues, and what it
-- returns. The context is moved, which does not carry over its round count.
pub record Queued : Type 0 where
  pub error : ErrorCode
  pub context : ConnectContext
  pub returns : ℤ

abbrev pub queue : ErrorCode → ConnectContext → ℤ → Net → Outcome (Queued × Net)
queue e c r net =
    ok (record { error = e; context = record c { connect_rety_count = 0 }; returns = r }, net)

-- -1, which is also an invalid descriptor.
abbrev pub minus_one : ℤ
minus_one = negsuc 0

abbrev pub is_minus_one : ℤ → Bool
is_minus_one (pos n) = false
is_minus_one (negsuc zero) = true
is_minus_one (negsuc (suc n)) = false

-- `ECONNREFUSED`, `ENETUNREACH` and `EHOSTUNREACH`
abbrev pub is_unreachable : ℕ → Bool
is_unreachable e = e == 111 || e == 101 || e == 113

abbrev pub retried_connect : ConnectContext × Net → Outcome (Queued × Net)
retried_connect (c, net) =
    if c.is_retry_success
    then queue no_error c (pos 2) net
    else queue (system_error net.errno) c minus_one net

-- What follows the wait behind a `connect` that returned -1.
unfoldable pub waited : Os → AddrInfo → ConnectContext → Net → Selected → Outcome (Queued × Net)
waited os a c net ready = queue no_error c (pos 1) net
waited os a c net timeout = queue connection_reset c minus_one net
waited os a c net (select_failed e) =
    let failed : Net = record net { errno = e } in
    if is_unreachable e
    then queue timed_out c minus_one failed
    else retry_tcp_connect os a c failed >>= retried_connect

abbrev pub connected : Os → AddrInfo → ConnectContext → Bool × Net → Outcome (Queued × Net)
connected os a c (true, net) = queue no_error c (pos 1) net
connected os a c (false, net) =
    waited os a c (record net { calls = net.calls + 1 }) (os.on_wait net.calls)

-- `if (try_context_.M_this_addr_invalid)`
abbrev pub tried_mark : Os → AddrInfo → ConnectContext → Net → Bool → Outcome (Queued × Net)
tried_mark os a c net true = queue address_not_available c minus_one net
tried_mark os a c net false = connected os a c (connect os a net)

abbrev pub tried : Os → AddrInfo → ConnectContext × Net → Outcome (Queued × Net)
tried os a (c, net) = tried_mark os a c net c.this_addr_invalid

abbrev pub try_from :
    Os → ConnectContext → Option Bytes → List AddrInfo → Net → Outcome (Queued × Net)
try_from os c none addrs net = queue bad_file_descriptor c minus_one net
try_from os c (some host) [] net = queue bad_file_descriptor c minus_one net
try_from os c (some host) (a ∷ rest) net =
    if is_minus_one c.socketfd
    then queue bad_file_descriptor c minus_one net
    else try_ipaddrs os c net >>= tried os a

-- `async_try_connect_tcp`; the connection is made to the first address of the list.
unfoldable pub async_try_connect_tcp : Os → ConnectContext → Net → Outcome (Queued × Net)
unfolding try_ipaddrs waited
async_try_connect_tcp os c net = try_from os c c.addrs_host c.resovler_addrs net
