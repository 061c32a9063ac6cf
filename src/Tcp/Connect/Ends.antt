-- ===== src/Tcp/Connect/Ends.antt =====
-- The call that connects ends, and what it comes to.
use mathlib.Core.Path.{subst}
use mtasc.Common.{
  ℕ, ◌+◌, ◌≤◌, ◌≡◌, refl, sym, ap₂, ◌∙◌, List, [], ◌∷◌, Bytes, Bool, true, false, not, Bool-cases,
  inl, inr, ◌⊎◌, Option, none, some, Option-cases, Outcome, ok, thrown, runtime_error, ◌>>=◌, arith,
}
use mtasc.Number.{pos}
use mtasc.Tcp.{
  ErrorCode, no_error, timed_out, address_not_available, system_error, connection_reset,
  bad_file_descriptor,
}
use mtasc.Tcp.Connect.{
  AddrInfo, ConnectContext, Os, Net, Selected, ready, timeout, select_failed, open_socket, connect,
  answer_connect, answer_socket, Queued, waited, connected, tried, tried_mark, try_ipaddrs,
  try_addrs, async_try_connect_tcp, is_unreachable, minus_one, is_minus_one, try_from, try_list,
  is_family, wanted_family, close_fd, queue,
}
use mtasc.Tcp.Connect.Retry.{retry_tcp_connect-Returns}

-- What a callback reports of a connection that is not made.
abbrev pub IsFailure : ErrorCode → ℕ → Type 0
IsFailure e errno =
    (e ≡ address_not_available)
    ⊎ ((e ≡ connection_reset) ⊎ ((e ≡ timed_out) ⊎ (e ≡ system_error errno)))

-- What a callback gets fits what the call returns.
abbrev pub Reports : Queued × Net → Type 0
Reports out =
    ((out.0.error ≡ no_error) × ((out.0.returns ≡ pos 1) ⊎ (out.0.returns ≡ pos 2)))
    ⊎ ((out.0.returns ≡ minus_one) × IsFailure out.0.error out.1.errno)

-- What `async_try_connect_tcp` makes of its wait or retry: an answer, with the socket kept.
abbrev pub Answers : ConnectContext → Net → Outcome (Queued × Net) → Type 0
Answers c net o =
    (out : Queued × Net) × (o ≡ ok out)
    × (out.0.context.socketfd ≡ c.socketfd)
    × (out.0.context.this_addr_invalid ≡ c.this_addr_invalid)
    × (out.1.open_fds ≡ net.open_fds)
    × Reports out

waited-Answers :
    (os : Os) (a : AddrInfo) (c : ConnectContext) (net : Net) (s : Selected)
    → Answers c net (waited os a c net s)
unfolding waited
waited-Answers os a c net ready = ((_, net), refl, refl, refl, refl, inl (refl, inl refl))
waited-Answers os a c net timeout = ((_, net), refl, refl, refl, refl, inr (refl, inr (inl refl)))
waited-Answers os a c net (select_failed e) =
    let failed : Net = record net { errno = e } in
    elim (Bool-cases (is_unreachable e)) [
      | inl unreachable ↦ (
        (
          record {
            error = timed_out;
            context = record c { connect_rety_count = 0 };
            returns = minus_one;
          },
          failed,
        ),
        rw unreachable,
        refl,
        refl,
        refl,
        inr (refl, inr (inr (inl refl))),
      )
      | inr other ↦
          let (out, f, kept) = retry_tcp_connect-Returns os a c failed in
          elim (Bool-cases out.0.is_retry_success) [
            | inl good ↦ (
              (
                record {
                  error = no_error;
                  context = record out.0 { connect_rety_count = 0 };
                  returns = pos 2;
                },
                out.1,
              ),
              rw (other, f, good),
              kept.same_socket,
              kept.same_mark,
              kept.same_open,
              inl (refl, inr refl),
            )
            | inr bad ↦ (
              (
                record {
                  error = system_error out.1.errno;
                  context = record out.0 { connect_rety_count = 0 };
                  returns = minus_one;
                },
                out.1,
              ),
              rw (other, f, bad),
              kept.same_socket,
              kept.same_mark,
              kept.same_open,
              inr (refl, inr (inr (inr refl))),
            )
          ]
    ]

pub connected-Answers :
    (os : Os) (a : AddrInfo) (c : ConnectContext) (net : Net)
    → Answers c net (connected os a c (connect os a net))
unfolding connect
connected-Answers os a c net = elim (Option-cases (os.on_connect net.calls)) [
  | inl accepted ↦ (
    (
      record { error = no_error; context = record c { connect_rety_count = 0 }; returns = pos 1 },
      (answer_connect none a net).1,
    ),
    rw accepted,
    refl,
    refl,
    refl,
    inl (refl, inl refl),
  )
  | inr (e, refused) ↦
      let net' : Net = (answer_connect (some e) a net).1 in
      let (out, f, g, h, k, m) =
        waited-Answers os a c (record net' { calls = net'.calls + 1 }) (os.on_wait net'.calls) in
      (out, rw refused f, g, h, k, m)
]

-- Some call of `socket` from here on fails.
abbrev pub SocketFails : Os → ℕ → Type 0
SocketFails os calls = (i : ℕ) × (e : ℕ) × (calls ≤ i) × (os.on_socket i ≡ some e)

-- The search for an address ends, or throws since a `socket` fails.
abbrev Searches : Os → ℕ → Outcome (ConnectContext × Net) → Type 0
Searches os calls o =
    ((r : ConnectContext × Net) × (o ≡ ok r)) ⊎ ((o ≡ thrown runtime_error) × SocketFails os calls)

later_fails : (os : Os) (i j : ℕ) → i ≤ j → SocketFails os j → SocketFails os i
later_fails os i j le (k, e, after, fails) = (k, e, omega (arith, le, after), fails)

later-Searches :
    (os : Os) (i j : ℕ) (o : Outcome (ConnectContext × Net))
    → i ≤ j
    → Searches os j o
    → Searches os i o
later-Searches os i j o le (inl r) = inl r
later-Searches os i j o le (inr (e, fails)) = inr (e, later_fails os i j le fails)

try_addrs-Searches :
    (os : Os) (c : ConnectContext) (addrs : List AddrInfo) (net : Net)
    → Searches os net.calls (try_addrs os c addrs net)
unfolding try_addrs open_socket connect close_fd
try_addrs-Searches os c [] net = inl (_, refl)
try_addrs-Searches os c (a ∷ rest) net = elim (Bool-cases (is_family a.family (wanted_family c))) [
  | inr other ↦ rw other (try_addrs-Searches os c rest net)
  | inl wanted ↦ elim (Option-cases (os.on_socket net.calls)) [
    | inr (e, refused) ↦ inr (rw (wanted, refused), (net.calls, e, omega arith, refused))
    | inl made ↦ elim (Option-cases (os.on_connect (net.calls + 1))) [
      | inl accepted ↦ inl (
        (
          record c { socketfd = pos net.next_fd },
          (answer_connect none a (answer_socket none net).1).1,
        ),
        rw (wanted, made, accepted),
      )
      | inr (e, refused) ↦
          let closed : Net =
            close_fd net.next_fd (answer_connect (some e) a (answer_socket none net).1).1 in
          rw (wanted, made, refused)
            (later-Searches os net.calls (net.calls + 1 + 1) (try_addrs os c rest closed)
              (omega arith) (try_addrs-Searches os c rest closed))
    ]
  ]
]

-- The tests that stand before the search: a host, a resolved address and a descriptor.
abbrev pub is_resolved : ConnectContext → Option Bytes → List AddrInfo → Bool
is_resolved c none addrs = false
is_resolved c (some host) [] = false
is_resolved c (some host) (a ∷ rest) = not (is_minus_one c.socketfd)

-- What a call comes to: nothing to connect to, a `socket` that fails, or an answer.
pub data Comes (os : Os) (c : ConnectContext) (net : Net) (o : Outcome (Queued × Net))
    : Type 0 where
  unready :
      is_resolved c c.addrs_host c.resovler_addrs ≡ false
      → o ≡ queue bad_file_descriptor c minus_one net
      → Comes os c net o
  no_socket :
      is_resolved c c.addrs_host c.resovler_addrs ≡ true
      → o ≡ thrown runtime_error
      → SocketFails os net.calls
      → Comes os c net o
  answers :
      is_resolved c c.addrs_host c.resovler_addrs ≡ true
      → (out : Queued × Net) → o ≡ ok out
      → Reports out
      → Comes os c net o

tried_mark-Reports :
    (os : Os) (a : AddrInfo) (c : ConnectContext) (net : Net) (mark : Bool)
    → (out : Queued × Net) × (tried_mark os a c net mark ≡ ok out) × Reports out
tried_mark-Reports os a c net true = ((_, net), refl, inr (refl, inl refl))
tried_mark-Reports os a c net false =
    let (out, e, _, _, _, reports) = connected-Answers os a c net in (out, e, reports)

search-Comes :
    (os : Os) (c : ConnectContext) (a : AddrInfo) (net : Net) (o : Outcome (ConnectContext × Net))
    → is_resolved c c.addrs_host c.resovler_addrs ≡ true
    → Searches os net.calls o
    → Comes os c net (o >>= tried os a)
search-Comes os c a net o resolved (inl (r, e)) =
    let (out, f, reports) = tried_mark-Reports os a r.0 r.1 r.0.this_addr_invalid in
    answers resolved out (rw e f) reports
search-Comes os c a net o resolved (inr (e, fails)) = no_socket resolved (rw e) fails

try_from-Comes :
    (os : Os) (c : ConnectContext) (net : Net) (host : Option Bytes) (addrs : List AddrInfo)
    → host ≡ c.addrs_host
    → addrs ≡ c.resovler_addrs
    → Comes os c net (try_from os c host addrs net)
unfolding try_ipaddrs
try_from-Comes os c net none addrs named listed =
    unready (ap₂ (is_resolved c) (sym named) (sym listed)) refl
try_from-Comes os c net (some host) [] named listed =
    unready (ap₂ (is_resolved c) (sym named) (sym listed)) refl
try_from-Comes os c net (some host) (a ∷ rest) named listed =
    let resolved = ap₂ (is_resolved c) (sym named) (sym listed) in
    elim (Bool-cases (is_minus_one c.socketfd)) [
      | inl closed ↦ unready (resolved ∙ rw closed) (rw closed)
      | inr open_socket ↦ rw open_socket (
          search-Comes os c a net (try_list os c net c.resovler_addrs) (resolved ∙ rw open_socket) (
            subst (λ l. Searches os net.calls (try_list os c net l)) listed
              (try_addrs-Searches os c (a ∷ rest) net)))
    ]

-- On every sequence of answers of the operating system, and from every context,
-- `async_try_connect_tcp` ends, the rounds of its retry included. Without a host, a resolved
-- address or a descriptor it queues `bad_file_descriptor`, returns -1 and does nothing else.
-- Otherwise it throws only if a call of `socket` fails, and if none does it queues its callback
-- once: with no error, and then it returns 1 or 2, or with one of the errors that the code has for
-- a connection that is not made (address_not_available, connection_reset, timed_out or the code of
-- `errno`), and then it returns -1.
pub async_try_connect_tcp-Comes :
    (os : Os) (c : ConnectContext) (net : Net) → Comes os c net (async_try_connect_tcp os c net)
unfolding async_try_connect_tcp
async_try_connect_tcp-Comes os c net =
    try_from-Comes os c net c.addrs_host c.resovler_addrs refl refl
