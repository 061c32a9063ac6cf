-- ===== src/Tcp/Connect/Tests.antt =====
-- Resolving and connecting against a concrete operating system.
use mtasc.Common.{
  Bool, true, ℕ, ◌≡◌, ◌≢◌, ◌>>=◌, refl, [], ◌∷◌, codes, some, none, false, ok, thrown,
  runtime_error, ◌==◌, if◌then◌else◌, arith, ◌⊎◌,
}
use mtasc.Number.{pos}
use mtasc.Tcp.{address_not_available}
use mtasc.Tcp.Connect.{
  inet, inet6, ConnectContext, Os, Net, ready, try_ipaddrs, async_try_connect_tcp, Queued,
}
use mtasc.Tcp.Resolve.{async_resolver_domain}
use mtasc.Tcp.Connect.Addresses.{Tried, try_ipaddrs-Tried}
use mtasc.Tcp.Connect.Ends.{Comes, async_try_connect_tcp-Comes}
use mtasc.Tcp.Resolve.Leaks.{async_resolver_domain_escapes, accepted, resolve-connect-Leaks}

-- The first attempt to connect is refused, the others are accepted.
abbrev test_os : Os
test_os = record {
  on_getaddrinfo =
      λ f h p. some (record { family = inet; addr = 1 } ∷ record { family = inet; addr = 2 } ∷ []);
  on_socket = λ i. none;
  on_connect = λ i. if i == 2 then some 111 else none;
  on_wait = λ i. ready;
}

abbrev no_resolver : Os
no_resolver = record test_os { on_getaddrinfo = λ f h p. none }

abbrev test_context : ConnectContext
test_context = record {
  addrs_host = some (codes "test.org");
  addrs_port = 80;
  resovler_addrs =
      record { family = inet6; addr = 0 }
      ∷ record { family = inet; addr = 1 }
      ∷ record { family = inet; addr = 2 }
      ∷ [];
  socketfd = pos 3;
  is_enable_ipv6 = false;
  this_addr_invalid = false;
  connect_rety_count = 0;
  max_rety_count = 2;
  is_retry_success = false;
}

abbrev test_net : Net
test_net = record { calls = 0; errno = 0; next_fd = 4; open_fds = 3 ∷ []; attempts = [] }

try_ipaddrs-Tried_example :
    Tried test_context test_context.resovler_addrs test_net
      (try_ipaddrs test_os test_context test_net)
try_ipaddrs-Tried_example =
    try_ipaddrs-Tried test_os test_context (record { family = inet6; addr = 0 })
      (record { family = inet; addr = 1 } ∷ record { family = inet; addr = 2 } ∷ []) test_net
      (λ i. refl) refl

async_try_connect_tcp-Comes_example :
    Comes test_os test_context test_net (async_try_connect_tcp test_os test_context test_net)
async_try_connect_tcp-Comes_example = async_try_connect_tcp-Comes test_os test_context test_net

unknown_host :
    async_resolver_domain no_resolver test_context false 3 test_net ≡ thrown runtime_error
unknown_host =
    async_resolver_domain_escapes no_resolver test_context (codes "test.org") false 3 test_net refl
      (omega arith) refl

-- The second address accepts.
abbrev accepts : Bool
accepts =
    accepted test_os test_context (codes "test.org") false 3 test_net refl (omega arith)
      (record { family = inet; addr = 1 }) (record { family = inet; addr = 2 } ∷ [])

accepts_test : accepts ≡ true
accepts_test = refl

resolve-connect-Leaks_example :
    (out : Queued × Net) × ((async_resolver_domain test_os test_context false 3 test_net >>= λ r.
    async_try_connect_tcp test_os r.0.context r.1)
      ≡ ok out)
    × (((accepts ≡ false) × (out.0.error ≡ address_not_available) × (out.1.open_fds ≡ 4 ∷ 3 ∷ []))
        ⊎ ((accepts ≡ true)
            × (fd : ℕ) × (out.0.context.socketfd ≡ pos fd)
            × (fd ≢ 4)
            × (out.1.open_fds ≡ fd ∷ 4 ∷ 3 ∷ [])))
resolve-connect-Leaks_example =
    resolve-connect-Leaks test_os test_context (codes "test.org") false 3 test_net refl
      (omega arith) (record { family = inet; addr = 1 }) (record { family = inet; addr = 2 } ∷ [])
      (λ i. refl) refl refl
