-- ===== src/Tcp/Resolve.antt =====
-- `async_resolver_domain`, and the resolvers of include/client/socket/ip.
pub mod Leaks
use mtasc.Common.{
  ℕ, List, [], ◌∷◌, Bytes, Bool, ◌==◌, if◌then◌else◌, Option, none, some, Outcome, ok, thrown,
  out_of_bounds, runtime_error, out_of_fuel, ◌>>=◌,
}
use mtasc.Number.{pos}
use mtasc.Tcp.{no_error, bad_file_descriptor, io_error, invalid_argument}
use mtasc.Tcp.Connect.{
  Family, AddrInfo, ConnectContext, Os, Net, open_socket, wanted_family, Queued, queue, minus_one,
}

abbrev pub resolver_made : Option (List AddrInfo) → Outcome (List AddrInfo)
resolver_made none = thrown runtime_error
resolver_made (some addrs) = ok addrs

-- The constructors of `Ipv4addrs` and `Ipv6addrs`.
unfoldable pub make_resolver : Os → Family → Bytes → ℕ → Outcome (List AddrInfo)
make_resolver os family host port = resolver_made (os.on_getaddrinfo family host port)

-- `getResolverResult`, which never returns a null pointer.
unfoldable pub get_resolver_result : List AddrInfo → Outcome (AddrInfo × List AddrInfo)
get_resolver_result [] = thrown runtime_error
get_resolver_result (a ∷ rest) = ok (a, rest)

abbrev pub socket_made : ConnectContext → List AddrInfo → Option ℕ × Net → Outcome (Queued × Net)
socket_made c addrs (none, net) =
    queue bad_file_descriptor (record c { socketfd = minus_one }) minus_one net
socket_made c addrs (some fd, net) =
    queue no_error (record c { socketfd = pos fd; resovler_addrs = addrs }) (pos 1) net

-- The `try` block and its `catch`; undefined behaviour is not caught.
abbrev pub resolved :
    Os → ConnectContext → Net → Outcome (AddrInfo × List AddrInfo) → Outcome (Queued × Net)
resolved os c net (ok (a, rest)) = socket_made c (a ∷ rest) (open_socket os net)
resolved os c net (thrown e) = queue io_error c minus_one net
resolved os c net out_of_bounds = out_of_bounds
resolved os c net out_of_fuel = out_of_fuel

-- The constructor of the resolver stands before the `try`.
abbrev pub resolve_from :
    Os → ConnectContext → Bool → ℕ → Net → Option Bytes → Outcome (Queued × Net)
resolve_from os c enable_ipv6 max net none = queue invalid_argument c minus_one net
resolve_from os c enable_ipv6 max net (some host) =
    let configured : ConnectContext = record c {
      is_enable_ipv6 = enable_ipv6;
      max_rety_count = max;
    } in
    if c.addrs_port == 0
    then queue invalid_argument c minus_one net
    else make_resolver os (wanted_family configured) host c.addrs_port >>= λ made.
        resolved os configured net (get_resolver_result made)

-- `async_resolver_domain`
unfoldable pub async_resolver_domain : Os → ConnectContext → Bool → ℕ → Net → Outcome (Queued × Net)
unfolding make_resolver get_resolver_result
async_resolver_domain os c enable_ipv6 max net = resolve_from os c enable_ipv6 max net c.addrs_host
