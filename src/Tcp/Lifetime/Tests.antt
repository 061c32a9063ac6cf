-- ===== src/Tcp/Lifetime/Tests.antt =====
-- A socket that resolves three hosts.
use mtasc.Common.{
  ◌≡◌, refl, ◌+◌, ◌-◌, [], ◌∷◌, List, length, true, false, ok, out_of_bounds, ◌>>=◌, some,
}
use mtasc.Tcp.Connect.{Family, inet, inet6}
use mtasc.Tcp.Lifetime.{Memory, no_owners, destroy_tcp, move_tcp, assign_tcp, resolve_hosts}
use mtasc.Tcp.Lifetime.Deletes.{times, times_of}
use mtasc.Tcp.Lifetime.Leaks.{
  IsFresh, GivesBackLast, ipv4_hosts, ipv6_hosts, destroy_tcp-resolve_hosts,
}
use mtasc.Tcp.Lifetime.Moved.{move_tcp-destroy_tcp}

abbrev test_hosts : List Family
test_hosts = inet ∷ inet ∷ inet6 ∷ []

abbrev no_memory : Memory
no_memory = record { next = 0; lists = []; resolvers = [] }

no_memory-IsFresh : IsFresh no_memory
unfolding times times_of
no_memory-IsFresh = record { no_list = λ k h. refl; no_resolver = λ k h. refl }

-- The first of the two resolvers for IPv4 stays alive.
three_hosts :
    let s = resolve_hosts test_hosts (no_owners, no_memory) in
    destroy_tcp true s.0 s.1
    ≡ ok (record { next = 3; lists = 0 ∷ []; resolvers = (0, some 0) ∷ [] })
unfolding resolve_hosts destroy_tcp
three_hosts = refl

destroy_tcp-resolve_hosts_example :
    let s = resolve_hosts test_hosts (no_owners, no_memory) in
    (m' : Memory) × (destroy_tcp true s.0 s.1 ≡ ok m')
    × GivesBackLast test_hosts 0 s.1 m'
    × (length m'.lists ≡ 0 + (ipv4_hosts test_hosts - 1) + (ipv6_hosts test_hosts - 1))
    × (length m'.resolvers ≡ 0 + (ipv4_hosts test_hosts - 1) + (ipv6_hosts test_hosts - 1))
destroy_tcp-resolve_hosts_example =
    destroy_tcp-resolve_hosts true test_hosts no_memory no_memory-IsFresh

move_tcp-destroy_tcp_example :
    let s = resolve_hosts test_hosts (no_owners, no_memory) in
    let made = move_tcp s.0 in
    let assigned = assign_tcp no_owners s.0 in
    ((destroy_tcp false made.0 s.1 >>= destroy_tcp false made.1) ≡ out_of_bounds)
    × ((destroy_tcp false made.1 s.1 >>= destroy_tcp false made.0) ≡ out_of_bounds)
    × ((destroy_tcp false assigned.0 s.1 >>= destroy_tcp false assigned.1) ≡ out_of_bounds)
    × ((destroy_tcp false assigned.1 s.1 >>= destroy_tcp false assigned.0) ≡ out_of_bounds)
move_tcp-destroy_tcp_example =
    move_tcp-destroy_tcp false test_hosts no_memory no_memory-IsFresh (λ e. cc) no_owners
