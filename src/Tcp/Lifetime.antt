-- ===== src/Tcp/Lifetime.antt =====
-- Who owns the resolvers and their address lists: `~socketTcp`, its moves and the resolvers that it
-- makes, with the destructors and the moves of `Ipv4addrs` and `Ipv6addrs`, which are alike.
mod Deletes
mod Owned
pub mod Leaks
pub mod Moved
mod Tests
use mtasc.Common.{
  ℕ, ◌+◌, List, [], ◌∷◌, Bool, ◌==◌, if◌then◌else◌, Option, none, some, Outcome, ok, out_of_bounds,
  ◌>>=◌,
}
use mtasc.Tcp.Connect.{Family, inet, inet6}

-- What is alive: the lists that `getaddrinfo` made, and the resolvers with their pointers to such
-- lists. A new resolver and its list get the next number; what was never made, or has been given
-- back, must not be given back.
pub record Memory : Type 0 where
  pub next : ℕ
  pub lists : List ℕ
  pub resolvers : List (ℕ × Option ℕ)

-- A list of addresses leaves the memory.
unfoldable pub take_list : ℕ → List ℕ → Outcome (List ℕ)
take_list p [] = out_of_bounds
take_list p (q ∷ lists) = if q == p then ok lists else take_list p lists >>= λ rest. ok (q ∷ rest)

-- `freeaddrinfo`; whether it takes a null pointer is a parameter.
unfoldable pub free_addrinfo : Bool → Option ℕ → Memory → Outcome Memory
unfolding take_list
free_addrinfo takes_null none m = if takes_null then ok m else out_of_bounds
free_addrinfo takes_null (some p) m = take_list p m.lists >>= λ rest. ok (record m { lists = rest })

-- `~Ipv4addrs` and `~Ipv6addrs`, on the pointer of the resolver.
unfoldable pub destroy_resolver : Bool → Option ℕ → Memory → Outcome Memory
unfolding free_addrinfo
destroy_resolver takes_null pointer m = free_addrinfo takes_null pointer m

-- The moves of a resolver, to a new one and to one with a pointer of its own: the pointers of the
-- target and of the source behind them.
unfoldable pub move_resolver : Option ℕ → Option ℕ × Option ℕ
move_resolver other = (other, other)

unfoldable pub assign_resolver : Option ℕ → Option ℕ → Option ℕ × Option ℕ
assign_resolver this other = (other, other)

-- The pointer of a live resolver, which leaves the memory.
unfoldable pub take_resolver : ℕ → List (ℕ × Option ℕ) → Outcome (Option ℕ × List (ℕ × Option ℕ))
take_resolver r [] = out_of_bounds
take_resolver r ((k, pointer) ∷ resolvers) =
    if k == r
    then ok (pointer, resolvers)
    else take_resolver r resolvers >>= λ x. ok (x.0, (k, pointer) ∷ x.1)

-- `delete` of a pointer to a resolver.
unfoldable pub delete_resolver : Bool → Option ℕ → Memory → Outcome Memory
unfolding take_resolver destroy_resolver
delete_resolver takes_null none m = ok m
delete_resolver takes_null (some r) m = take_resolver r m.resolvers >>= λ x.
    destroy_resolver takes_null x.0 (record m { resolvers = x.1 })

-- `M_resolver_Ipv4` and `M_resolver_Ipv6`
pub record Owners : Type 0 where
  pub ipv4 : Option ℕ
  pub ipv6 : Option ℕ

abbrev pub no_owners : Owners
no_owners = record { ipv4 = none; ipv6 = none }

-- `~socketTcp`
unfoldable pub destroy_tcp : Bool → Owners → Memory → Outcome Memory
unfolding delete_resolver
destroy_tcp takes_null o m =
    delete_resolver takes_null o.ipv4 m >>= delete_resolver takes_null o.ipv6

-- `socketTcp(socketTcp&&)` and `operator=(socketTcp&&)`: what the target and the source own then.
unfoldable pub move_tcp : Owners → Owners × Owners
move_tcp other = (other, other)

unfoldable pub assign_tcp : Owners → Owners → Owners × Owners
assign_tcp this other = (other, other)

abbrev pub set_owner : Family → ℕ → Owners → Owners
set_owner inet r o = record o { ipv4 = some r }
set_owner inet6 r o = record o { ipv6 = some r }

-- `new Ipv4addrs` or `new Ipv6addrs` for a host that is resolved, stored in the socket.
unfoldable pub new_resolver : Family → Owners × Memory → Owners × Memory
new_resolver family (o, m) = (
  set_owner family m.next o,
  record {
    next = m.next + 1;
    lists = m.next ∷ m.lists;
    resolvers = (m.next, some m.next) ∷ m.resolvers;
  },
)

-- Hosts that one socket resolves, one after the other.
unfoldable pub resolve_hosts : List Family → Owners × Memory → Owners × Memory
unfolding new_resolver
resolve_hosts [] s = s
resolve_hosts (family ∷ families) s = resolve_hosts families (new_resolver family s)
