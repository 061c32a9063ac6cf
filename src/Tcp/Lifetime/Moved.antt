-- ===== src/Tcp/Lifetime/Moved.antt =====
-- Sockets and resolvers that are moved.
use mtasc.Common.{
  ℕ, ◌+◌, ◌≤◌, ◌≡◌, ◌≢◌, refl, List, [], ◌∷◌, Bool, Option, none, some, out_of_bounds, ◌>>=◌, arith,
}
use mtasc.Tcp.Connect.{Family, inet, inet6}
use mtasc.Tcp.Lifetime.{
  Memory, delete_resolver, Owners, no_owners, destroy_tcp, move_tcp, assign_tcp, move_resolver,
  assign_resolver, destroy_resolver, resolve_hosts,
}
use mtasc.Tcp.Lifetime.Deletes.{times, delete_resolver_gone, destroy_resolver_twice}
use mtasc.Tcp.Lifetime.Owned.{OwnerGone, owned, destroy_tcp-Destroyed}
use mtasc.Tcp.Lifetime.Leaks.{IsFresh, ipv4_hosts, ipv6_hosts, resolve_hosts-Resolved}

-- A socket that owns something is not destroyed again.
destroyed_again :
    (takes_null : Bool) (ipv4 ipv6 : Option ℕ) (m : Memory)
    → 1 ≤ owned ipv4 + owned ipv6
    → OwnerGone ipv4 m
    → OwnerGone ipv6 m
    → destroy_tcp takes_null (record { ipv4 = ipv4; ipv6 = ipv6 }) m ≡ out_of_bounds
unfolding destroy_tcp delete_resolver
destroyed_again takes_null none none m some_owned g h = absurd (omega arith)
destroyed_again takes_null none (some q) m some_owned g h = delete_resolver_gone takes_null q m h.0
destroyed_again takes_null (some r) q m some_owned g h =
    rw (delete_resolver_gone takes_null r m g.0)

some_host : (families : List Family) → families ≢ [] → 1 ≤ ipv4_hosts families + ipv6_hosts families
some_host [] h = absurd (h refl)
some_host (inet ∷ families) h = omega arith
some_host (inet6 ∷ families) h = omega arith

module _ (takes_null : Bool) (families : List Family) (m : Memory) (fresh : IsFresh m)
    (named : families ≢ []) where
  destroyed_twice :
      let s = resolve_hosts families (no_owners, m) in
      (destroy_tcp takes_null s.0 s.1 >>= destroy_tcp takes_null s.0) ≡ out_of_bounds
  destroyed_twice =
      let s = resolve_hosts families (no_owners, m) in
      let r =
        resolve_hosts-Resolved families no_owners m fresh
          (record { held4 = tt; held6 = tt; apart = tt }) in
      let (m', e, d) = destroy_tcp-Destroyed takes_null s.0 s.1 r.is_owned in
      rw e (
        destroyed_again takes_null s.0.ipv4 s.0.ipv6 m'
          (omega (arith, r.owns4, r.owns6, some_host families named)) d.gone4 d.gone6)

  -- A socket that has resolved a host and is moved, to a new socket or to any other, is undefined
  -- behaviour once both are destroyed, in either order: the moves copy the pointers to the
  -- resolvers and leave them in the source. The next numbers of the memory are not given out.
  pub move_tcp-destroy_tcp :
      (this : Owners)
      → let s = resolve_hosts families (no_owners, m) in
        let made = move_tcp s.0 in
        let assigned = assign_tcp this s.0 in
        ((destroy_tcp takes_null made.0 s.1 >>= destroy_tcp takes_null made.1) ≡ out_of_bounds)
        × ((destroy_tcp takes_null made.1 s.1 >>= destroy_tcp takes_null made.0) ≡ out_of_bounds)
        × ((destroy_tcp takes_null assigned.0 s.1 >>= destroy_tcp takes_null assigned.1)
            ≡ out_of_bounds)
        × ((destroy_tcp takes_null assigned.1 s.1 >>= destroy_tcp takes_null assigned.0)
            ≡ out_of_bounds)
  unfolding move_tcp assign_tcp
  move_tcp-destroy_tcp this = (destroyed_twice, destroyed_twice, destroyed_twice, destroyed_twice)

-- A resolver that is moved, to a new one or to any other, is undefined behaviour once both are
-- destroyed: both give its list back.
pub move_resolver-destroy_resolver :
    (takes_null : Bool) (this : Option ℕ) (p : ℕ) (m : Memory)
    → times p m.lists ≡ 1
    → let made = move_resolver (some p) in
      let assigned = assign_resolver this (some p) in
      ((destroy_resolver takes_null made.0 m >>= destroy_resolver takes_null made.1)
        ≡ out_of_bounds)
      × ((destroy_resolver takes_null assigned.0 m >>= destroy_resolver takes_null assigned.1)
          ≡ out_of_bounds)
unfolding move_resolver assign_resolver
move_resolver-destroy_resolver takes_null this p m h =
    (destroy_resolver_twice takes_null p m h, destroy_resolver_twice takes_null p m h)
