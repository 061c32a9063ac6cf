-- ===== src/Tcp/Lifetime/Leaks.antt =====
-- What a socket gives back in the end.
use native.Mathlib.Decide.{dec_lt}
use mathlib.Core.Path.{subst}
use mtasc.Common.{
  ℕ, suc, ◌+◌, ◌-◌, ◌≤◌, ◌<◌, ◌≡◌, ap, sym, List, [], ◌∷◌, length, min, refl, Bool, Option, none,
  some, ok, arith, ==_false, ==_refl, false, ◌==◌,
}
use mtasc.Tcp.Connect.{Family, inet, inet6}
use mtasc.Tcp.Lifetime.{
  Memory, Owners, no_owners, destroy_tcp, set_owner, new_resolver, resolve_hosts,
}
use mtasc.Tcp.Lifetime.Owned.{
  OwnerHeld, Apart, IsOwned, OwnerGone, SameAlive, owned, destroy_tcp-Destroyed,
}
use mtasc.Tcp.Lifetime.Deletes.{times, times_of, pointer_of, IsHeld}

-- No number from `next` on has been given out.
pub record IsFresh (m : Memory) : Type 0 where
  pub no_list : (k : ℕ) → m.next ≤ k → times k m.lists ≡ 0
  pub no_resolver : (k : ℕ) → m.next ≤ k → times_of k m.resolvers ≡ 0

-- The hosts that are resolved to addresses of either family.
abbrev pub ipv4_hosts : List Family → ℕ
ipv4_hosts [] = 0
ipv4_hosts (inet ∷ families) = suc (ipv4_hosts families)
ipv4_hosts (inet6 ∷ families) = ipv4_hosts families

abbrev pub ipv6_hosts : List Family → ℕ
ipv6_hosts [] = 0
ipv6_hosts (inet ∷ families) = ipv6_hosts families
ipv6_hosts (inet6 ∷ families) = suc (ipv6_hosts families)

-- The number of the last host of a family, counted from the next number on; the given one if there
-- is no such host.
abbrev pub last_ipv4 : List Family → ℕ → Option ℕ → Option ℕ
last_ipv4 [] next before = before
last_ipv4 (inet ∷ families) next before = last_ipv4 families (next + 1) (some next)
last_ipv4 (inet6 ∷ families) next before = last_ipv4 families (next + 1) before

abbrev pub last_ipv6 : List Family → ℕ → Option ℕ → Option ℕ
last_ipv6 [] next before = before
last_ipv6 (inet ∷ families) next before = last_ipv6 families (next + 1) before
last_ipv6 (inet6 ∷ families) next before = last_ipv6 families (next + 1) (some next)

-- The memory with one more resolver and its list.
abbrev grown : Memory → Memory
grown m = record {
  next = m.next + 1;
  lists = m.next ∷ m.lists;
  resolvers = (m.next, some m.next) ∷ m.resolvers;
}

grown-IsFresh : (m : Memory) → IsFresh m → IsFresh (grown m)
unfolding times times_of
grown-IsFresh m w = record {
  no_list = λ k h. rw (==_false m.next k (λ e. omega arith)) (w.no_list k (omega arith));
  no_resolver = λ k h. rw (==_false m.next k (λ e. omega arith)) (w.no_resolver k (omega arith));
}

new-IsHeld : (m : Memory) → IsFresh m → IsHeld m.next (grown m)
unfolding times times_of pointer_of
new-IsHeld m w = record {
  pointer = rw (==_refl m.next);
  resolver_once = rw (==_refl m.next) (ap suc (w.no_resolver m.next (omega arith)));
  list_once = rw (==_refl m.next) (ap suc (w.no_list m.next (omega arith)));
}

-- A resolver that is alive is older than the next one.
held_older : (m : Memory) (r : ℕ) → IsFresh m → IsHeld r m → r < m.next
held_older m r w h = elim (dec_lt r m.next) [
  | yes older ↦ older
  | no newer ↦ absurd (omega (arith, w.no_list r (omega arith), h.list_once))
]

old-IsHeld : (m : Memory) (r : ℕ) → IsFresh m → IsHeld r m → IsHeld r (grown m)
unfolding times times_of pointer_of
old-IsHeld m r w h =
    let other : (m.next == r) ≡ false =
      ==_false m.next r (λ e. omega (arith, held_older m r w h)) in
    record {
      pointer = rw other h.pointer;
      resolver_once = rw other h.resolver_once;
      list_once = rw other h.list_once;
    }

old-OwnerHeld : (m : Memory) (r : Option ℕ) → IsFresh m → OwnerHeld r m → OwnerHeld r (grown m)
old-OwnerHeld m none w h = tt
old-OwnerHeld m (some r) w h = old-IsHeld m r w h

new-Apart : (m : Memory) (r : Option ℕ) → IsFresh m → OwnerHeld r m → Apart r (some m.next)
new-Apart m none w h = tt
new-Apart m (some r) w h = λ e. omega (arith, held_older m r w h)

Apart-sym : (q r : Option ℕ) → Apart q r → Apart r q
Apart-sym none none a = tt
Apart-sym none (some r) a = tt
Apart-sym (some q) none a = tt
Apart-sym (some q) (some r) a = λ e. a (sym e)

new_resolver-IsOwned :
    (family : Family) (o : Owners) (m : Memory)
    → IsFresh m
    → IsOwned o m
    → IsOwned (set_owner family m.next o) (grown m)
new_resolver-IsOwned inet o m w h = record {
  held4 = new-IsHeld m w;
  held6 = old-OwnerHeld m o.ipv6 w h.held6;
  apart = Apart-sym o.ipv6 (some m.next) (new-Apart m o.ipv6 w h.held6);
}
new_resolver-IsOwned inet6 o m w h = record {
  held4 = old-OwnerHeld m o.ipv4 w h.held4;
  held6 = new-IsHeld m w;
  apart = new-Apart m o.ipv4 w h.held4;
}

-- What a socket owns, and what is alive, when it has resolved hosts.
pub record Resolved (families : List Family) (o : Owners) (m : Memory) (s : Owners × Memory)
    : Type 0 where
  pub is_owned : IsOwned s.0 s.1
  pub lists_made : length s.1.lists ≡ length m.lists + ipv4_hosts families + ipv6_hosts families
  pub resolvers_made :
      length s.1.resolvers ≡ length m.resolvers + ipv4_hosts families + ipv6_hosts families
  pub owns4 : owned s.0.ipv4 ≡ min 1 (owned o.ipv4 + ipv4_hosts families)
  pub owns6 : owned s.0.ipv6 ≡ min 1 (owned o.ipv6 + ipv6_hosts families)
  pub last4 : s.0.ipv4 ≡ last_ipv4 families m.next o.ipv4
  pub last6 : s.0.ipv6 ≡ last_ipv6 families m.next o.ipv6

owned_le : (r : Option ℕ) → owned r ≤ 1
owned_le none = omega arith
owned_le (some r) = omega arith

pub resolve_hosts-Resolved :
    (families : List Family) (o : Owners) (m : Memory)
    → IsFresh m
    → IsOwned o m
    → Resolved families o m (resolve_hosts families (o, m))
unfolding resolve_hosts new_resolver
resolve_hosts-Resolved [] o m w h = record {
  is_owned = h;
  lists_made = omega arith;
  resolvers_made = omega arith;
  owns4 = omega (arith, owned_le o.ipv4);
  owns6 = omega (arith, owned_le o.ipv6);
  last4 = refl;
  last6 = refl;
}
resolve_hosts-Resolved (inet ∷ families) o m w h =
    let r =
      resolve_hosts-Resolved families (set_owner inet m.next o) (grown m) (grown-IsFresh m w)
        (new_resolver-IsOwned inet o m w h) in
    record {
      is_owned = r.is_owned;
      lists_made = omega (arith, r.lists_made);
      resolvers_made = omega (arith, r.resolvers_made);
      owns4 = omega (arith, r.owns4);
      owns6 = r.owns6;
      last4 = r.last4;
      last6 = r.last6;
    }
resolve_hosts-Resolved (inet6 ∷ families) o m w h =
    let r =
      resolve_hosts-Resolved families (set_owner inet6 m.next o) (grown m) (grown-IsFresh m w)
        (new_resolver-IsOwned inet6 o m w h) in
    record {
      is_owned = r.is_owned;
      lists_made = omega (arith, r.lists_made);
      resolvers_made = omega (arith, r.resolvers_made);
      owns4 = r.owns4;
      owns6 = omega (arith, r.owns6);
      last4 = r.last4;
      last6 = r.last6;
    }

-- What the destructor of a socket leaves of the hosts that it has resolved: the resolver that was
-- made last for each family and the list of it are gone, any other is alive as often as before.
pub record GivesBackLast (families : List Family) (next : ℕ) (m m' : Memory) : Type 0 where
  pub gone4 : OwnerGone (last_ipv4 families next none) m'
  pub gone6 : OwnerGone (last_ipv6 families next none) m'
  pub others :
      (k : ℕ)
      → Apart (some k) (last_ipv4 families next none)
      → Apart (some k) (last_ipv6 families next none)
      → SameAlive k m m'

-- The destructor of a socket that has resolved any hosts, from a memory whose next numbers are not
-- given out, ends without undefined behaviour. It gives back for each family the resolver that was
-- made last, with its list, and these only: a resolver and a list stay alive for every other host
-- that the socket has resolved.
pub destroy_tcp-resolve_hosts :
    (takes_null : Bool) (families : List Family) (m : Memory)
    → IsFresh m
    → let s = resolve_hosts families (no_owners, m) in
      (m' : Memory) × (destroy_tcp takes_null s.0 s.1 ≡ ok m')
      × GivesBackLast families m.next s.1 m'
      × (length m'.lists ≡ length m.lists + (ipv4_hosts families - 1) + (ipv6_hosts families - 1))
      × (length m'.resolvers
          ≡ length m.resolvers + (ipv4_hosts families - 1) + (ipv6_hosts families - 1))
destroy_tcp-resolve_hosts takes_null families m w =
    let s = resolve_hosts families (no_owners, m) in
    let r =
      resolve_hosts-Resolved families no_owners m w
        (record { held4 = tt; held6 = tt; apart = tt }) in
    let (m', e, l) = destroy_tcp-Destroyed takes_null s.0 s.1 r.is_owned in
    (
      m',
      e,
      record {
        gone4 = subst (λ o. OwnerGone o m') r.last4 l.gone4;
        gone6 = subst (λ o. OwnerGone o m') r.last6 l.gone6;
        others = λ k a b.
            l.others_same k (subst (Apart (some k)) (sym r.last4) a)
              (subst (Apart (some k)) (sym r.last6) b);
      },
      omega (arith, r.lists_made, r.owns4, r.owns6, l.lists_left),
      omega (arith, r.resolvers_made, r.owns4, r.owns6, l.resolvers_left),
    )
