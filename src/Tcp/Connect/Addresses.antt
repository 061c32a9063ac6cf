-- ===== src/Tcp/Connect/Addresses.antt =====
-- Which address `M_tryIpaddrs` connects to, and which descriptors it leaves open.
use mtasc.Common.{
  ℕ, ◌+◌, ◌≤◌, ◌≡◌, refl, ap, ◌∙◌, List, [], ◌∷◌, ◌++◌, append_assoc, append-nil, Bool, true, false,
  Bool-cases, inl, inr, ◌⊎◌, none, Option-cases, Outcome, ok, ==_refl, if◌then◌else◌, arith,
}
use mtasc.Number.{pos}
use mtasc.Tcp.Connect.{
  AddrInfo, ConnectContext, Os, Net, open_socket, connect, close_fd, is_family, wanted_family,
  try_addrs, try_list, try_ipaddrs,
}

-- The addresses of the wanted family.
abbrev pub suitable : ConnectContext → List AddrInfo → List AddrInfo
suitable c [] = []
suitable c (a ∷ rest) =
    if is_family a.family (wanted_family c) then a ∷ suitable c rest else suitable c rest

abbrev pub failures : List AddrInfo → List (AddrInfo × Bool)
failures [] = []
failures (a ∷ rest) = (a, false) ∷ failures rest

-- The call found an address: those before it in the list failed, and only its descriptor is new.
pub record Found (c : ConnectContext) (addrs : List AddrInfo) (net : Net)
    (out : ConnectContext × Net) : Type 0 where
  pub fd : ℕ
  pub addr : AddrInfo
  pub before : List AddrInfo
  pub behind : List AddrInfo
  pub order : suitable c addrs ≡ before ++ addr ∷ behind
  pub attempts : out.1.attempts ≡ net.attempts ++ (failures before ++ (addr, true) ∷ [])
  pub context : out.0 ≡ record c { socketfd = pos fd }
  pub left_open : out.1.open_fds ≡ fd ∷ net.open_fds
  pub fresh : net.next_fd ≤ fd

-- No address was found: all of the wanted family failed, and no descriptor is left open.
pub record NoneFound (c : ConnectContext) (addrs : List AddrInfo) (net : Net)
    (out : ConnectContext × Net) : Type 0 where
  pub attempts : out.1.attempts ≡ net.attempts ++ failures (suitable c addrs)
  pub context : out.0 ≡ record c { this_addr_invalid = true }
  pub left_open : out.1.open_fds ≡ net.open_fds

-- Every call of `socket` gives a descriptor.
abbrev pub AlwaysOpens : Os → Type 0
AlwaysOpens os = (i : ℕ) → os.on_socket i ≡ none

-- The call returns, with one of the two.
abbrev pub Tried : ConnectContext → List AddrInfo → Net → Outcome (ConnectContext × Net) → Type 0
Tried c addrs net o =
    (out : ConnectContext × Net) × (o ≡ ok out)
    × (Found c addrs net out ⊎ NoneFound c addrs net out)

-- A failed attempt before the rest of the list.
after_failure :
    (c : ConnectContext) (a : AddrInfo) (rest : List AddrInfo) (net net' : Net)
    (out : ConnectContext × Net)
    → is_family a.family (wanted_family c) ≡ true
    → net'.attempts ≡ net.attempts ++ (a, false) ∷ []
    → net'.open_fds ≡ net.open_fds
    → net.next_fd ≤ net'.next_fd
    → Found c rest net' out ⊎ NoneFound c rest net' out
    → Found c (a ∷ rest) net out ⊎ NoneFound c (a ∷ rest) net out
after_failure c a rest net net' out wanted tries fds le (inl f) = inl (record {
  fd = f.fd;
  addr = f.addr;
  before = a ∷ f.before;
  behind = f.behind;
  order = rw wanted (ap (◌∷◌ a) f.order);
  attempts =
      f.attempts
      ∙ rw tries
          (append_assoc net.attempts ((a, false) ∷ []) (failures f.before ++ (f.addr, true) ∷ []));
  context = f.context;
  left_open = f.left_open ∙ ap (◌∷◌ f.fd) fds;
  fresh = omega (arith, f.fresh);
})
after_failure c a rest net net' out wanted tries fds le (inr n) = inr (record {
  attempts =
      n.attempts
      ∙ rw (tries, wanted)
          (append_assoc net.attempts ((a, false) ∷ []) (failures (suitable c rest)));
  context = n.context;
  left_open = n.left_open ∙ fds;
})

skipped_address :
    (c : ConnectContext) (a : AddrInfo) (rest : List AddrInfo) (net : Net)
    (out : ConnectContext × Net)
    → is_family a.family (wanted_family c) ≡ false
    → Found c rest net out ⊎ NoneFound c rest net out
    → Found c (a ∷ rest) net out ⊎ NoneFound c (a ∷ rest) net out
skipped_address c a rest net out other (inl f) = inl (record {
  fd = f.fd;
  addr = f.addr;
  before = f.before;
  behind = f.behind;
  order = rw other f.order;
  attempts = f.attempts;
  context = f.context;
  left_open = f.left_open;
  fresh = f.fresh;
})
skipped_address c a rest net out other (inr n) =
    inr (record { attempts = n.attempts ∙ rw other; context = n.context; left_open = n.left_open })

try_addrs-Tried :
    (os : Os) (c : ConnectContext) (addrs : List AddrInfo) (net : Net)
    → AlwaysOpens os
    → Tried c addrs net (try_addrs os c addrs net)
unfolding try_addrs open_socket connect close_fd
try_addrs-Tried os c [] net opens = (
  (record c { this_addr_invalid = true }, net),
  refl,
  inr (record { attempts = rw (append-nil net.attempts); context = refl; left_open = refl }),
)
try_addrs-Tried os c (a ∷ rest) net opens =
    elim (Bool-cases (is_family a.family (wanted_family c))) [
      | inr other ↦
          let (out, e, t) = try_addrs-Tried os c rest net opens in
          (out, rw other e, skipped_address c a rest net out other t)
      | inl wanted ↦
          let made : Net = record net {
            calls = net.calls + 1;
            next_fd = net.next_fd + 1;
            open_fds = net.next_fd ∷ net.open_fds;
          } in
          elim (Option-cases (os.on_connect made.calls)) [
            | inl accepted ↦ (
              (
                record c { socketfd = pos net.next_fd },
                record made { calls = made.calls + 1; attempts = net.attempts ++ (a, true) ∷ [] },
              ),
              rw (wanted, opens net.calls, accepted),
              inl (record {
                fd = net.next_fd;
                addr = a;
                before = [];
                behind = suitable c rest;
                order = rw wanted;
                attempts = refl;
                context = refl;
                left_open = refl;
                fresh = omega arith;
              }),
            )
            | inr (e, refused) ↦
                let closed : Net = close_fd net.next_fd (record made {
                  calls = made.calls + 1;
                  errno = e;
                  attempts = net.attempts ++ (a, false) ∷ [];
                }) in
                let (out, f, t) = try_addrs-Tried os c rest closed opens in
                (
                  out,
                  rw (wanted, opens net.calls, refused) f,
                  after_failure c a rest net closed out wanted refl (rw (==_refl net.next_fd))
                      (omega arith) t,
                )
          ]
    ]

-- `M_tryIpaddrs` connects to the first address of the wanted family that accepts, in the order of
-- the resolver's list: the addresses before it were tried and refused, those behind it are not
-- tried, its socket goes into the context, and that is the only descriptor that is left open of all
-- that were opened. If no address accepts, all of the family were tried, none of their descriptors
-- is left open, and the context is marked. Every call of `socket` gives a descriptor.
pub try_ipaddrs-Tried :
    (os : Os) (c : ConnectContext) (a : AddrInfo) (rest : List AddrInfo) (net : Net)
    → AlwaysOpens os
    → c.resovler_addrs ≡ a ∷ rest
    → Tried c (a ∷ rest) net (try_ipaddrs os c net)
unfolding try_ipaddrs
try_ipaddrs-Tried os c a rest net opens e =
    let (out, f, t) = try_addrs-Tried os c (a ∷ rest) net opens in
    (out, ap (try_list os c net) e ∙ f, t)
