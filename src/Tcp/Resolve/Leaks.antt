-- ===== src/Tcp/Resolve/Leaks.antt =====
-- Resolving a host, alone and followed by connecting.
use mtasc.Common.{
  ℕ, ◌+◌, ◌≤◌, ◌≡◌, ◌≢◌, refl, ap, ◌∙◌, List, ◌∷◌, Bytes, Bool, true, false, ==_false, inl, inr,
  ◌⊎◌, none, some, ok, thrown, runtime_error, ◌>>=◌, arith, if◌then◌else◌,
}
use mtasc.Number.{pos}
use mtasc.Tcp.{address_not_available, no_error}
use mtasc.Tcp.Connect.{
  Family, inet, inet6, AddrInfo, ConnectContext, Os, Net, open_socket, Queued,
  async_try_connect_tcp, answer_socket,
}
use mtasc.Tcp.Resolve.{resolve_from, async_resolver_domain}
use mtasc.Tcp.Connect.Addresses.{AlwaysOpens}
use mtasc.Tcp.Connect.Accepts.{some_accepts, async_try_connect_tcp-Leaves}

abbrev pub family_of : Bool → Family
family_of enable_ipv6 = if enable_ipv6 then inet6 else inet

module _ (os : Os) (c : ConnectContext) (host : Bytes) (enable_ipv6 : Bool) (max : ℕ) (net : Net)
    (named : c.addrs_host ≡ some host) (port : c.addrs_port ≢ 0) where
  -- A host that cannot be resolved makes `async_resolver_domain` throw: the constructor that throws
  -- stands before the `try` whose `catch` would report the failure, so no callback is queued. The
  -- context has a host and a port.
  pub async_resolver_domain_escapes :
      os.on_getaddrinfo (family_of enable_ipv6) host c.addrs_port ≡ none
      → async_resolver_domain os c enable_ipv6 max net ≡ thrown runtime_error
  unfolding async_resolver_domain
  async_resolver_domain_escapes failed =
      ap (resolve_from os c enable_ipv6 max net) named ∙ rw (==_false c.addrs_port 0 port, failed)

  -- The context and the state behind a host that is resolved.
  abbrev resolved_context : AddrInfo → List AddrInfo → ConnectContext
  resolved_context a rest = record c {
    is_enable_ipv6 = enable_ipv6;
    max_rety_count = max;
    socketfd = pos net.next_fd;
    resovler_addrs = a ∷ rest;
    connect_rety_count = 0;
  }

  abbrev resolved_net : Net
  resolved_net = (answer_socket none net).1

  async_resolver_domain_lem :
      (a : AddrInfo) (rest : List AddrInfo)
      → AlwaysOpens os
      → os.on_getaddrinfo (family_of enable_ipv6) host c.addrs_port ≡ some (a ∷ rest)
      → async_resolver_domain os c enable_ipv6 max net
        ≡ ok (
          record { error = no_error; context = resolved_context a rest; returns = pos 1 },
          resolved_net,
        )
  unfolding async_resolver_domain open_socket
  async_resolver_domain_lem a rest opens found =
      ap (resolve_from os c enable_ipv6 max net) named
      ∙ rw (==_false c.addrs_port 0 port, found, opens net.calls)

  -- An address of the wanted family accepts the connection, behind the one call of the resolver's
  -- `socket`.
  abbrev pub accepted : AddrInfo → List AddrInfo → Bool
  accepted a rest = some_accepts os (resolved_context a rest) resolved_net.calls (a ∷ rest)

  -- A client resolves a host and then connects. If an address of the wanted family accepts, two
  -- descriptors more than before are left open, and the context that its callback gets names only
  -- the newer one: that of the resolver stays open. If no address accepts, the callback gets
  -- `address_not_available`, and only the descriptor of the resolver is left open. The context has
  -- a host and a port and no mark, the host is resolved, and every call of `socket` gives a
  -- descriptor.
  pub resolve-connect-Leaks :
      (a : AddrInfo) (rest : List AddrInfo)
      → AlwaysOpens os
      → os.on_getaddrinfo (family_of enable_ipv6) host c.addrs_port ≡ some (a ∷ rest)
      → c.this_addr_invalid ≡ false
      → (out : Queued × Net) × ((async_resolver_domain os c enable_ipv6 max net >>= λ r.
            async_try_connect_tcp os r.0.context r.1)
          ≡ ok out)
        × (((accepted a rest ≡ false)
              × (out.0.error ≡ address_not_available)
              × (out.1.open_fds ≡ net.next_fd ∷ net.open_fds))
            ⊎ ((accepted a rest ≡ true)
                × (fd : ℕ) × (out.0.context.socketfd ≡ pos fd)
                × (fd ≢ net.next_fd)
                × (out.1.open_fds ≡ fd ∷ net.next_fd ∷ net.open_fds)))
  resolve-connect-Leaks a rest opens found unmarked =
      let (out, e, left) =
        async_try_connect_tcp-Leaves os (resolved_context a rest) host a rest resolved_net opens
          named refl refl unmarked in
      (out, rw (async_resolver_domain_lem a rest opens found) e, two_left out left)
    where
      two_left :
          (out : Queued × Net)
          → ((accepted a rest ≡ false)
              × (out.0.error ≡ address_not_available)
              × (out.1.open_fds ≡ net.next_fd ∷ net.open_fds))
            ⊎ ((accepted a rest ≡ true)
                × (fd : ℕ) × (out.0.context.socketfd ≡ pos fd)
                × (net.next_fd + 1 ≤ fd)
                × (out.1.open_fds ≡ fd ∷ net.next_fd ∷ net.open_fds))
          → ((accepted a rest ≡ false)
              × (out.0.error ≡ address_not_available)
              × (out.1.open_fds ≡ net.next_fd ∷ net.open_fds))
            ⊎ ((accepted a rest ≡ true)
                × (fd : ℕ) × (out.0.context.socketfd ≡ pos fd)
                × (fd ≢ net.next_fd)
                × (out.1.open_fds ≡ fd ∷ net.next_fd ∷ net.open_fds))
      two_left out (inl l) = inl l
      two_left out (inr (there, fd, g, h, k)) = inr (there, fd, g, omega arith, k)
