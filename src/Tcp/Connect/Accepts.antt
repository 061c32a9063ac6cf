-- ===== src/Tcp/Connect/Accepts.antt =====
-- Whether an address accepts, and what the call that connects leaves open.
use mtasc.Common.{
  ℕ, ◌+◌, ◌≤◌, ◌≡◌, refl, sym, ap, ap₂, ◌∙◌, List, [], ◌∷◌, Bytes, Bool, true, false, not, ◌||◌,
  Bool-cases, inl, inr, ◌⊎◌, Option, none, some, Option-cases, Outcome, ok, thrown, out_of_bounds,
  out_of_fuel, if◌then◌else◌,
}
use mtasc.Number.{pos}
use mtasc.Tcp.{address_not_available}
use mtasc.Tcp.Connect.{
  AddrInfo, ConnectContext, Os, Net, open_socket, connect, Queued, tried, tried_mark, try_ipaddrs,
  try_addrs, async_try_connect_tcp, minus_one, is_minus_one, try_from, try_list, is_family,
  wanted_family, close_fd, answer_socket, answer_connect,
}
use mtasc.Tcp.Connect.Addresses.{AlwaysOpens, Found, NoneFound, try_ipaddrs-Tried}
use mtasc.Tcp.Connect.Ends.{connected-Answers}

abbrev is_accepted : Option ℕ → Bool
is_accepted none = true
is_accepted (some e) = false

-- An address of the wanted family accepts, where each takes a call of `socket` and one of `connect`
-- from this number of calls on.
abbrev pub some_accepts : Os → ConnectContext → ℕ → List AddrInfo → Bool
some_accepts os c calls [] = false
some_accepts os c calls (a ∷ rest) =
    if is_family a.family (wanted_family c)
    then is_accepted (os.on_connect (calls + 1)) || some_accepts os c (calls + 1 + 1) rest
    else some_accepts os c calls rest

abbrev mark_of : Outcome (ConnectContext × Net) → Bool
mark_of (ok r) = r.0.this_addr_invalid
mark_of (thrown e) = false
mark_of out_of_bounds = false
mark_of out_of_fuel = false

not_cases : (a : Bool) {b : Bool} → not a ≡ b → a ≡ not b
not_cases true e = ap not e
not_cases false e = ap not e

try_addrs-some_accepts :
    (os : Os) (c : ConnectContext) (addrs : List AddrInfo) (net : Net)
    → AlwaysOpens os
    → c.this_addr_invalid ≡ false
    → mark_of (try_addrs os c addrs net) ≡ not (some_accepts os c net.calls addrs)
unfolding try_addrs open_socket connect close_fd
try_addrs-some_accepts os c [] net opens unmarked = refl
try_addrs-some_accepts os c (a ∷ rest) net opens unmarked =
    elim (Bool-cases (is_family a.family (wanted_family c))) [
      | inr other ↦ rw other (try_addrs-some_accepts os c rest net opens unmarked)
      | inl wanted ↦ elim (Option-cases (os.on_connect (net.calls + 1))) [
        | inl accepted ↦ rw (wanted, opens net.calls, accepted) unmarked
        | inr (e, refused) ↦
            let closed : Net =
              close_fd net.next_fd (answer_connect (some e) a (answer_socket none net).1).1 in
            rw (wanted, opens net.calls, refused)
              (try_addrs-some_accepts os c rest closed opens unmarked)
      ]
    ]

marked :
    {o : Outcome (ConnectContext × Net)} {r : ConnectContext × Net}
    → o ≡ ok r
    → r.0.this_addr_invalid ≡ mark_of o
marked e = ap mark_of (sym e)

-- What the whole call leaves behind, once a list of addresses is there.
abbrev pub Leaves : Bool → Net → Outcome (Queued × Net) → Type 0
Leaves accepted net o =
    (out : Queued × Net) × (o ≡ ok out)
    × (((accepted ≡ false)
          × (out.0.error ≡ address_not_available)
          × (out.1.open_fds ≡ net.open_fds))
        ⊎ ((accepted ≡ true)
            × (fd : ℕ) × (out.0.context.socketfd ≡ pos fd)
            × (net.next_fd ≤ fd)
            × (out.1.open_fds ≡ fd ∷ net.open_fds)))

tried-Leaves :
    (os : Os) (c : ConnectContext) (a : AddrInfo) (rest : List AddrInfo) (net : Net)
    (r : ConnectContext × Net) (accepted : Bool)
    → r.0.this_addr_invalid ≡ not accepted
    → c.this_addr_invalid ≡ false
    → Found c (a ∷ rest) net r ⊎ NoneFound c (a ∷ rest) net r
    → Leaves accepted net (tried os a r)
tried-Leaves os c a rest net (c', net') accepted mark unmarked (inl f) =
    let (out, e, same_fd, same_mark, same_open, _) = connected-Answers os a c' net' in
    let good : c'.this_addr_invalid ≡ false = ap (λ c. c.this_addr_invalid) f.context ∙ unmarked in
    (
      out,
      ap (tried_mark os a c' net') good ∙ e,
      inr (
        not_cases accepted (sym mark ∙ good),
        f.fd,
        same_fd ∙ ap (λ c. c.socketfd) f.context,
        f.fresh,
        same_open ∙ f.left_open,
      ),
    )
tried-Leaves os c a rest net (c', net') accepted mark unmarked (inr n) =
    let marked : c'.this_addr_invalid ≡ true = ap (λ c. c.this_addr_invalid) n.context in
    (
      (
        record {
          error = address_not_available;
          context = record c' { connect_rety_count = 0 };
          returns = minus_one;
        },
        net',
      ),
      ap (tried_mark os a c' net') marked,
      inl (not_cases accepted (sym mark ∙ marked), refl, n.left_open),
    )

pub async_try_connect_tcp-Leaves :
    (os : Os) (c : ConnectContext) (host : Bytes) (a : AddrInfo) (rest : List AddrInfo) (net : Net)
    → AlwaysOpens os
    → c.addrs_host ≡ some host
    → c.resovler_addrs ≡ a ∷ rest
    → is_minus_one c.socketfd ≡ false
    → c.this_addr_invalid ≡ false
    → Leaves (some_accepts os c net.calls (a ∷ rest)) net (async_try_connect_tcp os c net)
unfolding async_try_connect_tcp try_ipaddrs
async_try_connect_tcp-Leaves os c host a rest net opens named listed open_socket unmarked =
    let (r, e, t) = try_ipaddrs-Tried os c a rest net opens listed in
    let (out, f, left) =
      tried-Leaves os c a rest net r (some_accepts os c net.calls (a ∷ rest))
        (marked e
          ∙ ap (λ l. mark_of (try_list os c net l)) listed
          ∙ try_addrs-some_accepts os c (a ∷ rest) net opens unmarked)
        unmarked t in
    let start : async_try_connect_tcp os c net ≡ try_from os c (some host) (a ∷ rest) net =
      ap₂ (λ h l. try_from os c h l net) named listed in
    (out, start ∙ rw (open_socket, e) f, left)
