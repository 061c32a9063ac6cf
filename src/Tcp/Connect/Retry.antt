-- ===== src/Tcp/Connect/Retry.antt =====
-- The retry of a connection returns, and leaves the socket alone.
use native.Mathlib.Decide.{dec_lt}
use mtasc.Common.{
  ℕ, zero, suc, ◌+◌, ◌-◌, ◌<◌, ◌≡◌, refl, true, ◌||◌, ◌&&◌, ◌==◌, Bool-cases, inl, inr, none, some,
  Option-cases, Outcome, ok, arith, ltb-true, ltb-false,
}
use mtasc.Tcp.{eagain, eintr, eisconn, etimedout}
use mtasc.Tcp.Connect.{
  AddrInfo, ConnectContext, Os, Net, connect, answer_connect, is_not_zero, connect_loop,
  connect_limit, retry_tcp_connect, reconnected,
}

-- The socket of a context, its mark, and the open descriptors are left as they are.
pub record Keeps (c : ConnectContext) (net : Net) (out : ConnectContext × Net) : Type 0 where
  pub same_socket : out.0.socketfd ≡ c.socketfd
  pub same_mark : out.0.this_addr_invalid ≡ c.this_addr_invalid
  pub same_open : out.1.open_fds ≡ net.open_fds

abbrev pub Returns : ConnectContext → Net → Outcome (ConnectContext × Net) → Type 0
Returns c net o = (out : ConnectContext × Net) × (o ≡ ok out) × Keeps c net out

pub stays : (c : ConnectContext) (net : Net) → Keeps c net (c, net)
stays c net = record { same_socket = refl; same_mark = refl; same_open = refl }

reconnected-Returns :
    (k : ConnectContext → Net → Outcome (ConnectContext × Net)) (os : Os) (a : AddrInfo)
    (c : ConnectContext) (net : Net)
    → ((net' : Net) → net'.open_fds ≡ net.open_fds → Returns c net' (k c net'))
    → Returns c net (reconnected k c (connect os a net))
unfolding connect
reconnected-Returns k os a c net ih = elim (Option-cases (os.on_connect net.calls)) [
  | inl accepted ↦ (
    (record c { is_retry_success = true }, (answer_connect none a net).1),
    rw accepted,
    record { same_socket = refl; same_mark = refl; same_open = refl },
  )
  | inr (e, refused) ↦
      let net' : Net = (answer_connect (some e) a net).1 in
      elim (Bool-cases (c.max_rety_count == c.connect_rety_count)) [
        | inl last ↦ (
          (c, net'),
          rw (refused, last),
          record { same_socket = refl; same_mark = refl; same_open = refl },
        )
        | inr more ↦
            let (out, f, kept) = ih net' refl in
            (
              out,
              rw (refused, more) f,
              record {
                same_socket = kept.same_socket;
                same_mark = kept.same_mark;
                same_open = kept.same_open;
              },
            )
      ]
]

connect_loop-Returns :
    (fuel : ℕ) (os : Os) (a : AddrInfo) (c : ConnectContext) (net : Net)
    → c.max_rety_count - c.connect_rety_count < fuel
    → Returns c net (connect_loop fuel os a c net)
unfolding connect_loop
connect_loop-Returns zero os a c net f = absurd (omega arith)
connect_loop-Returns (suc fuel) os a c net f = elim (dec_lt c.connect_rety_count c.max_rety_count) [
  | no over ↦
      ((c, net), rw (ltb-false c.connect_rety_count c.max_rety_count (omega arith)), stays c net)
  | yes more ↦
      rw (ltb-true c.connect_rety_count c.max_rety_count more)
        (elim (Bool-cases (net.errno == eisconn)) [
          | inl already ↦ (
            (record c { is_retry_success = true }, net),
            rw already,
            record { same_socket = refl; same_mark = refl; same_open = refl },
          )
          | inr other ↦
              elim (Bool-cases (
                net.errno == eagain
                || net.errno == eintr
                || net.errno == etimedout
                || (is_not_zero net.errno && true))) [
                  | inr fatal ↦ ((c, net), rw (other, fatal), stays c net)
                  | inl again ↦
                      let counted : ConnectContext = record c {
                        connect_rety_count = c.connect_rety_count + 1;
                      } in
                      let (out, e, kept) =
                        reconnected-Returns (connect_loop fuel os a) os a counted net (λ net' same.
                          connect_loop-Returns fuel os a counted net' (omega arith)) in
                      (
                        out,
                        rw (other, again) e,
                        record {
                          same_socket = kept.same_socket;
                          same_mark = kept.same_mark;
                          same_open = kept.same_open;
                        },
                      )
                ]
        ])
]

pub retry_tcp_connect-Returns :
    (os : Os) (a : AddrInfo) (c : ConnectContext) (net : Net)
    → Returns c net (retry_tcp_connect os a c net)
unfolding retry_tcp_connect
retry_tcp_connect-Returns os a c net =
    let (out, e, kept) =
      connect_loop-Returns ((connect_limit c).max_rety_count + 1) os a (connect_limit c) net
        (omega arith) in
    (
      out,
      e,
      record {
        same_socket = kept.same_socket;
        same_mark = kept.same_mark;
        same_open = kept.same_open;
      },
    )
