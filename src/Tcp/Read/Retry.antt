-- ===== src/Tcp/Read/Retry.antt =====
-- What the retry of a read keeps: the bytes in the buffer, and the room for more.
use native.Mathlib.Decide.{dec_lt}
use mtasc.Common.{
  ℕ, zero, suc, ◌+◌, ◌-◌, ◌*◌, ◌<◌, ◌≡◌, Bytes, true, false, ◌&&◌, ◌||◌, ◌==◌, ltb, leb, Bool-cases,
  inl, inr, Outcome, ok, arith, length, ltb-true, ltb-false, leb-true,
}
use mtasc.Buffer.{readable_bytes}
use mtasc.Tcp.{ClientContext, System, Io, retry_result, default_limit, eagain, eintr, eisconn}
use mtasc.Tcp.Recv.{RecvRet, recv}
use mtasc.Tcp.Room.{Recv, got_some, got_end, got_error, recv-Recv}
use mtasc.Tcp.Held.{Held, Held-less, Held-same, append-Held, limit-le}
use mtasc.Tcp.Read.{retry_got, retry_round, retry_loop, retry_tcp_read}

module _ (base : Bytes) where
  -- A call that returns leaves the buffer in order.
  abbrev Keeps : Outcome (ClientContext × Io) → Type 0
  Keeps o = (out : ClientContext × Io) × (o ≡ ok out) × Held base 0 out.1

  retry_got-Keeps :
      (k : ClientContext → Io → Outcome (ClientContext × Io)) (c : ClientContext) (cache n m : ℕ)
      (io : Io)
      → ((io' : Io) → Held base m io' → Keeps (k c io'))
      → Held base m io
      → Keeps (retry_got k c cache n io)
  retry_got-Keeps k c cache n m io ih h =
      elim (Bool-cases (ltb n cache && ltb c.connect_rety_count c.max_rety_count)) [
        | inl more ↦ rw more (ih io h)
        | inr enough ↦ elim (Bool-cases (leb cache n || ltb n cache)) [
          | inl good ↦ ((retry_result c true, io), rw (enough, good), Held-less (omega arith) h)
          | inr bad ↦ ((retry_result c false, io), rw (enough, bad), Held-less (omega arith) h)
        ]
      ]

  retry_round-Keeps :
      (k : ClientContext → Io → Outcome (ClientContext × Io)) (c : ClientContext) (cache m : ℕ)
      (io : Io) (r : RecvRet × Io)
      → ((io' : Io) → Held base m io' → Keeps (k c io'))
      → Held base (1096 + m) io
      → Recv 1096 io r
      → Keeps (retry_round k c cache r)
  retry_round-Keeps k c cache m io r ih h (got_some bs io' le _ e f) =
      let (io'', made, h', _) = append-Held bs 1096 m io io' le e f h in
      let (out, g, kept) = retry_got-Keeps k c cache (length bs) m io'' ih h' in
      (out, rw made g, kept)
  retry_round-Keeps k c cache m io r ih h (got_end io' e f) = (
    (retry_result c true, io'),
    rw (leb-true 0 (readable_bytes io'.buffer) (omega arith)),
    Held-same io io' e f (Held-less (omega arith) h),
  )
  retry_round-Keeps k c cache m io r ih h (got_error io' e f) =
      let h' : Held base m io' = Held-same io io' e f (Held-less (omega arith) h) in
      elim (Bool-cases (leb c.connect_rety_count c.max_rety_count)) [
        | inl gives_up ↦ ((retry_result c false, io'), rw gives_up, Held-less (omega arith) h')
        | inr goes_on ↦ rw goes_on (ih io' h')
      ]

  retry_loop-Keeps :
      (fuel : ℕ) (sys : System) (cache : ℕ) (c : ClientContext) (io : Io)
      → c.max_rety_count - c.connect_rety_count < fuel
      → Held base (1096 * fuel) io
      → Keeps (retry_loop fuel sys cache c io)
  unfolding retry_loop
  retry_loop-Keeps zero sys cache c io f h = absurd (omega arith)
  retry_loop-Keeps (suc fuel) sys cache c io f h =
      elim (dec_lt c.connect_rety_count c.max_rety_count) [
        | no over ↦ (
          (retry_result c false, io),
          rw (ltb-false c.connect_rety_count c.max_rety_count (omega arith)),
          Held-less (omega arith) h,
        )
        | yes more ↦ elim (Bool-cases (io.errno == eagain || io.errno == eintr)) [
          | inr fatal ↦ (
            (retry_result c false, io),
            rw (ltb-true c.connect_rety_count c.max_rety_count more, fatal),
            Held-less (omega arith) h,
          )
          | inl transient ↦
              let counted : ClientContext = record c {
                connect_rety_count = c.connect_rety_count + 1;
              } in
              rw (ltb-true c.connect_rety_count c.max_rety_count more, transient)
                (retry_round-Keeps (retry_loop fuel sys cache) counted cache (1096 * fuel) io
                  (recv sys 1096 io)
                  (λ io' h'. retry_loop-Keeps fuel sys cache counted io' (omega arith) h')
                  (Held-less (omega arith) h) (recv-Recv sys 1096 io (omega arith)))
        ]
      ]

  pub retry_tcp_read-Keeps :
      (sys : System) (c : ClientContext) (e cache : ℕ) (io : Io)
      → Held base (1096 * (c.max_rety_count + 11)) io
      → Keeps (retry_tcp_read sys c e cache io)
  unfolding retry_tcp_read
  retry_tcp_read-Keeps sys c e cache io h =
      let limited : ClientContext = record (default_limit c) { connect_rety_count = 0 } in
      elim (Bool-cases (e == eisconn)) [
        | inl already ↦ ((retry_result c true, io), rw already, Held-less (omega arith) h)
        | inr other ↦
            let (out, f, kept) =
              retry_loop-Keeps (limited.max_rety_count + 1) sys cache limited io (omega arith)
                (Held-less (omega (arith, limit-le c)) h) in
            (out, rw other f, kept)
      ]
