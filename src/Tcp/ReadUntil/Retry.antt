-- ===== src/Tcp/ReadUntil/Retry.antt =====
-- The retry of the read-until task ends, keeps what arrived, and succeeds for a reason.
use native.Mathlib.Decide.{dec_lt}
use mtasc.Common.{
  ℕ, zero, suc, ◌+◌, ◌-◌, ◌*◌, ◌<◌, ◌≡◌, refl, ap, Bytes, true, false, ◌||◌, ◌==◌, ==→eq, leb,
  Bool-cases, inl, inr, ◌⊎◌, Outcome, ok, arith, ltb-true, ltb-false,
}
use mtasc.Buffer.{readable_bytes}
use mtasc.Buffer.Valid.{contents}
use mtasc.Tcp.{
  ClientContext, System, Io, Received, bytes, closed, failed, retry_result, eagain, eintr, eisconn,
}
use mtasc.Tcp.Recv.{RecvRet, eof, recv, answer_recv, search_buffer}
use mtasc.Tcp.Room.{Recv, got_some, got_end, got_error, recv-Recv}
use mtasc.Tcp.Held.{Held, Held-less, Held-same, append-Held}
use mtasc.Tcp.Search.{HasInside, search_buffer-HasInside}
use mtasc.Tcp.ReadUntil.{retry_round, retry_loop}

-- The last call of the operating system was a `recv` that found the connection closed.
abbrev pub HasClosed : System → Io → Type 0
HasClosed sys io = (k : ℕ) × (io.calls ≡ suc k) × (sys.on_recv k ≡ closed)

-- Why a read has succeeded: the delimiter is there, the connection is closed, or `errno` is 106.
abbrev pub Reason : System → Bytes → Io → Type 0
Reason sys delimiter io =
    HasInside delimiter (contents io.buffer) ⊎ (HasClosed sys io ⊎ (io.errno ≡ eisconn))

answer_closed :
    (a : Received) (size : ℕ) (io io' : Io)
    → (eof, io') ≡ answer_recv a size io
    → (a ≡ closed) × (io'.calls ≡ io.calls + 1)
unfolding answer_recv
answer_closed (bytes b bs) size io io' e = absurd (cc e)
answer_closed closed size io io' e = (refl, ap (λ (r : RecvRet × Io). r.1.calls) e)
answer_closed (failed n) size io io' e = absurd (cc e)

-- A `recv` that returns 0 found the connection closed.
pub recv-HasClosed :
    (sys : System) (size : ℕ) (io io' : Io) → (eof, io') ≡ recv sys size io → HasClosed sys io'
unfolding recv
recv-HasClosed sys size io io' e =
    let (a, f) = answer_closed (sys.on_recv io.calls) size io io' e in
    (io.calls, omega (arith, f), a)

module _ (base : Bytes) (sys : System) (delimiter : Bytes) where
  -- A call returns, the buffer holds what arrived, and it has succeeded for a reason.
  pub record Returned (out : ClientContext × Io) : Type 0 where
    pub held : Held base 0 out.1
    pub reason : (out.0.is_retry_success ≡ false) ⊎ Reason sys delimiter out.1

  abbrev pub Returns : Outcome (ClientContext × Io) → Type 0
  Returns o = (out : ClientContext × Io) × (o ≡ ok out) × Returned out

  retry_round-Returns :
      (c : ClientContext) (io : Io) (r : RecvRet × Io) (m : ℕ)
      (k : ClientContext → Io → Outcome (ClientContext × Io))
      → ((io' : Io) → Held base m io' → Returns (k c io'))
      → Held base (1086 + m) io
      → r ≡ recv sys 1086 io
      → Recv 1086 io r
      → Returns (retry_round k c r)
  retry_round-Returns c io r m k ih h e (got_some bs io' le _ same more) =
      let (io'', f, h', _) = append-Held bs 1086 m io io' le same more h in
      let (out, g, v) = ih io'' h' in (out, rw f g, v)
  retry_round-Returns c io r m k ih h e (got_end io' same arrived) =
      let h' : Held base 0 io' = Held-less (omega arith) (Held-same io io' same arrived h) in
      elim (Bool-cases (readable_bytes io'.buffer == 0)) [
        | inl none_left ↦
            ((retry_result c false, io'), rw none_left, record { held = h'; reason = inl refl })
        | inr some_left ↦ (
          (retry_result c true, io'),
          rw some_left,
          record { held = h'; reason = inr (inr (inl (recv-HasClosed sys 1086 io io' e))) },
        )
      ]
  retry_round-Returns c io r m k ih h e (got_error io' same arrived) =
      let h' : Held base (1086 + m) io' = Held-same io io' same arrived h in
      elim (Bool-cases (leb c.max_rety_count c.connect_rety_count)) [
        | inl last ↦ (
          (retry_result c false, io'),
          rw last,
          record { held = Held-less (omega arith) h'; reason = inl refl },
        )
        | inr more ↦ let (out, f, v) = ih io' (Held-less (omega arith) h') in (out, rw more f, v)
      ]

  pub retry_loop-Returns :
      (fuel : ℕ) (c : ClientContext) (io : Io)
      → c.max_rety_count - c.connect_rety_count < fuel
      → Held base (1086 * fuel) io
      → Returns (retry_loop fuel sys delimiter c io)
  unfolding retry_loop
  retry_loop-Returns zero c io f h = absurd (omega arith)
  retry_loop-Returns (suc fuel) c io f h =
      let kept : Held base 0 io = Held-less (omega arith) h in
      elim (dec_lt c.connect_rety_count c.max_rety_count) [
        | no done ↦ (
          (retry_result c false, io),
          rw (ltb-false c.connect_rety_count c.max_rety_count (omega arith)),
          record { held = kept; reason = inl refl },
        )
        | yes more ↦
            rw (ltb-true c.connect_rety_count c.max_rety_count more)
              (elim (Bool-cases (io.errno == eisconn)) [
                | inl connected ↦ (
                  (retry_result c true, io),
                  rw connected,
                  record {
                    held = kept;
                    reason = inr (inr (inr (==→eq io.errno eisconn connected)));
                  },
                )
                | inr other ↦ elim (Bool-cases (io.errno == eagain || io.errno == eintr)) [
                  | inr fatal ↦ (
                    (retry_result c false, io),
                    rw (other, fatal),
                    record { held = kept; reason = inl refl },
                  )
                  | inl transient ↦ elim (Bool-cases (search_buffer delimiter io.buffer)) [
                    | inl there ↦ (
                      (retry_result (counted c) true, io),
                      rw (other, transient, there),
                      record {
                        held = kept;
                        reason = inr (
                            inl (
                              (search_buffer-HasInside delimiter io.buffer kept.room.valid).0
                                there));
                      },
                    )
                    | inr missing ↦
                        let (out, e, v) =
                          retry_round-Returns (counted c) io (recv sys 1086 io) (1086 * fuel)
                            (retry_loop fuel sys delimiter)
                            (λ io' h'. retry_loop-Returns fuel (counted c) io' (omega arith) h')
                            (Held-less (omega arith) h) refl
                            (recv-Recv sys 1086 io (omega arith)) in
                        (out, rw (other, transient, missing) e, v)
                  ]
                ]
              ])
      ]
    where
      counted : ClientContext → ClientContext
      counted c = record c { connect_rety_count = c.connect_rety_count + 1 }
