-- ===== src/Tcp/Read/Delivers.antt =====
-- The read task ends, and delivers every byte that arrived.
use mtasc.Common.{
  false, ℕ, zero, suc, [], append-nil, ◌+◌, ◌-◌, ◌*◌, ◌≤◌, ◌<◌, ◌≡◌, refl, ap, sym, ◌∙◌, ◌++◌,
  Bytes, ◌==◌, leb, Bool-cases, inl, inr, ◌⊎◌, Outcome, ok, arith, length, leb→lt, ==→eq,
  Option-cases,
}
use mtasc.Buffer.{readable_bytes}
use mtasc.Buffer.Valid.{IsValid, size_limit, contents, readable_bytes-contents}
use mtasc.Tcp.{
  moved, ClientContext, System, Io, ErrorCode, no_error, system_error, Callback, eisconn,
  is_negative,
}
use mtasc.Tcp.Recv.{RecvRet, recv, answer_select, select, select_socket}
use mtasc.Tcp.Room.{Recv, got_some, got_end, got_error, recv-Recv}
use mtasc.Tcp.Read.{
  ReadState, reading, close, error, verify, done, Turn, again, called, received, step, loop,
  cache_size, async_read,
}
use mtasc.Tcp.Held.{Held, Held-less, Held-same, append-Held}
use mtasc.Tcp.Read.Retry.{retry_tcp_read-Keeps}

-- What the callback gets. The count is that of all unread bytes, or 0 behind a failure that the
-- code reports, or behind the error 106.
pub record Delivered (base : Bytes) (out : Callback × Io) : Type 0 where
  pub valid : IsValid out.1.buffer
  pub held : contents out.1.buffer ≡ base ++ out.1.arrived
  pub counted :
      (out.0.count ≡ length (contents out.1.buffer))
      ⊎ ((out.0.count ≡ 0) × ((out.0.error ≡ system_error out.1.errno) ⊎ (out.1.errno ≡ eisconn)))

-- A callback with the count of all unread bytes.
Held-Delivered :
    {base : Bytes} {n : ℕ} {io : Io} (e : ErrorCode) (c : ClientContext)
    → Held base n io
    → Delivered base (record { error = e; count = readable_bytes io.buffer; context = c }, io)
Held-Delivered e c h = record {
  valid = h.room.valid;
  held = h.held;
  counted = inl (readable_bytes-contents h.room.valid);
}

module _ (base : Bytes) (sys : System) (c : ClientContext) (cache : ℕ)
    (fd : is_negative c.socketfd ≡ false) where
  -- The bytes that the retry may add.
  abbrev retry_room : ℕ
  retry_room = 1096 * (c.max_rety_count + 11)

  -- The round calls the callback.
  abbrev Calls : Outcome Turn → Type 0
  Calls o = (out : Callback × Io) × (o ≡ ok (called out.0 out.1)) × Delivered base out

  error-Calls : (io : Io) → Held base retry_room io → Calls (step error sys c cache io)
  unfolding step
  error-Calls io h = elim (Bool-cases (io.errno == eisconn)) [
    | inl already ↦ (
      (record { error = no_error; count = 0; context = moved c }, io),
      rw already,
      record {
        valid = h.room.valid;
        held = h.held;
        counted = inr (refl, inr (==→eq io.errno eisconn already));
      },
    )
    | inr other ↦
        let (out, e, kept) = retry_tcp_read-Keeps base sys c io.errno cache io h in
        elim (Bool-cases out.0.is_retry_success) [
          | inl good ↦ (
            (
              record {
                error = no_error;
                count = readable_bytes out.1.buffer;
                context = moved out.0;
              },
              out.1,
            ),
            rw (other, e, good),
            Held-Delivered no_error (moved out.0) kept,
          )
          | inr bad ↦ (
            (record { error = system_error out.1.errno; count = 0; context = moved c }, out.1),
            rw (other, e, bad),
            record { valid = kept.room.valid; held = kept.held; counted = inr (refl, inl refl) },
          )
        ]
  ]

  close-Calls : {n : ℕ} (io : Io) → Held base n io → Calls (step close sys c cache io)
  unfolding step
  close-Calls io h = elim (Bool-cases (readable_bytes io.buffer == 0)) [
    | inl none_left ↦ (
      (record { error = no_error; count = 0; context = moved c }, io),
      rw none_left,
      record {
        valid = h.room.valid;
        held = h.held;
        counted = inl (
            sym (==→eq (readable_bytes io.buffer) 0 none_left)
            ∙ readable_bytes-contents h.room.valid);
      },
    )
    | inr some_left ↦ (
      (record { error = no_error; count = readable_bytes io.buffer; context = moved c }, io),
      rw some_left,
      Held-Delivered no_error (moved c) h,
    )
  ]

  done-Calls : {n : ℕ} (io : Io) → Held base n io → Calls (step done sys c cache io)
  unfolding step
  done-Calls io h = (
    (record { error = no_error; count = readable_bytes io.buffer; context = moved c }, io),
    refl,
    Held-Delivered no_error (moved c) h,
  )

  -- The task ends with a delivery.
  abbrev Delivers : Outcome (Callback × Io) → Type 0
  Delivers o = (out : Callback × Io) × (o ≡ ok out) × Delivered base out

  Calls-Delivers :
      (fuel : ℕ) (st : ReadState) (io : Io)
      → Calls (step st sys c cache io)
      → Delivers (loop (suc fuel) st sys c cache io)
  unfolding loop
  Calls-Delivers fuel st io (out, e, d) = (out, rw e, d)

  again-Delivers :
      (fuel : ℕ) (st st' : ReadState) (io io' : Io)
      → step st sys c cache io ≡ ok (again st' io')
      → Delivers (loop fuel st' sys c cache io')
      → Delivers (loop (suc fuel) st sys c cache io)
  unfolding loop
  again-Delivers fuel st st' io io' e (out, f, d) = (out, rw e f, d)

  verify-Delivers :
      (fuel : ℕ) (io : Io)
      → (readable_bytes io.buffer < cache → Delivers (loop (suc fuel) reading sys c cache io))
      → Held base 0 io
      → Delivers (loop (suc (suc fuel)) verify sys c cache io)
  unfolding step
  verify-Delivers fuel io more h = elim (Bool-cases (leb cache (readable_bytes io.buffer))) [
    | inl enough ↦
        again-Delivers (suc fuel) verify done io io (rw enough)
          (Calls-Delivers fuel done io (done-Calls io h))
    | inr short ↦
        again-Delivers (suc fuel) verify reading io io (rw short)
          (more (leb→lt cache (readable_bytes io.buffer) short))
  ]

  -- The rounds left: two for every byte that is missing.
  abbrev Enough : ℕ → Io → Type 0
  Enough fuel io = 2 * (cache - readable_bytes io.buffer) + 3 ≤ fuel

  received-Delivers :
      (fuel : ℕ) (io ready : Io) (r : RecvRet × Io)
      → Enough (suc (suc (suc fuel))) io
      → ready.buffer ≡ io.buffer
      → Held base (4096 + (4096 * suc fuel + retry_room)) ready
      → step reading sys c cache io ≡ received r
      → Recv 4096 ready r
      → ((io' : Io)
          → Enough (suc fuel) io'
          → Held base (4096 * suc fuel + retry_room) io'
          → Delivers (loop (suc fuel) reading sys c cache io'))
      → Delivers (loop (suc (suc (suc fuel))) reading sys c cache io)
  unfolding received
  received-Delivers fuel io ready r n same h e (got_some bs io' le some_bytes f g) ih =
      let (io'', made, h', grown) =
        append-Held bs 4096 (4096 * suc fuel + retry_room) ready io' le f g h in
      let more : readable_bytes io''.buffer ≡ readable_bytes io.buffer + length bs =
        grown ∙ ap (λ b. readable_bytes b + length bs) same in
      again-Delivers (suc (suc fuel)) reading verify io io'' (e ∙ rw made)
        (verify-Delivers fuel io'' (λ short. ih io'' (omega arith) h') (Held-less (omega arith) h'))
  received-Delivers fuel io ready r n same h e (got_end io' f g) ih =
      again-Delivers (suc (suc fuel)) reading close io io' e
        (Calls-Delivers (suc fuel) close io' (close-Calls io' (Held-same ready io' f g h)))
  received-Delivers fuel io ready r n same h e (got_error io' f g) ih =
      again-Delivers (suc (suc fuel)) reading error io io' e (
        Calls-Delivers (suc fuel) error io'
          (error-Calls io' (Held-less (omega arith) (Held-same ready io' f g h))))

  reading-Delivers :
      (fuel : ℕ) (io : Io)
      → Enough fuel io
      → Held base (4096 * fuel + retry_room) io
      → Delivers (loop fuel reading sys c cache io)
  unfolding step select_socket select answer_select
  reading-Delivers zero io n h = absurd (omega arith)
  reading-Delivers (suc zero) io n h = absurd (omega arith)
  reading-Delivers (suc (suc zero)) io n h = absurd (omega arith)
  reading-Delivers (suc (suc (suc fuel))) io n h =
      let ready : Io = record io { calls = io.calls + 1 } in
      elim (Option-cases (sys.on_select io.calls)) [
        | inl waited ↦
            received-Delivers fuel io ready (recv sys 4096 ready) n refl
              (Held-less (omega arith) (Held-same io ready refl refl h)) (rw (fd, waited))
              (recv-Recv sys 4096 ready (omega arith))
              (λ io' n' h'. reading-Delivers (suc fuel) io' n' h')
        | inr (e, refused) ↦
            let stopped : Io = record io { calls = io.calls + 1; errno = e } in
            again-Delivers (suc (suc fuel)) reading error io stopped (rw (fd, refused)) (
              Calls-Delivers (suc fuel) error stopped
                (error-Calls stopped (Held-less (omega arith) (Held-same io stopped refl refl h))))
      ]

-- For fuel of two rounds for every byte that is asked for and three more, `async_read` ends on
-- every sequence of answers of the operating system and calls its callback, with a valid buffer
-- that holds what it held before and behind it every byte that arrived, in order. The count is that
-- of all unread bytes, or 0 behind a retry that failed, whose `errno` is then reported, or behind
-- the `errno` 106. The socket is not negative, the storage stays below half the address space, and
-- `arrived` records the bytes from the start of the task.
pub async_read-Delivered :
    (sys : System) (c : ClientContext) (size : ℕ) (io : Io) (fuel : ℕ)
    → is_negative c.socketfd ≡ false
    → IsValid io.buffer
    → io.arrived ≡ []
    → length io.buffer.buffer + (4096 * fuel + 1096 * (c.max_rety_count + 11)) < size_limit
    → 2 * cache_size size + 3 ≤ fuel
    → (out : Callback × Io) × (async_read fuel sys c size io ≡ ok out)
      × Delivered (contents io.buffer) out
unfolding async_read
async_read-Delivered sys c size io fuel fd v start fits n =
    reading-Delivers (contents io.buffer) sys c (cache_size size) fd fuel io (omega arith) (record {
      room = record { valid = v; fits = fits };
      held = rw start (sym (append-nil (contents io.buffer)));
    })
