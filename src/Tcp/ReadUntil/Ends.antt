-- ===== src/Tcp/ReadUntil/Ends.antt =====
-- The read-until task ends on every answer of the operating system, with what arrived.
use mtasc.Common.{
  ℕ, ◌+◌, ◌*◌, ◌<◌, ◌^◌, ◌≡◌, refl, sym, ◌∙◌, [], Bytes, true, false, ◌==◌, ==→eq, Bool-cases, inl,
  inr, ◌⊎◌, Outcome, ok, arith, Option, none, some, length,
}
use mtasc.Buffer.{fresh_buffer, readable_bytes}
use mtasc.Buffer.Valid.{IsValid, contents, readable_bytes-contents}
use mtasc.Tcp.{
  moved, no_error, system_error, ClientContext, System, Io, Callback, is_negative, default_limit,
}
use mtasc.Tcp.Recv.{RecvRet, recv, answer_select, select, select_socket, search_buffer}
use mtasc.Tcp.Room.{Recv, got_some, got_end, got_error, recv-Recv}
use mtasc.Tcp.Held.{Held, Held-less, Held-same, append-Held, limit-le}
use mtasc.Tcp.Search.{search_buffer-HasInside}
use mtasc.Tcp.ReadUntil.{
  retry_tcp_read_until, verify, found, error, close, Turn, again, called, error_case, received,
  selected, reading_case, step, after, loop, async_read_until,
}
use mtasc.Tcp.ReadUntil.Retry.{HasClosed, Reason, recv-HasClosed, retry_loop-Returns}

-- What the callback gets: all unread bytes, which are those that arrived, with their number and no
-- error for one of the reasons, or with the number 0 and the error of `errno`.
pub record Delivered (base : Bytes) (sys : System) (delimiter : Bytes) (out : Callback × Io)
    : Type 0 where
  pub valid : IsValid out.1.buffer
  pub held : Held base 0 out.1
  pub counted :
      ((out.0.error ≡ no_error)
        × (out.0.count ≡ length (contents out.1.buffer))
        × Reason sys delimiter out.1)
      ⊎ ((out.0.error ≡ system_error out.1.errno) × (out.0.count ≡ 0))

module _ (base : Bytes) (sys : System) (delimiter : Bytes) where
  -- A callback with the number of all unread bytes.
  success-Delivered :
      (c : ClientContext) (io : Io)
      → Held base 0 io
      → Reason sys delimiter io
      → Delivered base sys delimiter
          (record { error = no_error; count = readable_bytes io.buffer; context = c }, io)
  success-Delivered c io h why = record {
    valid = h.room.valid;
    held = h;
    counted = inl (refl, readable_bytes-contents h.room.valid, why);
  }

  failure-Delivered :
      (c : ClientContext) (io : Io)
      → Held base 0 io
      → Delivered base sys delimiter
          (record { error = system_error io.errno; count = 0; context = c }, io)
  failure-Delivered c io h = record { valid = h.room.valid; held = h; counted = inr (refl, refl) }

module _ (base : Bytes) (sys : System) (c : ClientContext) (delimiter : Bytes)
    (fd : is_negative c.socketfd ≡ false) where
  -- The bytes that the retry may add.
  abbrev retry_room : ℕ
  retry_room = 1086 * (c.max_rety_count + 11)

  -- The round calls the callback.
  abbrev Calls : Outcome Turn → Type 0
  Calls o = (out : Callback × Io) × (o ≡ ok (called out.0 out.1)) × Delivered base sys delimiter out

  error-Calls : (io : Io) → Held base retry_room io → Calls (error_case sys c delimiter io)
  unfolding error_case retry_tcp_read_until
  error-Calls io h =
      let limited : ClientContext = record (default_limit c) { connect_rety_count = 0 } in
      let (out, e, r) =
        retry_loop-Returns base sys delimiter (limited.max_rety_count + 1) limited io (omega arith)
          (Held-less (omega (arith, limit-le c)) h) in
      elim (Bool-cases out.0.is_retry_success) [
        | inl good ↦
            let why : Reason sys delimiter out.1 = elim r.reason [
              | inl bad ↦ absurd (cc)
              | inr why ↦ why
            ] in
            (
              (
                record {
                  error = no_error;
                  count = readable_bytes out.1.buffer;
                  context = moved out.0;
                },
                out.1,
              ),
              rw (fd, e, good),
              success-Delivered base sys delimiter (moved out.0) out.1 r.held why,
            )
        | inr bad ↦ (
          (record { error = system_error out.1.errno; count = 0; context = moved out.0 }, out.1),
          rw (fd, e, bad),
          failure-Delivered base sys delimiter (moved out.0) out.1 r.held,
        )
      ]

  -- A round behind which the task is sure to end.
  data Last : Turn → Type 0 where
    last_called :
        (out : Callback × Io) → Delivered base sys delimiter out → Last (called out.0 out.1)
    last_found :
        (io : Io)
        → Held base 0 io
        → search_buffer delimiter io.buffer ≡ true
        → Last (again found io)
    last_close : (io : Io) → Held base 0 io → HasClosed sys io → Last (again close io)
    last_error : (io : Io) → Held base retry_room io → Last (again error io)

  abbrev Lasts : Outcome Turn → Type 0
  Lasts o = (t : Turn) × (o ≡ ok t) × Last t

  received-Lasts :
      (io : Io) (r : RecvRet × Io)
      → r ≡ recv sys 4096 io
      → Recv 4096 io r
      → Held base (4096 + retry_room) io
      → Lasts (received sys c delimiter r)
  unfolding received
  received-Lasts io r e (got_some bs io' le _ same more) h =
      let (io'', f, h', _) = append-Held bs 4096 retry_room io io' le same more h in
      let (out, g, d) = error-Calls io'' h' in (called out.0 out.1, rw f g, last_called out d)
  received-Lasts io r e (got_end io' same arrived) h = (
    again close io',
    refl,
    last_close io' (Held-less (omega arith) (Held-same io io' same arrived h))
        (recv-HasClosed sys 4096 io io' e),
  )
  received-Lasts io r e (got_error io' same arrived) h = (
    again error io',
    refl,
    last_error io' (Held-less (omega arith) (Held-same io io' same arrived h)),
  )

  selected-Lasts :
      (o : Option ℕ) (io : Io)
      → Held base (4096 + retry_room) io
      → Lasts (selected sys c delimiter (answer_select o io))
  unfolding answer_select
  selected-Lasts none io h =
      let io' : Io = record io { calls = io.calls + 1 } in
      received-Lasts io' (recv sys 4096 io') refl (recv-Recv sys 4096 io' (omega arith))
        (Held-same io io' refl refl h)
  selected-Lasts (some e) io h =
      let io' : Io = record io { calls = io.calls + 1; errno = e } in
      (
        again error io',
        refl,
        last_error io' (Held-less (omega arith) (Held-same io io' refl refl h)),
      )

  step-Lasts : (io : Io) → Held base (4096 + retry_room) io → Lasts (step verify sys c delimiter io)
  unfolding step reading_case select_socket select
  step-Lasts io h = elim (Bool-cases (search_buffer delimiter io.buffer)) [
    | inl there ↦ (again found io, rw there, last_found io (Held-less (omega arith) h) there)
    | inr missing ↦ rw (missing, fd) (selected-Lasts (sys.on_select io.calls) io h)
  ]

  Last-Delivered :
      (t : Turn)
      → Last t
      → (out : Callback × Io) × (after (λ st io. loop 1 st sys c delimiter io) t ≡ ok out)
        × Delivered base sys delimiter out
  unfolding loop step
  Last-Delivered t (last_called out d) = (out, refl, d)
  Last-Delivered t (last_found io h there) = (
    (record { error = no_error; count = readable_bytes io.buffer; context = moved c }, io),
    refl,
    success-Delivered base sys delimiter (moved c) io h
        (inl ((search_buffer-HasInside delimiter io.buffer h.room.valid).0 there)),
  )
  Last-Delivered t (last_close io h closed) = elim (Bool-cases (readable_bytes io.buffer == 0)) [
    | inl none_left ↦ (
      (record { error = no_error; count = 0; context = moved c }, io),
      rw none_left,
      record {
        valid = h.room.valid;
        held = h;
        counted = inl (
          refl,
          sym (==→eq (readable_bytes io.buffer) 0 none_left) ∙ readable_bytes-contents h.room.valid,
          inr (inl closed),
        );
      },
    )
    | inr some_left ↦ (
      (record { error = no_error; count = readable_bytes io.buffer; context = moved c }, io),
      rw some_left,
      success-Delivered base sys delimiter (moved c) io h (inr (inl closed)),
    )
  ]
  Last-Delivered t (last_error io h) = let (out, e, d) = error-Calls io h in (out, rw e, d)

-- On every sequence of answers of the operating system `async_read_until` ends after at most two
-- rounds and calls its callback: it never loops, never reads outside the buffer and never throws,
-- for a socket that is not negative and a retry limit that an `int` holds. The buffer is then valid
-- and holds just the bytes that arrived, in order; `arrived` records the bytes from the start of
-- the task. Either the callback gets no error and the number of these bytes, and the delimiter is
-- among them, the last call was a `recv` that found the connection closed, or `errno` is 106; or it
-- gets the error of `errno` and the number 0.
pub async_read_until-Delivered :
    (sys : System) (c : ClientContext) (delimiter : Bytes) (io : Io)
    → is_negative c.socketfd ≡ false
    → c.max_rety_count < 2 ^ 31
    → io.arrived ≡ []
    → (out : Callback × Io) × (async_read_until sys c delimiter io ≡ ok out)
      × Delivered [] sys delimiter out
unfolding async_read_until
async_read_until-Delivered sys c delimiter io fd limit start =
    let begun : Io = record io { buffer = fresh_buffer } in
    let (t, e, l) = step-Lasts [] sys c delimiter fd begun (record {
      room = record {
        valid = record { ordered = omega arith; stored = omega arith; small = omega arith };
        fits = omega arith;
      };
      held = sym start;
    }) in
    let (out, f, d) = Last-Delivered [] sys c delimiter fd t l in (out, rw e f, d)
