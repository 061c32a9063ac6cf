-- ===== src/Tcp/Held.antt =====
-- What the tasks that read keep of the read buffer: all bytes that arrived, and room for more.
use mtasc.Common.{
  ℕ, ◌+◌, ◌≤◌, ◌≡◌, ap, sym, ◌∙◌, ◌++◌, append_assoc, Bytes, ok, arith, length, length-append,
}
use mtasc.Buffer.{readable_bytes}
use mtasc.Buffer.Valid.{contents, readable_bytes-contents}
use mtasc.Tcp.{ClientContext, Io, default_limit}
use mtasc.Tcp.Recv.{append_received}
use mtasc.Tcp.Room.{HasRoom, append_received-ends}

-- The limit that is used, 10 if none is set.
pub limit-le : (c : ClientContext) → (default_limit c).max_rety_count ≤ c.max_rety_count + 10
limit-le c = ground arith

-- The buffer holds `base` and then all that arrived, with room for `n` more bytes.
pub record Held (base : Bytes) (n : ℕ) (io : Io) : Type 0 where
  pub room : HasRoom n io.buffer
  pub held : contents io.buffer ≡ base ++ io.arrived

module _ {base : Bytes} where
  pub Held-less : {n m : ℕ} {io : Io} → m ≤ n → Held base n io → Held base m io
  Held-less le h = record {
    room = record { valid = h.room.valid; fits = omega (arith, h.room.fits) };
    held = h.held;
  }

  pub Held-same :
      {n : ℕ} (io io' : Io)
      → io'.buffer ≡ io.buffer
      → io'.arrived ≡ io.arrived
      → Held base n io
      → Held base n io'
  Held-same io io' e f h = record { room = rw e h.room; held = rw (e, f) h.held }

  -- Received bytes are appended behind what is held.
  pub append-Held :
      (bs : Bytes) (n m : ℕ) (io io' : Io)
      → length bs ≤ n
      → io'.buffer ≡ io.buffer
      → io'.arrived ≡ io.arrived ++ bs
      → Held base (n + m) io
      → (io'' : Io) × (append_received bs io' ≡ ok io'')
        × Held base m io''
        × (readable_bytes io''.buffer ≡ readable_bytes io.buffer + length bs)
  append-Held bs n m io io' le e f h =
      let (io'', made, room, queued, _, _, arrived) =
        append_received-ends bs n io' le m (rw e h.room) in
      let extended : contents io''.buffer ≡ contents io.buffer ++ bs = rw e at queued in
      (
        io'',
        made,
        record {
          room = room;
          held = extended ∙ rw (arrived, f, h.held) (append_assoc base io.arrived bs);
        },
        readable_bytes-contents room.valid
            ∙ ap length extended
            ∙ length-append (contents io.buffer) bs
            ∙ ap (λ n. n + length bs) (sym (readable_bytes-contents h.room.valid)),
      )
