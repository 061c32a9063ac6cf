-- ===== src/Tcp/ReadUntil/Tests.antt =====
-- Read-until tasks against a concrete operating system.
use mtasc.Common.{◌≡◌, ◌↔◌, refl, [], ◌∷◌, codes, crlf, ok, none, true, false, arith}
use mtasc.Number.{pos}
use mtasc.Buffer.{ReadBuffer, fresh_buffer}
use mtasc.Tcp.Recv.{search_buffer}
use mtasc.Tcp.Search.{HasInside, search_buffer-HasInside}
use mtasc.Buffer.Valid.{contents}
use mtasc.Tcp.{ClientContext, System, Io, Callback, bytes, wrote, system_error}
use mtasc.Tcp.ReadUntil.{async_read_until}
use mtasc.Tcp.ReadUntil.Ends.{Delivered, async_read_until-Delivered}
use mtasc.Tcp.ReadUntil.Discards.{first_bytes_uncounted}

-- Every `recv` returns a line.
abbrev line_sender : System
line_sender = record {
  on_select = λ i. none;
  on_recv = λ i. bytes b'O' (b'K' ∷ crlf);
  on_write = λ i. wrote 2;
}

abbrev test_context : ClientContext
test_context = record {
  resovler_addrs = true;
  client_message = codes "hello";
  client_message_length = 5;
  socketfd = pos 3;
  this_addr_invalid = false;
  connect_rety_count = 0;
  max_rety_count = 2;
  client_retry_write_bytes = 0;
  client_write_bytes = 0;
  is_retry_success = false;
}

abbrev test_io : Io
test_io = record { calls = 0; errno = 0; buffer = fresh_buffer; sent = []; arrived = [] }

async_read_until-Delivered_example :
    (out : Callback × Io) × (async_read_until line_sender test_context crlf test_io ≡ ok out)
    × Delivered [] line_sender crlf out
async_read_until-Delivered_example =
    async_read_until-Delivered line_sender test_context crlf test_io refl (omega arith) refl

first_bytes_uncounted_example :
    (out : Callback × Io) × (async_read_until line_sender test_context crlf test_io ≡ ok out)
    × (out.0.error ≡ system_error 0)
    × (out.0.count ≡ 0)
    × (contents out.1.buffer ≡ b'O' ∷ b'K' ∷ crlf)
first_bytes_uncounted_example =
    first_bytes_uncounted line_sender test_context 13 (10 ∷ []) test_io b'O' (b'K' ∷ crlf) refl refl
      refl (omega arith) (omega arith) (omega arith)

abbrev line_buffer : ReadBuffer
line_buffer = record { buffer = b'O' ∷ b'K' ∷ crlf; read_pointer = 0; write_pointer = 4 }

search_buffer-HasInside_example :
    (search_buffer crlf line_buffer ≡ true) ↔ HasInside crlf (contents line_buffer)
search_buffer-HasInside_example =
    search_buffer-HasInside crlf line_buffer
      (record { ordered = omega arith; stored = omega arith; small = omega arith })
