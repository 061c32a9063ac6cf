-- ===== src/Tcp/Read/Tests.antt =====
-- Read tasks against a concrete operating system.
use mtasc.Common.{◌≡◌, refl, [], ◌∷◌, codes, crlf, ok, none, true, false, arith}
use mtasc.Number.{pos}
use mtasc.Buffer.Valid.{IsValid}
use mtasc.Tcp.{ClientContext, System, Io, Callback, bytes, wrote}
use mtasc.Tcp.Read.{async_read}
use mtasc.Tcp.Read.Delivers.{Delivered, async_read-Delivered}

-- Every `recv` returns a line.
abbrev line_sender : System
line_sender = record {
  on_select = λ i. none;
  on_recv = λ i. bytes b'O' (b'K' ∷ crlf);
  on_write = λ i. wrote 2;
}

abbrev test_context : ClientContext
test_context = record {
  resovler_addrs = true;
  client_message = [];
  client_message_length = 0;
  socketfd = pos 3;
  this_addr_invalid = false;
  connect_rety_count = 0;
  max_rety_count = 2;
  client_retry_write_bytes = 0;
  client_write_bytes = 0;
  is_retry_success = false;
}

-- The buffer still holds four bytes of which one is consumed.
abbrev test_io : Io
test_io = record {
  calls = 0;
  errno = 0;
  buffer = record { buffer = codes "abcd"; read_pointer = 1; write_pointer = 4 };
  sent = [];
  arrived = [];
}

test_io-IsValid : IsValid test_io.buffer
test_io-IsValid = record { ordered = omega arith; stored = omega arith; small = omega arith }

async_read-Delivered_example :
    (out : Callback × Io) × (async_read 23 line_sender test_context 10 test_io ≡ ok out)
    × Delivered (codes "bcd") out
async_read-Delivered_example =
    async_read-Delivered line_sender test_context 10 test_io 23 refl test_io-IsValid refl
      (omega arith) (omega arith)
