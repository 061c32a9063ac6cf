-- ===== src/Tcp/Write/Tests.antt =====
-- Write tasks against a concrete operating system.
use mtasc.Common.{ℕ, zero, suc, ◌≡◌, refl, [], codes, ok, none, true, false, arith}
use mtasc.Number.{pos}
use mtasc.Buffer.{fresh_buffer}
use mtasc.Tcp.{ClientContext, System, Io, Callback, closed, wrote, refused, Written}
use mtasc.Tcp.Write.{strlen, async_write}
use mtasc.Tcp.Write.Complete.{Wrote, async_write-Wrote}

-- Every `write` takes two bytes.
abbrev two_bytes : System
two_bytes = record { on_select = λ i. none; on_recv = λ i. closed; on_write = λ i. wrote 2 }

-- The first `write` takes two bytes, the others fail with EAGAIN.
abbrev two_then_refused : ℕ → Written
two_then_refused zero = wrote 2
two_then_refused (suc i) = refused 11

abbrev stopping : System
stopping = record { on_select = λ i. none; on_recv = λ i. closed; on_write = two_then_refused }

abbrev test_context : ClientContext
test_context = record {
  resovler_addrs = true;
  client_message = codes "hello";
  client_message_length = 5;
  socketfd = pos 3;
  this_addr_invalid = false;
  connect_rety_count = 0;
  max_rety_count = 2;
  client_retry_write_bytes = 0;
  client_write_bytes = 0;
  is_retry_success = false;
}

abbrev test_io : Io
test_io = record { calls = 0; errno = 0; buffer = fresh_buffer; sent = codes "<"; arrived = [] }

strlen_test : strlen (codes "hello") ≡ 5
unfolding strlen
strlen_test = refl

async_write-Wrote_example :
    (out : Callback × Io) × (async_write 6 two_bytes test_context (codes "hello") test_io ≡ ok out)
    × Wrote
        (record test_context {
          client_message = codes "hello";
          client_message_length = strlen (codes "hello");
        })
        (codes "<")
        out
async_write-Wrote_example =
    async_write-Wrote two_bytes test_context (codes "hello") test_io 6 (λ i. (1, refl)) refl
      (omega (arith, strlen_test))
