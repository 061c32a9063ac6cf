-- ===== src/Tcp/Write/Failed.antt =====
-- A write task whose call of `write` fails.
use mtasc.Common.{ℕ, suc, ◌+◌, ◌<◌, ◌≡◌, ◌++◌, Bytes, Outcome, ok, ◌⊎◌, take}
use mtasc.Tcp.{ClientContext, System, Io, wrote, refused, io_error, Callback}
use mtasc.Tcp.Write.{strlen}
use mtasc.Tcp.Write.Complete.{Wrote}

-- Every `write` takes at least a byte, or fails.
abbrev pub WritesOrFails : System → Type 0
WritesOrFails sys =
    (i : ℕ)
    → ((n : ℕ) × (sys.on_write i ≡ wrote (suc n))) ⊎ ((e : ℕ) × (sys.on_write i ≡ refused e))

-- What a write task that ends at a failed `write` has done: so many bytes of the message went out,
-- not all of them, and the callback gets twice that number.
pub record CutOff (c : ClientContext) (start : Bytes) (out : Callback × Io) : Type 0 where
  pub failure : out.0.error ≡ io_error
  pub taken : ℕ
  pub not_all : taken < strlen c.client_message
  pub on_the_wire : out.1.sent ≡ start ++ take taken c.client_message
  pub twice : out.0.count ≡ taken + taken

-- The task ends, and has written all or stopped at a failure.
abbrev pub WritesEnd : ClientContext → Bytes → Outcome (Callback × Io) → Type 0
WritesEnd c start o =
    (out : Callback × Io) × (o ≡ ok out) × (Wrote c start out ⊎ CutOff c start out)
