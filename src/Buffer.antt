-- ===== src/Buffer.antt =====
-- include/client/buffer/buffer.hpp: `readBuffer`, the bytes received and not yet consumed.
-- The storage is a list whose length is `M_buffer_.size()`. `memcpy` and `memmove` are checked:
-- a range outside the storage is the undefined behaviour `out_of_bounds`. Memory never runs out.
pub mod Fifo
pub mod Valid
pub mod Ensure
pub mod Refine
pub mod Moves
mod Tests
use mtasc.Common.{
  ℕ, ◌+◌, ◌-◌, ◌%◌, ◌^◌, List, [], ◌∷◌, ◌++◌, Bytes, slice, length, take, drop, replicate, leb,
  ◌==◌, if◌then◌else◌, Outcome, ok, out_of_bounds, ◌>>=◌,
}

-- `size_t` addition and subtraction, which wrap.
abbrev pub add_size : ℕ → ℕ → ℕ
add_size a b = (a + b) % 2 ^ 64

abbrev pub sub_size : ℕ → ℕ → ℕ
sub_size a b = (a + 2 ^ 64 - b) % 2 ^ 64

pub record ReadBuffer : Type 0 where
  pub buffer : Bytes
  pub read_pointer : ℕ
  pub write_pointer : ℕ

-- `std::make_shared<readBuffer>()` value-initialises: empty storage, both pointers zero.
abbrev pub fresh_buffer : ReadBuffer
fresh_buffer = record { buffer = []; read_pointer = 0; write_pointer = 0 }

-- Copies `src` over the bytes of `dst` from `offset` on.
abbrev pub splice : Bytes → ℕ → Bytes → Bytes
splice dst offset src = take offset dst ++ (src ++ drop (offset + length src) dst)

unfoldable pub memcpy : Bytes → ℕ → Bytes → Outcome Bytes
memcpy dst offset src =
    if leb (offset + length src) (length dst) then ok (splice dst offset src) else out_of_bounds

-- `memmove(data(), data() + from, n)`
unfoldable pub memmove_front : Bytes → ℕ → ℕ → Outcome Bytes
unfolding memcpy
memmove_front dst from n =
    if leb (from + n) (length dst) then memcpy dst 0 (slice dst from n) else out_of_bounds

unfoldable pub resize : Bytes → ℕ → Bytes
resize buffer n =
    if leb n (length buffer) then take n buffer else buffer ++ replicate (n - length buffer) 0

unfoldable pub readable_bytes : ReadBuffer → ℕ
readable_bytes b = sub_size b.write_pointer b.read_pointer

-- The bytes from the returned pointer to the end of the storage.
unfoldable pub peek_data : ReadBuffer → Bytes
peek_data b = drop b.read_pointer b.buffer

-- The branch that moves the unread bytes to the front.
unfoldable pub compact : ReadBuffer → Outcome ReadBuffer
compact b = do
  moved ← memmove_front b.buffer b.read_pointer (readable_bytes b)
  ok (record { buffer = moved; read_pointer = 0; write_pointer = readable_bytes b })

unfoldable pub ensure_writeable_bytes : ReadBuffer → ℕ → Outcome ReadBuffer
ensure_writeable_bytes b len =
    if leb len (sub_size (length b.buffer) b.write_pointer)
    then ok b
    else if leb len (add_size b.read_pointer (sub_size (length b.buffer) b.write_pointer))
    then compact b
    else ok (record b { buffer = resize b.buffer (add_size b.write_pointer len) })

unfoldable pub append_to_buffer : ReadBuffer → Bytes → Outcome ReadBuffer
append_to_buffer b bytes = do
  room ← ensure_writeable_bytes b (length bytes)
  filled ← memcpy room.buffer room.write_pointer bytes
  ok (record room { buffer = filled; write_pointer = add_size room.write_pointer (length bytes) })

unfoldable pub retrieve_data : ReadBuffer → ℕ → ReadBuffer
retrieve_data b n =
    if add_size b.read_pointer n == b.write_pointer
    then record b { read_pointer = 0; write_pointer = 0 }
    else record b { read_pointer = add_size b.read_pointer n }
