-- ===== src/Buffer/Moves.antt =====
-- The moves of `readBuffer`, of include/client/buffer/buffer.hpp. A vector that is moved from is
-- empty; a number that is moved from stays.
use mtasc.Common.{◌+◌, ◌<◌, ◌≡◌, [], Bytes, length, out_of_bounds, arith, leb-true, leb-false}
use mtasc.Buffer.{ReadBuffer, memcpy, append_to_buffer, sub_size, ensure_writeable_bytes}
use mtasc.Buffer.Valid.{IsValid, size_limit}

-- `readBuffer(readBuffer&&)`: the new buffer, and what is left of the other.
unfoldable pub move_buffer : ReadBuffer → ReadBuffer × ReadBuffer
move_buffer other = (other, record other { buffer = [] })

-- `operator=(readBuffer&&)`, on two buffers.
unfoldable pub assign_buffer : ReadBuffer → ReadBuffer → ReadBuffer × ReadBuffer
assign_buffer this other = (other, record other { buffer = [] })

-- A buffer that was moved, once it has been written to, is undefined behaviour at its next append
-- of any bytes: its pointers are those of before, so the room in its empty storage wraps around.
pub append_to_buffer-move_buffer :
    (b : ReadBuffer) (bytes : Bytes)
    → IsValid b
    → 0 < b.write_pointer
    → 0 < length bytes
    → length bytes < size_limit
    → append_to_buffer (move_buffer b).1 bytes ≡ out_of_bounds
unfolding append_to_buffer move_buffer ensure_writeable_bytes memcpy
append_to_buffer-move_buffer b bytes v written some_bytes small = rw (
  leb-true (length bytes) (sub_size 0 b.write_pointer) (omega arith),
  leb-false (b.write_pointer + length bytes) 0 (omega arith),
)
