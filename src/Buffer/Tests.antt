-- ===== src/Buffer/Tests.antt =====
-- Runs of the read buffer at concrete contents.
use mtasc.Common.{◌≡◌, List, refl, [], ◌∷◌, codes, length, ok, some, arith, ◌^◌, ◌-◌}
use mtasc.Buffer.{ReadBuffer, append_to_buffer, retrieve_data, readable_bytes}
use mtasc.Buffer.Fifo
use mtasc.Buffer.Fifo.{Call, append, retrieve}
use mtasc.Buffer.Valid.{IsValid, contents}
use mtasc.Buffer.Refine.{
  Appended, append_to_buffer_lem, retrieve_data_lem, run, run_refines, retrieve_data_beyond,
}

-- Six bytes, of which the first two are consumed, in a storage of eight.
abbrev part_read : ReadBuffer
part_read = record { buffer = codes "abcdefgh"; read_pointer = 2; write_pointer = 6 }

part_read-IsValid : IsValid part_read
part_read-IsValid = record { ordered = omega arith; stored = omega arith; small = omega arith }

abbrev four_calls : List Call
four_calls = append (codes "xyz") ∷ retrieve 3 ∷ append (codes "12345") ∷ retrieve 9 ∷ []

four_calls_queue :
    Fifo.run (contents part_read) four_calls
    ≡ some (codes "cdefxyz" ∷ codes "fxyz" ∷ codes "fxyz12345" ∷ [] ∷ [])
unfolding Fifo.run
four_calls_queue = refl

run_refines_example :
    run part_read four_calls ≡ ok (codes "cdefxyz" ∷ codes "fxyz" ∷ codes "fxyz12345" ∷ [] ∷ [])
run_refines_example =
    run_refines four_calls (codes "cdefxyz" ∷ codes "fxyz" ∷ codes "fxyz12345" ∷ [] ∷ [])
      part_read-IsValid (omega arith) four_calls_queue

append_of_test :
    (b' : ReadBuffer) × (append_to_buffer part_read (codes "xyz") ≡ ok b')
    × Appended part_read (codes "xyz") b'
append_of_test = append_to_buffer_lem part_read (codes "xyz") part_read-IsValid (omega arith)

retrieve_of_test :
    IsValid (retrieve_data part_read 3)
    × (contents (retrieve_data part_read 3) ≡ codes "f")
    × (length (codes "cde") ≡ length (contents part_read)
        → (retrieve_data part_read 3).write_pointer ≡ 0)
    × ((retrieve_data part_read 3).buffer ≡ codes "abcdefgh")
retrieve_of_test = retrieve_data_lem 3 part_read-IsValid (omega arith)

retrieve_too_much : readable_bytes (retrieve_data part_read 5) ≡ 2 ^ 64 - 1
retrieve_too_much = retrieve_data_beyond 5 part_read-IsValid (omega arith) (omega arith)
