-- ===== src/Tcp/Chunked/Tests.antt =====
-- The size of a chunk in a concrete buffer.
use mtasc.Common.{◌≡◌, refl, [], ◌∷◌, ◌++◌, codes, crlf, Lacks-of_lacks, ok, out_of_fuel, arith}
use mtasc.Buffer.{ReadBuffer, peek_data}
use mtasc.Tcp.Chunked.{c_string, find_chunkedsize, find_chunkedsize_loops}

abbrev chunked : ReadBuffer
chunked = record {
  buffer = codes "4" ++ crlf ++ codes "Wiki" ++ 0 ∷ [];
  read_pointer = 0;
  write_pointer = 7;
}

find_chunkedsize_loops_test : find_chunkedsize 100 (λ s. ok 4) chunked ≡ out_of_fuel
unfolding c_string peek_data
find_chunkedsize_loops_test =
    find_chunkedsize_loops 100 (λ s. ok 4) chunked (codes "4") (codes "Wiki") 4 refl
      (Lacks-of_lacks 13 (codes "4") refl) (omega arith) refl
