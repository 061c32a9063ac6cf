-- ===== src/Tcp/Chunked.antt =====
-- `M_findChunkedsize`: the size of a chunk of an HTTP body.
mod Tests
use mtasc.Common.{
  ℕ, zero, suc, ◌+◌, ◌-◌, ◌<◌, ◌^◌, ◌≡◌, refl, ap, ◌∙◌, [], ◌∷◌, ◌++◌, Bytes, slice, crlf, true,
  false, ◌==◌, ==_false, ltb, ltb-true, length, length-append, take, drop, take-append, Lacks,
  Option, none, some, if◌then◌else◌, Outcome, ok, out_of_bounds, out_of_fuel, ◌>>=◌, arith,
}
use mtasc.Buffer.{ReadBuffer, peek_data, retrieve_data}
use mtasc.Tcp.Recv.{is_prefix}

-- `std::string` of a pointer: the bytes before the first zero byte.
unfoldable pub c_string : Bytes → Outcome Bytes
c_string [] = out_of_bounds
c_string (zero ∷ s) = ok []
c_string (suc c ∷ s) = c_string s >>= λ r. ok (suc c ∷ r)

-- The position of the first `d` in a suffix that starts at position `i`.
unfoldable pub find_text : Bytes → Bytes → ℕ → Option ℕ
find_text d [] i = none
find_text d (x ∷ s) i = if is_prefix d (x ∷ s) then some i else find_text d s (i + 1)

-- `-1` as a `size_t`
abbrev pub no_size : ℕ
no_size = 2 ^ 64 - 1

-- The size is read once the loop is left, and has no value before the first round.
abbrev pub sized : ReadBuffer → Option ℕ → Outcome (ℕ × ReadBuffer)
sized b none = out_of_bounds
sized b (some n) = ok (n, b)

abbrev pub size_line :
    (ℕ → ReadBuffer → Outcome (ℕ × ReadBuffer))
    → (Bytes → Outcome ℕ)
    → Bytes
    → ℕ
    → ReadBuffer
    → Option ℕ
    → Outcome (ℕ × ReadBuffer)
size_line again stoul total pointer b none = ok (no_size, b)
size_line again stoul total pointer b (some first) =
    let next = stoul (slice total pointer (first - pointer)) >>= λ n.
    again n (retrieve_data b (first + 2)) in
    if first - pointer == 0 then ok (no_size, b) else next

-- `while (M_find_str_pointer < M_toal_data.size())`, with fuel; `std::stoul` to the base 16 is a
-- parameter. Neither the text nor the pointer into it changes.
unfoldable pub chunk_loop :
    ℕ → (Bytes → Outcome ℕ) → Bytes → ℕ → Option ℕ → ReadBuffer → Outcome (ℕ × ReadBuffer)
unfolding find_text
chunk_loop zero stoul total pointer size b = out_of_fuel
chunk_loop (suc fuel) stoul total pointer size b =
    let round =
      size_line (λ n. chunk_loop fuel stoul total pointer (some n)) stoul total pointer b
        (find_text crlf (drop pointer total) pointer) in
    if ltb pointer (length total) then round else sized b size

-- `M_findChunkedsize`
unfoldable pub find_chunkedsize : ℕ → (Bytes → Outcome ℕ) → ReadBuffer → Outcome (ℕ × ReadBuffer)
unfolding c_string chunk_loop
find_chunkedsize fuel stoul b =
    c_string (peek_data b) >>= λ total. chunk_loop fuel stoul total 0 none b

find_text-crlf :
    (line rest : Bytes) (i : ℕ)
    → Lacks 13 line
    → find_text crlf (line ++ (crlf ++ rest)) i ≡ some (i + length line)
unfolding find_text
find_text-crlf [] rest i h = let e : i ≡ i + 0 = omega arith in ap some e
find_text-crlf (x ∷ line) rest i h =
    let e : i + 1 + length line ≡ i + suc (length line) = omega arith in
    rw (==_false x 13 h.0) (find_text-crlf line rest (i + 1) h.1 ∙ ap some e)

-- A round that reads the size ends in the state in which it began, but for the buffer.
chunk_loop_again :
    (fuel : ℕ) (stoul : Bytes → Outcome ℕ) (line rest : Bytes) (n : ℕ) (size : Option ℕ)
    (b : ReadBuffer)
    → Lacks 13 line
    → 0 < length line
    → stoul line ≡ ok n
    → chunk_loop fuel stoul (line ++ (crlf ++ rest)) 0 size b ≡ out_of_fuel
unfolding chunk_loop
chunk_loop_again zero stoul line rest n size b clean some_digit read = refl
chunk_loop_again (suc fuel) stoul line rest n size b clean some_digit read =
    let total : Bytes = line ++ (crlf ++ rest) in
    let here : ltb 0 (length total) ≡ true =
      ltb-true 0 (length total) (omega (arith, some_digit, length-append line (crlf ++ rest))) in
    let found : find_text crlf total 0 ≡ some (0 + length line) =
      find_text-crlf line rest 0 clean in
    let digits : slice total 0 (0 + length line - 0) ≡ line =
      ap (λ k. take k total) (back (length line)) ∙ take-append line (crlf ++ rest) in
    let not_empty : (0 + length line - 0 == 0) ≡ false =
      ==_false (0 + length line - 0) 0 (omega (arith, some_digit)) in
    rw (here, found, not_empty, digits, read)
      (chunk_loop_again fuel stoul line rest n (some n) (retrieve_data b (0 + length line + 2))
        clean some_digit read)
  where
    back : (k : ℕ) → 0 + k - 0 ≡ k
    back k = omega arith

-- `M_findChunkedsize` never returns where the unread text begins with a chunk size: whatever number
-- of rounds it is given, they are all used up, since the pointer that the loop tests never moves.
-- The text is zero-terminated, and its first line is not empty and one that `std::stoul` accepts.
pub find_chunkedsize_loops :
    (fuel : ℕ) (stoul : Bytes → Outcome ℕ) (b : ReadBuffer) (line rest : Bytes) (n : ℕ)
    → c_string (peek_data b) ≡ ok (line ++ (crlf ++ rest))
    → Lacks 13 line
    → 0 < length line
    → stoul line ≡ ok n
    → find_chunkedsize fuel stoul b ≡ out_of_fuel
unfolding find_chunkedsize
find_chunkedsize_loops fuel stoul b line rest n text clean some_digit read =
    rw text (chunk_loop_again fuel stoul line rest n none b clean some_digit read)
