-- ===== src/Buffer/Valid.antt =====
-- The representation invariant of `readBuffer`, and its unread bytes.
use mtasc.Common.{
  ℕ, ◌+◌, ◌-◌, ◌≤◌, ◌<◌, ◌^◌, ◌≡◌, sym, ap, ◌∙◌, ◌≡⟨◌⟩◌, ◌∎, [], ◌∷◌, ◌++◌, append_assoc, Bytes,
  slice, length, take, drop, zero, suc, length-append, length-take, length-drop, take-append,
  drop_le, take_all, arith,
}
use mtasc.Buffer.{ReadBuffer, splice, readable_bytes}

-- Half the address space, so that no sum of two sizes wraps.
abbrev pub size_limit : ℕ
size_limit = 2 ^ 63

pub record IsValid (b : ReadBuffer) : Type 0 where
  pub ordered : b.read_pointer ≤ b.write_pointer
  pub stored : b.write_pointer ≤ length b.buffer
  pub small : length b.buffer < size_limit

-- The bytes that are received and not yet consumed.
abbrev pub contents : ReadBuffer → Bytes
contents b = slice b.buffer b.read_pointer (b.write_pointer - b.read_pointer)

pub readable_bytes_lem :
    {b : ReadBuffer} → IsValid b → readable_bytes b ≡ b.write_pointer - b.read_pointer
unfolding readable_bytes
readable_bytes_lem v = omega arith

pub length-slice : (s : Bytes) (pos n : ℕ) → pos + n ≤ length s → length (slice s pos n) ≡ n
length-slice s pos n h = omega (arith, length-take n (drop pos s), length-drop pos s)

pub length-contents :
    {b : ReadBuffer} → IsValid b → length (contents b) ≡ b.write_pointer - b.read_pointer
length-contents {b} v =
    length-slice b.buffer b.read_pointer (b.write_pointer - b.read_pointer) (omega arith)

-- The count that `readableBytes` returns is that of the unread bytes.
pub readable_bytes-contents : {b : ReadBuffer} → IsValid b → readable_bytes b ≡ length (contents b)
readable_bytes-contents v = omega (arith, readable_bytes_lem v, length-contents v)

pub drop-take : (m n : ℕ) (xs : Bytes) → m ≤ n → drop m (take n xs) ≡ take (n - m) (drop m xs)
drop-take zero n xs h = let e : n ≡ n - 0 = omega arith in ap (λ k. take k xs) e
drop-take (suc m) zero xs h = absurd (omega arith)
drop-take (suc m) (suc n) [] h = sym (take_all (suc n - suc m) [] (omega arith))
drop-take (suc m) (suc n) (x ∷ xs) h =
    let e : n - m ≡ suc n - suc m = omega arith in
    drop-take m n xs (omega arith) ∙ ap (λ k. take k (drop m xs)) e

-- Bytes written at the end of a slice extend it.
pub slice-splice :
    (buf bytes : Bytes) (r w : ℕ)
    → r ≤ w
    → w ≤ length buf
    → slice (splice buf w bytes) r (w + length bytes - r) ≡ slice buf r (w - r) ++ bytes
slice-splice buf bytes r w h k =
    slice (splice buf w bytes) r (w + length bytes - r)
    ≡⟨ ap (take (w + length bytes - r)) (drop_le r (take w buf) (bytes ++ rest) fits) ⟩
      take (w + length bytes - r) (drop r (take w buf) ++ (bytes ++ rest))
    ≡⟨ ap (λ front. take (w + length bytes - r) (front ++ (bytes ++ rest))) (drop-take r w buf h) ⟩
      take (w + length bytes - r) (front ++ (bytes ++ rest))
    ≡⟨ ap (take (w + length bytes - r)) (sym (append_assoc front bytes rest)) ⟩
      take (w + length bytes - r) ((front ++ bytes) ++ rest)
    ≡⟨ ap (λ n. take n ((front ++ bytes) ++ rest)) count ⟩
      take (length (front ++ bytes)) ((front ++ bytes) ++ rest)
    ≡⟨ take-append (front ++ bytes) rest ⟩ front ++ bytes ∎
  where
    rest : Bytes
    rest = drop (w + length bytes) buf

    front : Bytes
    front = slice buf r (w - r)

    fits : r ≤ length (take w buf)
    fits = omega (arith, length-take w buf)

    count : w + length bytes - r ≡ length (front ++ bytes)
    count = omega (arith, length-append front bytes, length-slice buf r (w - r) (omega arith))
