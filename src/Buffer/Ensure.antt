-- ===== src/Buffer/Ensure.antt =====
-- What `M_ensureWriteableBytes` does under the invariant.
use mtasc.Common.{
  ℕ, ◌+◌, ◌-◌, ◌≤◌, ◌<◌, ◌≡◌, refl, ap, ◌∙◌, ◌++◌, Bytes, length, take, drop, replicate,
  length-append, length-take, length-drop, length-replicate, take-append, take_le, drop_le,
  leb-true, leb-false, ok, arith,
}
use native.Mathlib.Decide.{dec_le}
use mtasc.Buffer.{
  ReadBuffer, splice, compact, memcpy, memmove_front, resize, ensure_writeable_bytes, sub_size,
  add_size,
}
use mtasc.Buffer.Valid.{IsValid, size_limit, contents, readable_bytes_lem, length-contents}

-- What holds of the buffer after room for `n` bytes is made.
pub record Ensured (b : ReadBuffer) (n : ℕ) (b' : ReadBuffer) : Type 0 where
  pub valid : IsValid b'
  pub room : b'.write_pointer + n ≤ length b'.buffer
  pub same : contents b' ≡ contents b
  pub growth : length b'.buffer ≤ length b.buffer + n
  pub reuse :
      n ≤ b.read_pointer + (length b.buffer - b.write_pointer) → length b'.buffer ≡ length b.buffer

pub memcpy_lem :
    (dst src : Bytes) (offset : ℕ)
    → offset + length src ≤ length dst
    → memcpy dst offset src ≡ ok (splice dst offset src)
unfolding memcpy
memcpy_lem dst src offset h = ground arith

pub length-splice :
    (dst src : Bytes) (offset : ℕ)
    → offset + length src ≤ length dst
    → length (splice dst offset src) ≡ length dst
length-splice dst src offset h = omega (
  arith,
  length-append (take offset dst) (src ++ drop (offset + length src) dst),
  length-append src (drop (offset + length src) dst),
  length-take offset dst,
  length-drop (offset + length src) dst,
)

compacted : ReadBuffer → ReadBuffer
compacted b = record {
  buffer = splice b.buffer 0 (contents b);
  read_pointer = 0;
  write_pointer = b.write_pointer - b.read_pointer;
}

compact_lem : (b : ReadBuffer) → IsValid b → compact b ≡ ok (compacted b)
unfolding compact compacted memmove_front
compact_lem b v = rw (
  readable_bytes_lem v,
  leb-true (b.read_pointer + (b.write_pointer - b.read_pointer)) (length b.buffer) (omega arith),
  memcpy_lem b.buffer (contents b) 0 (omega (arith, length-contents v)),
)

contents-compacted : (b : ReadBuffer) → IsValid b → contents (compacted b) ≡ contents b
unfolding compacted
contents-compacted b v =
    let rest : Bytes = drop (0 + length (contents b)) b.buffer in
    let e : b.write_pointer - b.read_pointer - 0 ≡ length (contents b) =
      omega (arith, length-contents v) in
    ap (λ n. take n (contents b ++ rest)) e ∙ take-append (contents b) rest

compacted-Ensured :
    (b : ReadBuffer) (n : ℕ)
    → IsValid b
    → n ≤ b.read_pointer + (length b.buffer - b.write_pointer)
    → Ensured b n (compacted b)
unfolding compacted
compacted-Ensured b n v h = record {
  valid = record {
    ordered = omega arith;
    stored = omega (arith, kept);
    small = omega (arith, kept, v.small);
  };
  room = omega (arith, kept, v.stored, v.ordered);
  same = contents-compacted b v;
  growth = omega (arith, kept);
  reuse = λ _. kept;
}
  where
    kept : length (splice b.buffer 0 (contents b)) ≡ length b.buffer
    kept = length-splice b.buffer (contents b) 0 (omega (arith, length-contents v))

grown : ReadBuffer → ℕ → ReadBuffer
grown b n = record b { buffer = b.buffer ++ replicate (b.write_pointer + n - length b.buffer) 0 }

grown-Ensured :
    (b : ReadBuffer) (n : ℕ)
    → IsValid b
    → length b.buffer + n < size_limit
    → b.read_pointer + (length b.buffer - b.write_pointer) < n
    → Ensured b n (grown b n)
unfolding grown
grown-Ensured b n v fits full = record {
  valid = record {
    ordered = v.ordered;
    stored = omega (arith, size);
    small = omega (arith, size, v.stored);
  };
  room = omega (arith, size);
  same =
      ap (take unread) (drop_le b.read_pointer b.buffer zeros (omega (arith, v.ordered, v.stored)))
      ∙ take_le unread (drop b.read_pointer b.buffer) zeros
          (omega (arith, length-drop b.read_pointer b.buffer, v.ordered, v.stored));
  growth = omega (arith, size, v.stored);
  reuse = λ h. absurd (omega arith);
}
  where
    unread : ℕ
    unread = b.write_pointer - b.read_pointer

    zeros : Bytes
    zeros = replicate (b.write_pointer + n - length b.buffer) 0

    size : length (b.buffer ++ zeros) ≡ b.write_pointer + n
    size = omega (
      arith,
      length-append b.buffer zeros,
      length-replicate {A = ℕ} (b.write_pointer + n - length b.buffer) 0,
      v.ordered,
      v.stored,
    )

grown_lem :
    (b : ReadBuffer) (n : ℕ)
    → IsValid b
    → length b.buffer + n < size_limit
    → b.read_pointer + (length b.buffer - b.write_pointer) < n
    → resize b.buffer (add_size b.write_pointer n) ≡ (grown b n).buffer
unfolding resize grown
grown_lem b n v fits full =
    let e : add_size b.write_pointer n ≡ b.write_pointer + n = omega (arith, v.stored) in
    rw (e, leb-false (b.write_pointer + n) (length b.buffer) (omega (arith, v.ordered, v.stored)))

-- Under the invariant the tests of `M_ensureWriteableBytes` do not wrap.
ensure_tests :
    {b : ReadBuffer}
    → IsValid b
    → (sub_size (length b.buffer) b.write_pointer ≡ length b.buffer - b.write_pointer)
      × (add_size b.read_pointer (length b.buffer - b.write_pointer)
          ≡ b.read_pointer + (length b.buffer - b.write_pointer))
ensure_tests v = omega (arith, v.small, v.stored, v.ordered)

-- Room for `n` bytes is made on each of the three branches, and nothing faults.
pub ensure_lem :
    (b : ReadBuffer) (n : ℕ)
    → IsValid b
    → length b.buffer + n < size_limit
    → (b' : ReadBuffer) × (ensure_writeable_bytes b n ≡ ok b') × Ensured b n b'
unfolding ensure_writeable_bytes grown
ensure_lem b n v fits = elim (dec_le n free) [
  | yes roomy ↦ (
    b,
    rw ((ensure_tests v).0, leb-true n free roomy),
    record {
      valid = v;
      room = omega (arith, v.stored, v.small);
      same = refl;
      growth = omega arith;
      reuse = λ _. refl;
    },
  )
  | no tight ↦ elim (dec_le n (b.read_pointer + free)) [
    | yes moves ↦ (
      compacted b,
      rw
          (
            (ensure_tests v).0,
            leb-false n free (omega arith),
            (ensure_tests v).1,
            leb-true n (b.read_pointer + free) moves,
          )
          (compact_lem b v),
      compacted-Ensured b n v moves,
    )
    | no full ↦ (
      grown b n,
      rw (
        (ensure_tests v).0,
        leb-false n free (omega arith),
        (ensure_tests v).1,
        leb-false n (b.read_pointer + free) (omega arith),
        grown_lem b n v fits (omega arith),
      ),
      grown-Ensured b n v fits (omega arith),
    )
  ]
]
  where
    free : ℕ
    free = length b.buffer - b.write_pointer
