-- ===== src/Buffer/Refine.antt =====
-- A valid `readBuffer` behaves as the queue of its unread bytes.
use mtasc.Common.{
  ℕ, ◌+◌, ◌-◌, ◌≤◌, ◌<◌, ◌^◌, ◌≡◌, ◌≢◌, refl, sym, ap, ◌∙◌, List, [], ◌∷◌, ◌++◌, Bytes, length,
  take, drop, drop-drop, Outcome, ok, ◌>>=◌, arith, Option, some, none, leb, ==_false, Bool-cases,
  inl, inr, leb→le, ==→eq, ==→ne, drop_all, slice, ◌==◌,
}
use mtasc.Buffer.{
  ReadBuffer, add_size, splice, ensure_writeable_bytes, append_to_buffer, retrieve_data,
  readable_bytes, peek_data,
}
use mtasc.Buffer.Fifo
use mtasc.Buffer.Fifo.{Call, append, retrieve, Views, cons_view, appended}
use mtasc.Buffer.Valid.{
  size_limit, IsValid, contents, length-contents, readable_bytes_lem, drop-take, slice-splice,
}
use mtasc.Buffer.Ensure.{Ensured, ensure_lem, memcpy_lem, length-splice}

-- What holds after bytes are appended.
pub record Appended (b : ReadBuffer) (bytes : Bytes) (b' : ReadBuffer) : Type 0 where
  pub valid : IsValid b'
  pub queued : contents b' ≡ contents b ++ bytes
  pub growth : length b'.buffer ≤ length b.buffer + length bytes
  pub reuse :
      length bytes ≤ b.read_pointer + (length b.buffer - b.write_pointer)
      → length b'.buffer ≡ length b.buffer

-- `appendTobuffer` succeeds on every valid buffer whose storage stays below half the address
-- space: no byte is written outside it, the new bytes follow the unread ones, the storage grows by
-- at most their number, and not at all where the consumed and the free space hold them.
pub append_to_buffer_lem :
    (b : ReadBuffer) (bytes : Bytes)
    → IsValid b
    → length b.buffer + length bytes < size_limit
    → (b' : ReadBuffer) × (append_to_buffer b bytes ≡ ok b') × Appended b bytes b'
unfolding append_to_buffer
append_to_buffer_lem b bytes v fits = (
  record room {
    buffer = splice room.buffer room.write_pointer bytes;
    write_pointer = room.write_pointer + n;
  },
  rw (made, memcpy_lem room.buffer bytes room.write_pointer e.room, no_wrap),
  record {
    valid = record {
      ordered = omega (arith, e.valid.ordered);
      stored = omega (arith, kept, e.room);
      small = omega (arith, kept, e.valid.small);
    };
    queued =
        slice-splice room.buffer bytes room.read_pointer room.write_pointer e.valid.ordered
          e.valid.stored
        ∙ ap (λ q. q ++ bytes) e.same;
    growth = omega (arith, kept, e.growth);
    reuse = λ h. kept ∙ e.reuse h;
  },
)
  where
    n : ℕ
    n = length bytes

    room : ReadBuffer
    room = (ensure_lem b n v fits).0

    made : ensure_writeable_bytes b n ≡ ok room
    made = (ensure_lem b n v fits).1

    e : Ensured b n room
    e = (ensure_lem b n v fits).2

    kept : length (splice room.buffer room.write_pointer bytes) ≡ length room.buffer
    kept = length-splice room.buffer bytes room.write_pointer e.room

    no_wrap : add_size room.write_pointer n ≡ room.write_pointer + n
    no_wrap = omega (arith, e.valid.small, e.room)

-- `retrieveData` of no more than there is drops those bytes from the front and keeps the
-- invariant; a buffer that is emptied starts again at the front of its storage.
pub retrieve_data_lem :
    {b : ReadBuffer} (n : ℕ)
    → IsValid b
    → n ≤ length (contents b)
    → IsValid (retrieve_data b n)
      × (contents (retrieve_data b n) ≡ drop n (contents b))
      × (n ≡ length (contents b) → (retrieve_data b n).write_pointer ≡ 0)
      × ((retrieve_data b n).buffer ≡ b.buffer)
unfolding retrieve_data
retrieve_data_lem {b} n v h = elim (Bool-cases (add_size b.read_pointer n == b.write_pointer)) [
  | inl all ↦ rw all (
    omega (arith, v.small),
    sym (
        drop_all n (contents b)
          (omega (arith, size, no_wrap, ==→eq (add_size b.read_pointer n) b.write_pointer all))),
    λ _. refl,
    refl,
  )
  | inr some_left ↦
      rw (some_left, no_wrap)
        (
          omega (arith, size, v.small, v.stored, v.ordered),
          left,
          λ e. absurd (
              ==→ne (add_size b.read_pointer n) b.write_pointer some_left
                (omega (arith, size, no_wrap))),
          refl,
        )
]
  where
    size : length (contents b) ≡ b.write_pointer - b.read_pointer
    size = length-contents v

    no_wrap : add_size b.read_pointer n ≡ b.read_pointer + n
    no_wrap = omega (arith, size, v.small, v.stored, v.ordered)

    left :
        slice b.buffer (b.read_pointer + n) (b.write_pointer - (b.read_pointer + n))
        ≡ drop n (contents b)
    left =
        let e : b.write_pointer - (b.read_pointer + n) ≡ b.write_pointer - b.read_pointer - n =
          omega arith in
        rw (
          e,
          drop-take n (b.write_pointer - b.read_pointer) (drop b.read_pointer b.buffer)
              (omega (arith, size)),
          drop-drop n b.read_pointer b.buffer,
        )

-- What the client reads: `readableBytes()` bytes from `peekData()`.
pub view : ReadBuffer → Bytes
view b = take (readable_bytes b) (peek_data b)

pub view-eq-contents : {b : ReadBuffer} → IsValid b → view b ≡ contents b
unfolding view peek_data
view-eq-contents {b} v = rw (readable_bytes_lem v)

-- A client's calls in order, with what it reads after each.
pub run : ReadBuffer → List Call → Outcome Views
run b [] = ok []
run b (append bytes ∷ calls) = do
  b' ← append_to_buffer b bytes
  views ← run b' calls
  ok (view b' ∷ views)
run b (retrieve n ∷ calls) = do
  views ← run (retrieve_data b n) calls
  ok (view (retrieve_data b n) ∷ views)

cons_view-eq-some :
    (v : Bytes) (o : Option Views) {vs : Views}
    → cons_view v o ≡ some vs
    → (later : Views) × (o ≡ some later) × (vs ≡ v ∷ later)
cons_view-eq-some v none h = cc
cons_view-eq-some v (some later) h = (later, refl, ground arith)

-- The queue answers a `retrieve` only within its bytes.
within_of_run :
    (n : ℕ) (calls : List Call) (q : Bytes) {vs : Views}
    → Fifo.run q (retrieve n ∷ calls) ≡ some vs
    → (n ≤ length q)
      × (later : Views) × (Fifo.run (drop n q) calls ≡ some later)
      × (vs ≡ drop n q ∷ later)
unfolding Fifo.run
within_of_run n calls q h = elim (Bool-cases (leb n (length q))) [
  | inl within ↦
      let (later, rest, e) =
        cons_view-eq-some (drop n q) (Fifo.run (drop n q) calls) (rw within at h) in
      (leb→le n (length q) within, later, rest, e)
  | inr beyond ↦ absurd (cc (rw beyond at h))
]

-- No sequence of calls tells a valid buffer from the queue of its unread bytes, while the client
-- never consumes more than there is and the storage stays below half the address space: every call
-- succeeds, and after each the client reads exactly the bytes of the queue.
pub run_refines :
    (calls : List Call) {b : ReadBuffer} (views : Views)
    → IsValid b
    → length b.buffer + appended calls < size_limit
    → Fifo.run (contents b) calls ≡ some views
    → run b calls ≡ ok views
unfolding run Fifo.run
run_refines [] views v fits h = ground arith
run_refines (append bytes ∷ calls) {b} views v fits h =
    let (b', done, a) = append_to_buffer_lem b bytes v (omega arith) in
    let (later, rest, e) =
      cons_view-eq-some (contents b ++ bytes) (Fifo.run (contents b ++ bytes) calls) h in
    rw (
      done,
      run_refines calls later a.valid (omega (arith, a.growth)) (rw a.queued rest),
      view-eq-contents a.valid,
      a.queued,
      e,
    )
run_refines (retrieve n ∷ calls) {b} views v fits h =
    let (within, later, rest, e) = within_of_run n calls (contents b) h in
    let (valid, dropped, _, storage) = retrieve_data_lem n v within in
    rw (
      run_refines calls later valid (rw storage fits) (rw dropped rest),
      view-eq-contents valid,
      dropped,
      e,
    )

-- `retrieveData` has no guard: asked for more than there is, it leaves the read pointer past the
-- write pointer, and `readableBytes` then wraps to a count near the top of `size_t`.
pub retrieve_data_beyond :
    {b : ReadBuffer} (n : ℕ)
    → IsValid b
    → length (contents b) < n
    → n < size_limit
    → readable_bytes (retrieve_data b n) ≡ 2 ^ 64 - (n - length (contents b))
unfolding readable_bytes retrieve_data
retrieve_data_beyond {b} n v over small =
    let size : length (contents b) ≡ b.write_pointer - b.read_pointer = length-contents v in
    let moved : add_size b.read_pointer n ≢ b.write_pointer =
      omega (arith, v.small, v.stored, v.ordered) in
    rw (==_false (add_size b.read_pointer n) b.write_pointer moved)
      (omega (arith, v.small, v.stored, v.ordered))
