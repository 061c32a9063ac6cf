-- ===== src/Tcp/Write/Complete.antt =====
-- A write task whose calls of `write` all succeed.
use native.Mathlib.Decide.{dec_lt}
use mtasc.Common.{
  Lacks, ==_false, ℕ, zero, suc, ◌+◌, ◌-◌, ◌≤◌, ◌<◌, ◌≡◌, refl, ap, sym, ◌∙◌, [], ◌∷◌, ◌++◌,
  append_assoc, append-nil, Bytes, false, length, length-take, length-drop, take, drop, take_all,
  take-take, min, slice, ok, arith, ltb-true, ltb-false, ◌||◌, not,
}
use mtasc.Tcp.{moved, ClientContext, System, Io, wrote, no_error, Callback, is_negative}
use mtasc.Tcp.Write.{strlen, write, write_loop, async_write, is_empty}

pub strlen-le : (s : Bytes) → strlen s ≤ length s
unfolding strlen
strlen-le [] = omega arith
strlen-le (c ∷ s) = ground (arith, strlen-le s)

-- A text without a NUL is written whole.
pub strlen-length : (s : Bytes) → Lacks 0 s → strlen s ≡ length s
unfolding strlen
strlen-length [] h = refl
strlen-length (c ∷ s) h = rw (==_false c 0 h.0) (ap suc (strlen-length s h.1))

take-add : (a b : ℕ) (xs : Bytes) → take (a + b) xs ≡ take a xs ++ take b (drop a xs)
take-add zero b xs = let e : 0 + b ≡ b = omega arith in ap (λ n. take n xs) e
take-add (suc a) b [] = take_all (suc a + b) [] (omega arith) ∙ sym (take_all b [] (omega arith))
take-add (suc a) b (x ∷ xs) =
    let e : suc a + b ≡ suc (a + b) = omega arith in
    ap (λ n. take n (x ∷ xs)) e ∙ ap (◌∷◌ x) (take-add a b xs)

take-min : (n : ℕ) (xs : Bytes) → take n xs ≡ take (min n (length xs)) xs
take-min zero xs = let e : 0 ≡ min 0 (length xs) = omega arith in ap (λ k. take k xs) e
take-min (suc n) [] = sym (take_all (min (suc n) 0) [] (omega arith))
take-min (suc n) (x ∷ xs) =
    let e : suc (min n (length xs)) ≡ min (suc n) (suc (length xs)) = omega arith in
    ap (◌∷◌ x) (take-min n xs) ∙ ap (λ k. take k (x ∷ xs)) e

-- What a `write` takes of the slice that it is offered follows what was taken before.
sent_slice :
    (message : Bytes) (total m n : ℕ)
    → take total message ++ take n (slice message total m)
      ≡ take (total + min n (length (slice message total m))) message
sent_slice message total m n =
    ap (◌++◌ (take total message)) (
      take-min n (slice message total m)
      ∙ take-take (min n (length (slice message total m))) m (drop total message)
          (omega (arith, length-take m (drop total message))))
    ∙ sym (take-add total (min n (length (slice message total m))) message)

-- Every `write` takes at least a byte of what it is offered.
abbrev pub AlwaysWrites : System → Type 0
AlwaysWrites sys = (i : ℕ) → (n : ℕ) × (sys.on_write i ≡ wrote (suc n))

-- What the task has done when it stops.
pub record Wrote (c : ClientContext) (start : Bytes) (out : Callback × Io) : Type 0 where
  pub no_failure : out.0.error ≡ no_error
  pub full_count : out.0.count ≡ strlen c.client_message
  pub same_context : out.0.context ≡ moved c
  pub on_the_wire : out.1.sent ≡ start ++ take (strlen c.client_message) c.client_message

-- What a task offers to `write` is all that is left.
pub length-offered :
    (message : Bytes) (total : ℕ)
    → length (slice message total (strlen message - total)) ≡ strlen message - total
length-offered message total = omega (
  arith,
  length-take (strlen message - total) (drop total message),
  length-drop total message,
  strlen-le message,
)

-- What has gone out behind one more `write`.
pub sent_more :
    (start message : Bytes) (total n m : ℕ) (sent : Bytes)
    → sent ≡ start ++ take total message
    → sent ++ take n (slice message total m)
      ≡ start ++ take (total + min n (length (slice message total m))) message
sent_more start message total n m sent s = rw s (
    append_assoc start (take total message) (take n (slice message total m))
    ∙ ap (◌++◌ start) (sent_slice message total m n))

-- A task that finds the whole message sent ends.
pub whole_Wrote :
    (sys : System) (c : ClientContext) (start : Bytes) (fuel total : ℕ) (io : Io)
    → total ≡ strlen c.client_message
    → io.sent ≡ start ++ take total c.client_message
    → (out : Callback × Io) × (write_loop (suc fuel) sys c total io ≡ ok out) × Wrote c start out
unfolding write_loop
whole_Wrote sys c start fuel total io e s = (
  (record { error = no_error; count = total; context = moved c }, io),
  rw (ltb-false total (strlen c.client_message) (omega arith)),
  record {
    no_failure = refl;
    full_count = e;
    same_context = refl;
    on_the_wire = s ∙ ap (λ n. start ++ take n c.client_message) e;
  },
)

module _ (sys : System) (writes : AlwaysWrites sys) (c : ClientContext) (start : Bytes) where
  abbrev full : ℕ
  full = strlen c.client_message

  write_loop-Wrote :
      (fuel total : ℕ) (io : Io)
      → total ≤ full
      → io.sent ≡ start ++ take total c.client_message
      → full - total < fuel
      → (out : Callback × Io) × (write_loop fuel sys c total io ≡ ok out) × Wrote c start out
  unfolding write_loop write
  write_loop-Wrote zero total io le s f = absurd (omega arith)
  write_loop-Wrote (suc fuel) total io le s f = elim (dec_lt total full) [
    | yes more ↦
        let (n, answer) = writes io.calls in
        let offered : Bytes = slice c.client_message total (full - total) in
        let taken : ℕ = min (suc n) (length offered) in
        let size : length offered ≡ full - total = length-offered c.client_message total in
        let sent : io.sent ++ take (suc n) offered
            ≡ start ++ take (total + taken) c.client_message =
          sent_more start c.client_message total (suc n) (full - total) io.sent s in
        let io' : Io = record io { calls = io.calls + 1; sent = io.sent ++ take (suc n) offered } in
        let (out, rest, w) =
          write_loop-Wrote fuel (total + taken) io' (omega arith) sent (omega arith) in
        (out, rw (ltb-true total full more, answer) rest, w)
    | no done ↦ whole_Wrote sys c start fuel total io (omega arith) s
  ]

-- If every `write` takes at least a byte, `async_write` ends, for fuel above the length of the
-- message: its callback gets no error, the length of the message up to its first NUL, and the
-- context with the message in it and its round count at 0, and exactly that part of the message, in
-- order, went out behind what was sent before. The context passes the guard and the message is not
-- empty.
pub async_write-Wrote :
    (sys : System) (c : ClientContext) (message : Bytes) (io : Io) (fuel : ℕ)
    → AlwaysWrites sys
    → (is_negative c.socketfd || c.this_addr_invalid || not c.resovler_addrs || is_empty message)
      ≡ false
    → strlen message < fuel
    → (out : Callback × Io) × (async_write fuel sys c message io ≡ ok out)
      × Wrote
          (record c { client_message = message; client_message_length = strlen message })
          io.sent
          out
unfolding async_write
async_write-Wrote sys c message io fuel writes guard f =
    let c' : ClientContext = record c {
      client_message = message;
      client_message_length = strlen message;
    } in
    let (out, e, w) =
      write_loop-Wrote sys writes c' io.sent fuel 0 io (omega arith) (sym (append-nil io.sent))
        (omega arith) in
    (out, rw guard e, w)
