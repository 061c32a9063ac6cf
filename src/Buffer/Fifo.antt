-- ===== src/Buffer/Fifo.antt =====
-- What `readBuffer` promises: a queue of bytes, filled at the end and consumed at the front.
-- The client's calls and what it sees after each stand here for both sides of the refinement.
use mtasc.Common.{
  ℕ, ◌+◌, List, [], ◌∷◌, ◌++◌, Bytes, length, drop, leb, Option, none, some, if◌then◌else◌,
}

pub data Call : Type 0 where
  append : Bytes → Call
  retrieve : ℕ → Call

-- The unread bytes after a call.
abbrev pub Views : Type 0
Views = List Bytes

abbrev pub cons_view : Bytes → Option Views → Option Views
cons_view v none = none
cons_view v (some vs) = some (v ∷ vs)

-- `none`: the client asks to consume more than there is.
unfoldable pub run : Bytes → List Call → Option Views
run q [] = some []
run q (append bytes ∷ calls) = cons_view (q ++ bytes) (run (q ++ bytes) calls)
run q (retrieve n ∷ calls) =
    let later = run (drop n q) calls in
    if leb n (length q) then cons_view (drop n q) later else none

-- The bytes that the calls add up to.
abbrev pub appended : List Call → ℕ
appended [] = 0
appended (append bytes ∷ calls) = length bytes + appended calls
appended (retrieve n ∷ calls) = appended calls
