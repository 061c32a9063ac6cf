-- ===== src/Url/Basic/Total.antt =====
-- The loop of the basic parser ends, and where it may read outside the text.
use native.Mathlib.Decide.{dec_le, ℕ_discrete}
use mtasc.Common.{
  ℕ, zero, suc, ◌+◌, ◌-◌, ◌≤◌, ◌<◌, ◌≡◌, refl, ap, ◌∙◌, Bytes, slice, char_at, char_at_in,
  char_at_below, char_at_beyond, last_two, length, some, Outcome, ok, thrown, Ends, out_of_bounds,
  out_of_fuel, ◌>>=◌, ◌⊎◌, inl, inr, arith, ◌==◌, ==→eq, ==→ne, Bool-cases, true,
}
use mtasc.Number.{stoi, ℤ}
use mtasc.Number.Total.{stoi-Ends}
use mtasc.Url.Safety.{EndsAfterSign, Safe}
use mtasc.Url.Basic.{
  State, parser_sign, parser_host, parser_port, parser_path, parser_end, Loop, Turn, again,
  returned, after, Result, step, loop, parse, initial_loop, found_sign, found_host, found_port,
}

abbrev rank : State → ℕ
rank parser_sign = 4
rank parser_host = 3
rank parser_port = 2
rank parser_path = 1
rank parser_end = 0

abbrev measure : Bytes → Loop → ℕ
measure s l = rank l.state + (length s - l.char_pos)

-- What a round comes to: it goes on with less to do, and the pointer leaves the text only behind
-- a final `:/`.
abbrev Progress : Bytes → Loop → Outcome Turn → Type 0
Progress s l (ok (again l')) =
    (measure s l' < measure s l) × ((l'.char_pos ≤ length s) ⊎ EndsAfterSign s)
Progress s l (ok (returned r)) = Unit
Progress s l (thrown e) = Unit
Progress s l out_of_bounds = ⊥
Progress s l out_of_fuel = ⊥

found_sign-Progress :
    (s : Bytes) (l : Loop) (d : ℕ)
    → l.state ≡ parser_sign
    → char_at s l.char_pos ≡ some b':'
    → char_at s (l.char_pos + 1) ≡ some d
    → l.char_pos < length s
    → Progress s l (found_sign s l d)
unfolding found_sign
found_sign-Progress s l d st p q lt = elim (Bool-cases (d == b'/')) [
  | inl slash ↦ rw slash (omega (arith, ap rank st, two slash), target (two slash) slash)
  | inr other ↦ rw other (omega arith, inl (omega arith))
]
  where
    two : (d == b'/') ≡ true → l.char_pos + 2 ≤ length s
    two slash =
        let found : char_at s (l.char_pos + 1) ≡ some (suc 46) = rw (==→eq d b'/' slash) at q in
        omega (arith, char_at_below s (l.char_pos + 1) 46 found)

    tail : (d == b'/') ≡ true → l.char_pos + 2 ≡ length s → EndsAfterSign s
    tail slash e =
        let start : length s - 2 ≡ l.char_pos = omega arith in
        rw (start, last_two s l.char_pos b':' d e p q, ==→eq d b'/' slash)

    target :
        l.char_pos + 2 ≤ length s
        → (d == b'/') ≡ true
        → (l.char_pos + 3 ≤ length s) ⊎ EndsAfterSign s
    target le slash = elim (ℕ_discrete (l.char_pos + 2) (length s)) [
      | yes e ↦ inr (tail slash e)
      | no more ↦ inl (omega arith)
    ]

found_port-Progress :
    (s : Bytes) (l : Loop) (port : Outcome ℤ)
    → l.state ≡ parser_port
    → Ends port
    → l.char_pos < length s
    → Progress s l (port >>= found_port l)
unfolding found_port
found_port-Progress s l (ok port) st h lt = ground arith
found_port-Progress s l (thrown e) st h lt = tt
found_port-Progress s l out_of_bounds st h lt = h
found_port-Progress s l out_of_fuel st h lt = h

step-Progress :
    (st : State) (s : Bytes) (l : Loop) (c : ℕ)
    → l.state ≡ st
    → char_at s l.char_pos ≡ some c
    → l.char_pos < length s
    → Progress s l (step st s l c)
unfolding step found_host
step-Progress parser_sign s l c st p lt = elim (Bool-cases (c == b':')) [
  | inl colon ↦
      let (d, q) = char_at_in s (l.char_pos + 1) (omega arith) in
      rw (colon, q) (found_sign-Progress s l d st (p ∙ ap some (==→eq c b':' colon)) q lt)
  | inr other ↦ rw other (omega arith, inl (omega arith))
]
step-Progress parser_host s l c st p lt = ground arith
step-Progress parser_port s l c st p lt = elim (Bool-cases (c == b'/')) [
  | inl slash ↦ rw slash (
      found_port-Progress s l (stoi (slice s l.char_start (l.char_pos - l.char_start))) st
        (stoi-Ends (slice s l.char_start (l.char_pos - l.char_start))) lt)
  | inr other ↦ rw other (omega arith, inl (omega arith))
]
step-Progress parser_path s l c st p lt = ground arith
step-Progress parser_end s l c st p lt = tt

round-Safe :
    (s : Bytes) (l : Loop) (k : Loop → Outcome Result) (o : Outcome Turn)
    → ((l' : Loop)
        → measure s l' < measure s l
        → (l'.char_pos ≤ length s) ⊎ EndsAfterSign s
        → Safe s (k l'))
    → Progress s l o
    → Safe s (o >>= after k)
round-Safe s l k (ok (again l')) ih p = ih l' p.0 p.1
round-Safe s l k (ok (returned r)) ih p = tt
round-Safe s l k (thrown e) ih p = tt
round-Safe s l k out_of_bounds ih p = absurd p
round-Safe s l k out_of_fuel ih p = p

outside :
    (s : Bytes) (l : Loop)
    → (l.char_pos ≤ length s) ⊎ EndsAfterSign s
    → length s < l.char_pos
    → EndsAfterSign s
outside s l (inl within) lt = absurd (omega arith)
outside s l (inr tail) lt = tail

loop-Safe :
    (fuel : ℕ) (s : Bytes) (l : Loop)
    → measure s l < fuel
    → (l.char_pos ≤ length s) ⊎ EndsAfterSign s
    → Safe s (loop fuel s l)
unfolding loop
loop-Safe zero s l m h = absurd (omega arith)
loop-Safe (suc fuel) s l m h = elim (Bool-cases (l.char_pos == length s)) [
  | inl done ↦ rw done tt
  | inr more ↦ elim (dec_le l.char_pos (length s)) [
    | yes within ↦
        let (c, p) = char_at_in s l.char_pos within in
        let lt : l.char_pos < length s = omega (arith, ==→ne l.char_pos (length s) more) in
        rw (more, p)
          (round-Safe s l (loop fuel s) (step l.state s l c)
            (λ l' lower. loop-Safe fuel s l' (omega arith)) (step-Progress l.state s l c refl p lt))
    | no past ↦ rw (more, char_at_beyond s l.char_pos (omega arith)) (outside s l h (omega arith))
  ]
]

-- On every text `parserBasicUrl` ends, with a result or an exception, but for one case: it reads
-- outside the text only where that ends right behind `:/`.
pub parse-Safe : (s : Bytes) → Safe s (parse s)
unfolding parse
parse-Safe s = loop-Safe (length s + 6) s initial_loop (omega arith) (inl (omega arith))
