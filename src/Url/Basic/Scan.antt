-- ===== src/Url/Basic/Scan.antt =====
-- Rounds of the basic parser's loop: one, and a run of characters that no test of a state meets.
use mtasc.Common.{
  ℕ, suc, ◌+◌, ◌-◌, ◌≡◌, ◌≢◌, refl, ap, ◌∙◌, [], ◌∷◌, ◌++◌, Bytes, codes, slice, At, At-skip,
  At-char, At-end, ◌%◌, ◌^◌, Lacks, length, some, ok, ◌>>=◌, arith, ==_false, ==_refl, bytes_eq,
}
use mtasc.Number.{ℤ, stoi, to_uint16}
use mtasc.Url.Basic.{
  State, parser_sign, parser_host, parser_port, parser_path, parser_end, Loop, after, Result,
  advance, step, loop, found_sign, found_host, found_port,
}

abbrev pub at_loop : State → ℕ → ℕ → Result → Loop
at_loop st pos start r = record { state = st; char_pos = pos; char_start = start; result = r }

-- No test of the state meets a character of the run.
abbrev pub Quiet : State → Bytes → Type 0
Quiet st [] = Unit {0}
Quiet st (c ∷ xs) = ((s : Bytes) (l : Loop) → step st s l c ≡ advance l) × Quiet st xs

pub sign-Quiet : (xs : Bytes) → Lacks b':' xs → Quiet parser_sign xs
unfolding step
sign-Quiet [] h = tt
sign-Quiet (c ∷ xs) h = (λ s l. rw (==_false c b':' h.0) refl, sign-Quiet xs h.1)

pub host-Quiet : (xs : Bytes) → Lacks b':' xs → Lacks b'/' xs → Quiet parser_host xs
unfolding step
host-Quiet [] h k = tt
host-Quiet (c ∷ xs) h k =
    (λ s l. rw (==_false c b':' h.0, ==_false c b'/' k.0) refl, host-Quiet xs h.1 k.1)

pub port-Quiet : (xs : Bytes) → Lacks b'/' xs → Quiet parser_port xs
unfolding step
port-Quiet [] h = tt
port-Quiet (c ∷ xs) h = (λ s l. rw (==_false c b'/' h.0) refl, port-Quiet xs h.1)

pub loop_round :
    (fuel : ℕ) (s : Bytes) (l : Loop) (c : ℕ) (rest : Bytes)
    → At s l.char_pos (c ∷ rest)
    → loop (suc fuel) s l ≡ (step l.state s l c >>= after (loop fuel s))
unfolding loop
loop_round fuel s l c rest a =
    let below : l.char_pos ≢ length s = omega (arith, a.size_is) in
    rw (==_false l.char_pos (length s) below, At-char a)

pub loop_end :
    (fuel : ℕ) (s : Bytes) (l : Loop) → At s l.char_pos [] → loop (suc fuel) s l ≡ ok l.result
unfolding loop
loop_end fuel s l a =
    let e : l.char_pos ≡ length s = omega (arith, a.size_is) in rw (e, ==_refl (length s))

pub scan :
    (st : State) (xs rest : Bytes) (fuel : ℕ) (s : Bytes) (pos start : ℕ) (r : Result)
    → Quiet st xs
    → At s pos (xs ++ rest)
    → loop (length xs + fuel) s (at_loop st pos start r)
      ≡ loop fuel s (at_loop st (pos + length xs) start r)
scan st [] rest fuel s pos start r q a =
    let e : pos ≡ pos + 0 = omega arith in let f : 0 + fuel ≡ fuel = omega arith in rw (f, ← e)
scan st (c ∷ xs) rest fuel s pos start r q a =
    let f : suc (length xs) + fuel ≡ suc (length xs + fuel) = omega arith in
    let e : pos + 1 + length xs ≡ pos + suc (length xs) = omega arith in
    ap (λ n. loop n s (at_loop st pos start r)) f
    ∙ loop_round (length xs + fuel) s (at_loop st pos start r) c (xs ++ rest) a
    ∙ rw (q.0 s (at_loop st pos start r))
        (scan st xs rest fuel s (pos + 1) start r q.1 (At-skip (c ∷ []) a))
    ∙ ap (λ p. loop fuel s (at_loop st p start r)) e

module _ (fuel : ℕ) (s : Bytes) (start : ℕ) (r : Result) where
  pub sign_round :
      (pos : ℕ) (sign rest : Bytes)
      → slice s start (pos - start) ≡ sign
      → At s pos (codes "://" ++ rest)
      → loop (suc fuel) s (at_loop parser_sign pos start r)
        ≡ loop fuel s (
            at_loop parser_host
              (pos + 3)
              (pos + 3)
              (record r { http_sign = sign; is_enable_tls = bytes_eq sign (codes "https") }))
  unfolding step found_sign
  sign_round pos sign rest e a =
      loop_round fuel s (at_loop parser_sign pos start r) b':' (codes "//" ++ rest) a
      ∙ rw (At-char (At-skip (codes ":") a), e)

  pub host_round :
      (pos : ℕ) (host rest : Bytes)
      → slice s start (pos - start) ≡ host
      → At s pos (b'/' ∷ rest)
      → loop (suc fuel) s (at_loop parser_host pos start r)
        ≡ loop fuel s (at_loop parser_path pos pos (record r { addrs_host = host }))
  unfolding step found_host
  host_round pos host rest e a =
      loop_round fuel s (at_loop parser_host pos start r) b'/' rest a ∙ rw e

  pub host_port_round :
      (pos : ℕ) (host rest : Bytes)
      → slice s start (pos - start) ≡ host
      → At s pos (b':' ∷ rest)
      → loop (suc fuel) s (at_loop parser_host pos start r)
        ≡ loop fuel s (at_loop parser_port (pos + 1) (pos + 1) (record r { addrs_host = host }))
  unfolding step found_host
  host_port_round pos host rest e a =
      loop_round fuel s (at_loop parser_host pos start r) b':' rest a ∙ rw e

  pub port_round :
      (pos n : ℕ) (digits rest : Bytes)
      → slice s start (pos - start) ≡ digits
      → stoi digits ≡ ok (ℤ.pos n)
      → At s pos (b'/' ∷ rest)
      → loop (suc fuel) s (at_loop parser_port pos start r)
        ≡ loop fuel s (at_loop parser_path pos pos (record r { addrs_port = some (n % 2 ^ 16) }))
  unfolding step found_port to_uint16
  port_round pos n digits rest e d a =
      loop_round fuel s (at_loop parser_port pos start r) b'/' rest a ∙ rw (e, d)

pub path_rounds :
    (fuel : ℕ) (s : Bytes) (pos c : ℕ) (rest : Bytes) (r : Result)
    → At s pos (c ∷ rest)
    → loop (suc (suc fuel)) s (at_loop parser_path pos pos r)
      ≡ ok (record r { addrs_path = c ∷ rest })
unfolding step
path_rounds fuel s pos c rest r a =
    loop_round (suc fuel) s (at_loop parser_path pos pos r) c rest a
    ∙ rw (At-end a) (
        loop_round fuel s (at_loop parser_end pos pos (record r { addrs_path = c ∷ rest })) c rest
          a)
