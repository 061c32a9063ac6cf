-- ===== src/Url/Params/Total.antt =====
-- The parameter parser ends on every text and never throws.
use native.Mathlib.Decide.{dec_lt}
use mtasc.Common.{
  ℕ, zero, suc, ◌+◌, ◌-◌, ◌≤◌, ◌<◌, ◌≡◌, refl, ◌∙◌, [], ◌∷◌, Bytes, slice, char_at, char_at_in,
  length, drop, length-drop, Option, none, some, ok, ◌>>=◌, arith, ◌==◌, ltb, ltb-true, ltb-false,
  leb-true, Bool-cases, inl, inr, ltb→lt, if◌then◌else◌, Option-cases,
}
use mtasc.Url.Params.{
  ParamMap, assign, find_in, find, substr, amp_or_end, key_count, store, parameter, loop,
  parse_params, empty_parameter,
}

-- What `find` returns lies in the searched part.
pub find_in_bounds :
    (c : ℕ) (xs : Bytes) (i j : ℕ) → find_in c xs i ≡ some j → (i ≤ j) × (j < i + length xs)
unfolding find_in
find_in_bounds c [] i j h = absurd (cc)
find_in_bounds c (x ∷ xs) i j h = ground (arith, find_in_bounds c xs (i + 1) j)

abbrev pub skipped : ℕ → ℕ → ℕ
skipped c pos = if c == b'?' then pos + 1 else pos

skipped_bounds : (c pos : ℕ) → (pos ≤ skipped c pos) × (skipped c pos ≤ pos + 1)
skipped_bounds c pos = ground arith

pub amp_bounds :
    (s : Bytes) (ops : ℕ)
    → ops ≤ length s
    → (ops ≤ amp_or_end s (find s b'&' ops)) × (amp_or_end s (find s b'&' ops) ≤ length s)
amp_bounds s ops h = elim (Option-cases (find s b'&' ops)) [
  | inl e ↦ rw e (h, omega arith)
  | inr (amp, e) ↦
      let (lo, hi) = find_in_bounds b'&' (drop ops s) ops amp e in
      rw e (lo, omega (arith, length-drop ops s))
]

pub substr_lem : (s : Bytes) (pos n : ℕ) → pos ≤ length s → substr s pos n ≡ ok (slice s pos n)
unfolding substr
substr_lem s pos n h = rw (leb-true pos (length s) h)

store_ends :
    (s : Bytes) (m : ParamMap) (key : Bytes) (eq : Option ℕ) (amp : ℕ)
    → amp ≤ length s
    → (m' : ParamMap) × (store s m key eq amp ≡ ok m')
unfolding store
store_ends s m key none amp h = (assign key empty_parameter m, refl)
store_ends s m key (some eq) amp h = elim (Bool-cases (ltb eq amp)) [
  | inl with_value ↦ (
    assign key (slice s (eq + 1) (amp - eq - 1)) m,
    rw (with_value, substr_lem s (eq + 1) (amp - eq - 1) (omega (arith, ltb→lt eq amp with_value))),
  )
  | inr without ↦ (assign key empty_parameter m, rw without)
]

-- A round whose `substr` for the key is within the text.
pub parameter_lem :
    (s : Bytes) (pos ops c : ℕ) (m : ParamMap)
    → char_at s pos ≡ some c
    → skipped c pos ≡ ops
    → ops ≤ length s
    → parameter s pos m ≡ (
        store s m
          (slice s ops (key_count (find s b'=' ops) ops))
          (find s b'=' ops)
          (amp_or_end s (find s b'&' ops))
        >>= λ m'. ok (amp_or_end s (find s b'&' ops) + 1, m'))
unfolding parameter
parameter_lem s pos ops c m p e h = rw (p, e, substr_lem s ops (key_count (find s b'=' ops) ops) h)

-- A round ends, and moves the position on.
pub parameter_ends :
    (s : Bytes) (pos : ℕ) (m : ParamMap)
    → pos < length s
    → (next : ℕ × ParamMap) × (parameter s pos m ≡ ok next) × (pos < next.0)
parameter_ends s pos m h = ends (char_at_in s pos (omega arith))
  where
    ends :
        (c : ℕ) × (char_at s pos ≡ some c)
        → (next : ℕ × ParamMap) × (parameter s pos m ≡ ok next) × (pos < next.0)
    ends (c, p) =
        let ops : ℕ = skipped c pos in
        let amp : ℕ = amp_or_end s (find s b'&' ops) in
        let key : Bytes = slice s ops (key_count (find s b'=' ops) ops) in
        let within : ops ≤ length s = omega (arith, skipped_bounds c pos) in
        let (m', stored) = store_ends s m key (find s b'=' ops) amp (amp_bounds s ops within).1 in
        (
          (amp + 1, m'),
          parameter_lem s pos ops c m p refl within ∙ rw stored,
          omega (arith, skipped_bounds c pos, amp_bounds s ops within),
        )

loop_ends :
    (fuel : ℕ) (s : Bytes) (pos : ℕ) (m : ParamMap)
    → length s - pos < fuel
    → (m' : ParamMap) × (loop fuel s pos m ≡ ok m')
unfolding loop
loop_ends zero s pos m h = absurd (omega arith)
loop_ends (suc fuel) s pos m h = elim (dec_lt pos (length s)) [
  | yes within ↦
      let (next, made, further) = parameter_ends s pos m within in
      let (m', rest) = loop_ends fuel s next.0 next.1 (omega arith) in
      (m', rw (ltb-true pos (length s) within, made) rest)
  | no done ↦ (m, rw (ltb-false pos (length s) (omega arith)))
]

-- `M_parserQueryParamter`, which is `noexcept`, returns a map on every text: no `substr` in it
-- throws, no character is read outside the text, and the loop ends.
pub parse_params_total : (s : Bytes) → (m : ParamMap) × (parse_params s ≡ ok m)
unfolding parse_params
parse_params_total s = loop_ends (length s + 1) s 0 [] (omega arith)
