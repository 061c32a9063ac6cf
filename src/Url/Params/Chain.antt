-- ===== src/Url/Params/Chain.antt =====
-- Rounds of the parameter parser chained over a whole query.
use mtasc.Common.{
  ℕ, zero, suc, ◌+◌, ◌≤◌, ◌<◌, ◌≡◌, refl, ap, ◌∙◌, [], ◌∷◌, ◌++◌, append-nil, Bytes, At, At-start,
  At-skip, At-char, char_at, length, length-append, ok, arith, ==_false, ltb-true, ltb-false,
  bytes_eq, if◌then◌else◌, Option, some, none, Lacks, bytes_eq_refl, bytes_eq→eq,
}
use mtasc.Url.Params.{ParamMap, assign, lookup, find_in, loop, parse_params, parameter, amp_or_end}
use mtasc.Url.Params.Total.{skipped}
use mtasc.Url.Params.RoundTrip.{IsClean, round_lem, find_in_here}

-- The text of one or more pairs.
abbrev pub query_text : Bytes × Bytes → ParamMap → Bytes
query_text (k, v) [] = k ++ b'=' ∷ v
query_text (k, v) (next ∷ pairs) = k ++ b'=' ∷ (v ++ b'&' ∷ query_text next pairs)

-- The pairs assigned in order.
abbrev pub assign_all : ParamMap → ParamMap → ParamMap
assign_all m [] = m
assign_all m ((k, v) ∷ pairs) = assign_all (assign k v m) pairs

abbrev pub AllClean : ParamMap → Type 0
AllClean [] = Unit {0}
AllClean (p ∷ pairs) = IsClean p × AllClean pairs

-- The character at the start of a round; only a `?` is skipped.
pub record Starts (s : Bytes) (pos ops : ℕ) : Type 0 where
  pub char : ℕ
  pub found : char_at s pos ≡ some char
  pub skips : skipped char pos ≡ ops
  pub below : pos < length s

-- A key does not begin with a `?`, so a round that starts at it skips nothing.
pub Starts-key :
    {s : Bytes} {ops : ℕ} (key rest : Bytes)
    → Lacks b'?' key
    → At s ops (key ++ b'=' ∷ rest)
    → Starts s ops ops
Starts-key {s} {ops} [] rest h a = record {
  char = b'=';
  found = At-char a;
  skips = ground arith;
  below = omega (arith, a.size_is);
}
Starts-key {s} {ops} (c ∷ key) rest h a = record {
  char = c;
  found = At-char a;
  skips = rw (==_false c b'?' h.0);
  below = omega (arith, a.size_is);
}

Starts-query_text :
    {s : Bytes} {ops : ℕ} (pair : Bytes × Bytes) (pairs : ParamMap)
    → IsClean pair
    → At s ops (query_text pair pairs)
    → Starts s ops ops
Starts-query_text (k, v) [] w a = Starts-key k v w.key_mark a
Starts-query_text (k, v) (next ∷ pairs) w a =
    Starts-key k (v ++ b'&' ∷ query_text next pairs) w.key_mark a

pub loop_round :
    (fuel : ℕ) (s : Bytes) (pos : ℕ) (m : ParamMap) {next : ℕ × ParamMap}
    → pos < length s
    → parameter s pos m ≡ ok next
    → loop (suc fuel) s pos m ≡ loop fuel s next.0 next.1
unfolding loop
loop_round fuel s pos m h e = rw (ltb-true pos (length s) h, e)

pub loop_done :
    (fuel : ℕ) (s : Bytes) (pos : ℕ) (m : ParamMap)
    → length s ≤ pos
    → loop (suc fuel) s pos m ≡ ok m
unfolding loop
loop_done fuel s pos m h = rw (ltb-false pos (length s) h)

pub amp_at_end : (s : Bytes) (i : ℕ) → length s ≡ i → amp_or_end s (find_in b'&' [] i) ≡ i
unfolding find_in
amp_at_end s i h = h

amp_here : (s : Bytes) (i : ℕ) (rest : Bytes) → amp_or_end s (find_in b'&' (b'&' ∷ rest) i) ≡ i
amp_here s i rest = rw (find_in_here b'&' rest i)

loop_query :
    (fuel : ℕ) (s : Bytes) (pos ops : ℕ) (pair : Bytes × Bytes) (pairs m : ParamMap)
    → Starts s pos ops
    → AllClean (pair ∷ pairs)
    → At s ops (query_text pair pairs)
    → length pairs + 1 < fuel
    → loop fuel s pos m ≡ ok (assign_all m (pair ∷ pairs))
loop_query zero s pos ops pair pairs m st w a h = absurd (omega arith)
loop_query (suc zero) s pos ops pair pairs m st w a h = absurd (omega arith)
loop_query (suc (suc fuel)) s pos ops (k, v) [] m st w a h =
    let whole : At s ops (k ++ b'=' ∷ (v ++ [])) = rw (append-nil v) a in
    let size : length s ≡ ops + length k + 1 + length v =
      omega (arith, a.size_is, length-append k (b'=' ∷ v)) in
    loop_round (suc fuel) s pos m st.below
      (round_lem pos st.char k v [] m w.0 st.found st.skips whole (amp_at_end s _ size))
    ∙ loop_done fuel s (ops + length k + 1 + length v + 1) (assign k v m) (omega arith)
loop_query (suc (suc fuel)) s pos ops (k, v) (next ∷ pairs) m st w a h =
    let more : Bytes = query_text next pairs in
    let behind : At s (ops + length k + 1 + length v + 1) more =
      At-skip (b'&' ∷ []) (At-skip v (At-skip (b'=' ∷ []) (At-skip k a))) in
    loop_round (suc fuel) s pos m st.below
      (round_lem pos st.char k v (b'&' ∷ more) m w.0 st.found st.skips a (amp_here s _ more))
    ∙ loop_query (suc fuel) s (ops + length k + 1 + length v + 1)
        (ops + length k + 1 + length v + 1) next pairs (assign k v m)
        (Starts-query_text next pairs w.1.0 behind) w.1 behind (omega arith)

pairs_le_text :
    (pair : Bytes × Bytes) (pairs : ParamMap) → length pairs ≤ length (query_text pair pairs)
pairs_le_text (k, v) [] = omega arith
pairs_le_text (k, v) (next ∷ pairs) = omega (
  arith,
  pairs_le_text next pairs,
  length-append k (b'=' ∷ (v ++ b'&' ∷ query_text next pairs)),
  length-append v (b'&' ∷ query_text next pairs),
)

-- Behind its `?`, a query of pairs with a value each is parsed into exactly these pairs, assigned
-- in order. A key holds no `=`, `&` or `?`, and a value no `&`.
pub parse_params-text :
    (pair : Bytes × Bytes) (pairs : ParamMap)
    → AllClean (pair ∷ pairs)
    → parse_params (b'?' ∷ query_text pair pairs) ≡ ok (assign_all [] (pair ∷ pairs))
unfolding parse_params
parse_params-text pair pairs w =
    loop_query (length s + 1) s 0 1 pair pairs []
      (record { char = b'?'; found = refl; skips = refl; below = omega arith }) w
      (At-skip (b'?' ∷ []) (At-start s)) (omega (arith, pairs_le_text pair pairs))
  where
    s : Bytes
    s = b'?' ∷ query_text pair pairs

pub lookup-assign :
    (k v j : Bytes) (m : ParamMap)
    → lookup j (assign k v m) ≡ (if bytes_eq k j then some v else lookup j m)
unfolding lookup assign
lookup-assign k v j [] = refl
lookup-assign k v j ((i, w) ∷ m) = ground (
  arith,
  bytes_eq→eq i k,
  bytes_eq→eq i j,
  bytes_eq→eq k j,
  bytes_eq_refl k,
  lookup-assign k v j m,
)

-- The value given to a key last, or else `before`.
abbrev pub last_value : Bytes → ParamMap → Option Bytes → Option Bytes
last_value j [] before = before
last_value j ((k, v) ∷ pairs) before = last_value j pairs (if bytes_eq k j then some v else before)

pub lookup-assign_all :
    (j : Bytes) (pairs m : ParamMap)
    → lookup j (assign_all m pairs) ≡ last_value j pairs (lookup j m)
lookup-assign_all j [] m = refl
lookup-assign_all j ((k, v) ∷ pairs) m =
    lookup-assign_all j pairs (assign k v m) ∙ ap (last_value j pairs) (lookup-assign k v j m)

-- Behind its `?`, a query of pairs with a value each is parsed into a map that holds for every key
-- the value which the text gives it last, and nothing for a key that the text does not give. No key
-- holds a `=`, `&` or `?` and no value a `&`: the parser skips a `?` before any key.
pub lookup-parse_params :
    (pair : Bytes × Bytes) (pairs : ParamMap) (key : Bytes)
    → AllClean (pair ∷ pairs)
    → (m : ParamMap) × (parse_params (b'?' ∷ query_text pair pairs) ≡ ok m)
      × (lookup key m ≡ last_value key (pair ∷ pairs) none)
unfolding lookup
lookup-parse_params pair pairs key w = (
  assign_all [] (pair ∷ pairs),
  parse_params-text pair pairs w,
  lookup-assign_all key (pair ∷ pairs) [],
)
