-- ===== src/Url/Params/RoundTrip.antt =====
-- The parameter parser reads back the parameters of a query that gives each a value.
use mtasc.Common.{
  ℕ, suc, ◌+◌, ◌-◌, ◌≡◌, ◌≢◌, ap, ◌∙◌, [], ◌∷◌, ◌++◌, Bytes, At, At-skip, At-slice, At-token, Lacks,
  char_at, length, some, ok, arith, ==_refl, ==_false, ltb-true,
}
use mtasc.Url.Params.{ParamMap, assign, find_in, find, amp_or_end, store, parameter}
use mtasc.Url.Params.Total.{skipped, parameter_lem, substr_lem}

pub find_in_skip :
    (c : ℕ) (xs ys : Bytes) (i : ℕ)
    → Lacks c xs
    → find_in c (xs ++ ys) i ≡ find_in c ys (i + length xs)
unfolding find_in
find_in_skip c [] ys i h = let e : i ≡ i + 0 = omega arith in ap (find_in c ys) e
find_in_skip c (x ∷ xs) ys i h =
    let e : i + 1 + length xs ≡ i + suc (length xs) = omega arith in
    rw (==_false x c h.0) (find_in_skip c xs ys (i + 1) h.1 ∙ ap (find_in c ys) e)

pub find_in_here : (c : ℕ) (ys : Bytes) (i : ℕ) → find_in c (c ∷ ys) i ≡ some i
unfolding find_in
find_in_here c ys i = rw (==_refl c)

pub find_in_next :
    (c x : ℕ) (ys : Bytes) (i : ℕ) → x ≢ c → find_in c (x ∷ ys) i ≡ find_in c ys (i + 1)
unfolding find_in
find_in_next c x ys i h = rw (==_false x c h)

-- The key ends at its `=`.
pub find_eq :
    {s : Bytes} {ops : ℕ} (key rest : Bytes)
    → Lacks b'=' key
    → At s ops (key ++ b'=' ∷ rest)
    → find s b'=' ops ≡ some (ops + length key)
find_eq {s} {ops} key rest h a =
    rw a.rest_is
      (find_in_skip b'=' key (b'=' ∷ rest) ops h ∙ find_in_here b'=' rest (ops + length key))

-- The search for `&` comes to what stands behind the value.
find_amp :
    {s : Bytes} {ops : ℕ} (key value rest : Bytes)
    → Lacks b'&' key
    → Lacks b'&' value
    → At s ops (key ++ b'=' ∷ (value ++ rest))
    → find s b'&' ops ≡ find_in b'&' rest (ops + length key + 1 + length value)
find_amp {s} {ops} key value rest h k a = rw a.rest_is (
    find_in_skip b'&' key (b'=' ∷ (value ++ rest)) ops h
    ∙ find_in_next b'&' b'=' (value ++ rest) (ops + length key) (omega arith)
    ∙ find_in_skip b'&' value rest (ops + length key + 1) k)

-- A pair of which the text gives both parts.
pub record IsClean (pair : Bytes × Bytes) : Type 0 where
  pub key_eq : Lacks b'=' pair.0
  pub key_amp : Lacks b'&' pair.0
  pub key_mark : Lacks b'?' pair.0
  pub value_amp : Lacks b'&' pair.1

store_lem :
    {s : Bytes} {ops : ℕ} (key value rest : Bytes) (m : ParamMap)
    → At s ops (key ++ b'=' ∷ (value ++ rest))
    → store s m key (some (ops + length key)) (ops + length key + 1 + length value)
      ≡ ok (assign key value m)
unfolding store
store_lem {s} {ops} key value rest m a =
    let behind : At s (ops + length key + 1) (value ++ rest) =
      At-skip (b'=' ∷ []) (At-skip key a) in
    let count : ops + length key + 1 + length value - (ops + length key) - 1 ≡ length value =
      omega arith in
    rw (
      ltb-true (ops + length key) (ops + length key + 1 + length value) (omega arith),
      substr_lem s (ops + length key + 1)
          (ops + length key + 1 + length value - (ops + length key) - 1)
          (omega (arith, behind.size_is)),
      count,
      At-slice value rest behind,
    )

-- A round at a pair, whatever `amp` the search comes to.
pub round_lem :
    {s : Bytes} {ops : ℕ} (pos c : ℕ) (key value rest : Bytes) (m : ParamMap)
    → IsClean (key, value)
    → char_at s pos ≡ some c
    → skipped c pos ≡ ops
    → At s ops (key ++ b'=' ∷ (value ++ rest))
    → amp_or_end s (find_in b'&' rest (ops + length key + 1 + length value))
      ≡ ops + length key + 1 + length value
    → parameter s pos m ≡ ok (ops + length key + 1 + length value + 1, assign key value m)
round_lem {s} {ops} pos c key value rest m w p e a amp =
    parameter_lem s pos ops c m p e (omega (arith, a.size_is))
    ∙ rw (
      find_eq key (value ++ rest) w.key_eq a,
      find_amp key value rest w.key_amp w.value_amp a,
      amp,
      At-token key (b'=' ∷ (value ++ rest)) a,
      store_lem key value rest m a,
    )
