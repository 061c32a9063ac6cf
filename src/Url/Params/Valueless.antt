-- ===== src/Url/Params/Valueless.antt =====
-- What the parameter parser makes of a parameter without a value.
use mtasc.Common.{
  ℕ, suc, ◌+◌, ◌≤◌, ◌≡◌, refl, ap, ◌∙◌, [], ◌∷◌, ◌++◌, append-nil, append_assoc, Bytes, At,
  At-start, At-skip, At-token, length, length-append, ok, arith, ltb-false, some, Lacks,
  Lacks-append,
}
use mtasc.Url.Params.{ParamMap, assign, find, loop, parse_params, empty_parameter, parameter, store}
use mtasc.Url.Params.Total.{parameter_lem}
use mtasc.Url.Params.RoundTrip.{IsClean, round_lem, find_in_skip, find_in_here, find_eq}
use mtasc.Url.Params.Chain.{Starts, Starts-key, loop_round, loop_done, amp_at_end}

store_late :
    (s : Bytes) (m : ParamMap) (key : Bytes) (eq amp : ℕ)
    → amp ≤ eq
    → store s m key (some eq) amp ≡ ok (assign key empty_parameter m)
unfolding store
store_late s m key eq amp h = rw (ltb-false eq amp h)

module _ (name key value : Bytes) (w : IsClean (key, value)) where
  abbrev query : Bytes
  query = b'?' ∷ (name ++ b'&' ∷ (key ++ b'=' ∷ value))

  abbrev joined : Bytes
  joined = name ++ b'&' ∷ key

  valueless-At : At query 1 (joined ++ b'=' ∷ value)
  valueless-At =
      rw (append_assoc name (b'&' ∷ key) (b'=' ∷ value)) (At-skip (b'?' ∷ []) (At-start query))

  -- The `=` that is found stands behind the `&`, so the key runs over it.
  valueless_round :
      Lacks b'=' name
      → Lacks b'&' name
      → parameter query 0 [] ≡ ok (1 + length name + 1, assign joined empty_parameter [])
  valueless_round he ha =
      parameter_lem query 0 1 b'?' [] refl refl (omega arith)
      ∙ rw (
        found_eq,
        found_amp,
        At-token joined (b'=' ∷ value) valueless-At,
        store_late query [] joined (1 + length joined) (1 + length name)
            (omega (arith, length-append name (b'&' ∷ key))),
      )
    where
      found_eq : find query b'=' 1 ≡ some (1 + length joined)
      found_eq =
          find_eq joined value (Lacks-append b'=' name (b'&' ∷ key) he (omega arith, w.key_eq))
            valueless-At

      found_amp : find query b'&' 1 ≡ some (1 + length name)
      found_amp =
          find_in_skip b'&' name (b'&' ∷ (key ++ b'=' ∷ value)) 1 ha
          ∙ find_in_here b'&' (key ++ b'=' ∷ value) (1 + length name)

  second_round :
      (m : ParamMap)
      → parameter query (1 + length name + 1) m
        ≡ ok (1 + length name + 1 + length key + 1 + length value + 1, assign key value m)
  second_round m =
      round_lem (1 + length name + 1) st.char key value [] m w st.found st.skips whole
        (amp_at_end query (1 + length name + 1 + length key + 1 + length value) size)
    where
      behind : At query (1 + length name + 1) (key ++ b'=' ∷ value)
      behind = At-skip (b'&' ∷ []) (At-skip name (At-skip (b'?' ∷ []) (At-start query)))

      whole : At query (1 + length name + 1) (key ++ b'=' ∷ (value ++ []))
      whole = rw (append-nil value) behind

      st : Starts query (1 + length name + 1) (1 + length name + 1)
      st = Starts-key key value w.key_mark behind

      size : length query ≡ 1 + length name + 1 + length key + 1 + length value
      size = omega (arith, behind.size_is, length-append key (b'=' ∷ value))

-- A first parameter without a value loses its name: it is stored, with the placeholder, under a
-- key that runs on over the `&` to the next `=`, while the parameter behind it is stored as it is.
-- The name holds no `=` or `&`, the next key no `=`, `&` or `?`, and its value no `&`.
pub parse_params_valueless :
    (name key value : Bytes)
    → Lacks b'=' name
    → Lacks b'&' name
    → IsClean (key, value)
    → parse_params (b'?' ∷ (name ++ b'&' ∷ (key ++ b'=' ∷ value)))
      ≡ ok (assign key value (assign (name ++ b'&' ∷ key) empty_parameter []))
unfolding parse_params
parse_params_valueless name key value he ha w =
    ap (λ f. loop f s 0 []) rounds
    ∙ loop_round (suc (suc left)) s 0 [] (omega arith) (valueless_round name key value w he ha)
    ∙ loop_round (suc left) s (1 + length name + 1) first (omega (arith, size))
        (second_round name key value w first)
    ∙ loop_done left s (1 + length name + 1 + length key + 1 + length value + 1)
        (assign key value first) (omega (arith, size))
  where
    s : Bytes
    s = query name key value w

    first : ParamMap
    first = assign (name ++ b'&' ∷ key) empty_parameter []

    left : ℕ
    left = length name + length key + length value + 1

    size : length s ≡ length name + length key + length value + 3
    size =
        omega (
          arith,
          length-append name (b'&' ∷ (key ++ b'=' ∷ value)),
          length-append key (b'=' ∷ value),
        )

    rounds : length s + 1 ≡ suc (suc (suc left))
    rounds = omega (arith, size)
