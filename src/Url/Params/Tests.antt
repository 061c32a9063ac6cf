-- ===== src/Url/Params/Tests.antt =====
-- Runs of the parameter parser.
use mathlib.Core.Quot
use mathlib.Core.List.{Pairwise-pair}
use mathlib.Core.List.Perm
use mtasc.Common.{◌≢◌, ◌↔◌, ◌≡◌, refl, Bytes, none, ◌++◌, Lacks-of_lacks, codes, ok, [], ◌∷◌}
use mtasc.Url.Params.{ParamMap, parse_params, find_in, assign, lookup, empty_parameter}
use mtasc.Url.Params.Total.{parse_params_total}
use mtasc.Url.Params.RoundTrip.{IsClean}
use mtasc.Url.Params.Chain.{
  query_text, assign_all, last_value, parse_params-text, lookup-parse_params,
}
use mtasc.Url.Params.Unordered.{IsDistinct, QueryMap, parse_params-perm}
use mtasc.Url.Params.Valueless.{parse_params_valueless}

two_params :
    parse_params (codes "?name=jack&age=20")
    ≡ ok ((codes "name", codes "jack") ∷ (codes "age", codes "20") ∷ [])
unfolding parse_params find_in assign
two_params = refl

valueless_param :
    parse_params (codes "?a&b=1")
    ≡ ok ((codes "a&b", empty_parameter) ∷ (codes "b", codes "1") ∷ [])
unfolding parse_params find_in assign
valueless_param = refl

parse_params_total_example : (m : ParamMap) × (parse_params (codes "?&=?&&=") ≡ ok m)
parse_params_total_example = parse_params_total (codes "?&=?&&=")

abbrev name_pair : Bytes × Bytes
name_pair = (codes "name", codes "jack")

abbrev age_pair : Bytes × Bytes
age_pair = (codes "age", codes "20")

name_pair-IsClean : IsClean name_pair
name_pair-IsClean = record {
  key_eq = Lacks-of_lacks b'=' (codes "name") refl;
  key_amp = Lacks-of_lacks b'&' (codes "name") refl;
  key_mark = Lacks-of_lacks b'?' (codes "name") refl;
  value_amp = Lacks-of_lacks b'&' (codes "jack") refl;
}

age_pair-IsClean : IsClean age_pair
age_pair-IsClean = record {
  key_eq = Lacks-of_lacks b'=' (codes "age") refl;
  key_amp = Lacks-of_lacks b'&' (codes "age") refl;
  key_mark = Lacks-of_lacks b'?' (codes "age") refl;
  value_amp = Lacks-of_lacks b'&' (codes "20") refl;
}

parse_params-text_test :
    parse_params (b'?' ∷ query_text name_pair (age_pair ∷ []))
    ≡ ok (assign_all [] (name_pair ∷ age_pair ∷ []))
parse_params-text_test =
    parse_params-text name_pair (age_pair ∷ []) (name_pair-IsClean, (age_pair-IsClean, tt))

lookup-parse_params_example :
    (m : ParamMap) × (parse_params (b'?' ∷ query_text name_pair (age_pair ∷ [])) ≡ ok m)
    × (lookup (codes "age") m ≡ last_value (codes "age") (name_pair ∷ age_pair ∷ []) none)
lookup-parse_params_example =
    lookup-parse_params name_pair (age_pair ∷ []) (codes "age")
      (name_pair-IsClean, (age_pair-IsClean, tt))

parse_params_valueless_example :
    parse_params (b'?' ∷ (codes "a" ++ b'&' ∷ (codes "age" ++ b'=' ∷ codes "20")))
    ≡ ok (
        assign
          (codes "age")
          (codes "20")
          (assign (codes "a" ++ b'&' ∷ codes "age") empty_parameter []))
parse_params_valueless_example =
    parse_params_valueless (codes "a") (codes "age") (codes "20")
      (Lacks-of_lacks b'=' (codes "a") refl) (Lacks-of_lacks b'&' (codes "a") refl) age_pair-IsClean

IsDistinct-pair : IsDistinct (name_pair ∷ age_pair ∷ []) ↔ (name_pair.0 ≢ age_pair.0)
IsDistinct-pair = Pairwise-pair (λ p q. (hlevel))

parse_params-perm_example :
    (m m' : ParamMap) × (parse_params (codes "?name=jack&age=20") ≡ ok m)
    × (parse_params (codes "?age=20&name=jack") ≡ ok m')
    × (◌≡◌ {A = QueryMap} (Quot.mk m) (Quot.mk m'))
parse_params-perm_example =
    parse_params-perm name_pair age_pair (age_pair ∷ []) (name_pair ∷ [])
      (name_pair-IsClean, (age_pair-IsClean, tt)) (age_pair-IsClean, (name_pair-IsClean, tt))
      (IsDistinct-pair.1 (λ e. cc)) (Perm.swap age_pair name_pair [])
