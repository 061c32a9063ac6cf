-- ===== src/Url/Params/Unordered.antt =====
-- The parameters of a query as a map that has forgotten its order.
use mathlib.Core.Logic.{∥∥₁_elim}
use mathlib.Core.List.{Perm, Permᴰ, Pairwise, mem-cons_self}
use mathlib.Core.List.Permᴰ
use mathlib.Core.Quot
use mathlib.Core.Quot.{Quot, Quot-set}
use mtasc.Common.{
  ◌≡◌, ◌≢◌, refl, sym, ap, ap₂, ◌∙◌, [], ◌∷◌, Bytes, if◌then◌else◌, Option, some, ok, arith,
  bytes_eq, bytes_eq→eq,
}
use mtasc.Url.Params.{ParamMap, assign, lookup, parse_params}
use mtasc.Url.Params.Chain.{
  query_text, assign_all, AllClean, parse_params-text, lookup-assign, last_value, lookup-assign_all,
}

-- Two maps hold the same value for every key.
abbrev pub SameLookups : ParamMap → ParamMap → Type 0
SameLookups m m' = (k : Bytes) → lookup k m ≡ lookup k m'

-- What a `std::map` is to its clients.
abbrev pub QueryMap : Type 0
QueryMap = Quot SameLookups

unfoldable pub at : Bytes → QueryMap → Option Bytes
at k = Quot.lift (hlevel) (lookup k) (λ m m' h. h k)

pub assign-SameLookups :
    (k v : Bytes) (m m' : ParamMap) → SameLookups m m' → SameLookups (assign k v m) (assign k v m')
assign-SameLookups k v m m' h j =
    lookup-assign k v j m
    ∙ ap (λ (o : Option Bytes). if bytes_eq k j then some v else o) (h j)
    ∙ sym (lookup-assign k v j m')

unfoldable pub put : Bytes → Bytes → QueryMap → QueryMap
put k v =
    Quot.lift Quot-set (λ m. Quot.mk (assign k v m))
      (λ m m' h. Quot.sound (assign-SameLookups k v m m' h))

pub at-put :
    (k v j : Bytes) (q : QueryMap) → at j (put k v q) ≡ (if bytes_eq k j then some v else at j q)
unfolding at put
at-put k v j = Quot.ind (λ q. (hlevel)) (λ m. lookup-assign k v j m)

-- No key is given twice.
abbrev pub IsDistinct : ParamMap → Type 0
IsDistinct = Pairwise (λ p q. p.0 ≢ q.0)

-- Two pairs with different keys can be assigned in either order.
swap_pairs :
    (j : Bytes) (p q : Bytes × Bytes) (before : Option Bytes)
    → p.0 ≢ q.0
    → (if bytes_eq q.0 j then some q.1 else (if bytes_eq p.0 j then some p.1 else before))
      ≡ (if bytes_eq p.0 j then some p.1 else (if bytes_eq q.0 j then some q.1 else before))
swap_pairs j p q before ne = ground (arith, bytes_eq→eq p.0 j, bytes_eq→eq q.0 j, ne)

IsDistinct-perm : {ps qs : ParamMap} → Permᴰ ps qs → IsDistinct ps → IsDistinct qs
IsDistinct-perm h d = Permᴰ.pairwise (λ x y. (hlevel)) (λ x y ne e. ne (sym e)) h d

last_value-perm :
    (j : Bytes) {ps qs : ParamMap}
    → Permᴰ ps qs
    → IsDistinct ps
    → (before : Option Bytes) → last_value j ps before ≡ last_value j qs before
last_value-perm j Permᴰ.nil d before = refl
last_value-perm j (Permᴰ.cons {b = b} {l₁ = ps} {l₂ = qs} e h) (Pairwise.cons new d) before =
    ap (λ (p : Bytes × Bytes). last_value j ps (if bytes_eq p.0 j then some p.1 else before)) e
    ∙ last_value-perm j h d (if bytes_eq b.0 j then some b.1 else before)
last_value-perm j (Permᴰ.swap {a = a} {b = b} {l = l} e f) (Pairwise.cons new d) before =
    ap (last_value j l) (
      swap_pairs j a b before (new b mem-cons_self)
      ∙ ap₂
          (λ (p q : Bytes × Bytes).
            if bytes_eq p.0 j then some p.1 else (if bytes_eq q.0 j then some q.1 else before))
          e f)
last_value-perm j (Permᴰ.trans h k) d before =
    last_value-perm j h d before ∙ last_value-perm j k (IsDistinct-perm h d) before

-- The map that a client sees of the pairs.
abbrev pub map_of : ParamMap → QueryMap
map_of pairs = Quot.mk (assign_all [] pairs)

map_of-perm : (ps qs : ParamMap) → Perm ps qs → IsDistinct ps → map_of ps ≡ map_of qs
map_of-perm ps qs h d = ∥∥₁_elim h (Quot-set _ _) (λ p. Quot.sound (λ j.
    lookup-assign_all j ps []
    ∙ last_value-perm j p d (lookup j [])
    ∙ sym (lookup-assign_all j qs [])))

-- The order of the parameters is forgotten: two queries of pairs with a value each, which are those
-- of one another in another order, are both parsed, and into the same map for a client, if no key
-- is given twice. A key holds no `=`, `&` or `?`, and a value no `&`.
pub parse_params-perm :
    (p q : Bytes × Bytes) (ps qs : ParamMap)
    → AllClean (p ∷ ps)
    → AllClean (q ∷ qs)
    → IsDistinct (p ∷ ps)
    → Perm (p ∷ ps) (q ∷ qs)
    → (m m' : ParamMap) × (parse_params (b'?' ∷ query_text p ps) ≡ ok m)
      × (parse_params (b'?' ∷ query_text q qs) ≡ ok m')
      × (◌≡◌ {A = QueryMap} (Quot.mk m) (Quot.mk m'))
parse_params-perm p q ps qs w w' d h = (
  assign_all [] (p ∷ ps),
  assign_all [] (q ∷ qs),
  parse_params-text p ps w,
  parse_params-text q qs w',
  map_of-perm (p ∷ ps) (q ∷ qs) h d,
)
