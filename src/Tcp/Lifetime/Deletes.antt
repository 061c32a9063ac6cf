-- ===== src/Tcp/Lifetime/Deletes.antt =====
-- What `delete` does to the memory.
use mtasc.Common.{
  ℕ, suc, ◌≡◌, ◌≢◌, refl, ap, ◌∙◌, List, [], ◌∷◌, length, Bool, ◌==◌, Bool-cases, if◌then◌else◌,
  Option, none, some, ok, out_of_bounds, ◌>>=◌, inl, inr, arith,
}
use mtasc.Tcp.Lifetime.{
  Memory, take_list, free_addrinfo, destroy_resolver, take_resolver, delete_resolver,
}

unfoldable pub times : ℕ → List ℕ → ℕ
times k [] = 0
times k (q ∷ lists) = if q == k then suc (times k lists) else times k lists

unfoldable pub times_of : ℕ → List (ℕ × Option ℕ) → ℕ
times_of k [] = 0
times_of k (r ∷ resolvers) = if r.0 == k then suc (times_of k resolvers) else times_of k resolvers

unfoldable pub pointer_of : ℕ → List (ℕ × Option ℕ) → Option ℕ
pointer_of k [] = none
pointer_of k (r ∷ resolvers) = if r.0 == k then r.1 else pointer_of k resolvers

-- What is left of a list when `p` is taken out once.
record Taken (p n : ℕ) (lists rest : List ℕ) : Type 0 where
  one_less : length lists ≡ suc (length rest)
  left_over : times p rest ≡ n
  others : (k : ℕ) → k ≢ p → times k rest ≡ times k lists

take_list_lem :
    (p : ℕ) (lists : List ℕ) (n : ℕ)
    → times p lists ≡ suc n
    → (rest : List ℕ) × (take_list p lists ≡ ok rest) × Taken p n lists rest
unfolding times take_list
take_list_lem p [] n h = absurd (omega arith)
take_list_lem p (q ∷ lists) n h = elim (Bool-cases (q == p)) [
  | inl e ↦ (
    lists,
    rw e,
    record { one_less = refl; left_over = ground (arith, e); others = λ k ne. ground (arith, e) },
  )
  | inr e ↦
      let (rest, f, t) = take_list_lem p lists n (ground (arith, e)) in
      (
        q ∷ rest,
        rw (e, f),
        record {
          one_less = ap suc t.one_less;
          left_over = ground (arith, e, t.left_over);
          others = λ k ne. ground (arith, t.others k ne);
        },
      )
]

take_list_gone : (p : ℕ) (lists : List ℕ) → times p lists ≡ 0 → take_list p lists ≡ out_of_bounds
unfolding times take_list
take_list_gone p [] h = refl
take_list_gone p (q ∷ lists) h = elim (Bool-cases (q == p)) [
  | inl e ↦ absurd (ground (arith, e))
  | inr e ↦ rw (e, take_list_gone p lists (ground (arith, e)))
]

-- A list that is alive is given back once, not twice.
pub destroy_resolver_twice :
    (takes_null : Bool) (p : ℕ) (m : Memory)
    → times p m.lists ≡ 1
    → (destroy_resolver takes_null (some p) m >>= destroy_resolver takes_null (some p))
      ≡ out_of_bounds
unfolding destroy_resolver free_addrinfo
destroy_resolver_twice takes_null p m h =
    let (lists, e, t) = take_list_lem p m.lists 0 h in rw (e, take_list_gone p lists t.left_over)

-- The same for the resolvers, with the pointer of the one that is taken out.
record TakenOf (r n : ℕ) (resolvers rest : List (ℕ × Option ℕ)) : Type 0 where
  one_less : length resolvers ≡ suc (length rest)
  left_over : times_of r rest ≡ n
  others : (k : ℕ) → k ≢ r → times_of k rest ≡ times_of k resolvers
  pointers : (k : ℕ) → k ≢ r → pointer_of k rest ≡ pointer_of k resolvers

take_resolver_lem :
    (r : ℕ) (resolvers : List (ℕ × Option ℕ)) (n : ℕ)
    → times_of r resolvers ≡ suc n
    → (rest : List (ℕ × Option ℕ)) × (take_resolver r resolvers ≡ ok (pointer_of r resolvers, rest))
      × TakenOf r n resolvers rest
unfolding times_of take_resolver pointer_of
take_resolver_lem r [] n h = absurd (omega arith)
take_resolver_lem r ((q, a) ∷ resolvers) n h = elim (Bool-cases (q == r)) [
  | inl e ↦ (
    resolvers,
    rw e,
    record {
      one_less = refl;
      left_over = ground (arith, e);
      others = λ k ne. ground (arith, e);
      pointers = λ k ne. ground (arith, e);
    },
  )
  | inr e ↦
      let (rest, f, t) = take_resolver_lem r resolvers n (ground (arith, e)) in
      (
        (q, a) ∷ rest,
        rw (e, f),
        record {
          one_less = ap suc t.one_less;
          left_over = ground (arith, e, t.left_over);
          others = λ k ne. ground (arith, t.others k ne);
          pointers = λ k ne. ground (arith, t.pointers k ne);
        },
      )
]

take_resolver_gone :
    (r : ℕ) (resolvers : List (ℕ × Option ℕ))
    → times_of r resolvers ≡ 0
    → take_resolver r resolvers ≡ out_of_bounds
unfolding times_of take_resolver
take_resolver_gone r [] h = refl
take_resolver_gone r ((q, a) ∷ resolvers) h = elim (Bool-cases (q == r)) [
  | inl e ↦ absurd (ground (arith, e))
  | inr e ↦ rw (e, take_resolver_gone r resolvers (ground (arith, e)))
]

-- A resolver that is alive, once, with a list of its own that is alive, once.
pub record IsHeld (r : ℕ) (m : Memory) : Type 0 where
  pub pointer : pointer_of r m.resolvers ≡ some r
  pub resolver_once : times_of r m.resolvers ≡ 1
  pub list_once : times r m.lists ≡ 1

-- What `delete` makes of the memory.
pub record Deleted (r : ℕ) (m m' : Memory) : Type 0 where
  pub resolvers_left : length m.resolvers ≡ suc (length m'.resolvers)
  pub lists_left : length m.lists ≡ suc (length m'.lists)
  pub is_gone : times_of r m'.resolvers ≡ 0
  pub list_gone : times r m'.lists ≡ 0
  pub other_resolvers : (k : ℕ) → k ≢ r → times_of k m'.resolvers ≡ times_of k m.resolvers
  pub other_lists : (k : ℕ) → k ≢ r → times k m'.lists ≡ times k m.lists
  pub others_held : (k : ℕ) → k ≢ r → IsHeld k m → IsHeld k m'

pub delete_resolver_lem :
    (takes_null : Bool) (r : ℕ) (m : Memory)
    → IsHeld r m
    → (m' : Memory) × (delete_resolver takes_null (some r) m ≡ ok m') × Deleted r m m'
unfolding delete_resolver destroy_resolver free_addrinfo
delete_resolver_lem takes_null r m h =
    let (rest, e, t) = take_resolver_lem r m.resolvers 0 h.resolver_once in
    let (lists, f, u) = take_list_lem r m.lists 0 h.list_once in
    (
      record { next = m.next; lists = lists; resolvers = rest },
      rw (e, h.pointer, destroy_resolver, free_addrinfo, f),
      record {
        resolvers_left = t.one_less;
        lists_left = u.one_less;
        is_gone = t.left_over;
        list_gone = u.left_over;
        other_resolvers = t.others;
        other_lists = u.others;
        others_held = λ k ne w. record {
          pointer = t.pointers k ne ∙ w.pointer;
          resolver_once = t.others k ne ∙ w.resolver_once;
          list_once = u.others k ne ∙ w.list_once;
        };
      },
    )

pub delete_resolver_gone :
    (takes_null : Bool) (r : ℕ) (m : Memory)
    → times_of r m.resolvers ≡ 0
    → delete_resolver takes_null (some r) m ≡ out_of_bounds
unfolding delete_resolver
delete_resolver_gone takes_null r m h = rw (take_resolver_gone r m.resolvers h)
