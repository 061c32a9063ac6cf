-- ===== src/Tcp/Lifetime/Owned.antt =====
-- What a socket owns, and what its destructor does to it.
use mtasc.Common.{ℕ, ◌+◌, ◌≡◌, ◌≢◌, refl, sym, ◌∙◌, length, Bool, Option, none, some, ok, arith}
use mtasc.Tcp.Lifetime.{Memory, delete_resolver, Owners, destroy_tcp}
use mtasc.Tcp.Lifetime.Deletes.{times, times_of, IsHeld, Deleted, delete_resolver_lem}

-- The resolver of a socket, if it has one, is alive, with its list.
abbrev pub OwnerHeld : Option ℕ → Memory → Type 0
OwnerHeld none m = Unit {0}
OwnerHeld (some r) m = IsHeld r m

abbrev pub Apart : Option ℕ → Option ℕ → Type 0
Apart none q = Unit {0}
Apart (some r) none = Unit {0}
Apart (some r) (some q) = r ≢ q

-- Both resolvers of a socket are alive, and they are two.
pub record IsOwned (o : Owners) (m : Memory) : Type 0 where
  pub held4 : OwnerHeld o.ipv4 m
  pub held6 : OwnerHeld o.ipv6 m
  pub apart : Apart o.ipv4 o.ipv6

-- A resolver, if there is one, is no longer alive, nor is its list.
abbrev pub OwnerGone : Option ℕ → Memory → Type 0
OwnerGone none m = Unit {0}
OwnerGone (some r) m = (times_of r m.resolvers ≡ 0) × (times r m.lists ≡ 0)

-- A number, as a resolver and as a list, is alive as often as before.
abbrev pub SameAlive : ℕ → Memory → Memory → Type 0
SameAlive k m m' =
    (times_of k m'.resolvers ≡ times_of k m.resolvers) × (times k m'.lists ≡ times k m.lists)

-- How many resolvers a pointer owns.
abbrev pub owned : Option ℕ → ℕ
owned none = 0
owned (some r) = 1

-- What `delete` of a pointer that may be null makes of the memory.
record OwnerDeleted (r : Option ℕ) (m m' : Memory) : Type 0 where
  lists_left : length m.lists ≡ owned r + length m'.lists
  resolvers_left : length m.resolvers ≡ owned r + length m'.resolvers
  is_gone : OwnerGone r m'
  others_held : (q : Option ℕ) → Apart r q → OwnerHeld q m → OwnerHeld q m'
  others_gone : (q : Option ℕ) → Apart q r → OwnerGone q m → OwnerGone q m'
  others_same : (k : ℕ) → Apart (some k) r → SameAlive k m m'

module _ (r : ℕ) (m m' : Memory) (d : Deleted r m m') where
  others_stay_held : (q : Option ℕ) → Apart (some r) q → OwnerHeld q m → OwnerHeld q m'
  others_stay_held none a w = tt
  others_stay_held (some q) a w = d.others_held q (λ e. a (sym e)) w

  others_stay_gone : (q : Option ℕ) → Apart q (some r) → OwnerGone q m → OwnerGone q m'
  others_stay_gone none a w = tt
  others_stay_gone (some q) a w = (d.other_resolvers q a ∙ w.0, d.other_lists q a ∙ w.1)

delete_owner :
    (takes_null : Bool) (r : Option ℕ) (m : Memory)
    → OwnerHeld r m
    → (m' : Memory) × (delete_resolver takes_null r m ≡ ok m') × OwnerDeleted r m m'
unfolding delete_resolver
delete_owner takes_null none m h = (
  m,
  refl,
  record {
    lists_left = omega arith;
    resolvers_left = omega arith;
    is_gone = tt;
    others_held = λ q a w. w;
    others_gone = λ q a w. w;
    others_same = λ k a. (refl, refl);
  },
)
delete_owner takes_null (some r) m h =
    let (m', e, d) = delete_resolver_lem takes_null r m h in
    (
      m',
      e,
      record {
        lists_left = omega (arith, d.lists_left);
        resolvers_left = omega (arith, d.resolvers_left);
        is_gone = (d.is_gone, d.list_gone);
        others_held = others_stay_held r m m' d;
        others_gone = others_stay_gone r m m' d;
        others_same = λ k a. (d.other_resolvers k a, d.other_lists k a);
      },
    )

-- What is alive beside it when a socket is gone.
pub record Destroyed (o : Owners) (m m' : Memory) : Type 0 where
  pub lists_left : length m.lists ≡ owned o.ipv4 + owned o.ipv6 + length m'.lists
  pub resolvers_left : length m.resolvers ≡ owned o.ipv4 + owned o.ipv6 + length m'.resolvers
  pub gone4 : OwnerGone o.ipv4 m'
  pub gone6 : OwnerGone o.ipv6 m'
  pub others_same : (k : ℕ) → Apart (some k) o.ipv4 → Apart (some k) o.ipv6 → SameAlive k m m'

-- A socket whose resolvers are alive gives back just those, with their lists.
pub destroy_tcp-Destroyed :
    (takes_null : Bool) (o : Owners) (m : Memory)
    → IsOwned o m
    → (m' : Memory) × (destroy_tcp takes_null o m ≡ ok m') × Destroyed o m m'
unfolding destroy_tcp
destroy_tcp-Destroyed takes_null o m h =
    let (m1, e, d) = delete_owner takes_null o.ipv4 m h.held4 in
    let (m2, f, g) = delete_owner takes_null o.ipv6 m1 (d.others_held o.ipv6 h.apart h.held6) in
    (
      m2,
      rw (e, f),
      record {
        lists_left = omega (arith, d.lists_left, g.lists_left);
        resolvers_left = omega (arith, d.resolvers_left, g.resolvers_left);
        gone4 = g.others_gone o.ipv4 h.apart d.is_gone;
        gone6 = g.is_gone;
        others_same = λ k a b. (
          (g.others_same k b).0 ∙ (d.others_same k a).0,
          (g.others_same k b).1 ∙ (d.others_same k a).1,
        );
      },
    )
