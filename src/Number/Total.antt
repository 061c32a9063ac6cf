-- ===== src/Number/Total.antt =====
-- `std::stoi` ends on every text, with an `int` or an exception.
use mtasc.Common.{ℕ, zero, suc, ◌∷◌, [], Bytes, Bool, true, false, Ends, arith}
use mtasc.Number.{stoi, positive_int, negative_int, signed_int, unsigned_int}

positive_int-Ends : (n : ℕ) → Ends (positive_int n)
unfolding positive_int
positive_int-Ends n = ground arith

negative_int-Ends : (n : ℕ) → Ends (negative_int n)
unfolding negative_int
negative_int-Ends zero = tt
negative_int-Ends (suc n) = ground arith

unsigned_int-Ends : (minus : Bool) (s : Bytes) → Ends (unsigned_int minus s)
unfolding unsigned_int
unsigned_int-Ends minus s = grind (arith, positive_int-Ends, negative_int-Ends)

signed_int-Ends : (s : Bytes) → Ends (signed_int s)
unfolding signed_int
signed_int-Ends [] = tt
signed_int-Ends (c ∷ s) =
    ground
      (arith, unsigned_int-Ends true s, unsigned_int-Ends false s, unsigned_int-Ends false (c ∷ s))

pub stoi-Ends : (s : Bytes) → Ends (stoi s)
unfolding stoi
stoi-Ends [] = tt
stoi-Ends (c ∷ s) = ground (arith, stoi-Ends s, signed_int-Ends (c ∷ s))
