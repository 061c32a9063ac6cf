-- ===== src/Number/RoundTrip.antt =====
-- What `std::to_string` prints, `std::stoi` reads back.
use mtasc.Common.{
  ℕ, zero, suc, ◌+◌, ◌-◌, ◌*◌, ◌/◌, ◌%◌, ◌^◌, ◌<◌, ◌≡◌, refl, ◌∙◌, [], ◌∷◌, ◌++◌, Bytes, true,
  false, ltb, ltb-true, Bool-cases, inl, inr, ok, Lacks, arith,
}
use mtasc.Number.{
  pos, is_digit, digits_value, starts_with_digit, positive_int, unsigned_int, signed_int, stoi,
  decimal, to_string,
}

-- Every byte is a decimal digit.
abbrev pub AllDigits : Bytes → Type 0
AllDigits [] = Unit {0}
AllDigits (c ∷ s) = (is_digit c ≡ true) × AllDigits s

digits_value-append :
    (acc : ℕ) (xs ys : Bytes)
    → AllDigits xs
    → digits_value acc (xs ++ ys) ≡ digits_value (digits_value acc xs) ys
unfolding digits_value
digits_value-append acc [] ys h = refl
digits_value-append acc (c ∷ xs) ys h = rw h.0 (digits_value-append (acc * 10 + (c - 48)) xs ys h.1)

AllDigits-append : (xs ys : Bytes) → AllDigits xs → AllDigits ys → AllDigits (xs ++ ys)
AllDigits-append [] ys h k = k
AllDigits-append (c ∷ xs) ys h k = (h.0, AllDigits-append xs ys h.1 k)

digit_lem : (d : ℕ) → d < 10 → is_digit (48 + d) ≡ true
digit_lem d h = ground arith

decimal-AllDigits : (fuel n : ℕ) → AllDigits (decimal fuel n)
unfolding decimal
decimal-AllDigits zero n = tt
decimal-AllDigits (suc fuel) n = elim (Bool-cases (ltb n 10)) [
  | inl small ↦ rw small (ground arith, tt)
  | inr large ↦ rw large (
      AllDigits-append (decimal fuel (n / 10)) ((48 + n % 10) ∷ [])
        (decimal-AllDigits fuel (n / 10)) (digit_lem (n % 10) (omega arith), tt))
]

value_of_digit : (acc d : ℕ) → d < 10 → digits_value acc ((48 + d) ∷ []) ≡ acc * 10 + d
unfolding digits_value
value_of_digit acc d h = ground arith

digits_value-decimal : (fuel n : ℕ) → n < fuel → digits_value 0 (decimal fuel n) ≡ n
unfolding decimal
digits_value-decimal zero n h = absurd (omega arith)
digits_value-decimal (suc fuel) n h = elim (Bool-cases (ltb n 10)) [
  | inl small ↦ rw small (value_of_digit 0 n (ground arith) ∙ omega arith)
  | inr large ↦
      rw
        (
          large,
          digits_value-append 0 (decimal fuel (n / 10)) ((48 + n % 10) ∷ [])
              (decimal-AllDigits fuel (n / 10)),
          digits_value-decimal fuel (n / 10) (ground arith),
          value_of_digit (n / 10) (n % 10) (omega arith),
        )
        (omega arith)
]

-- The number that a run of digits stands for is what `std::to_string` was given.
pub digits_value-to_string : (n : ℕ) → digits_value 0 (to_string n) ≡ n
unfolding to_string
digits_value-to_string n = digits_value-decimal (suc n) n (omega arith)

pub to_string-AllDigits : (n : ℕ) → AllDigits (to_string n)
unfolding to_string
to_string-AllDigits n = decimal-AllDigits (suc n) n

starts_with_digit-append :
    (xs ys : Bytes) → starts_with_digit xs ≡ true → starts_with_digit (xs ++ ys) ≡ true
starts_with_digit-append [] ys h = absurd (cc)
starts_with_digit-append (c ∷ xs) ys h = h

starts_with_digit-decimal : (fuel n : ℕ) → n < fuel → starts_with_digit (decimal fuel n) ≡ true
unfolding decimal
starts_with_digit-decimal zero n h = absurd (omega arith)
starts_with_digit-decimal (suc fuel) n h = elim (Bool-cases (ltb n 10)) [
  | inl small ↦ rw small (ground arith)
  | inr large ↦ rw large (
      starts_with_digit-append (decimal fuel (n / 10)) ((48 + n % 10) ∷ [])
        (starts_with_digit-decimal fuel (n / 10) (ground arith)))
]

stoi_of_digit : (s : Bytes) → starts_with_digit s ≡ true → stoi s ≡ positive_int (digits_value 0 s)
unfolding stoi signed_int unsigned_int
stoi_of_digit [] h = absurd (cc)
stoi_of_digit (c ∷ s) h = ground arith

-- `std::stoi` reads back what `std::to_string` prints, for every number that an `int` holds.
pub stoi-to_string : (n : ℕ) → n < 2 ^ 31 → stoi (to_string n) ≡ ok (pos n)
unfolding positive_int to_string
stoi-to_string n h =
    stoi_of_digit (to_string n) (starts_with_digit-decimal (suc n) n (omega arith))
    ∙ rw (digits_value-decimal (suc n) n (omega arith), ltb-true n (2 ^ 31) h)

-- `std::stoi` reads the value of any run of digits that an `int` holds.
pub stoi_of_digits :
    (s : Bytes)
    → starts_with_digit s ≡ true
    → digits_value 0 s < 2 ^ 31
    → stoi s ≡ ok (pos (digits_value 0 s))
unfolding positive_int
stoi_of_digits s h k = stoi_of_digit s h ∙ rw (ltb-true (digits_value 0 s) (2 ^ 31) k)

-- A byte that is no digit stands in no run of digits.
pub AllDigits-Lacks : (c : ℕ) → is_digit c ≡ false → (s : Bytes) → AllDigits s → Lacks c s
AllDigits-Lacks c e [] h = tt
AllDigits-Lacks c e (x ∷ s) h = (λ same. cc (rw same at h.0), AllDigits-Lacks c e s h.1)
