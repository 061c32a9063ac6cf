-- ===== src/Number.antt =====
-- The conversions of the standard library between decimal text and integers that the program uses:
-- `std::stoi` on a port (lib/parser_lib/urlparser_lib.cc) and `std::to_string` on a length
-- (lib/M_maker_httpv1_template.cc).
pub mod RoundTrip
pub mod Total
mod Tests
use mtasc.Common.{
  ℕ, zero, suc, ◌+◌, ◌-◌, ◌*◌, ◌/◌, ◌%◌, ◌^◌, [], ◌∷◌, ◌++◌, Bytes, Bool, true, false, not, ◌&&◌,
  ◌||◌, ltb, leb, ◌==◌, if◌then◌else◌, Outcome, ok, thrown, invalid_argument, out_of_range,
}

-- `negsuc n` is -(n + 1).
pub data ℤ : Type 0 where
  pos : ℕ → ℤ
  negsuc : ℕ → ℤ

abbrev pub is_digit : ℕ → Bool
is_digit c = leb 48 c && leb c 57

-- `isspace` of the C locale.
abbrev pub is_space : ℕ → Bool
is_space c = (leb 9 c && leb c 13) || c == 32

-- The value of the digits in front, in base ten, after those that make up `acc`.
unfoldable pub digits_value : ℕ → Bytes → ℕ
digits_value acc [] = acc
digits_value acc (c ∷ s) =
    let longer = digits_value (acc * 10 + (c - 48)) s in if is_digit c then longer else acc

abbrev pub starts_with_digit : Bytes → Bool
starts_with_digit [] = false
starts_with_digit (c ∷ s) = is_digit c

-- The integers that an `int` of 32 bits holds.
unfoldable pub positive_int : ℕ → Outcome ℤ
positive_int n = if ltb n (2 ^ 31) then ok (pos n) else thrown out_of_range

unfoldable pub negative_int : ℕ → Outcome ℤ
negative_int zero = ok (pos 0)
negative_int (suc n) = if ltb n (2 ^ 31) then ok (negsuc n) else thrown out_of_range

unfoldable pub unsigned_int : Bool → Bytes → Outcome ℤ
unsigned_int minus s =
    if not (starts_with_digit s)
    then thrown invalid_argument
    else if minus
    then negative_int (digits_value 0 s)
    else positive_int (digits_value 0 s)

unfoldable pub signed_int : Bytes → Outcome ℤ
signed_int [] = thrown invalid_argument
signed_int (c ∷ s) =
    if c == b'-'
    then unsigned_int true s
    else if c == b'+'
    then unsigned_int false s
    else unsigned_int false (c ∷ s)

-- `std::stoi`: white space, a sign, digits, and anything behind them.
unfoldable pub stoi : Bytes → Outcome ℤ
stoi [] = thrown invalid_argument
stoi (c ∷ s) = let skipped = stoi s in if is_space c then skipped else signed_int (c ∷ s)

-- The conversion of an `int` to `uint16_t`.
unfoldable pub to_uint16 : ℤ → ℕ
to_uint16 (pos n) = n % 2 ^ 16
to_uint16 (negsuc n) = 2 ^ 16 - 1 - n % 2 ^ 16

-- The digits of `n`, for fuel above `n`.
unfoldable pub decimal : ℕ → ℕ → Bytes
decimal zero n = []
decimal (suc fuel) n =
    let front = decimal fuel (n / 10) in
    if ltb n 10 then (48 + n) ∷ [] else front ++ ((48 + n % 10) ∷ [])

unfoldable pub to_string : ℕ → Bytes
to_string n = decimal (suc n) n
