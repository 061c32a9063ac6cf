-- ===== src/Common/Slices.antt =====
-- The reads of a `std::string` or a byte array by position, through the suffix at a position.
use Prim.Native.Nat.{ℕ, zero, suc, ◌+◌, ◌-◌, ◌≤◌}
use mathlib.Core.Path.{◌≡◌, refl, ap, sym, ◌∙◌}
use mathlib.Core.Logic.{◌≢◌, inl, inr}
use mathlib.Core.List.{List, [], ◌∷◌, ◌++◌}
use mathlib.Core.Option.{Option, none, some}
use mathlib.Core.Bool.{Bool, true, false, ◌&&◌}
use native.Mathlib.Omega.{arith}
use mtasc.Common.Lists.{
  length, take, drop, length-append, take-append, drop-append, drop-drop, take_all,
}
use mtasc.Common.Tests.{◌==◌, if◌then◌else◌, Bool-cases, ==→ne}

abbrev pub Bytes : Type 0
Bytes = List ℕ

-- `std::string(data + pos, n)`, and `substr(pos, n)` for `pos <= size()`.
abbrev pub slice : Bytes → ℕ → ℕ → Bytes
slice s pos n = take n (drop pos s)

abbrev pub bytes_eq : Bytes → Bytes → Bool
bytes_eq [] [] = true
bytes_eq [] (y ∷ ys) = false
bytes_eq (x ∷ xs) [] = false
bytes_eq (x ∷ xs) (y ∷ ys) = (x == y) && bytes_eq xs ys

pub bytes_eq_refl : (xs : Bytes) → bytes_eq xs xs ≡ true
bytes_eq_refl [] = refl
bytes_eq_refl (x ∷ xs) = ground (arith, bytes_eq_refl xs)

pub bytes_eq→eq : (xs ys : Bytes) → bytes_eq xs ys ≡ true → xs ≡ ys
bytes_eq→eq [] [] h = refl
bytes_eq→eq [] (y ∷ ys) h = cc
bytes_eq→eq (x ∷ xs) [] h = cc
bytes_eq→eq (x ∷ xs) (y ∷ ys) h = ground (arith, bytes_eq→eq xs ys)

-- `rest` is the text from position `pos` on.
pub record At (s : Bytes) (pos : ℕ) (rest : Bytes) : Type 0 where
  pub rest_is : drop pos s ≡ rest
  pub size_is : length s ≡ pos + length rest

pub At-start : (s : Bytes) → At s 0 s
At-start s = record { rest_is = refl; size_is = omega arith }

pub At-skip :
    {s rest : Bytes} {pos : ℕ} (xs : Bytes) → At s pos (xs ++ rest) → At s (pos + length xs) rest
At-skip {s} {rest} {pos} xs a = record { rest_is = suffix; size_is = size }
  where
    suffix : drop (pos + length xs) s ≡ rest
    suffix =
        sym (drop-drop (length xs) pos s) ∙ ap (drop (length xs)) a.rest_is ∙ drop-append xs rest

    size : length s ≡ pos + length xs + length rest
    size = omega (arith, length-append xs rest, a.size_is)

pub At-slice :
    {s : Bytes} {pos : ℕ} (xs rest : Bytes) → At s pos (xs ++ rest) → slice s pos (length xs) ≡ xs
At-slice xs rest a = rw a.rest_is (take-append xs rest)

pub At-end : {s rest : Bytes} {pos : ℕ} → At s pos rest → slice s pos (length s - pos) ≡ rest
At-end {s} {rest} {pos} a =
    let e : length s - pos ≡ length rest = omega (arith, a.size_is) in
    rw (e, a.rest_is) (take_all (length rest) rest (omega arith))

-- Character `i` of a `std::string`: the terminator at `size()`, and nothing past it.
abbrev pub char_at : Bytes → ℕ → Option ℕ
char_at [] zero = some 0
char_at [] (suc i) = none
char_at (x ∷ xs) zero = some x
char_at (x ∷ xs) (suc i) = char_at xs i

pub char_at-drop :
    (s : Bytes) (pos c : ℕ) (rest : Bytes) → drop pos s ≡ c ∷ rest → char_at s pos ≡ some c
char_at-drop [] zero c rest h = absurd (cc)
char_at-drop [] (suc pos) c rest h = absurd (cc)
char_at-drop (x ∷ s) zero c rest h = ground arith
char_at-drop (x ∷ s) (suc pos) c rest h = char_at-drop s pos c rest h

pub At-char : {s rest : Bytes} {pos c : ℕ} → At s pos (c ∷ rest) → char_at s pos ≡ some c
At-char {s} {rest} {pos} {c} a = char_at-drop s pos c rest a.rest_is

pub char_at_in : (s : Bytes) (i : ℕ) → i ≤ length s → (c : ℕ) × (char_at s i ≡ some c)
char_at_in [] zero h = (0, refl)
char_at_in [] (suc i) h = absurd (omega arith)
char_at_in (x ∷ xs) zero h = (x, refl)
char_at_in (x ∷ xs) (suc i) h = char_at_in xs i (omega arith)

some_number : (a b : ℕ) → ◌≡◌ {A = Option ℕ} (some a) (some b) → a ≡ b
some_number a b h = cc

-- Below `size()` a read gives the character there, and only a character other than the terminator
-- is known to stand below it.
pub char_at_below : (s : Bytes) (i c : ℕ) → char_at s i ≡ some (suc c) → suc i ≤ length s
char_at_below [] zero c h = absurd (omega (arith, some_number 0 (suc c) h))
char_at_below [] (suc i) c h = absurd (cc)
char_at_below (x ∷ xs) zero c h = omega arith
char_at_below (x ∷ xs) (suc i) c h = omega (arith, char_at_below xs i c h)

pub char_at_beyond : (s : Bytes) (i : ℕ) → suc (length s) ≤ i → char_at s i ≡ none
char_at_beyond [] zero h = absurd (omega arith)
char_at_beyond [] (suc i) h = refl
char_at_beyond (x ∷ xs) zero h = absurd (omega arith)
char_at_beyond (x ∷ xs) (suc i) h = char_at_beyond xs i (omega arith)

-- Two characters read at the end are the suffix there.
pub last_two :
    (s : Bytes) (i c d : ℕ)
    → i + 2 ≡ length s
    → char_at s i ≡ some c
    → char_at s (i + 1) ≡ some d
    → drop i s ≡ c ∷ d ∷ []
last_two [] i c d h p q = absurd (omega arith)
last_two (x ∷ []) i c d h p q = absurd (omega arith)
last_two (x ∷ y ∷ []) zero c d h p q = ground arith
last_two (x ∷ y ∷ z ∷ s) zero c d h p q = absurd (omega arith)
last_two (x ∷ y ∷ s) (suc i) c d h p q =
    let e : suc i + 1 ≡ suc (i + 1) = omega arith in
    last_two (y ∷ s) i c d (omega arith) p (rw e at q)

-- No byte is `c`.
abbrev pub Lacks : ℕ → Bytes → Type 0
Lacks c [] = Unit {0}
Lacks c (x ∷ xs) = (x ≢ c) × Lacks c xs

-- The token between the start and the pointer.
pub At-token :
    {s : Bytes} {pos : ℕ} (xs rest : Bytes)
    → At s pos (xs ++ rest)
    → slice s pos (pos + length xs - pos) ≡ xs
At-token {s} {pos} xs rest a =
    let e : pos + length xs - pos ≡ length xs = omega arith in rw e (At-slice xs rest a)

pub Lacks-append : (c : ℕ) (xs ys : Bytes) → Lacks c xs → Lacks c ys → Lacks c (xs ++ ys)
Lacks-append c [] ys h k = k
Lacks-append c (x ∷ xs) ys h k = (h.0, Lacks-append c xs ys h.1 k)

-- The test for `Lacks`.
abbrev pub lacks : ℕ → Bytes → Bool
lacks c [] = true
lacks c (x ∷ xs) = if x == c then false else lacks c xs

pub Lacks-of_lacks : (c : ℕ) (xs : Bytes) → lacks c xs ≡ true → Lacks c xs
Lacks-of_lacks c [] h = tt
Lacks-of_lacks c (x ∷ xs) h = elim (Bool-cases (x == c)) [
  | inl same ↦ absurd (let k : false ≡ true = rw same at h in cc)
  | inr other ↦ (==→ne x c other, Lacks-of_lacks c xs (rw other at h))
]
