-- ===== src/Tcp/Search.antt =====
-- The search for a delimiter in the read buffer, against what it is to contain one.
use mtasc.Common.{
  ◌≡◌, ◌↔◌, refl, ap, ◌∙◌, [], ◌∷◌, ◌++◌, Bytes, true, false, ◌==◌, ==→eq, ==_refl, Bool-cases, inl,
  inr,
}
use mtasc.Buffer.{ReadBuffer, peek_data}
use mtasc.Buffer.Valid.{IsValid, contents, readable_bytes_lem}
use mtasc.Tcp.Recv.{is_prefix, contains, search_buffer}

-- The bytes of the delimiter stand somewhere in the text, one behind the other.
abbrev pub HasInside : Bytes → Bytes → Type 0
HasInside d s = (front : Bytes) × (back : Bytes) × (s ≡ front ++ (d ++ back))

is_prefix-split : (d s : Bytes) → is_prefix d s ≡ true → (back : Bytes) × (s ≡ d ++ back)
is_prefix-split [] s h = (s, refl)
is_prefix-split (c ∷ d) [] h = absurd (cc)
is_prefix-split (c ∷ d) (x ∷ s) h = elim (Bool-cases (x == c)) [
  | inr other ↦ absurd (let k : false ≡ true = rw other at h in cc)
  | inl same ↦
      let (back, e) = is_prefix-split d s (rw same at h) in
      (back, ap (λ y. y ∷ s) (==→eq x c same) ∙ ap (λ r. c ∷ r) e)
]

is_prefix-append : (d back : Bytes) → is_prefix d (d ++ back) ≡ true
is_prefix-append [] back = refl
is_prefix-append (c ∷ d) back = rw (==_refl c) (is_prefix-append d back)

contains-HasInside : (d s : Bytes) → contains d s ≡ true → HasInside d s
unfolding contains
contains-HasInside d [] h = let (back, e) = is_prefix-split d [] h in ([], back, e)
contains-HasInside d (x ∷ s) h = elim (Bool-cases (is_prefix d (x ∷ s))) [
  | inl here ↦ let (back, e) = is_prefix-split d (x ∷ s) here in ([], back, e)
  | inr later ↦
      let (front, back, e) = contains-HasInside d s (rw later at h) in
      (x ∷ front, back, ap (λ r. x ∷ r) e)
]

is_prefix-contains : (d s : Bytes) → is_prefix d s ≡ true → contains d s ≡ true
unfolding contains
is_prefix-contains d [] h = h
is_prefix-contains d (x ∷ s) h = rw h

contains-inside : (d front back : Bytes) → contains d (front ++ (d ++ back)) ≡ true
unfolding contains
contains-inside d [] back = is_prefix-contains d (d ++ back) (is_prefix-append d back)
contains-inside d (x ∷ front) back = elim (Bool-cases (is_prefix d (x ∷ (front ++ (d ++ back))))) [
  | inl here ↦ rw here
  | inr later ↦ rw later (contains-inside d front back)
]

pub contains_iff : (d s : Bytes) → (contains d s ≡ true) ↔ HasInside d s
contains_iff d s =
    (contains-HasInside d s, λ (front, back, e). ap (contains d) e ∙ contains-inside d front back)

-- The search in a valid buffer finds the delimiter exactly if the unread bytes have it inside.
pub search_buffer-HasInside :
    (d : Bytes) (b : ReadBuffer) → IsValid b → (search_buffer d b ≡ true) ↔ HasInside d (contents b)
unfolding search_buffer peek_data
search_buffer-HasInside d b v = rw (readable_bytes_lem v) (contains_iff d (contents b))
