-- ===== src/Url/Safety.antt =====
-- What both URL parsers may do wrong: read outside the text.
use mtasc.Common.{
  ◌-◌, ◌≡◌, Bytes, codes, length, drop, Outcome, ok, thrown, out_of_bounds, out_of_fuel,
}

-- The text ends right behind `:/`.
abbrev pub EndsAfterSign : Bytes → Type 0
EndsAfterSign s = drop (length s - 2) s ≡ codes ":/"

-- The loop has ended, and it read outside the text only if that ends behind `:/`.
abbrev pub Safe {ℓ} : {A : Type ℓ} → Bytes → Outcome A → Type 0
Safe s (ok r) = Unit
Safe s (thrown e) = Unit
Safe s out_of_bounds = EndsAfterSign s
Safe s out_of_fuel = ⊥
