-- ===== src/Tls/Objects.antt =====
-- Pointers to `SSL` objects that are live or freed.
use mtasc.Common.{
  ℕ, ◌≡◌, ap, ◌∙◌, true, false, Bool-cases, inl, inr, Option, none, some, ok, out_of_bounds,
  if◌then◌else◌,
}
use mtasc.Number.{ℤ}
use mtasc.Tls.{Tls, use_ssl, ssl_get_error, reported_of, is_live}

-- The pointer may be used.
abbrev pub IsUsable : Option ℕ → Tls → Type 0
IsUsable ssl t = (p : ℕ) × (use_ssl ssl t ≡ ok p)

-- The pointer is to an object that was freed.
abbrev pub Dangles : Option ℕ → Tls → Type 0
Dangles ssl t = (p : ℕ) × (ssl ≡ some p) × (is_live p t.live ≡ false)

pub ssl_get_error-IsUsable :
    (ssl : Option ℕ) (ret : ℤ) (t : Tls)
    → IsUsable ssl t
    → ssl_get_error ssl ret t ≡ ok (reported_of ret t)
unfolding use_ssl ssl_get_error
ssl_get_error-IsUsable none ret t (p, h) = absurd (cc)
ssl_get_error-IsUsable (some q) ret t (p, h) = elim (Bool-cases (is_live q t.live)) [
  | inl live ↦ rw live
  | inr freed ↦ absurd (let k : out_of_bounds ≡ ok p = rw freed at h in cc)
]

pub IsUsable-live :
    (ssl : Option ℕ) (t t' : Tls) → t'.live ≡ t.live → IsUsable ssl t → IsUsable ssl t'
unfolding use_ssl
IsUsable-live none t t' e (p, h) = absurd (cc)
IsUsable-live (some q) t t' e (p, h) =
    (p, ap (λ l. if is_live q l then ok q else out_of_bounds) e ∙ h)

pub IsUsable-some : (p : ℕ) (t : Tls) → is_live p t.live ≡ true → use_ssl (some p) t ≡ ok p
unfolding use_ssl
IsUsable-some p t live = rw live

pub use_ssl-Dangles : (ssl : Option ℕ) (t : Tls) → Dangles ssl t → use_ssl ssl t ≡ out_of_bounds
unfolding use_ssl
use_ssl-Dangles ssl t (p, e, freed) = ap (λ s. use_ssl s t) e ∙ rw freed

pub ssl_get_error-Dangles :
    (ssl : Option ℕ) (ret : ℤ) (t : Tls) → Dangles ssl t → ssl_get_error ssl ret t ≡ out_of_bounds
unfolding ssl_get_error
ssl_get_error-Dangles ssl ret t (p, e, freed) = ap (λ s. ssl_get_error s ret t) e ∙ rw freed
