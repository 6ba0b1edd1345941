-- ===== src/Sandbox/Columns.antt =====
-- What a column of app/models/company_os_sandbox.py takes: `String(n)` and `Boolean`, with and without
-- `nullable=False`. The database, or its driver, raises on any other value.
use Prim.Native.String.{count}
use polsia_build.Common.{
  ap, String, arith, false, inl, inr, leb, not, refl, true, ℕ, ◌||◌, ◌≡◌, ◌≢◌, ◌≤◌, ◌⊎◌, ◌↔◌,
}
use polsia_build.Raises.{Result, err, integrity_error, ok, other, raise_if, raised, text}
use polsia_build.Value.{Value, bool, eq, null, str}

-- `String(limit), nullable=False`
unfoldable pub check_text : ℕ → Value → Result (Unit {0})
check_text limit null = err (raised integrity_error (text "not-null constraint"))
check_text limit (str s) =
    raise_if (not (leb (count s) limit)) (other "DBAPIError") (text "value too long")
check_text limit _ = err (raised (other "DBAPIError") (text "expected a text"))

-- `String(limit)`
unfoldable pub check_optional_text : ℕ → Value → Result (Unit {0})
unfolding check_text
check_optional_text limit null = ok tt
check_optional_text limit v = check_text limit v

-- `Boolean, nullable=False`: what equals `True` or `False`, as 1 and 0 do
unfoldable pub check_boolean : Value → Result (Unit {0})
check_boolean null = err (raised integrity_error (text "not-null constraint"))
check_boolean v =
    raise_if (not (eq v (bool true) || eq v (bool false))) (other "StatementError")
      (text "not a boolean")

-- A text of at most so many characters.
abbrev pub IsText : ℕ → Value → Type 0
IsText limit v = (s : String) × (v ≡ str s) × (count s ≤ limit)

pub check_text_iff : (limit : ℕ) (v : Value) → (check_text limit v ≡ ok tt) ↔ IsText limit v
unfolding check_text
check_text_iff limit (str s) = (
  λ h. (s, refl, ground arith),
  λ (t, e, h). let same : count s ≡ count t = ap (λ v. count (text_or v)) e in ground arith,
)
  where
    text_or : Value → String
    text_or (str s) = s
    text_or _ = ""
check_text_iff limit null = (λ h. cc, λ (t, e, h). absurd (ground arith))
check_text_iff limit _ = (λ h. cc, λ (t, e, h). absurd (ground arith))

optional_iff :
    (limit : ℕ) (v : Value)
    → v ≢ null
    → (check_text limit v ≡ ok tt) ↔ ((v ≡ null) ⊎ IsText limit v)
optional_iff limit v n = (
  λ h. inr ((check_text_iff limit v).0 h),
  λ h. elim h [ inl e ↦ absurd (n e) | inr t ↦ (check_text_iff limit v).1 t ],
)

pub check_optional_text_iff :
    (limit : ℕ) (v : Value) → (check_optional_text limit v ≡ ok tt) ↔ ((v ≡ null) ⊎ IsText limit v)
unfolding check_optional_text
check_optional_text_iff limit null = (λ h. inl refl, λ h. refl)
check_optional_text_iff limit v = optional_iff limit v (λ e. ground arith)

pub check_boolean_iff :
    (v : Value) → (check_boolean v ≡ ok tt) ↔ ((eq v (bool true) || eq v (bool false)) ≡ true)
unfolding check_boolean eq
check_boolean_iff null = (λ h. cc, λ h. cc)
check_boolean_iff (str s) = (λ h. cc, λ h. cc)
check_boolean_iff v = (λ h. ground arith, λ h. ground arith)
