-- ===== src/Float.antt =====
-- `f64` and `f32`: the type and the operations of it that the program calls, as a parameter. The
-- laws stand apart, and a theorem that needs them takes them as a hypothesis.
use propmonitor.Base.{ℕ, Text, Bool, true, ◌≡◌, Option, some}
use propmonitor.Yaml.Scan.{is_bare}

pub record Float : Type 1 where
  pub F : Type 0
  -- `str::parse` and `to_string`
  pub parse : Text → Option F
  pub display : F → Text
  pub is_finite : F → Bool
  pub lt : F → F → Bool
  pub le : F → F → Bool
  pub eq : F → F → Bool
  pub add : F → F → F
  pub div : F → F → F
  pub neg : F → F
  pub abs : F → F
  -- `as f64` of an unsigned integer, and the literals without a fraction
  pub of_ℕ : ℕ → F
  -- `as u64`
  pub to_u64 : F → ℕ

-- What the program relies on: a printed finite number has no blank, quote or `#` in it and parses as
-- itself, and `==` holds of equal numbers other than NaN.
pub record FloatLaws (fl : Float) : Type 0 where
  pub parse_display :
      (x : Float.F fl) → Float.is_finite fl x ≡ true → Float.parse fl (Float.display fl x) ≡ some x
  pub bare_display :
      (x : Float.F fl) → Float.is_finite fl x ≡ true → is_bare (Float.display fl x) ≡ true
  pub eq_refl : (x : Float.F fl) → Float.is_finite fl x ≡ true → Float.eq fl x x ≡ true
