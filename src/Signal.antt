-- ===== src/Signal.antt =====
-- The samples and the rest of the arithmetic of src/measure.rs and src/worker.rs: `f32`,
-- `Complex32`, the transform of the crate `rustfft`, and the operations of `f64` that only those
-- files call, as a parameter.
use propmonitor.Base.{ℕ, List}
use propmonitor.Base.Ints.{ℤ}
use propmonitor.Float.{Float}

pub record Signal (fl : Float) : Type 1 where
  pub mul : Float.F fl → Float.F fl → Float.F fl
  pub max : Float.F fl → Float.F fl → Float.F fl
  pub log10 : Float.F fl → Float.F fl
  pub round : Float.F fl → Float.F fl
  -- `as isize`
  pub to_isize : Float.F fl → ℤ
  -- The literal `1e-30`.
  pub least_power : Float.F fl
  -- `f32`, and its conversions from and to `f64`
  pub S : Type 0
  pub to_f64 : S → Float.F fl
  pub to_f32 : Float.F fl → S
  pub of_ℕ32 : ℕ → S
  pub add32 : S → S → S
  pub sub32 : S → S → S
  pub mul32 : S → S → S
  pub div32 : S → S → S
  pub neg32 : S → S
  pub cos32 : S → S
  -- `std::f32::consts::PI` and the literal `0.5`
  pub pi32 : S
  pub half32 : S
  -- `Complex32`
  pub C : Type 0
  pub complex : S → S → C
  pub re : C → S
  pub im : C → S
  -- `c * s` of a complex and a real number, and `norm_sqr`
  pub scale : C → S → C
  pub norm_sqr : C → S
  -- The forward transform that the planner gives for the length of the buffer.
  pub forward : List C → List C
