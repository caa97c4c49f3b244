-- ===== src/Extern/Numbers.antt =====
-- Floating point: `f32` is `F`, and `f64` is `D`.
use Prim.Native.Nat.{Ordering}
use lightgraph.Base.{ℕ, ◌≡◌, Option, some}

pub record Scores (F : Type 0) : Type 0 where
  -- a literal, in hundredths
  pub lit : ℕ → F
  pub add : F → F → F
  pub sub : F → F → F
  pub mul : F → F → F
  pub div : F → F → F
  pub ln : F → F
  pub sqrt : F → F
  -- `n as f32`
  pub of_nat : ℕ → F
  -- `none` where one of the two is not a number
  pub partial_cmp : F → F → Option Ordering
  pub partial_cmp-swap :
      (a b : F) → partial_cmp a b ≡ some Ordering.gt → partial_cmp b a ≡ some Ordering.lt

pub record Doubles (D : Type 0) : Type 0 where
  pub zero : D
  -- `n as f64`
  pub of_nat : ℕ → D

pub record Narrow (D F : Type 0) : Type 0 where
  -- `x as f32`
  pub narrow : D → F
