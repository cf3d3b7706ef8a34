-- ===== src/Runtime.antt =====
-- What the ranking and the search of files ask of JavaScript beyond whole numbers: doubles and the lower case of
-- Unicode. The code that uses them takes them from here.
use ctxlite.Prelude.{ℕ, Bool, Text}

pub record Runtime : Type 1 where
  pub Double : Type 0
  pub of_nat : ℕ → Double
  -- the double that is nearest to a quotient, for the constants of the source
  pub ratio : ℕ → ℕ → Double
  pub add : Double → Double → Double
  pub sub : Double → Double → Double
  pub mul : Double → Double → Double
  pub div : Double → Double → Double
  -- `Math.round(x)` and `String(x)`
  pub round : Double → Double
  pub print : Double → Text
  pub natural_log : Double → Double
  -- `x < y` and `x <= y`, false where one of them is no number
  pub le : Double → Double → Bool
  pub lt : Double → Double → Bool
  -- `text.toLowerCase()`
  pub lower : Text → Text
