-- ===== src/Float.antt =====
-- Python's float: the operators, the built-in functions and the functions of `math` that the code
-- calls, as an interface. Nothing is assumed of them here; a theorem that needs the order of floats
-- takes `IsOrdered`, which holds of IEEE comparisons with NaN too.
pub mod Order
pub mod Fixed
use rmp_ros2_control.Prelude.{ℕ, Bool, List, if◌then◌else◌}
use rmp_ros2_control.Prelude.Int.{ℤ}

pub record Float (F : Type 0) : Type 0 where
  -- `lit m k` is the literal m · 10⁻ᵏ
  pub lit : ℕ → ℕ → F
  pub add : F → F → F
  pub sub : F → F → F
  pub mul : F → F → F
  -- the quotient where the divisor is not zero
  pub div : F → F → F
  pub lt : F → F → Bool
  pub le : F → F → Bool
  pub eq : F → F → Bool
  pub neg : F → F
  pub abs : F → F
  pub pow : F → F → F
  -- math.inf
  pub inf : F
  pub remainder : F → F → F
  pub sqrt : F → F
  pub sin : F → F
  pub cos : F → F
  pub atan2 : F → F → F
  pub radians : F → F
  pub pi : F
  pub hypot : F → F → F
  pub dist : List F → List F → F
  pub ceil : F → ℤ
  pub is_finite : F → Bool

module _ {F : Type 0} ⦃fl : Float F⦄ where
  infixl 65 ◌⊕◌ ◌⊖◌
  infixl 70 ◌⊗◌ ◌⊘◌
  infix 50 ◌<?◌ ◌≤?◌ ◌=?◌
  abbrev pub lit : ℕ → ℕ → F
  lit = fl.lit

  abbrev pub ◌⊕◌ : F → F → F
  a ⊕ b = fl.add a b

  abbrev pub ◌⊖◌ : F → F → F
  a ⊖ b = fl.sub a b

  abbrev pub ◌⊗◌ : F → F → F
  a ⊗ b = fl.mul a b

  abbrev pub ◌⊘◌ : F → F → F
  a ⊘ b = fl.div a b

  abbrev pub ◌<?◌ : F → F → Bool
  a <? b = fl.lt a b

  abbrev pub ◌≤?◌ : F → F → Bool
  a ≤? b = fl.le a b

  abbrev pub ◌=?◌ : F → F → Bool
  a =? b = fl.eq a b

  -- `max(a, b)` and `min(a, b)`: the first argument unless the second is strictly beyond it.
  unfoldable pub max : F → F → F
  max a b = if a <? b then b else a

  unfoldable pub min : F → F → F
  min a b = if b <? a then b else a
