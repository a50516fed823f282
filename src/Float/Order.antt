-- ===== src/Float/Order.antt =====
-- What IEEE comparisons promise, NaN included, and the built-in `min` and `max` under it.
use rmp_ros2_control.Prelude.{true, not, ◌≡◌, ◌⊎◌, arith}
use rmp_ros2_control.Float.{Float, max, min, ◌<?◌, ◌≤?◌}

infix 4 ◌≼◌
abbrev pub ◌≼◌ : {F : Type 0} ⦃fl : Float F⦄ → F → F → Type 0
x ≼ y = x ≤? y ≡ true

-- NaN is the value that is not `<=` itself.
abbrev pub IsNumber : {F : Type 0} ⦃fl : Float F⦄ → F → Type 0
IsNumber x = x ≼ x

pub record IsOrdered (F : Type 0) ⦃fl : Float F⦄ : Type 0 where
  pub le_trans : (x y z : F) → x ≼ y → y ≼ z → x ≼ z
  pub numbers_of_le : (x y : F) → x ≼ y → IsNumber x × IsNumber y
  pub lt-eq-not-le : (x y : F) → IsNumber x → IsNumber y → x <? y ≡ not (y ≤? x)
  pub le_total : (x y : F) → IsNumber x → IsNumber y → (x ≼ y) ⊎ (y ≼ x)

module _ {F : Type 0} ⦃fl : Float F⦄ (ord : IsOrdered F) where
  pub max_bounds : (a lo hi : F) → IsNumber a → lo ≼ hi → a ≼ hi → (lo ≼ max a lo) × (max a lo ≼ hi)
  unfolding max
  max_bounds a lo hi n h k = ground (
    arith,
    ord.lt-eq-not-le a lo n (ord.numbers_of_le lo hi h).0,
    ord.le_total a lo n (ord.numbers_of_le lo hi h).0,
    ord.numbers_of_le lo hi h,
  )

  -- Clamping a number into a range lands in the range.
  pub clamp_bounds :
      (a lo hi : F) → IsNumber a → lo ≼ hi → (lo ≼ min (max a lo) hi) × (min (max a lo) hi ≼ hi)
  unfolding max min
  clamp_bounds a lo hi n h =
      let (nlo, nhi) = ord.numbers_of_le lo hi h in
      ground (
        arith,
        ord.lt-eq-not-le a lo n nlo,
        ord.lt-eq-not-le hi a nhi n,
        ord.lt-eq-not-le hi lo nhi nlo,
        ord.le_total a lo n nlo,
        ord.le_total a hi n nhi,
      )
