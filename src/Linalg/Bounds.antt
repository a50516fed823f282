-- ===== src/Linalg/Bounds.antt =====
-- The clamp to the extent and the bound verdicts.
use rmp_ros2_control.Prelude.{true, false, ◌≡◌, ◌↔◌, arith}
use rmp_ros2_control.Float.{Float, lit, ◌⊘◌, ◌≤?◌}
use rmp_ros2_control.Float.Order.{IsOrdered, IsNumber, ◌≼◌, clamp_bounds}
use rmp_ros2_control.Linalg.{
  Coordinate, Command, Extent, Limits, dist_3, clamp_to_extent, in_working_area, bound_verdicts,
  verdicts_ok,
}

module _ {F : Type 0} ⦃fl : Float F⦄ where
  -- a coordinate in the rectangle
  abbrev pub InExtent : Extent F → Coordinate F → Type 0
  InExtent e p = (e.x_min ≼ p.0) × (p.0 ≼ e.x_max) × (e.y_min ≼ p.1) × (p.1 ≼ e.y_max)

  -- An extent that is not empty.
  abbrev pub IsExtent : Extent F → Type 0
  IsExtent e = (e.x_min ≼ e.x_max) × (e.y_min ≼ e.y_max)

  -- A coordinate of numbers, clamped to an extent that is not empty, lies in it.
  pub clamp_to_extent-InExtent :
      (ord : IsOrdered F) (e : Extent F) (x y : F)
      → IsExtent e
      → IsNumber x
      → IsNumber y
      → InExtent e (clamp_to_extent (x, y) e)
  unfolding clamp_to_extent
  clamp_to_extent-InExtent ord e x y v nx ny =
      let hx = clamp_bounds ord x e.x_min e.x_max nx v.0 in
      let hy = clamp_bounds ord y e.y_min e.y_max ny v.1 in (hx.0, hx.1, hy.0, hy.1)

  -- All four bounds, written out.
  pub record WithinLimits (limits : Limits F) (period : F) (previous command : Command F)
      : Type 0 where
    pub extent : InExtent limits.extent (command.0, command.1)
    pub depth : (limits.depth_min ≼ command.2) × (command.2 ≼ limits.depth_max)
    pub disc :
        in_working_area (command.0, command.1) limits.working_centre limits.working_radius ≡ true
    pub ticking : period ≤? lit 0 1 ≡ false
    pub speed : dist_3 command previous ⊘ period ≼ limits.max_speed

  -- The verdicts pass exactly when the command is within every limit, at a positive period.
  pub verdicts_ok-WithinLimits :
      (limits : Limits F) (period x y z : F) (previous : Command F)
      → (verdicts_ok (bound_verdicts (x, y, z) previous period limits) ≡ true)
        ↔ WithinLimits limits period previous (x, y, z)
  unfolding bound_verdicts in_working_area
  verdicts_ok-WithinLimits limits period x y z previous = ((λ h. ground arith), λ w. ground arith)
