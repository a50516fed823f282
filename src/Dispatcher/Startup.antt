-- ===== src/Dispatcher/Startup.antt =====
-- dispatcher.py: the startup refusal and the reach bound that it shares with `set_plane`.
use rmp_ros2_control.Prelude.{not, Option, none, some, if◌then◌else◌}
use rmp_ros2_control.Float.{Float, ◌⊕◌, ◌≤?◌}
use rmp_ros2_control.Linalg.{
  Coordinate, rotate_in_plane, extent_fits_working_area, disc_fits_reach_band,
}
use rmp_ros2_control.FileManager.{PlaneConfig, effective_anchor}
use rmp_ros2_control.Dispatcher.{DispatcherConfig}

pub data Refusal : Type 0 where
  extent_outside draw_not_below_safe retract_not_above_safe leaves_reach_band : Refusal

module _ {F : Type 0} ⦃fl : Float F⦄ where
  -- the centre of the working disc in the planning frame
  unfoldable pub disc_centre : DispatcherConfig F → PlaneConfig F → Coordinate F
  disc_centre config plane =
      let (ax, ay, az) = effective_anchor plane in
      let (tx, ty) = rotate_in_plane config.working_centre plane.plane_yaw_deg in (ax ⊕ tx, ay ⊕ ty)

  unfoldable pub reach_refusal : DispatcherConfig F → PlaneConfig F → Option Refusal
  reach_refusal config plane =
      if disc_fits_reach_band (disc_centre config plane) config.working_radius config.reach_inner
        config.reach_outer
      then none
      else some leaves_reach_band

  unfoldable pub check_startup : DispatcherConfig F → Option Refusal
  check_startup config =
      if not (extent_fits_working_area config.extent config.working_centre config.working_radius)
      then some extent_outside
      else if config.plane.safe_z ≤? config.plane.draw_z
      then some draw_not_below_safe
      else if config.plane.retract_z ≤? config.plane.safe_z
      then some retract_not_above_safe
      else reach_refusal config config.plane
