-- ===== src/Dispatcher/Calibration.antt =====
-- dispatcher.py: the plane calibration and the park move.
use rmp_ros2_control.Prelude.{Option, none, some, if◌then◌else◌}
use rmp_ros2_control.Float.{Float}
use rmp_ros2_control.Linalg.{Coordinate}
use rmp_ros2_control.FileManager.{PlaneConfig}
use rmp_ros2_control.Dispatcher.{
  Action, Warning, Call, Environment, call, warn, is_batch, executing,
}
use rmp_ros2_control.Dispatcher.{Dispatcher as State}
use rmp_ros2_control.Dispatcher.Startup.{Refusal, reach_refusal}

module _ {F : Type 0} where
  abbrev or_yaw : Option F → F → F
  or_yaw none yaw = yaw
  or_yaw (some given) yaw = given

  -- the plane that a `set_plane` asks for
  abbrev pub moved_plane : Coordinate F → Option F → PlaneConfig F → PlaneConfig F
  moved_plane offset yaw plane = record plane {
    plane_offset = offset;
    plane_yaw_deg = or_yaw yaw plane.plane_yaw_deg;
  }

module _ {F D : Type 0} where
  -- every holder of the configuration learns the plane, and the loaded recipe is dropped
  unfoldable pub adopt_plane : Environment F D → PlaneConfig F → State F D → State F D
  adopt_plane env plane d =
      let told =
        call (Call.live_set_plane plane)
          (record d { config = record d.config { plane = plane } }) in
      let told_stroke =
        if env.has_stroke_route then call (Call.stroke_set_plane plane) told else told in
      record (call (Call.plane_changed plane) told_stroke) { loaded_recipe = none }

  unfoldable pub park : State F D → State F D
  park d =
      let plane = d.config.plane in
      if is_batch d.mode
      then call (Call.batch_park plane.ready_joints plane.velocity plane.acceleration)
          (record d { mode = executing })
      else warn (Warning.batch_only Action.park) d

module _ {F D : Type 0} ⦃fl : Float F⦄ where
  abbrev pub refused_or : Option Refusal → State F D → State F D → State F D
  refused_or none d d' = d'
  refused_or (some r) d d' = warn Warning.plane_refused d

  unfoldable pub set_plane : Environment F D → Coordinate F → Option F → State F D → State F D
  set_plane env offset yaw d =
      let plane = moved_plane offset yaw d.config.plane in
      let judged = refused_or (reach_refusal d.config plane) d (adopt_plane env plane d) in
      if is_batch d.mode then judged else warn (Warning.batch_only Action.set_plane) d
