-- ===== src/StrokeStreamer.antt =====
-- stroke_streamer.py: the intake of the drawing route, which the coordination thread fills and the
-- stroke thread cuts into windows. The chain of goals is in the modules below.
pub mod Chain
pub mod Session
pub mod Windows
pub mod Finalize
pub mod Thread
use rmp_ros2_control.Prelude.{
  ℕ, suc, Bool, true, false, not, ◌&&◌, Option, none, some, List, [], ◌∷◌, ◌++◌, length, leb,
  if◌then◌else◌,
}
use rmp_ros2_control.Float.{Float, lit, max, ◌⊕◌, ◌⊘◌, ◌<?◌, ◌≤?◌, ◌=?◌}
use rmp_ros2_control.Linalg.{Coordinate, Command, dist_3}
use rmp_ros2_control.FileManager.{PlaneConfig}

-- `warnings` counts the calls of `warn`.
pub record StrokeIntake (F : Type 0) : Type 0 where
  pub plane : PlaneConfig F
  pub spacing : F
  pub limit : ℕ
  pub points : List (Command F)
  pub tail : Option (Command F)
  pub stroke_open : Bool
  pub dropped_warned : Bool
  pub warnings : ℕ

module _ {F : Type 0} where
  -- StrokeIntake.__init__
  unfoldable pub new_intake : PlaneConfig F → F → ℕ → StrokeIntake F
  new_intake plane spacing limit = record {
    plane = plane;
    spacing = spacing;
    limit = limit;
    points = [];
    tail = none;
    stroke_open = false;
    dropped_warned = false;
    warnings = 0;
  }

  -- _append_locked, unbounded and bounded
  abbrev pub push : Command F → StrokeIntake F → StrokeIntake F
  push point s = record s { points = s.points ++ point ∷ []; tail = some point }

  unfoldable pub push_bounded : Command F → StrokeIntake F → StrokeIntake F
  push_bounded point s =
      if not (leb s.limit (length s.points))
      then push point s
      else if s.dropped_warned
      then s
      else record s { dropped_warned = true; warnings = suc s.warnings }

  unfoldable pub begin_stroke : Coordinate F → StrokeIntake F → StrokeIntake F
  begin_stroke (x, y) s = record (push (x, y, s.plane.draw_z) (push (x, y, s.plane.safe_z) s)) {
    stroke_open = true;
    dropped_warned = false;
  }

  unfoldable pub set_intake_plane : PlaneConfig F → StrokeIntake F → StrokeIntake F
  set_intake_plane plane s = record s { plane = plane }

  unfoldable pub clear_intake : StrokeIntake F → StrokeIntake F
  clear_intake s = record s { points = []; tail = none; stroke_open = false }

  abbrev pub pending : StrokeIntake F → ℕ
  pending s = length s.points

module _ {F : Type 0} ⦃fl : Float F⦄ where
  abbrev is_close : Option (Command F) → Command F → F → Bool
  is_close none point spacing = false
  is_close (some tail) point spacing = dist_3 tail point <? spacing

  -- add_point, with its answer
  unfoldable pub add_point : Coordinate F → StrokeIntake F → StrokeIntake F × Bool
  unfolding push_bounded
  add_point (x, y) s =
      let point : Command F = (x, y, s.plane.draw_z) in
      if not s.stroke_open
      then (s, false)
      else if is_close s.tail point s.spacing
      then (s, true)
      else (push_bounded point s, true)

  -- the lift has the tail's own x and y, so that the two differ in their depth if at all
  abbrev lift_after : Option (Command F) → StrokeIntake F → StrokeIntake F
  lift_after none s = s
  lift_after (some tail) s =
      if s.plane.safe_z =? tail.2 then s else push (tail.0, tail.1, s.plane.safe_z) s

  unfoldable pub end_stroke : StrokeIntake F → StrokeIntake F
  end_stroke s = if s.stroke_open then lift_after s.tail (record s { stroke_open = false }) else s

  -- the path time when a point is reached
  abbrev pub time_at : F → Option (Command F) → Command F → F → F
  time_at speed none point elapsed = elapsed
  time_at speed (some previous) point elapsed =
      elapsed ⊕ dist_3 previous point ⊘ max speed (lit 1 9)

  -- the loop of `take_window`: the time at its end, the points counted and those after them
  unfoldable pub cut_window :
      F → F → Option (Command F) → F → List (Command F) → F × List (Command F) × List (Command F)
  cut_window seconds speed previous elapsed [] = (elapsed, [], [])
  cut_window seconds speed previous elapsed (point ∷ rest) =
      let at = time_at speed previous point elapsed in
      let (final, window, left) = cut_window seconds speed (some point) at rest in
      if seconds ≤? at then (at, point ∷ [], rest) else (final, point ∷ window, left)

  unfoldable pub take_window :
      F → F → Bool → StrokeIntake F → Option (List (Command F)) × StrokeIntake F
  take_window seconds speed flush s =
      let (elapsed, window, left) = cut_window seconds speed none (lit 0 1) s.points in
      if leb (length s.points) 0
      then (none, s)
      else if (elapsed <? seconds) && not flush
      then (none, s)
      else (some window, record s { points = left })
