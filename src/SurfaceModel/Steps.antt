-- ===== src/SurfaceModel/Steps.antt =====
-- surface_client.py: every operation of the view and of the transport as a step of the model, and
-- runs of them. `none` is an exception.
use rmp_ros2_control.Prelude.{Bool, Option, some, List, [], ◌∷◌, Text, ◌>>=◌}
use rmp_ros2_control.Float.{Float}
use rmp_ros2_control.Linalg.{Coordinate}
use rmp_ros2_control.SurfaceModel.{ClientDisplay, Tool, ClientControl, SurfaceModel, queue_control}
use rmp_ros2_control.SurfaceModel.Capture.{set_pointer, set_pen}
use rmp_ros2_control.SurfaceModel.Requests.{
  select_tool, set_chain, undo, clear_canvas, execute_target, request_execute, request_save,
  request_set_plane, request_load_recipe, request_mode, request_clear_recipe, apply_display,
}

-- An operation, with the time where it reads the clock.
pub data ViewOp (F : Type 0) : Type 0 where
  sets_surface sets_pointer : Coordinate F → ViewOp F
  sets_follow sets_chain sets_connected : Bool → ViewOp F
  sets_pen : F → Bool → ViewOp F
  selects : Tool → ViewOp F
  undoes parks stops resets executes_recipe clears_recipe : ViewOp F
  clears executes asks_target : F → ViewOp F
  saves asks_mode : Text → ViewOp F
  sets_plane : F → F → F → ViewOp F
  loads : F → Text → Option F → Bool → ViewOp F
  shows : ClientDisplay F → ViewOp F

module _ {F : Type 0} ⦃fl : Float F⦄ where
  unfoldable pub view_step : ViewOp F → SurfaceModel F → Option (SurfaceModel F)
  view_step (sets_surface size) s = some (record s { surface = size })
  view_step (sets_pointer p) s = set_pointer p s
  view_step (sets_follow engaged) s = some (record s { follow = engaged })
  view_step (sets_chain on) s = some (set_chain on s)
  view_step (sets_connected connected) s = some (record s { connected = connected })
  view_step (sets_pen now down) s = set_pen now down s
  view_step (selects tool) s = some (select_tool tool s)
  view_step undoes s = some (undo s)
  view_step parks s = some (queue_control ClientControl.park s)
  view_step stops s = some (queue_control ClientControl.stop s)
  view_step resets s = some (queue_control ClientControl.reset s)
  view_step executes_recipe s = some (queue_control ClientControl.execute_recipe s)
  view_step clears_recipe s = some (request_clear_recipe s)
  view_step (clears now) s = some (clear_canvas now s)
  view_step (executes now) s = request_execute now s
  view_step (asks_target now) s = some (execute_target now s).0
  view_step (saves name) s = request_save name s
  view_step (asks_mode mode) s = some (request_mode mode s)
  view_step (sets_plane dx dy yaw) s = some (request_set_plane dx dy yaw s)
  view_step (loads now name scale fit) s = some (request_load_recipe now name scale fit s)
  view_step (shows display) s = apply_display display s

  unfoldable pub view_run : List (ViewOp F) → SurfaceModel F → Option (SurfaceModel F)
  view_run [] s = some s
  view_run (op ∷ ops) s = do s' ← view_step op s; view_run ops s'
