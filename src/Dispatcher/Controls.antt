-- ===== src/Dispatcher/Controls.antt =====
-- dispatcher.py: one control of the operator. `none` is an exception that nothing catches; the
-- thread that runs the dispatcher has no handler of its own.
use rmp_ros2_control.Prelude.{Option, none, some, if◌then◌else◌, ◌>>=◌}
use rmp_ros2_control.Float.{Float}
use rmp_ros2_control.Dispatcher.{Action, Cause, Warning, Control, Environment, warn, push_display}
use rmp_ros2_control.Dispatcher.{Dispatcher as State}
use rmp_ros2_control.Dispatcher.Submission.{execute, save}
use rmp_ros2_control.Dispatcher.Calibration.{set_plane, park}
use rmp_ros2_control.Dispatcher.Recipes.{load_recipe, execute_recipe}
use rmp_ros2_control.Dispatcher.Modes.{switch_mode, reset, enter_stopped}

abbrev pub action_of : {F : Type 0} → Control F → Action
action_of Control.stop = Action.stop
action_of Control.reset = Action.reset
action_of Control.clear_recipe = Action.clear_recipe
action_of Control.execute_recipe = Action.execute_recipe
action_of Control.park = Action.park
action_of Control.unknown = Action.other
action_of (Control.save drawing name) = Action.save
action_of (Control.load_recipe request) = Action.load_recipe
action_of (Control.set_plane offset yaw) = Action.set_plane
action_of (Control.execute drawing) = Action.execute
action_of (Control.mode target) = Action.mode

module _ {F D : Type 0} ⦃fl : Float F⦄ where
  -- the controls that are refused while stopped
  abbrev when_running : Control F → State F D → Option (State F D) → Option (State F D)
  when_running control d act =
      if d.stopped
      then some (warn (Warning.ignored_while_stopped (action_of control) d.cause) d)
      else act

  unfoldable pub handle_control : Environment F D → Control F → State F D → Option (State F D)
  handle_control env Control.stop d = some (enter_stopped env Cause.operator_stop d)
  handle_control env Control.reset d = some (reset env d)
  handle_control env (Control.save drawing name) d = save env drawing name d
  handle_control env (Control.load_recipe request) d = load_recipe env request d
  handle_control env Control.clear_recipe d = some (record d { loaded_recipe = none })
  handle_control env (Control.set_plane offset yaw) d = some (set_plane env offset yaw d)
  handle_control env (Control.execute drawing) d =
      when_running (Control.execute drawing) d (execute drawing d)
  handle_control env Control.execute_recipe d =
      when_running Control.execute_recipe d (some (execute_recipe d))
  handle_control env Control.park d = when_running Control.park d (some (park d))
  handle_control env (Control.mode target) d =
      when_running (Control.mode target) d (some (switch_mode env target d))
  handle_control env Control.unknown d = when_running Control.unknown d (some d)

  unfoldable pub on_control : Environment F D → Control F → State F D → Option (State F D)
  on_control env control d = do d' ← handle_control env control d; some (push_display d')
