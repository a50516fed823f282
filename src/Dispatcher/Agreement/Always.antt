-- ===== src/Dispatcher/Agreement/Always.antt =====
-- The agreement after any run of events.
use rmp_ros2_control.Prelude.{Bool, ◌≡◌, refl, some, List, arith, Bool-cases, inl, inr, Holds}
use rmp_ros2_control.Float.{Float}
use rmp_ros2_control.Linalg.{Coordinate}
use rmp_ros2_control.FileManager.{PlaneConfig}
use rmp_ros2_control.Dispatcher.{
  SaveName, DispatcherConfig, Mode, Cause, Control, RouteEvent, Environment, Drawing, is_batch,
  init, to_batch, to_live, batch, executing, live,
}
use rmp_ros2_control.Dispatcher.{Dispatcher as State}
use rmp_ros2_control.Dispatcher.Submission.{submitted_runs, execute, save}
use rmp_ros2_control.Dispatcher.Calibration.{park}
use rmp_ros2_control.Dispatcher.Recipes.{execute_recipe}
use rmp_ros2_control.Dispatcher.Modes.{switch_mode, reset}
use rmp_ros2_control.Dispatcher.Controls.{handle_control}
use rmp_ros2_control.Dispatcher.Events.{
  live_sample, follow_sample, route_event, lose_input, Event, run,
}
use rmp_ros2_control.Dispatcher.Induction.{Keeps, run-Keeps}
use rmp_ros2_control.Dispatcher.Agreement.{
  Agrees, LoaderAnchors, push_display-Agrees, submitted_runs-Agrees, execute_runs-Agrees,
  save_runs-Agrees, set_plane-Agrees, load_recipe-Agrees, enter_stopped-Agrees,
}

module _ {F D : Type 0} ⦃fl : Float F⦄ (env : Environment F D)
    (Anchored : PlaneConfig F → D → Type 0) (built : PlaneConfig F) where
  abbrev Q : State F D → Type 0
  Q = Agrees env Anchored built

  execute-Agrees : (drawing : Drawing F) (d : State F D) → Q d → Holds Q (execute drawing d)
  unfolding execute
  execute-Agrees drawing d v = elim (Bool-cases (is_batch d.mode)) [
    | inl e ↦ rw e (
        execute_runs-Agrees env Anchored built (submitted_runs drawing d).1 _
          (submitted_runs-Agrees env Anchored built drawing d v))
    | inr e ↦ rw e (ground arith)
  ]

  save-Agrees :
      (drawing : Drawing F) (name : SaveName) (d : State F D)
      → Q d
      → Holds Q (save env drawing name d)
  unfolding save
  save-Agrees drawing name d v =
      save_runs-Agrees env Anchored built name (submitted_runs drawing d).1 _
        (submitted_runs-Agrees env Anchored built drawing d v)

  handle_control-Agrees :
      (control : Control F) (d : State F D)
      → LoaderAnchors env Anchored
      → Q d
      → Holds Q (handle_control env control d)
  unfolding handle_control
  handle_control-Agrees Control.stop d anchors v =
      enter_stopped-Agrees env Anchored built Cause.operator_stop d v
  handle_control-Agrees Control.reset d anchors v = unfold reset in ground arith
  handle_control-Agrees Control.clear_recipe d anchors v = ground arith
  handle_control-Agrees Control.execute_recipe d anchors v = unfold execute_recipe in ground arith
  handle_control-Agrees Control.park d anchors v = unfold park in ground arith
  handle_control-Agrees Control.unknown d anchors v = ground arith
  handle_control-Agrees (Control.save drawing name) d anchors v = save-Agrees drawing name d v
  handle_control-Agrees (Control.load_recipe request) d anchors v =
      load_recipe-Agrees env Anchored built request d anchors v
  handle_control-Agrees (Control.set_plane offset yaw) d anchors v =
      set_plane-Agrees env Anchored built offset yaw d v
  handle_control-Agrees (Control.execute drawing) d anchors v =
      ground (arith, execute-Agrees drawing d v)
  handle_control-Agrees (Control.mode to_live) d anchors v = unfold switch_mode in ground arith
  handle_control-Agrees (Control.mode to_batch) d anchors v = unfold switch_mode in ground arith

  live_sample-Agrees :
      (p : Coordinate F) (pen follows : Bool) (d : State F D)
      → Q d
      → Holds Q (live_sample env p pen follows d)
  unfolding live_sample follow_sample
  live_sample-Agrees p pen follows d v = ground arith

  route_event-Agrees : (event : RouteEvent) (d : State F D) → Q d → Q (route_event env event d)
  unfolding route_event
  route_event-Agrees (RouteEvent.health ok message) d v =
      ground (arith, enter_stopped-Agrees env Anchored built (Cause.interface_lost message) d v)
  route_event-Agrees (RouteEvent.result ok message) d v = ground arith
  route_event-Agrees (RouteEvent.warning message) d v = ground arith
  route_event-Agrees (RouteEvent.chain_failed message) d v = ground arith
  route_event-Agrees RouteEvent.chain_drained d v = ground arith
  route_event-Agrees RouteEvent.other_event d v = ground arith

  lose_input-Agrees :
      (mode : Mode) (d : State F D) → d.mode ≡ mode → Q d → Holds Q (lose_input env mode d)
  unfolding lose_input
  lose_input-Agrees batch d e v = v
  lose_input-Agrees executing d e v =
      enter_stopped-Agrees env Anchored built Cause.input_lost_executing d v
  lose_input-Agrees live d e v = ground arith

  echo-Agrees : (p : Coordinate F) (d : State F D) → Q d → Q (record d { echo = some p })
  echo-Agrees p d v = ground arith

  Keeps-Agrees : LoaderAnchors env Anchored → Keeps env Q
  Keeps-Agrees anchors = record {
    pushes = push_display-Agrees env Anchored built;
    echoes = echo-Agrees;
    handles = λ control d. handle_control-Agrees control d anchors;
    samples = live_sample-Agrees;
    routes = route_event-Agrees;
    loses = lose_input-Agrees;
  }

module _ {F D : Type 0} ⦃fl : Float F⦄ (env : Environment F D)
    (Anchored : PlaneConfig F → D → Type 0) where
  -- Where the loader anchors what it loads at the plane it is given: after any run of events from
  -- the start, as long as no exception ends the thread, the live route, the stroke route if there is one, and the bridge hold the very plane
  -- of the dispatcher, and a recipe that is loaded is anchored at it.
  pub init-Agrees :
      (config : DispatcherConfig F) (events : List (Event F))
      → LoaderAnchors env Anchored
      → Holds (Agrees env Anchored config.plane) (run env events (init config))
  unfolding init
  init-Agrees config events anchors =
      run-Keeps env (Agrees env Anchored config.plane)
        (Keeps-Agrees env Anchored config.plane anchors) events (init config)
        (record { live_route = refl; stroke_route = inr refl; bridge = refl; recipe = tt })
