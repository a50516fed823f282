-- ===== src/Dispatcher/Invariant/Always.antt =====
-- The invariant after any run of events.
use rmp_ros2_control.Prelude.{Bool, ◌≡◌, none, some, List, arith, Holds}
use rmp_ros2_control.Float.{Float}
use rmp_ros2_control.Linalg.{Coordinate}
use rmp_ros2_control.Dispatcher.{
  DispatcherConfig, Mode, Cause, RouteEvent, Environment, init, batch, executing, live,
}
use rmp_ros2_control.Dispatcher.{Dispatcher as State}
use rmp_ros2_control.Dispatcher.Startup.{check_startup}
use rmp_ros2_control.Dispatcher.Events.{
  follow_sample, live_sample, route_event, lose_input, Event, run,
}
use rmp_ros2_control.Dispatcher.Induction.{Keeps, run-Keeps}
use rmp_ros2_control.Dispatcher.Invariant.{
  Inv, handle_control-Inv, push_display-Inv, enter_stopped-Inv,
}

module _ {F D : Type 0} ⦃fl : Float F⦄ (env : Environment F D) where
  live_sample-Inv :
      (p : Coordinate F) (pen follows : Bool) (d : State F D)
      → Inv env d
      → Holds (Inv env) (live_sample env p pen follows d)
  unfolding live_sample follow_sample
  live_sample-Inv p pen follows d v = ground arith

  route_event-Inv :
      (event : RouteEvent) (d : State F D) → Inv env d → Inv env (route_event env event d)
  unfolding route_event
  route_event-Inv (RouteEvent.health ok message) d v =
      ground (arith, enter_stopped-Inv env (Cause.interface_lost message) d v)
  route_event-Inv (RouteEvent.result ok message) d v = ground arith
  route_event-Inv (RouteEvent.warning message) d v = ground arith
  route_event-Inv (RouteEvent.chain_failed message) d v = ground arith
  route_event-Inv RouteEvent.chain_drained d v = ground arith
  route_event-Inv RouteEvent.other_event d v = ground arith

  pub lose_input-Inv :
      (m : Mode) (d : State F D) → d.mode ≡ m → Inv env d → Holds (Inv env) (lose_input env m d)
  unfolding lose_input
  lose_input-Inv batch d e v = v
  lose_input-Inv executing d e v = enter_stopped-Inv env Cause.input_lost_executing d v
  lose_input-Inv live d e v = ground arith

  echo-Inv : (p : Coordinate F) (d : State F D) → Inv env d → Inv env (record d { echo = some p })
  echo-Inv p d v = ground arith

  pub Keeps-Inv : Keeps env (Inv env)
  Keeps-Inv = record {
    pushes = push_display-Inv env;
    echoes = echo-Inv;
    handles = handle_control-Inv env;
    samples = live_sample-Inv;
    routes = route_event-Inv;
    loses = lose_input-Inv;
  }

  -- From a configuration that passes the startup check, whatever events arrive and as long as no
  -- exception ends the thread: strokes are open only in Live with a stroke route and never while
  -- stopped, the arm follows only in Live, the working disc stays inside the reach band under every
  -- calibration adopted, and the drawing depth stays below the travel height.
  pub init-Inv :
      (config : DispatcherConfig F) (events : List (Event F))
      → check_startup config ≡ none
      → Holds (Inv env) (run env events (init config))
  unfolding check_startup init
  init-Inv config events h = run-Keeps env (Inv env) Keeps-Inv events (init config) (ground arith)
